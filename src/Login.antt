-- ===== src/Login.antt =====
-- Accounts, src/login.c and include/login.h. What is typed at the prompt is an argument.
pub mod Accounts
mod Tests
use microkernel_os.Prelude.{
  ℕ, zero, suc, ◌+◌, ◌-◌, ◌*◌, ◌/◌, ◌%◌, ◌^◌, ◌≤◌, ◌<◌, ◌≡◌, ◌≢◌, ◌⊎◌, ◌↔◌, ◌∙◌, refl, sym, ap,
  fun_ext, Bool, true, false, not, ◌&&◌, ◌||◌, Option, none, some, List, [], ◌∷◌, ◌++◌, map, inl,
  inr, arith, ltb, leb, ◌==◌, if◌then◌else◌, Bool-cases, Option-cases, Table, update, first_from,
  count_from, for_range, IsFirst, first_from-IsFirst, first_from-none, first_from_eq,
  first_from_congr, count_from_congr, count_from-flip, count_from-le, count_from-lt_of_miss,
  count_from_all, for_range_inv, below_suc, length, get_or, take, drop, replicate, length-append,
  length-replicate, length-drop, lt→ltb, leb→le, ltb→lt, ==_iff, if-intro, option_case,
  option_case-intro,
}
use microkernel_os.CString.{strcmp, strcpy, strncpy, set_char}
use microkernel_os.CString.Names.{is_named}

abbrev pub max_users : ℕ
max_users = 8

abbrev pub user_name_len : ℕ
user_name_len = 16

-- An entry of `users`.
pub record User : Type 0 where
  pub name : List ℕ
  pub pass_hash : ℕ
  pub active : Bool
  pub is_admin : Bool

-- The static variables.
pub record Login : Type 0 where
  pub users : Table User
  pub current_user : List ℕ
  pub logged_in : Bool

-- The loop of `hash_pass`, on 32 bits.
pub hash_from : ℕ → List ℕ → ℕ
hash_from h [] = h
hash_from h (c ∷ s) =
    let rest = hash_from ((h * 2 ^ 5 % 2 ^ 32 + h + c) % 2 ^ 32) s in if c == 0 then h else rest

pub hash_pass : List ℕ → ℕ
hash_pass s = hash_from 5381 s

abbrev pub root_name : List ℕ
root_name = b'r' ∷ b'o' ∷ b'o' ∷ b't' ∷ []

abbrev user_name : List ℕ
user_name = b'u' ∷ b's' ∷ b'e' ∷ b'r' ∷ []

abbrev guest_name : List ℕ
guest_name = b'g' ∷ b'u' ∷ b'e' ∷ b's' ∷ b't' ∷ []

abbrev pub zero_user : User
zero_user = record {
  name = replicate user_name_len 0;
  pass_hash = 0;
  active = false;
  is_admin = false;
}

-- The account that `login_init` writes into an entry.
abbrev pub default_user : List ℕ → List ℕ → Bool → User
default_user name pass admin = record {
  name = strcpy (replicate user_name_len 0) name;
  pass_hash = hash_pass pass;
  active = true;
  is_admin = admin;
}

pub login_init : Login → Login
login_init l = record l {
  users =
      update
        (update (update (λ i. zero_user) 0 (default_user root_name root_name true)) 1
          (default_user user_name user_name false))
        2 (default_user guest_name [] false);
}

-- The entry with the name.
abbrev pub user_slot : Table User → List ℕ → Option ℕ
user_slot t user = first_from max_users 0 (λ i. is_named (t i).active (t i).name user)

abbrev pub free_user : Table User → Option ℕ
free_user t = first_from max_users 0 (λ i. not (t i).active)

pub login_authenticate : List ℕ → List ℕ → Login → Bool
login_authenticate user pass l =
    option_case
      (first_from max_users 0 (λ i.
        is_named (l.users i).active (l.users i).name user
        && (l.users i).pass_hash == hash_pass pass))
      false (λ i. true)

-- `login_prompt`: attempt `k` reads the name and the password `typed k`.
pub login_prompt : Table (List ℕ × List ℕ) → Login → Bool × Login
login_prompt typed l =
    option_case (first_from 3 0 (λ k. login_authenticate (typed k).0 (typed k).1 l)) (false, l)
      (λ k. (true, record l { current_user = strcpy l.current_user (typed k).0; logged_in = true }))

abbrev pub new_user : User → List ℕ → List ℕ → User
new_user e user pass = record {
  name = strncpy e.name user 15;
  pass_hash = hash_pass pass;
  active = true;
  is_admin = false;
}

pub login_add_user : List ℕ → List ℕ → Login → Bool × Login
login_add_user user pass l =
    option_case (user_slot l.users user)
      (option_case (free_user l.users) (false, l)
        (λ i. (true, record l { users = update l.users i (new_user (l.users i) user pass) })))
      (λ i. (false, l))

pub login_del_user : List ℕ → Login → Bool × Login
login_del_user user l =
    if strcmp user root_name == 0
    then (false, l)
    else option_case (user_slot l.users user) (false, l)
        (λ i.
          let e : User = l.users i in
          (true, record l { users = update l.users i (record e { active = false }) }))

pub login_change_pass : List ℕ → List ℕ → List ℕ → Login → Bool × Login
login_change_pass user old_pass new_pass l =
    option_case (user_slot l.users user) (false, l)
      (λ i.
        let e : User = l.users i in
        if e.pass_hash == hash_pass old_pass
        then (
          true,
          record l { users = update l.users i (record e { pass_hash = hash_pass new_pass }) },
        )
        else (false, l))

pub login_set_user : List ℕ → Login → Login
login_set_user user l = record l { current_user = strncpy l.current_user user 15; logged_in = true }

pub login_logout : Login → Login
login_logout l = record l { current_user = set_char l.current_user 0 0; logged_in = false }

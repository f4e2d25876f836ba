-- ===== src/Login/Tests.antt =====
-- The theorems on src/login.c at an empty table and at one account.
use microkernel_os.Prelude.{
  ℕ, zero, suc, ◌≡◌, ◌≢◌, ◌⊎◌, refl, true, false, List, [], ◌∷◌, ◌++◌, arith, Table, first_from,
  replicate,
}
use microkernel_os.CString.{text, IsBytes, strcmp}
use microkernel_os.CString.Names.{IsBuffer}
use microkernel_os.Login.{
  User, Login, zero_user, root_name, hash_pass, hash_from, login_authenticate, login_change_pass,
}
use microkernel_os.Login.Accounts.{IsUserName, IsHolder, login_change_pass_lem}

-- The account `root` with the password `root`, and a name.
abbrev root_only : Table User
root_only zero = record {
  name = root_name ++ replicate 12 0;
  pass_hash = hash_pass root_name;
  active = true;
  is_admin = true;
}
root_only (suc i) = zero_user

abbrev one : Login
one = record { users = root_only; current_user = replicate 16 0; logged_in = false }

abbrev ann : List ℕ
ann = b'a' ∷ b'n' ∷ b'n' ∷ []

one-IsBuffer : (i : ℕ) → IsBuffer 15 (one.users i).name
one-IsBuffer zero = record { bytes = omega arith; size = refl; ends = refl }
one-IsBuffer (suc i) = record { bytes = omega arith; size = refl; ends = refl }

ann-IsUserName : IsUserName ann
unfolding text
ann-IsUserName = record { bytes = omega arith; short = omega arith }

root_in : login_authenticate root_name root_name one ≡ true
unfolding login_authenticate first_from strcmp hash_pass hash_from
root_in = refl

login_change_pass_lem_example :
    (((login_change_pass root_name root_name ann one).0 ≡ false)
      × ((login_change_pass root_name root_name ann one).1 ≡ one)
      × ((i : ℕ) → IsHolder one root_name i → (one.users i).pass_hash ≢ hash_pass root_name))
    ⊎ (((login_change_pass root_name root_name ann one).0 ≡ true)
        × ((i : ℕ) × IsHolder one root_name i × ((one.users i).pass_hash ≡ hash_pass root_name))
        × (login_authenticate root_name root_name one ≡ true)
        × (login_authenticate root_name ann (login_change_pass root_name root_name ann one).1
            ≡ true)
        × ((other p : List ℕ)
            → IsBytes other
            → text other ≢ text root_name
            → login_authenticate other p (login_change_pass root_name root_name ann one).1
              ≡ login_authenticate other p one))
login_change_pass_lem_example =
    login_change_pass_lem one root_name root_name ann one-IsBuffer (omega arith)

-- ===== src/Login/Accounts.antt =====
-- Who can log in, src/login.c.
use microkernel_os.Prelude.{
  ℕ, ◌≤◌, ◌<◌, ◌≡◌, ◌≢◌, ◌⊎◌, ◌↔◌, ◌∙◌, refl, sym, ap, Bool, true, false, ◌&&◌, Option, some, List,
  inl, inr, arith, ◌==◌, Bool-cases, Option-cases, update, first_from, first_from-IsFirst,
  first_from-none, first_from_congr, length, if-intro, option_case, option_case-intro,
}
use microkernel_os.CString.{strcmp, text, IsBytes}
use microkernel_os.CString.Compare.{strcmp-eq-zero}
use microkernel_os.CString.Names.{
  is_named, is_named-same, is_named-apart, IsBuffer, strncpy-IsBuffer, text-strncpy_fits,
}
use microkernel_os.Login.{
  User, Login, max_users, root_name, hash_pass, user_slot, free_user, new_user, login_authenticate,
  login_add_user, login_del_user, login_change_pass,
}

-- The test of `login_authenticate` on an entry.
abbrev pub is_account : List ℕ → List ℕ → User → Bool
is_account user pass e = is_named e.active e.name user && e.pass_hash == hash_pass pass

-- A login succeeds exactly when some account has the name and the hash of the password.
pub login_authenticate_iff :
    (user pass : List ℕ) (l : Login)
    → (login_authenticate user pass l ≡ true)
      ↔ ((i : ℕ) × ((i < max_users) × (is_account user pass (l.users i) ≡ true)))
unfolding login_authenticate
login_authenticate_iff user pass l =
    elim (Option-cases (first_from max_users 0 (λ i. is_account user pass (l.users i)))) [
      | inl e ↦ rw e (
        λ h. absurd cc,
        λ h. absurd (
            ground (
              arith,
              first_from-none max_users 0 _ e h.0 (omega arith) (omega (arith, h.1.0)),
              h.1.1,
            )),
      )
      | inr (i, e) ↦
          let f = first_from-IsFirst max_users 0 i _ e in
          rw e (λ h. (i, (omega (arith, f.below), f.hit)), λ h. refl)
    ]

-- The name fields are buffers of 16 bytes that end with a NUL.
abbrev pub IsLogin : Login → Type 0
IsLogin l = (i : ℕ) → IsBuffer 15 (l.users i).name

pub record IsUserName (user : List ℕ) : Type 0 where
  pub bytes : IsBytes user
  pub short : length (text user) ≤ 15

-- An account that can be used now can be used behind a change of one entry that keeps it.
keep_account :
    (l : Login) (user pass : List ℕ) (i : ℕ) (e : User)
    → (is_account user pass (l.users i) ≡ true → is_account user pass e ≡ true)
    → login_authenticate user pass l ≡ true
    → login_authenticate user pass (record l { users = update l.users i e }) ≡ true
keep_account l user pass i e h ok =
    let (j, (lt, hit)) = (login_authenticate_iff user pass l).0 ok in
    (login_authenticate_iff user pass (record l { users = update l.users i e })).1
      (j, (lt, ground (arith, hit)))

-- `login_add_user` never takes an account away, and when it succeeds, the new account can log in with
-- its password.
pub login_add_user_lem :
    (l : Login) (user pass : List ℕ)
    → IsLogin l
    → IsUserName user
    → let (ok, l') = login_add_user user pass l in
      (ok ≡ true → login_authenticate user pass l' ≡ true)
      × ((u p : List ℕ) → login_authenticate u p l ≡ true → login_authenticate u p l' ≡ true)
      × IsLogin l'
unfolding login_add_user
login_add_user_lem l user pass v fits = elim (Option-cases (user_slot l.users user)) [
  | inr (i, e) ↦ rw e (λ h. absurd cc, λ u p h. h, v)
  | inl e ↦ elim (Option-cases (free_user l.users)) [
    | inl h ↦ rw (e, h) (λ h. absurd cc, λ u p h. h, v)
    | inr (i, h) ↦
        let f = first_from-IsFirst max_users 0 i _ h in
        let entry = new_user (l.users i) user pass in
        let buffer = strncpy-IsBuffer 15 (l.users i).name user (v i) fits.bytes in
        let held = text-strncpy_fits 15 (l.users i).name user (v i) fits.short in
        let named = is_named-same entry.name user buffer.bytes fits.bytes held in
        rw (e, h)
          (
            λ ok.
                (login_authenticate_iff user pass (record l { users = update l.users i entry })).1
                  (i, (omega (arith, f.below), ground (arith, named))),
            λ u p ok. keep_account l u p i entry (λ a. absurd (ground (arith, f.hit))) ok,
            λ j.
                if-intro (λ (u : User). IsBuffer 15 u.name) (i == j) entry (l.users j) (λ h. buffer)
                  (λ h. v j),
          )
  ]
]

-- `login_del_user` cannot take away an account of the name `root`, whatever name it is given.
pub login_del_user-root :
    (l : Login) (user pass : List ℕ)
    → IsLogin l
    → IsBytes user
    → login_authenticate root_name pass l ≡ true
    → login_authenticate root_name pass (login_del_user user l).1 ≡ true
unfolding login_del_user
login_del_user-root l user pass v bytes ok =
    if-intro (λ (r : Bool × Login). login_authenticate root_name pass r.1 ≡ true)
      (strcmp user root_name == 0) _ _ (λ e. ok)
      λ ne.
        option_case-intro (λ (r : Bool × Login). login_authenticate root_name pass r.1 ≡ true)
          (user_slot l.users user) _ _ (λ e. ok)
          λ i e. keep_account l root_name pass i _ (λ a. absurd (not_root i e a ne)) ok
  where
    root_bytes : IsBytes root_name
    root_bytes = omega arith

    not_root :
        (i : ℕ)
        → user_slot l.users user ≡ some i
        → is_account root_name pass (l.users i) ≡ true
        → (strcmp user root_name == 0) ≡ false
        → ⊥
    not_root i e a ne =
        let f = first_from-IsFirst max_users 0 i _ e in
        let here =
          (strcmp-eq-zero (l.users i).name user (v i).bytes bytes).0 (ground (arith, f.hit)) in
        let root =
          (strcmp-eq-zero (l.users i).name root_name (v i).bytes root_bytes).0
            (ground (arith, a)) in
        let zero = (strcmp-eq-zero user root_name bytes root_bytes).1 (sym here ∙ root) in
        ground arith

-- Replacing an entry by one that a login reads alike changes no login.
same_login :
    (l : Login) (user pass : List ℕ) (i : ℕ) (e : User)
    → is_account user pass e ≡ is_account user pass (l.users i)
    → login_authenticate user pass (record l { users = update l.users i e })
      ≡ login_authenticate user pass l
unfolding login_authenticate
same_login l user pass i e h =
    ap (λ (o : Option ℕ). option_case o false (λ k. true))
      (first_from_congr max_users 0 _ _ (λ j lo hi. ground (arith, h)))

-- Entry `i` is the first account with the name.
pub record IsHolder (l : Login) (user : List ℕ) (i : ℕ) : Type 0 where
  pub in_range : i < max_users
  pub has_name : is_named (l.users i).active (l.users i).name user ≡ true
  pub first : (j : ℕ) → j < i → is_named (l.users j).active (l.users j).name user ≡ false

holder_unique :
    (l : Login) (user : List ℕ) (i j : ℕ) → IsHolder l user i → IsHolder l user j → i ≡ j
holder_unique l user i j a b = elim (lt_cases i j) [
  | inl h ↦ absurd (ground (arith, b.first i h, a.has_name))
  | inr h ↦ elim h [ inl e ↦ e | inr g ↦ absurd (ground (arith, a.first j g, b.has_name)) ]
]
  where
    lt_cases : (i j : ℕ) → (i < j) ⊎ ((i ≡ j) ⊎ (j < i))
    lt_cases i j = omega arith

-- `login_change_pass` succeeds exactly when there is an account with the name and the first of these has the old
-- password's hash. When it fails, it changes nothing. When it succeeds, the old password could log in, the new one
-- can now, and every other name logs in with the same passwords as before. The name fields are NUL-terminated
-- buffers of 16 bytes, and the names consist of bytes.
pub login_change_pass_lem :
    (l : Login) (user old_pass new_pass : List ℕ)
    → IsLogin l
    → IsBytes user
    → let (ok, l') = login_change_pass user old_pass new_pass l in
      ((ok ≡ false)
        × (l' ≡ l)
        × ((i : ℕ) → IsHolder l user i → (l.users i).pass_hash ≢ hash_pass old_pass))
      ⊎ ((ok ≡ true)
          × ((i : ℕ) × IsHolder l user i × ((l.users i).pass_hash ≡ hash_pass old_pass))
          × (login_authenticate user old_pass l ≡ true)
          × (login_authenticate user new_pass l' ≡ true)
          × ((other p : List ℕ)
              → IsBytes other
              → text other ≢ text user
              → login_authenticate other p l' ≡ login_authenticate other p l))
unfolding login_change_pass
login_change_pass_lem l user old_pass new_pass v bytes =
    elim (Option-cases (user_slot l.users user)) [
      | inl e ↦ rw e (
          inl (
            refl,
            refl,
            λ i a. absurd (
                ground (
                  arith,
                  first_from-none max_users 0 _ e i (omega arith) (omega (arith, a.in_range)),
                  a.has_name,
                )),
          ))
      | inr (i, e) ↦
          let f = first_from-IsFirst max_users 0 i _ e in
          let holder : IsHolder l user i = record {
            in_range = omega (arith, f.below);
            has_name = ground (arith, f.hit);
            first = λ j lt. ground (arith, f.missed j);
          } in
          elim (Bool-cases ((l.users i).pass_hash == hash_pass old_pass)) [
            | inr h ↦
                rw (e, h)
                  (inl (
                    refl,
                    refl,
                    λ k a.
                        let same : k ≡ i = holder_unique l user k i a holder in
                        ground (arith, same, h),
                  ))
            | inl h ↦
                rw (e, h)
                  (inr (
                    refl,
                    (i, holder, ground (arith, h)),
                    (login_authenticate_iff user old_pass l).1
                        (i, (omega (arith, f.below), ground (arith, f.hit, h))),
                    (login_authenticate_iff user new_pass
                          (record l { users = update l.users i (changed i) })).1
                        (i, (omega (arith, f.below), ground (arith, f.hit))),
                    λ other p b ne.
                        let gone =
                          is_named-apart (l.users i).active (l.users i).name user other (v i).bytes
                            bytes b f.hit ne in
                        same_login l other p i (changed i) (ground (arith, gone)),
                  ))
          ]
    ]
  where
    changed : ℕ → User
    changed i = let e : User = l.users i in record e { pass_hash = hash_pass new_pass }

-- ===== src/Landscape/DefaultUser/Uid.antt =====
-- What createDefaultUser of windows-agent/internal/proservices/landscape/executor.go makes the default.
use ubuntu_pro_for_wsl.Prelude.{
  ℕ, ◌+◌, ◌*◌, ◌-◌, ◌^◌, ◌<◌, ◌≡◌, ◌≢◌, refl, ◌>>=◌, inl, inr, Bool, true, false, List, [], ◌∷◌,
  Option, none, some, Result, ok, err, ltb, arith, Bool-cases, Option-cases, is_nil,
}
use ubuntu_pro_for_wsl.Landscape.DefaultUser.{
  WindowsUser, UserError, from_command, invalid_username, DistroAnswers, is_digit, is_lower,
  are_user_codes, username_is_valid, last_part, user_name, trim_space, parse_digits, parse_uid,
  create_user, check_registered, check_username, run_command, read_uid, create_default_user,
}

user_name_lem : (username : List ℕ) → username_is_valid (user_name username) ≡ true
unfolding user_name username_is_valid are_user_codes is_lower is_digit
user_name_lem username = elim (Bool-cases (username_is_valid (last_part [] username))) [
  | inl v ↦ rw (v, user_name) v
  | inr v ↦ rw (v, user_name) refl
]

parse_digits_bound :
    (n : ℕ) (s : List ℕ) (m : ℕ) → n < 2 ^ 32 → parse_digits n s ≡ some m → m < 2 ^ 32
unfolding parse_digits
parse_digits_bound n [] m l h = ground (arith, h, l)
parse_digits_bound n (c ∷ s) m l h = elim (Bool-cases (is_digit c)) [
  | inr d ↦ absurd (ground (arith, h, d))
  | inl d ↦ elim (Bool-cases (ltb (n * 10 + (c - b'0')) (2 ^ 32))) [
    | inr b ↦ absurd (ground (arith, h, d, b))
    | inl b ↦
        parse_digits_bound (n * 10 + (c - b'0')) s m (ground (arith, b)) (ground (arith, h, d, b))
  ]
]

module _ {E : Type 0} where
  -- The result is an ID of 32 bits, or an error that is not of the name.
  abbrev pub IsSettled : Result (UserError E) ℕ → Type 0
  IsSettled (ok uid) = uid < 2 ^ 32
  IsSettled (err e) = e ≢ invalid_username

  -- No error of the name.
  Calm : Result (UserError E) (Unit {0}) → Type 0
  Calm (ok _) = Unit {0}
  Calm (err e) = e ≢ invalid_username

  bind-IsSettled :
      (r : Result (UserError E) (Unit {0})) (f : Unit {0} → Result (UserError E) ℕ)
      → Calm r
      → ((x : Unit {0}) → IsSettled (f x))
      → IsSettled (r >>= f)
  unfolding Calm
  bind-IsSettled (ok x) f c h = h x
  bind-IsSettled (err e) f c h = c

  run_command-Calm : (e : Option E) → Calm (run_command e)
  unfolding Calm run_command
  run_command-Calm none = tt
  run_command-Calm (some e) = λ q. cc q

  check_registered-Calm : (r : Result E Bool) → Calm (check_registered r)
  unfolding Calm check_registered
  check_registered-Calm (err e) = λ q. cc q
  check_registered-Calm (ok true) = tt
  check_registered-Calm (ok false) = λ q. cc q

module _ (E : Type 0) where
  check_username-Calm : (n : List ℕ) → username_is_valid n ≡ true → Calm {E = E} (check_username n)
  unfolding Calm check_username
  check_username-Calm n v = rw (v, check_username) tt

module _ {E : Type 0} where
  read_uid-IsSettled : (r : Result E (List ℕ)) → IsSettled (read_uid r)
  unfolding read_uid parse_uid
  read_uid-IsSettled (err e) = λ q. cc q
  read_uid-IsSettled (ok out) = elim (Option-cases (parse_uid (trim_space out))) [
    | inl n ↦ rw (n, read_uid) (λ q. cc q)
    | inr (uid, n) ↦
        rw (n, read_uid)
          (elim (Bool-cases (is_nil (trim_space out))) [
            | inl z ↦ absurd (ground (arith, n, z))
            | inr z ↦ parse_digits_bound 0 (trim_space out) uid (omega arith) (ground (arith, n, z))
          ])
  ]

  create_user-IsSettled :
      (a : DistroAnswers E) (n : List ℕ) → username_is_valid n ≡ true → IsSettled (create_user a n)
  unfolding create_user
  create_user-IsSettled a n v =
      bind-IsSettled (check_registered a.registered) _ (check_registered-Calm a.registered) (λ _.
        bind-IsSettled (check_username n) _ (check_username-Calm E n v) (λ _.
          bind-IsSettled (run_command a.add_user_error) _ (run_command-Calm a.add_user_error) (λ _.
            bind-IsSettled (run_command a.groups_error) _ (run_command-Calm a.groups_error) (λ _.
              bind-IsSettled (run_command a.password_error) _ (run_command-Calm a.password_error)
                (λ _. read_uid-IsSettled a.user_id)))))

  -- Whatever the name of the Windows user is and the distro answers, the ID that becomes the default one is below
  -- 2 ^ 32, and the name of the new user is never refused as not valid.
  pub create_default_user-IsSettled :
      (user : Result E WindowsUser) (a : DistroAnswers E) (set_default : ℕ → Option E)
      → IsSettled (create_default_user user a set_default)
  unfolding create_default_user run_command
  create_default_user-IsSettled (err e) a set_default = λ q. cc q
  create_default_user-IsSettled (ok user) a set_default =
      created (create_user a (user_name user.username))
        (create_user-IsSettled a (user_name user.username) (user_name_lem user.username))
    where
      created :
          (r : Result (UserError E) ℕ)
          → IsSettled r
          → IsSettled (elim r [
            | err e ↦ err e
            | ok uid ↦ elim (set_default uid) [ some e ↦ err (from_command e) | none ↦ ok uid ]
          ])
      created (err e) s = s
      created (ok uid) s = elim (Option-cases (set_default uid)) [
        | inl n ↦ rw n s
        | inr (e, n) ↦ rw n (λ q. cc q)
      ]

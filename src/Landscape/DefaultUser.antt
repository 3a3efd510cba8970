-- ===== src/Landscape/DefaultUser.antt =====
-- createDefaultUser of windows-agent/internal/proservices/landscape/executor.go, and CreateUser of its
-- package distroinstall. What the commands in the distro answer is an argument; a text is the list of
-- its code points, without marks of more than one byte in the output of a command.
pub mod Uid
use ubuntu_pro_for_wsl.Prelude.{
  ℕ, ◌+◌, ◌*◌, ◌-◌, ◌^◌, Bool, true, false, List, [], ◌∷◌, ◌++◌, Option, none, some, Result, ok,
  err, ◌>>=◌, if◌then◌else◌, ◌==◌, ltb, leb, ◌&&◌, ◌||◌, codes, is_nil, is_space,
}

-- user.User
pub record WindowsUser : Type 0 where
  pub username : List ℕ
  pub name : List ℕ

pub data UserError (E : Type 0) : Type 0 where
  from_command : E → UserError E
  not_registered : UserError E
  invalid_username : UserError E
  invalid_uid : List ℕ → UserError E

-- What the distro answers to the commands, in their order: whether it is registered, adduser, the
-- groups, the password, and the output of the command that prints the user's ID.
pub record DistroAnswers (E : Type 0) : Type 0 where
  pub registered : Result E Bool
  pub add_user_error : Option E
  pub groups_error : Option E
  pub password_error : Option E
  pub user_id : Result E (List ℕ)

unfoldable pub is_lower : ℕ → Bool
is_lower c = leb b'a' c && leb c b'z'

unfoldable pub is_digit : ℕ → Bool
is_digit c = leb b'0' c && leb c b'9'

-- [-a-z0-9_]*$
unfoldable pub are_user_codes : List ℕ → Bool
unfolding is_lower is_digit
are_user_codes [] = true
are_user_codes (c ∷ s) = (c == b'-' || is_lower c || is_digit c || c == b'_') && are_user_codes s

-- UsernameIsValid
unfoldable pub username_is_valid : List ℕ → Bool
unfolding are_user_codes is_lower
username_is_valid [] = false
username_is_valid (c ∷ s) = is_lower c && are_user_codes s

-- The last of the parts of strings.Split(s, "\\"), with the part that is being read.
unfoldable pub last_part : List ℕ → List ℕ → List ℕ
last_part part [] = part
last_part part (c ∷ s) =
    let part' = part ++ c ∷ [] in
    let next = last_part part' s in let rest = last_part [] s in if c == b'\\' then rest else next

unfoldable pub user_name : List ℕ → List ℕ
unfolding last_part
user_name username =
    let n = last_part [] username in if username_is_valid n then n else codes "ubuntu"

-- strings.TrimSpace
unfoldable pub trim_left : List ℕ → List ℕ
trim_left [] = []
trim_left (c ∷ s) = let rest = trim_left s in if is_space c then rest else c ∷ s

unfoldable pub trim_right : List ℕ → List ℕ
trim_right [] = []
trim_right (c ∷ s) = let rest = trim_right s in if is_space c && is_nil rest then [] else c ∷ rest

unfoldable pub trim_space : List ℕ → List ℕ
unfolding trim_left trim_right
trim_space s = trim_right (trim_left s)

-- The loop of strconv.ParseUint(s, 10, 32), over the digits that are left.
unfoldable pub parse_digits : ℕ → List ℕ → Option ℕ
unfolding is_digit
parse_digits n [] = some n
parse_digits n (c ∷ s) =
    let n' = n * 10 + (c - b'0') in
    let rest = parse_digits n' s in
    if is_digit c then (if ltb n' (2 ^ 32) then rest else none) else none

unfoldable pub parse_uid : List ℕ → Option ℕ
unfolding parse_digits
parse_uid s = if is_nil s then none else parse_digits 0 s

module _ {E : Type 0} where
  unfoldable pub run_command : Option E → Result (UserError E) (Unit {0})
  run_command none = ok tt
  run_command (some e) = err (from_command e)

  unfoldable pub check_registered : Result E Bool → Result (UserError E) (Unit {0})
  check_registered (err e) = err (from_command e)
  check_registered (ok true) = ok tt
  check_registered (ok false) = err not_registered

  unfoldable pub check_username : List ℕ → Result (UserError E) (Unit {0})
  check_username username = if username_is_valid username then ok tt else err invalid_username

  unfoldable pub read_uid : Result E (List ℕ) → Result (UserError E) ℕ
  read_uid (err e) = err (from_command e)
  read_uid (ok out) = elim (parse_uid (trim_space out)) [
    | none ↦ err (invalid_uid out)
    | some uid ↦ ok uid
  ]

  -- CreateUser. The full name goes to adduser, stripped of its punctuation.
  unfoldable pub create_user : DistroAnswers E → List ℕ → Result (UserError E) ℕ
  unfolding run_command check_registered check_username read_uid
  create_user a username = check_registered a.registered >>= λ _. check_username username >>= λ _.
      run_command a.add_user_error >>= λ _.
      run_command a.groups_error >>= λ _. run_command a.password_error >>= λ _. read_uid a.user_id

  -- createDefaultUser: the ID that becomes the default, once distro.DefaultUID has taken it.
  unfoldable pub create_default_user :
      Result E WindowsUser → DistroAnswers E → (ℕ → Option E) → Result (UserError E) ℕ
  unfolding run_command
  create_default_user (err e) a set_default = err (from_command e)
  create_default_user (ok user) a set_default = elim (create_user a (user_name user.username)) [
    | err e ↦ err e
    | ok uid ↦ elim (set_default uid) [ some e ↦ err (from_command e) | none ↦ ok uid ]
  ]

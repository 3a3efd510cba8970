-- ===== src/ProService/Networking.antt =====
-- wsl-pro-service/internal/system/networking.go: the address of the Windows host. What the command wslinfo
-- and the route file answer is an argument; a text is the list of its code points, an address its four
-- bytes.
pub mod Gateway
use ubuntu_pro_for_wsl.Prelude.{
  ℕ, ◌+◌, ◌*◌, ◌-◌, ◌/◌, ◌%◌, ◌^◌, Bool, true, false, List, [], ◌∷◌, Option, none, some, Result, ok,
  err, if◌then◌else◌, ltb, leb, ◌&&◌, codes, fields, same_codes, is_nil,
}
use ubuntu_pro_for_wsl.Landscape.DefaultUser.{trim_space}

pub data NetworkError (E : Type 0) : Type 0 where
  no_mode : E → NetworkError E
  not_opened : E → NetworkError E
  not_scanned : E → NetworkError E
  too_short too_few_fields not_hex : NetworkError E

-- The lines of the route file, and the error that ends the scan.
pub record Routes (E : Type 0) : Type 0 where
  pub lines : List (List ℕ)
  pub scan_error : Option E

-- The digits that strconv.ParseUint takes in base 16.
unfoldable pub hex_value : ℕ → Option ℕ
hex_value c =
    if leb b'0' c && leb c b'9'
    then some (c - b'0')
    else if leb b'a' c && leb c b'f'
    then some (c - b'a' + 10)
    else if leb b'A' c && leb c b'F'
    then some (c - b'A' + 10)
    else none

-- The loop of strconv.ParseUint(s, 16, 32), over the digits that are left.
unfoldable pub parse_hex : ℕ → List ℕ → Option ℕ
unfolding hex_value
parse_hex n [] = some n
parse_hex n (c ∷ s) = elim (hex_value c) [
  | none ↦ none
  | some v ↦
      let n' = n * 16 + v in let rest = parse_hex n' s in if ltb n' (2 ^ 32) then rest else none
]

unfoldable pub parse_uint_hex : List ℕ → Option ℕ
parse_uint_hex s = if is_nil s then none else parse_hex 0 s

-- binary.LittleEndian.PutUint32
unfoldable pub put_uint32 : ℕ → List ℕ
put_uint32 n = n % 256 ∷ n / 256 % 256 ∷ n / 65536 % 256 ∷ n / 16777216 % 256 ∷ []

module _ {E : Type 0} where
  unfoldable pub gateway_of : List (List ℕ) → Result (NetworkError E) (List ℕ)
  unfolding put_uint32 parse_uint_hex
  gateway_of (iface ∷ destination ∷ gateway ∷ fs) = elim (parse_uint_hex gateway) [
    | none ↦ err not_hex
    | some raw ↦ ok (put_uint32 raw)
  ]
  gateway_of [] = err too_few_fields
  gateway_of (iface ∷ []) = err too_few_fields
  gateway_of (iface ∷ destination ∷ []) = err too_few_fields

  too_short_or : Option E → Result (NetworkError E) (List ℕ)
  too_short_or none = err too_short
  too_short_or (some e) = err (not_scanned e)

  unfoldable pub first_row : Option E → List (List ℕ) → Result (NetworkError E) (List ℕ)
  unfolding too_short_or gateway_of
  first_row scan_error (header ∷ row ∷ rows) = gateway_of (fields row)
  first_row scan_error [] = too_short_or scan_error
  first_row scan_error (header ∷ []) = too_short_or scan_error

  unfoldable pub default_gateway : Result E (Routes E) → Result (NetworkError E) (List ℕ)
  unfolding first_row
  default_gateway (err e) = err (not_opened e)
  default_gateway (ok routes) = first_row routes.scan_error routes.lines

  -- WindowsHostAddress, with the output of wslinfo.
  unfoldable pub windows_host_address :
      Result E (List ℕ) → Result E (Routes E) → Result (NetworkError E) (List ℕ)
  windows_host_address (err e) routes = err (no_mode e)
  windows_host_address (ok mode) routes =
      if same_codes (trim_space mode) (codes "nat")
      then default_gateway routes
      else ok (127 ∷ 0 ∷ 0 ∷ 1 ∷ [])

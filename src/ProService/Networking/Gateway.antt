-- ===== src/ProService/Networking/Gateway.antt =====
-- How wsl-pro-service/internal/system/networking.go reads the route file.
use ubuntu_pro_for_wsl.Prelude.{
  ℕ, ◌+◌, ◌*◌, ◌-◌, ◌/◌, ◌%◌, ◌^◌, ◌<◌, ◌≡◌, ◌∙◌, ap, List, [], ◌∷◌, ◌++◌, Option, some, ok,
  if◌then◌else◌, ltb, arith, fields,
}
use ubuntu_pro_for_wsl.ProService.Networking.{
  hex_value, parse_hex, parse_uint_hex, put_uint32, gateway_of, first_row, default_gateway,
}

-- The kernel's digits are upper case.
abbrev pub digit : ℕ → ℕ
digit v = if ltb v 10 then v + b'0' else v - 10 + b'A'

-- A byte as two digits.
abbrev pub show_byte : ℕ → List ℕ
show_byte b = digit (b / 16) ∷ digit (b % 16) ∷ []

-- An address in the route file: the last byte comes first.
abbrev pub show_address : ℕ → ℕ → ℕ → ℕ → List ℕ
show_address a b c d = show_byte d ++ show_byte c ++ show_byte b ++ show_byte a

hex_value-digit : (v : ℕ) → v < 16 → hex_value (digit v) ≡ some v
unfolding hex_value
hex_value-digit v l = ground arith

parse_hex-digit :
    (n v : ℕ) (s : List ℕ)
    → v < 16
    → n < 2 ^ 28
    → parse_hex n (digit v ∷ s) ≡ parse_hex (n * 16 + v) s
unfolding parse_hex
parse_hex-digit n v s l m = rw (hex_value-digit v l, parse_hex) (ground (arith, l, m))

parse_hex-show_byte :
    (n b : ℕ) (s : List ℕ)
    → b < 256
    → n < 2 ^ 24
    → parse_hex n (show_byte b ++ s) ≡ parse_hex (n * 256 + b) s
parse_hex-show_byte n b s l m =
    parse_hex-digit n (b / 16) (digit (b % 16) ∷ s) (omega arith) (omega arith)
    ∙ parse_hex-digit (n * 16 + b / 16) (b % 16) s (omega arith) (omega arith)
    ∙ ap (λ x. parse_hex x s) (omega arith)

parse_hex-show_address :
    (a b c d : ℕ)
    → a < 256
    → b < 256
    → c < 256
    → d < 256
    → parse_uint_hex (show_address a b c d) ≡ some (((d * 256 + c) * 256 + b) * 256 + a)
unfolding parse_uint_hex parse_hex
parse_hex-show_address a b c d la lb lc ld =
    parse_hex-show_byte 0 d (show_byte c ++ show_byte b ++ show_byte a) ld (omega arith)
    ∙ ap (λ x. parse_hex x (show_byte c ++ show_byte b ++ show_byte a)) (omega arith)
    ∙ parse_hex-show_byte d c (show_byte b ++ show_byte a) lc (omega arith)
    ∙ parse_hex-show_byte (d * 256 + c) b (show_byte a) lb (omega arith)
    ∙ parse_hex-show_byte ((d * 256 + c) * 256 + b) a [] la (omega arith)

put_uint32_lem :
    (a b c d : ℕ)
    → a < 256
    → b < 256
    → c < 256
    → d < 256
    → put_uint32 (((d * 256 + c) * 256 + b) * 256 + a) ≡ a ∷ b ∷ c ∷ d ∷ []
unfolding put_uint32
put_uint32_lem a b c d la lb lc ld =
    let n : ℕ = ((d * 256 + c) * 256 + b) * 256 + a in
    let e0 : n % 256 ≡ a = omega arith in
    let e1 : n / 256 % 256 ≡ b = omega arith in
    let e2 : n / 65536 % 256 ≡ c = omega arith in
    let e3 : n / 16777216 % 256 ≡ d = omega arith in λ i. e0 i ∷ e1 i ∷ e2 i ∷ e3 i ∷ []

module _ {E : Type 0} where
  -- A route file whose second line has two more fields than the gateway before it gives the gateway,
  -- if that is the address as the kernel prints it, whatever the other fields and lines are.
  pub default_gateway-show_address :
      (header row : List ℕ) (rows fs : List (List ℕ)) (iface destination : List ℕ) (a b c d : ℕ)
      (e : Option E)
      → fields row ≡ iface ∷ destination ∷ show_address a b c d ∷ fs
      → a < 256
      → b < 256
      → c < 256
      → d < 256
      → default_gateway (ok (record { lines = header ∷ row ∷ rows; scan_error = e }))
        ≡ ok (a ∷ b ∷ c ∷ d ∷ [])
  unfolding default_gateway first_row gateway_of
  default_gateway-show_address header row rows fs iface destination a b c d e f la lb lc ld = rw f (
      rw (parse_hex-show_address a b c d la lb lc ld, gateway_of)
        (ap ok (put_uint32_lem a b c d la lb lc ld)))

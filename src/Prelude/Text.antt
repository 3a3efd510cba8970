-- ===== src/Prelude/Text.antt =====
-- Texts as lists of code points, where the program walks their characters.
use Prim.Native.Char.{code}
use Prim.Native.Nat.{ℕ}
use Prim.Native.String.{String}
use mathlib.Core.Path.{◌≡◌, refl}
use mathlib.Core.Bool.{Bool, true, false, ◌&&◌, ◌||◌, not}
use mathlib.Core.List.{List, [], ◌∷◌, ◌++◌}
use native.Mathlib.Omega.{arith}
use ubuntu_pro_for_wsl.Prelude.Tests.{leb, ◌==◌, if◌then◌else◌}

-- The code points of a text.
abbrev pub codes : String → List ℕ
codes String.[] = []
codes (String.◌∷◌ c s) = code c ∷ codes s

-- unicode.IsSpace
unfoldable pub is_space : ℕ → Bool
is_space c =
    c == 32
    || (leb 9 c && leb c 13)
    || c == 0x85
    || c == 0xa0
    || c == 0x1680
    || (leb 0x2000 c && leb c 0x200a)
    || c == 0x2028
    || c == 0x2029
    || c == 0x202f
    || c == 0x205f
    || c == 0x3000

abbrev pub is_nil : {A : Type 0} → List A → Bool
is_nil [] = true
is_nil (x ∷ xs) = false

-- The field that is being read, before the fields that follow it.
abbrev pub flush : List ℕ → List (List ℕ) → List (List ℕ)
flush [] fs = fs
flush (c ∷ w) fs = (c ∷ w) ∷ fs

-- strings.Fields, with the field that is being read.
unfoldable pub fields_from : List ℕ → List ℕ → List (List ℕ)
fields_from word [] = flush word []
fields_from word (c ∷ s) =
    let word' = word ++ c ∷ [] in
    let next = fields_from word' s in
    let rest = fields_from [] s in if is_space c then flush word rest else next

unfoldable pub fields : List ℕ → List (List ℕ)
unfolding fields_from
fields s = fields_from [] s

-- The equality of texts.
abbrev pub same_codes : List ℕ → List ℕ → Bool
same_codes [] [] = true
same_codes (a ∷ s) (b ∷ t) = a == b && same_codes s t
same_codes [] (b ∷ t) = false
same_codes (a ∷ s) [] = false

pub same_codes-≡ : (s t : List ℕ) → same_codes s t ≡ true → s ≡ t
same_codes-≡ [] [] h = refl
same_codes-≡ (a ∷ s) (b ∷ t) h = ground (arith, same_codes-≡ s t)
same_codes-≡ [] (b ∷ t) h = cc
same_codes-≡ (a ∷ s) [] h = cc

pub same_codes_self : (s : List ℕ) → same_codes s s ≡ true
same_codes_self [] = refl
same_codes_self (a ∷ s) = ground (arith, same_codes_self s)

-- No character is white space.
abbrev pub is_word : List ℕ → Bool
is_word [] = true
is_word (c ∷ s) = not (is_space c) && is_word s

-- ===== src/Landscape/Executor/Reserved.antt =====
-- The names that Install of windows-agent/internal/proservices/landscape/executor.go leaves to the
-- Microsoft Store. A name is the list of its code points, of ASCII.
use ubuntu_pro_for_wsl.Prelude.{
  ℕ, ◌+◌, Bool, true, false, List, [], ◌∷◌, if◌then◌else◌, ◌==◌, leb, ◌&&◌, ◌||◌, codes,
}
use ubuntu_pro_for_wsl.Landscape.DefaultUser.{is_digit}

lower : ℕ → ℕ
lower c = if leb b'A' c && leb c b'Z' then c + 32 else c

-- strings.EqualFold with a text of letters and dashes, on ASCII.
unfoldable pub equal_fold : List ℕ → List ℕ → Bool
unfolding lower
equal_fold [] [] = true
equal_fold (a ∷ s) (b ∷ t) = lower a == lower b && equal_fold s t
equal_fold [] (b ∷ t) = false
equal_fold (a ∷ s) [] = false

-- The rest of the regular expression, [0-9]{2}\.[0-9]{2}, at the start of a text.
unfoldable pub has_version : List ℕ → Bool
unfolding is_digit
has_version (a ∷ b ∷ dot ∷ c ∷ d ∷ s) =
    is_digit a && is_digit b && dot == b'.' && is_digit c && is_digit d
has_version _ = false

-- (?i)Ubuntu-[0-9]{2}\.[0-9]{2} at the start of a text.
unfoldable pub starts_reserved : List ℕ → List ℕ → Bool
unfolding lower has_version
starts_reserved [] s = has_version s
starts_reserved (p ∷ ps) [] = false
starts_reserved (p ∷ ps) (c ∷ s) = lower p == lower c && starts_reserved ps s

-- The regular expression is not anchored.
unfoldable pub matches_reserved : List ℕ → Bool
unfolding starts_reserved
matches_reserved [] = false
matches_reserved (c ∷ s) = starts_reserved (codes "Ubuntu-") (c ∷ s) || matches_reserved s

unfoldable pub is_reserved : List ℕ → Bool
unfolding equal_fold matches_reserved
is_reserved id =
    equal_fold id (codes "Ubuntu") || equal_fold id (codes "Ubuntu-Preview") || matches_reserved id

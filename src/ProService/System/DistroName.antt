-- ===== src/ProService/System/DistroName.antt =====
-- The name of the distro that WslDistroName of wsl-pro-service/internal/system/system.go finds.
use ubuntu_pro_for_wsl.Prelude.{
  ℕ, ◌≡◌, refl, sym, ap, ◌∙◌, false, List, [], ◌∷◌, ◌++◌, append_assoc, append-nil, none, some, ok,
  err, if◌then◌else◌, ◌&&◌, ◌==◌, any, arith, is_nil, is_space, get_elem?, Bool-cases, inl, inr,
}
use ubuntu_pro_for_wsl.Landscape.DefaultUser.{trim_left, trim_right, trim_space}
use ubuntu_pro_for_wsl.ProService.System.{
  no_name_in_path, Ran, run_command, split_from, Named, name_in_path, wsl_distro_name,
}

-- The backslash does not occur.
abbrev pub IsPart : List ℕ → Type 0
IsPart s = any (λ c. c == b'\\') s ≡ false

-- The Windows path of the root of a distro, as wslpath prints it, with a line feed.
abbrev pub root_path : List ℕ → List ℕ → List ℕ
root_path host name = b'\\' ∷ b'\\' ∷ (host ++ b'\\' ∷ name)

abbrev pub printed : List ℕ → List ℕ → List ℕ
printed host name = root_path host name ++ b'\\' ∷ 10 ∷ []

trim_right-printed : (s : List ℕ) → trim_right (s ++ b'\\' ∷ 10 ∷ []) ≡ s ++ b'\\' ∷ []
unfolding trim_right is_space
trim_right-printed [] = refl
trim_right-printed (c ∷ s) = rw (trim_right-printed s) (keeps c s)
  where
    keeps :
        (c : ℕ) (s : List ℕ)
        → (if is_space c && is_nil (s ++ b'\\' ∷ []) then [] else c ∷ (s ++ b'\\' ∷ []))
          ≡ c ∷ (s ++ b'\\' ∷ [])
    keeps c [] = ground arith
    keeps c (d ∷ s) = ground arith

-- Splitting reads on to the next separator.
split_from-part :
    (w part s : List ℕ)
    → IsPart w
    → split_from b'\\' part (w ++ b'\\' ∷ s) ≡ (part ++ w) ∷ split_from b'\\' [] s
unfolding split_from
split_from-part [] part s h = ap (λ p. p ∷ split_from b'\\' [] s) (sym (append-nil part))
split_from-part (c ∷ w) part s h = elim (Bool-cases (c == b'\\')) [
  | inl q ↦ absurd (ground (arith, h, q))
  | inr q ↦
      rw (q, split_from)
        (split_from-part w (part ++ c ∷ []) s (ground (arith, h))
          ∙ ap (λ p. p ∷ split_from b'\\' [] s) (append_assoc part (c ∷ []) w))
]

trim_space-printed :
    (host name : List ℕ) → trim_space (printed host name) ≡ root_path host name ++ b'\\' ∷ []
unfolding trim_space trim_left is_space
trim_space-printed host name = trim_right-printed (root_path host name)

root_path-split :
    (host name : List ℕ)
    → IsPart host
    → IsPart name
    → split_from b'\\' [] (root_path host name ++ b'\\' ∷ []) ≡ [] ∷ [] ∷ host ∷ name ∷ [] ∷ []
unfolding split_from
root_path-split host name h n =
    ap (λ s. [] ∷ [] ∷ split_from b'\\' [] s) (append_assoc host (b'\\' ∷ name) (b'\\' ∷ []))
    ∙ ap (λ s. [] ∷ [] ∷ s) (split_from-part host [] (name ++ b'\\' ∷ []) h)
    ∙ ap (λ s. [] ∷ [] ∷ host ∷ s) (split_from-part name [] [] n)

-- Without the environment variable and with an empty cache, WslDistroName finds the name of the distro
-- in the path of its root, which wslpath prints after a host and before a backslash and a line feed, if
-- neither the host nor the name has a backslash. A second call returns a name that is not empty,
-- whatever wslpath and the environment then say.
pub wsl_distro_name-root_path :
    {E : Type 0} (host name env : List ℕ) (later : Ran E)
    → IsPart host
    → IsPart name
    → let found : Named E =
        wsl_distro_name [] (record { stdout = printed host name; failure = none }) [] in
      (found ≡ (name, ok name))
      × (is_nil name ≡ false → wsl_distro_name env later found.0 ≡ (name, ok name))
unfolding wsl_distro_name run_command name_in_path
wsl_distro_name-root_path {E} host name env later h n = (first, λ k. rw first (rw k refl))
  where
    first :
        wsl_distro_name {E = E} [] (record { stdout = printed host name; failure = none }) []
        ≡ (name, ok name)
    first =
        rw (trim_space-printed host name, wsl_distro_name)
          (ap {B = Named E}
            (λ parts. elim (get_elem? parts 3) [
              | none ↦ ([], err no_name_in_path)
              | some name ↦ (name, ok name)
            ])
            (root_path-split host name h n))

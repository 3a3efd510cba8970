-- ===== src/ProService/System/Drives.antt =====
-- Where findCmdExe of wsl-pro-service/internal/system/system.go finds cmd.exe.
use ubuntu_pro_for_wsl.Prelude.{
  ℕ, ◌≡◌, refl, ap, Bool, true, false, List, [], ◌∷◌, ◌++◌, Option, none, some, fields, All,
  Bool-cases, Option-cases, inl, inr,
}
use ubuntu_pro_for_wsl.ProService.System.{drive_of, scan_mounts}

module _ (path : List ℕ → List ℕ) (exists : List ℕ → Bool) where
  -- A line of a Windows drive with cmd.exe at a path.
  abbrev pub HasCmdExe : List ℕ → List ℕ → Type 0
  HasCmdExe p line =
      (point : List ℕ) × (drive_of (fields line) ≡ some point)
      × (p ≡ path point)
      × (exists p ≡ true)

  abbrev pub LacksCmdExe : List ℕ → Type 0
  LacksCmdExe line =
      (point : List ℕ) → drive_of (fields line) ≡ some point → exists (path point) ≡ false

  -- What the scan finds in the lines.
  abbrev pub Scans : List (List ℕ) → Option (List ℕ) → Type 0
  Scans lines none = All LacksCmdExe lines
  Scans lines (some p) =
      (before after : List (List ℕ)) × (line : List ℕ) × (lines ≡ before ++ line ∷ after)
      × All LacksCmdExe before
      × HasCmdExe p line

  Scans-after :
      (line : List ℕ) (lines : List (List ℕ)) (o : Option (List ℕ))
      → LacksCmdExe line
      → Scans lines o
      → Scans (line ∷ lines) o
  Scans-after line lines none l h = (l, h)
  Scans-after line lines (some p) l (before, after, found, e, all, has) =
      (line ∷ before, after, found, ap (◌∷◌ line) e, (l, all), has)

  -- The scan of /proc/mounts gives the path of cmd.exe on the first line of a Windows drive that has
  -- it, and nothing just if no such line has it.
  pub scan_mounts-Scans : (lines : List (List ℕ)) → Scans lines (scan_mounts path exists lines)
  unfolding scan_mounts
  scan_mounts-Scans [] = tt
  scan_mounts-Scans (line ∷ lines) = elim (Option-cases (drive_of (fields line))) [
    | inl d ↦
        rw (d, scan_mounts)
          (Scans-after line lines (scan_mounts path exists lines) (λ point e. absurd (cc (d, e)))
            (scan_mounts-Scans lines))
    | inr (point, d) ↦ elim (Bool-cases (exists (path point))) [
      | inl x ↦
          rw (d, scan_mounts) (rw (x, scan_mounts) ([], lines, line, refl, tt, (point, d, refl, x)))
      | inr x ↦
          rw (d, scan_mounts)
            (rw (x, scan_mounts)
              (Scans-after line lines (scan_mounts path exists lines)
                (λ other e. lacks (cc (d, e)) x) (scan_mounts-Scans lines)))
    ]
  ]
    where
      lacks :
          {point other : List ℕ}
          → point ≡ other
          → exists (path point) ≡ false
          → exists (path other) ≡ false
      lacks {point} {other} e x = rw⁻¹ e x

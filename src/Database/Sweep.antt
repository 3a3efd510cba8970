-- ===== src/Database/Sweep.antt =====
-- What cleanup of windows-agent/internal/distros/database/database.go leaves.
use ubuntu_pro_for_wsl.Prelude.{
  ℕ, suc, ◌+◌, ◌≡◌, refl, ◌⊎◌, inl, inr, Bool, true, false, List, [], ◌∷◌, Option, none, some,
  String, Option-cases, arith, ap, sym, ◌∙◌, subst, All, map, ◌++◌, length, if◌then◌else◌,
}
use ubuntu_pro_for_wsl.Storage.{Faults}
use ubuntu_pro_for_wsl.Distro.{Distro, RegistryAnswer, inaccessible, is_valid}
use ubuntu_pro_for_wsl.Database.{
  DistroMap, DistroDb, DbCodec, Cleaned, sweep, finish_sweep, clean_up,
}
use ubuntu_pro_for_wsl.Database.Lookup.{
  is_valid-true, is_valid-false, is_valid-none, dump-distros, dump-discarded,
}

-- The registry cannot be read when cleanup asks about a distro.
abbrev pub Unreadable : (String → RegistryAnswer) → Type 0
Unreadable answers = (name : String) × (answers name ≡ inaccessible)

module _ {Bytes : Type 0} where
  abbrev pub AllMarked : Bool → DistroMap Bytes → Type 0
  AllMarked b ds = All (λ e. e.1.invalidated ≡ b) ds

  -- A distro stays just if it is valid, and every distro stays or is swept.
  abbrev Sweeps : Type 0 → ℕ → Option (DistroMap Bytes × List (String × Distro Bytes)) → Type 0
  Sweeps Cause n none = Cause
  Sweeps Cause n (some (kept, swept)) =
      AllMarked false kept × AllMarked true swept × (n ≡ length kept + length swept)

  sweep_one :
      (Cause : Type 0) (n : String) (count : ℕ) (v : Bool) (d : Distro Bytes)
      → ((v ≡ true) × (d.invalidated ≡ false)) ⊎ ((v ≡ false) × (d.invalidated ≡ true))
      → (rest : Option (DistroMap Bytes × List (String × Distro Bytes))) → Sweeps Cause count rest
      → Sweeps Cause (suc count) (elim rest [
        | none ↦ none
        | some (kept, swept) ↦ some (if v then ((n, d) ∷ kept, swept) else (kept, (n, d) ∷ swept))
      ])
  sweep_one Cause n count v d h none s = s
  sweep_one Cause n count true d (inl (_, h)) (some (kept, swept)) (k, w, e) =
      ((h, k), w, omega (arith, e))
  sweep_one Cause n count false d (inr (_, h)) (some (kept, swept)) (k, w, e) =
      (k, (h, w), omega (arith, e))
  sweep_one Cause n count true d (inr (f, h)) (some (kept, swept)) s = absurd (cc f)
  sweep_one Cause n count false d (inl (f, h)) (some (kept, swept)) s = absurd (cc f)

  is_valid-marked :
      (answer : RegistryAnswer) (d d' : Distro Bytes) (v : Bool)
      → is_valid answer d ≡ some (v, d')
      → ((v ≡ true) × (d'.invalidated ≡ false)) ⊎ ((v ≡ false) × (d'.invalidated ≡ true))
  is_valid-marked answer d d' true h =
      let (same, valid) = is_valid-true answer d d' h in
      inl (refl, ap (λ d. d.invalidated) same ∙ valid)
  is_valid-marked answer d d' false h = inr (refl, is_valid-false answer d d' h)

module _ {E Bytes DbBytes : Type 0} (db_codec : DbCodec E DbBytes) where
  sweep-Sweeps :
      (answers : String → RegistryAnswer) (ds : DistroMap Bytes)
      → Sweeps (Unreadable answers) (length ds) (sweep db_codec answers ds)
  unfolding sweep
  sweep-Sweeps answers [] = (tt, tt, refl)
  sweep-Sweeps answers ((n, d) ∷ ds) = elim (Option-cases (is_valid (answers n) d)) [
    | inl v ↦ rw (v, sweep) (n, is_valid-none (answers n) d v)
    | inr ((b, d'), v) ↦
        rw (v, sweep)
          (sweep_one _ n (length ds) b d' (is_valid-marked (answers n) d d' b v)
            (sweep db_codec answers ds) (sweep-Sweeps answers ds))
  ]

  -- What cleanup leaves, unless it panics: a database of `n` distros before it.
  abbrev pub CleansUp :
      Type 0 → ℕ → DistroDb Bytes DbBytes → Option (Cleaned E Bytes DbBytes) → Type 0
  CleansUp Cause n db none = Cause
  CleansUp Cause n db (some (db', names, e)) =
      AllMarked false db'.distros
      × ((swept : List (String × Distro Bytes)) × AllMarked true swept
          × (db'.discarded ≡ map (λ x. x.1) swept ++ db.discarded)
          × (names ≡ map (λ x. x.0) swept)
          × (n ≡ length db'.distros + length swept))

  finish_sweep-CleansUp :
      (Cause : Type 0) (io : Faults E DbBytes) (db : DistroDb Bytes DbBytes) (n : ℕ)
      (r : DistroMap Bytes × List (String × Distro Bytes))
      → Sweeps Cause n (some r)
      → CleansUp Cause n db (some (finish_sweep db_codec io db r))
  unfolding finish_sweep
  finish_sweep-CleansUp Cause io db n (kept, []) (k, w, e) = (k, ([], tt, refl, refl, e))
  finish_sweep-CleansUp Cause io db n (kept, s ∷ swept) (k, w, e) =
      let db' = record db {
        distros = kept;
        discarded = map (λ x. x.1) (s ∷ swept) ++ db.discarded;
      } in
      let same = dump-distros db_codec io db' in
      (
        subst (AllMarked false) (sym same) k,
        (
          s ∷ swept,
          w,
          dump-discarded db_codec io db',
          refl,
          e ∙ ap (λ ds. length ds + length (s ∷ swept)) (sym same),
        ),
      )

  -- Unless the registry cannot be read, cleanup leaves no distro that is marked as invalid, and
  -- every distro that it takes out is marked so: each distro of before stays or is taken out, and
  -- for those that are taken out onCleanup is called, and a goroutine cleans them up.
  pub clean_up-CleansUp :
      (io : Faults E DbBytes) (answers : String → RegistryAnswer) (db : DistroDb Bytes DbBytes)
      → CleansUp (Unreadable answers) (length db.distros) db (clean_up db_codec io answers db)
  unfolding clean_up
  clean_up-CleansUp io answers db =
      swept_or_not io (Unreadable answers) db (sweep db_codec answers db.distros)
        (sweep-Sweeps answers db.distros)
    where
      swept_or_not :
          (io : Faults E DbBytes) (Cause : Type 0) (db : DistroDb Bytes DbBytes)
          (r : Option (DistroMap Bytes × List (String × Distro Bytes)))
          → Sweeps Cause (length db.distros) r
          → CleansUp Cause
              (length db.distros)
              db
              (elim r [ none ↦ none | some swept ↦ some (finish_sweep db_codec io db swept) ])
      swept_or_not io Cause db none h = h
      swept_or_not io Cause db (some r) h =
          finish_sweep-CleansUp Cause io db (length db.distros) r h

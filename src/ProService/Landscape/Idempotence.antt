-- ===== src/ProService/Landscape/Idempotence.antt =====
-- A Landscape configuration that wsl-pro-service/internal/system/landscape.go has normalized.
use ubuntu_pro_for_wsl.Prelude.{
  ◌≡◌, refl, Bool, true, false, Option, none, some, Result, ok, err, ◌>>=◌, String, Option-cases,
  Result-cases, inl, inr,
}
use ubuntu_pro_for_wsl.ProService.Landscape.{
  ClientIni, ConfigFiles, EnableAnswers, normalize_doc, normalize_landscape_config, fix_and_enable,
  ensure_valid,
}
use ubuntu_pro_for_wsl.ProService.Landscape.Normal.{
  Settles, IsIni, normalize_doc-IsNormal, normalize_doc-normal,
}

module _ {E Doc Text : Type 0} (ini : ClientIni E Doc Text) (laws : IsIni ini) where
  abbrev IsLeft : Result E (Text × Bool) → Type 0
  IsLeft (ok (s, true)) = ⊥
  IsLeft _ = Unit {0}

  renormalized :
      (name : String) (translate : String → Result E String) (conf : Text) (d d' : Doc)
      → ini.parse conf ≡ ok d
      → normalize_doc ini (ok name) translate d ≡ ok (d', false)
      → (r : Result E Text) → ini.write d' ≡ r
      → (ini.parse conf >>= normalize_landscape_config ini (ok name) translate)
        ≡ (r >>= λ s. ok (s, false))
  unfolding normalize_landscape_config
  renormalized name translate conf d d' p again r w = rw p (rw again (rw w refl))

  -- If the ini package keeps keys and reads what it writes, and wslpath leaves the paths that it has made,
  -- a configuration that was normalized is valid for a distro of the same name: in whatever way
  -- EnsureValidLandscapeConfig ends on it, it writes no file and does not register the distro anew.
  pub ensure_valid-normalized :
      (a : EnableAnswers E Text) (read_error : Option E) (name : String)
      → a.name ≡ ok name
      → Settles a.translate
      → (doc : Doc) (conf : Text) (changed : Bool)
      → normalize_landscape_config ini a.name a.translate doc ≡ ok (conf, changed)
      → (tmp : Option Text)
      → let fs : ConfigFiles Text = record { final = some conf; tmp = tmp } in
        ((ensure_valid ini read_error a fs).0 ≡ fs) × ((ensure_valid ini read_error a fs).1 ≡ none)
  unfolding ensure_valid fix_and_enable normalize_landscape_config
  ensure_valid-normalized a read_error name n settles doc conf changed h tmp =
      elim (Result-cases (normalize_doc ini (ok name) a.translate doc)) [
        | inr (e, k) ↦ absurd (cc (h, n, k))
        | inl ((d, b), k) ↦
            let (normal, client) =
              normalize_doc-IsNormal ini laws name a.translate settles doc d b k in
            let (d', again) = normalize_doc-normal ini laws name a.translate d client normal in
            untouched (parsed d b k) d' again
      ]
    where
      parsed :
          (d : Doc) (b : Bool)
          → normalize_doc ini (ok name) a.translate doc ≡ ok (d, b)
          → ini.parse conf ≡ ok d
      parsed d b k = elim (Result-cases (ini.write d)) [
        | inr (e, w) ↦ absurd (cc (h, n, k, w))
        | inl (s, w) ↦ laws.reads d conf (cc (h, n, k, w))
      ]

      fs : ConfigFiles Text
      fs = record { final = some conf; tmp = tmp }

      -- Nothing is written after an error, or if nothing has changed.
      left :
          read_error ≡ none
          → (r : Result E (Text × Bool))
          → (ini.parse conf >>= normalize_landscape_config ini a.name a.translate) ≡ r
          → IsLeft r
          → ((ensure_valid ini read_error a fs).0 ≡ fs)
            × ((ensure_valid ini read_error a fs).1 ≡ none)
      left q (err e) k l = rw q (rw (k, fix_and_enable) (refl, refl))
      left q (ok (s, false)) k l = rw q (rw (k, fix_and_enable) (refl, refl))
      left q (ok (s, true)) k l = absurd l

      untouched :
          {d : Doc}
          → ini.parse conf ≡ ok d
          → (d' : Doc) → normalize_doc ini (ok name) a.translate d ≡ ok (d', false)
          → ((ensure_valid ini read_error a fs).0 ≡ fs)
            × ((ensure_valid ini read_error a fs).1 ≡ none)
      untouched {d} p d' again = elim (Option-cases read_error) [
        | inr (e, r) ↦ rw r (refl, refl)
        | inl r ↦ elim (Result-cases (ini.write d')) [
          | inr (e, w) ↦
              left r (err e) (rw n (renormalized name a.translate conf d d' p again (err e) w)) tt
          | inl (s, w) ↦
              left r (ok (s, false))
                (rw n (renormalized name a.translate conf d d' p again (ok s) w)) tt
        ]
      ]

-- ===== src/ProService/Landscape/Atomic.antt =====
-- What writeConfig of wsl-pro-service/internal/system/landscape.go leaves of the configuration.
use ubuntu_pro_for_wsl.Prelude.{
  ◌≡◌, refl, sym, subst, none, some, ok, err, Option-cases, ◌⊎◌, inl, inr,
}
use ubuntu_pro_for_wsl.ProService.Landscape.{
  ConfigFiles, WriteAnswers, Written, remove_tmp, settle_tmp, write_config,
}

-- What the files are, by the result.
abbrev pub Replaces :
    {E Text : Type 0} → WriteAnswers E Text → Text → ConfigFiles Text → Written E Text → Type 0
Replaces a conf fs (fs', ok _) = (fs'.final ≡ some conf) × (fs'.tmp ≡ none)
Replaces a conf fs (fs', err e) =
    (fs'.final ≡ fs.final)
    × (a.write_error ≡ none → a.remove_error ≡ none → (fs'.tmp ≡ none) ⊎ (fs' ≡ fs))

module _ {E Text : Type 0} (a : WriteAnswers E Text) (conf : Text) (fs : ConfigFiles Text) where
  remove_tmp-Replaces :
      (e : E) → Replaces a conf fs (remove_tmp a.remove_error e (record fs { tmp = some conf }))
  unfolding remove_tmp
  remove_tmp-Replaces e = elim (Option-cases a.remove_error) [
    | inl r ↦ rw r (refl, λ _ _. inl refl)
    | inr (x, r) ↦ rw r (refl, λ _ h. absurd (cc h))
  ]

  settle_tmp-Replaces : Replaces a conf fs (settle_tmp a conf (record fs { tmp = some conf }))
  unfolding settle_tmp
  settle_tmp-Replaces = elim (Option-cases a.chown_error) [
    | inr (e, c) ↦ rw (c, settle_tmp) (remove_tmp-Replaces e)
    | inl c ↦ elim (Option-cases a.rename_error) [
      | inr (e, r) ↦ rw (c, settle_tmp) (rw (r, settle_tmp) (remove_tmp-Replaces e))
      | inl r ↦ rw (c, settle_tmp) (rw (r, settle_tmp) (refl, refl))
    ]
  ]

  -- Without an error writeConfig leaves the new configuration and no temporary file. After an error the
  -- configuration is as it was; if neither writing nor removing the temporary file has failed, there
  -- is no temporary file, or nothing at all has changed.
  pub write_config-Replaces : Replaces a conf fs (write_config a conf fs)
  unfolding write_config
  write_config-Replaces = elim (Option-cases a.setup) [
    | inr (e, s) ↦ rw (s, write_config) (refl, λ _ _. inr refl)
    | inl s ↦ elim (Option-cases a.write_error) [
      | inr ((e, left), w) ↦
          rw (s, write_config) (rw (w, write_config) (refl, λ h _. absurd (cc (w, h))))
      | inl w ↦
          subst (Replaces a conf fs) (sym (rw (s, write_config) (rw (w, write_config) refl)))
            settle_tmp-Replaces
    ]
  ]

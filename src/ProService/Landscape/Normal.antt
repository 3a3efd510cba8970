-- ===== src/ProService/Landscape/Normal.antt =====
-- When a document of wsl-pro-service/internal/system/landscape.go needs no change, and that normalizing
-- makes it so.
use ubuntu_pro_for_wsl.Prelude.{
  ◌≡◌, refl, ◌∙◌, ap, Bool, true, false, none, some, Result, ok, String, str_eq, str_eq_refl,
  eq_iff, is_empty, Bool-cases, Option-cases, Result-cases, inl, inr,
}
use ubuntu_pro_for_wsl.ProService.Landscape.{
  ClientIni, refresh_title, override_ssl_certificate, normalize_doc,
}

-- A path that wslpath has made is left by it.
abbrev pub Settles : {E : Type 0} → (String → Result E String) → Type 0
Settles translate = (path linux : String) → translate path ≡ ok linux → translate linux ≡ ok linux

module _ {E Doc Text : Type 0} (ini : ClientIni E Doc Text) where
  -- A key that is made or set is there with its value, and the other keys are as they were; what is
  -- written is read back.
  pub record IsIni : Type 0 where
    pub set_same :
        (key value : String) (doc : Doc)
        → ini.get_key key (ini.set_value key value doc) ≡ some value
    pub set_other :
        (key other value : String) (doc : Doc)
        → str_eq key other ≡ false
        → ini.get_key other (ini.set_value key value doc) ≡ ini.get_key other doc
    pub new_same :
        (key value : String) (doc doc' : Doc)
        → ini.new_key key value doc ≡ ok doc'
        → ini.get_key key doc' ≡ some value
    pub set_client :
        (key value : String) (doc : Doc)
        → ini.get_client (ini.set_value key value doc) ≡ ini.get_client doc
    pub new_client :
        (key value : String) (doc doc' : Doc)
        → ini.new_key key value doc ≡ ok doc'
        → ini.get_client doc' ≡ ini.get_client doc
    pub reads : (doc : Doc) (s : Text) → ini.write doc ≡ ok s → ini.parse s ≡ ok doc

  -- A document that needs no change: its title is the name, and wslpath leaves its certificate.
  abbrev IsNormal : String → (String → Result E String) → Doc → Type 0
  IsNormal name translate doc =
      (ini.get_key "computer_title" doc ≡ some name)
      × ((path : String)
          → ini.get_key "ssl_public_key" doc ≡ some path
          → is_empty path ≡ false
          → translate path ≡ ok path)

module _ {E Doc Text : Type 0} (ini : ClientIni E Doc Text) (laws : IsIni ini) where
  refresh_title-titled :
      (name : String) (doc doc' : Doc) (b : Bool)
      → refresh_title ini name doc ≡ ok (doc', b)
      → (ini.get_key "computer_title" doc' ≡ some name) × (ini.get_client doc' ≡ ini.get_client doc)
  unfolding refresh_title
  refresh_title-titled name doc doc' b h = elim (Option-cases (ini.get_key "computer_title" doc)) [
    | inl k ↦ elim (Result-cases (ini.new_key "computer_title" name doc)) [
      | inr (e, n) ↦ absurd (cc (h, k, n))
      | inl (d, n) ↦ rw⁻¹ (made k n) (
        laws.new_same "computer_title" name doc d n,
        laws.new_client "computer_title" name doc d n,
      )
    ]
    | inr (old, k) ↦ elim (Bool-cases (str_eq old name)) [
      | inl q ↦ rw⁻¹ (same k q) (k ∙ ap some ((eq_iff old name).0 q), refl)
      | inr q ↦
          rw⁻¹ (set k q)
            (laws.set_same "computer_title" name doc, laws.set_client "computer_title" name doc)
    ]
  ]
    where
      made :
          {d : Doc}
          → ini.get_key "computer_title" doc ≡ none
          → ini.new_key "computer_title" name doc ≡ ok d
          → d ≡ doc'
      made k n = cc (h, k, n)

      same :
          {old : String}
          → ini.get_key "computer_title" doc ≡ some old
          → str_eq old name ≡ true
          → doc ≡ doc'
      same k q = cc (h, k, q)

      set :
          {old : String}
          → ini.get_key "computer_title" doc ≡ some old
          → str_eq old name ≡ false
          → ini.set_value "computer_title" name doc ≡ doc'
      set k q = cc (h, k, q)

  -- Overriding the certificate makes a titled document normal.
  Overridden : String → (String → Result E String) → Doc → Doc → Type 0
  Overridden name translate doc doc' =
      IsNormal ini name translate doc' × (ini.get_client doc' ≡ ini.get_client doc)

  override-Overridden :
      (name : String) (translate : String → Result E String)
      → Settles translate
      → (doc doc' : Doc) (b : Bool) → ini.get_key "computer_title" doc ≡ some name
      → override_ssl_certificate ini translate doc ≡ ok (doc', b)
      → Overridden name translate doc doc'
  unfolding override_ssl_certificate Overridden
  override-Overridden name translate settles doc doc' b t h =
      elim (Option-cases (ini.get_key "ssl_public_key" doc)) [
        | inl k ↦ rw⁻¹ (untouched_none k) ((t, λ path p. absurd (cc (k, p))), refl)
        | inr (windows, k) ↦ elim (Bool-cases (is_empty windows)) [
          | inl q ↦ rw⁻¹ (untouched k q) ((t, λ path p n. absurd (cc (k, p, q, n))), refl)
          | inr q ↦ elim (Result-cases (translate windows)) [
            | inr (e, x) ↦ absurd (cc (h, k, q, x))
            | inl (linux, x) ↦ rw⁻¹ (overrides k q x) (
              (
                laws.set_other "ssl_public_key" "computer_title" linux doc refl ∙ t,
                λ path p n.
                    same_path (settles windows linux x)
                      (cc (laws.set_same "ssl_public_key" linux doc, p)),
              ),
              laws.set_client "ssl_public_key" linux doc,
            )
          ]
        ]
      ]
    where
      untouched_none : ini.get_key "ssl_public_key" doc ≡ none → doc ≡ doc'
      untouched_none k = cc (h, k)

      untouched :
          {windows : String}
          → ini.get_key "ssl_public_key" doc ≡ some windows
          → is_empty windows ≡ true
          → doc ≡ doc'
      untouched k q = cc (h, k, q)

      overrides :
          {windows linux : String}
          → ini.get_key "ssl_public_key" doc ≡ some windows
          → is_empty windows ≡ false
          → translate windows ≡ ok linux
          → ini.set_value "ssl_public_key" linux doc ≡ doc'
      overrides k q x = cc (h, k, q, x)

      same_path :
          {linux path : String}
          → translate linux ≡ ok linux
          → linux ≡ path
          → translate path ≡ ok path
      same_path x e = rw⁻¹ e x

  refresh_title-normal :
      (name : String) (doc : Doc)
      → ini.get_key "computer_title" doc ≡ some name
      → refresh_title ini name doc ≡ ok (doc, false)
  unfolding refresh_title
  refresh_title-normal name doc t = rw (t, refresh_title) (rw (str_eq_refl name) refl)

  override-normal :
      (name : String) (translate : String → Result E String) (doc : Doc)
      → IsNormal ini name translate doc
      → (doc' : Doc) × (override_ssl_certificate ini translate doc ≡ ok (doc', false))
  unfolding override_ssl_certificate
  override-normal name translate doc (t, cert) =
      elim (Option-cases (ini.get_key "ssl_public_key" doc)) [
        | inl k ↦ (doc, rw (k, override_ssl_certificate) refl)
        | inr (path, k) ↦ elim (Bool-cases (is_empty path)) [
          | inl q ↦ (doc, rw (k, override_ssl_certificate) (rw (q, override_ssl_certificate) refl))
          | inr q ↦ (
            ini.set_value "ssl_public_key" path doc,
            rw (k, override_ssl_certificate)
                (rw (q, override_ssl_certificate)
                  (rw (cert path k q, override_ssl_certificate) (rw (str_eq_refl path) refl))),
          )
        ]
      ]

  -- A normal document is normalized without a change.
  pub normalize_doc-normal :
      (name : String) (translate : String → Result E String) (doc : Doc)
      → ini.get_client doc ≡ ok tt
      → IsNormal ini name translate doc
      → (doc' : Doc) × (normalize_doc ini (ok name) translate doc ≡ ok (doc', false))
  unfolding normalize_doc
  normalize_doc-normal name translate doc g n =
      let (doc', o) = override-normal name translate doc n in
      (doc', rw (g, refresh_title-normal name doc n.0) (rw o refl))

  -- A document that was normalized is normal, and still has its section.
  pub normalize_doc-IsNormal :
      (name : String) (translate : String → Result E String)
      → Settles translate
      → (doc doc' : Doc) (b : Bool) → normalize_doc ini (ok name) translate doc ≡ ok (doc', b)
      → IsNormal ini name translate doc' × (ini.get_client doc' ≡ ok tt)
  unfolding normalize_doc Overridden
  normalize_doc-IsNormal name translate settles doc doc' b h =
      elim (Result-cases (ini.get_client doc)) [
        | inr (e, g) ↦ absurd (cc (h, g))
        | inl (_, g) ↦ elim (Result-cases (refresh_title ini name doc)) [
          | inr (e, r) ↦ absurd (cc (h, g, r))
          | inl ((d1, b1), r) ↦ elim (Result-cases (override_ssl_certificate ini translate d1)) [
            | inr (e, o) ↦ absurd (cc (h, g, r, o))
            | inl ((d2, b2), o) ↦
                let (title, client) = refresh_title-titled name doc d1 b1 r in
                let (normal, client') =
                  override-Overridden name translate settles d1 d2 b2 title o in
                same_doc (cc (h, g, r, o)) normal (client' ∙ client ∙ g)
          ]
        ]
      ]
    where
      same_doc :
          {d2 : Doc}
          → d2 ≡ doc'
          → IsNormal ini name translate d2
          → ini.get_client d2 ≡ ok tt
          → IsNormal ini name translate doc' × (ini.get_client doc' ≡ ok tt)
      same_doc e n g = rw⁻¹ e (n, g)

-- ===== src/RegistryWatcher/Defaults.antt =====
-- setDefaultRegistry and createIfNotExist of windows-agent/internal/proservices/registrywatcher:
-- watcher.go.
use ubuntu_pro_for_wsl.Prelude.{
  ◌≡◌, refl, List, [], ◌∷◌, ◌++◌, Option, none, some, String, Option-cases, inl, inr,
}

-- The values of the two fields of the key; `none` is a field that does not exist.
pub record Fields : Type 0 where
  pub token : Option String
  pub landscape : Option String

pub data FieldName : Type 0 where
  token_field landscape_field : FieldName

unfoldable pub read_value : FieldName → Fields → Option String
read_value token_field k = k.token
read_value landscape_field k = k.landscape

unfoldable pub write_value : FieldName → String → Fields → Fields
write_value token_field v k = record k { token = some v }
write_value landscape_field v k = record k { landscape = some v }

-- What goes wrong with one field: ReadValue, for another reason than that there is none, and
-- WriteValue.
pub record FieldFaults (E : Type 0) : Type 0 where
  pub read_error : Option E
  pub write_error : Option E

module _ {E : Type 0} where
  -- The errors are a list of one or none.
  unfoldable pub create_if_not_exist : FieldFaults E → FieldName → Fields → Fields × List E
  create_if_not_exist io f k = elim io.read_error [
    | some e ↦ (k, e ∷ [])
    | none ↦ elim (read_value f k) [
      | some v ↦ (k, [])
      | none ↦ elim io.write_error [ some e ↦ (k, e ∷ []) | none ↦ (write_value f "" k, []) ]
    ]
  ]

  -- setDefaultRegistry, with the error of HKCUCreateKey.
  unfoldable pub set_default_registry :
      Option E → (FieldName → FieldFaults E) → Fields → Fields × List E
  set_default_registry (some e) io k = (k, e ∷ [])
  set_default_registry none io k =
      let (k', errors) = create_if_not_exist (io token_field) token_field k in
      let (k'', more) = create_if_not_exist (io landscape_field) landscape_field k' in
      (k'', errors ++ more)

-- Every value of before is kept.
abbrev pub Keeps : Fields → Fields → Type 0
Keeps k k' = (f : FieldName) (v : String) → read_value f k ≡ some v → read_value f k' ≡ some v

write_value-Keeps :
    (f : FieldName) (v : String) (k : Fields) → read_value f k ≡ none → Keeps k (write_value f v k)
unfolding read_value write_value
write_value-Keeps token_field v k h token_field w e = cc
write_value-Keeps token_field v k h landscape_field w e = e
write_value-Keeps landscape_field v k h token_field w e = e
write_value-Keeps landscape_field v k h landscape_field w e = cc

read_value-write_value :
    (f : FieldName) (v : String) (k : Fields) → read_value f (write_value f v k) ≡ some v
unfolding read_value write_value
read_value-write_value token_field v k = refl
read_value-write_value landscape_field v k = refl

abbrev pub IsThere : FieldName → Fields → Type 0
IsThere f k = (v : String) × (read_value f k ≡ some v)

both_fields :
    (k : Fields) → IsThere token_field k → IsThere landscape_field k → (f : FieldName) → IsThere f k
both_fields k a b token_field = a
both_fields k a b landscape_field = b

Keeps-IsThere : (f : FieldName) (k k' : Fields) → Keeps k k' → IsThere f k → IsThere f k'
Keeps-IsThere f k k' kept (v, e) = (v, kept f v e)

-- Every value of before is kept, and without an error the field is there.
abbrev Creates : {E : Type 0} → FieldName → Fields → Fields × List E → Type 0
Creates f k (k', errors) = Keeps k k' × (errors ≡ [] → IsThere f k')

module _ {E : Type 0} where
  create_if_not_exist-Creates :
      (io : FieldFaults E) (f : FieldName) (k : Fields) → Creates f k (create_if_not_exist io f k)
  unfolding create_if_not_exist
  create_if_not_exist-Creates io f k = elim (Option-cases io.read_error) [
    | inr (e, r) ↦ rw (r, create_if_not_exist) (λ g v h. h, λ h. absurd (cc h))
    | inl r ↦ elim (Option-cases (read_value f k)) [
      | inr (v, x) ↦
          rw (r, create_if_not_exist) (rw (x, create_if_not_exist) (λ g w h. h, λ h. (v, x)))
      | inl x ↦ elim (Option-cases io.write_error) [
        | inr (e, w) ↦
            rw (r, create_if_not_exist)
              (rw (x, create_if_not_exist)
                (rw (w, create_if_not_exist) (λ g v h. h, λ h. absurd (cc h))))
        | inl w ↦
            rw (r, create_if_not_exist)
              (rw (x, create_if_not_exist)
                (rw (w, create_if_not_exist)
                  (write_value-Keeps f "" k x, λ h. ("", read_value-write_value f "" k))))
      ]
    ]
  ]

  no_errors : (xs ys : List E) → xs ++ ys ≡ [] → (xs ≡ []) × (ys ≡ [])
  no_errors [] ys h = (refl, h)
  no_errors (x ∷ xs) ys h = absurd (cc h)

  -- setDefaultRegistry never changes a value that is there, whatever fails; and if it returns no
  -- error, then both fields are there.
  pub set_default_registry_lem :
      (created : Option E) (io : FieldName → FieldFaults E) (k : Fields)
      → let (k', errors) = set_default_registry created io k in
        Keeps k k' × (errors ≡ [] → (f : FieldName) → IsThere f k')
  unfolding set_default_registry
  set_default_registry_lem (some e) io k = (λ f v h. h, λ h. absurd (cc h))
  set_default_registry_lem none io k =
      let (k', errors) = create_if_not_exist (io token_field) token_field k in
      let (kept, there) = create_if_not_exist-Creates (io token_field) token_field k in
      let (kept', there') = create_if_not_exist-Creates (io landscape_field) landscape_field k' in
      (
        λ f v h. kept' f v (kept f v h),
        λ h.
            let (none_first, none_then) = no_errors errors _ h in
            both_fields _ (Keeps-IsThere token_field _ _ kept' (there none_first))
              (there' none_then),
      )

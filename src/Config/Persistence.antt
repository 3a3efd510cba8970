-- ===== src/Config/Persistence.antt =====
-- What the methods of windows-agent/internal/config/config.go leave in memory and in the file.
use ubuntu_pro_for_wsl.Prelude.{
  ◌≡◌, refl, inl, inr, Bool, Option, none, some, Result, ok, err, ◌>>=◌, String, str_eq, eq_iff,
  arith, Bool-cases, Result-cases, Option-cases, ap, ◌∙◌,
}
use ubuntu_pro_for_wsl.Config.{
  ConfigState, StoredConfig, ConfigCodec, Config, Io, Field, user_token, store_token,
  user_landscape, get_field, put_field, stored, loaded, read_file, load, write_file, dump, assign,
  set,
}

-- What is marshalled is unmarshalled as it was.
abbrev pub ReadsStored : {E Bytes : Type 0} → ConfigCodec E Bytes → Type 0
ReadsStored codec = (s : StoredConfig) (b : _) → codec.marshal s ≡ ok b → codec.unmarshal b ≡ ok s

-- A restart, or the next method, finds in the file what is in memory.
abbrev pub InSync : {E Bytes : Type 0} → ConfigCodec E Bytes → Config Bytes → Type 0
InSync {E} {Bytes} codec c = (io : Io E Bytes) → io.read_error ≡ none → load codec io c ≡ (c, ok tt)

loaded-stored : (s : ConfigState) → loaded (stored s) s ≡ s
unfolding loaded stored
loaded-stored s = refl

loaded-loaded : (r : StoredConfig) (s : ConfigState) → loaded r (loaded r s) ≡ loaded r s
unfolding loaded
loaded-loaded r s = refl

get-put : (f : Field) (v : String) (s : ConfigState) → get_field f (put_field f v s) ≡ v
unfolding get_field put_field
get-put user_token v s = refl
get-put store_token v s = refl
get-put user_landscape v s = refl

put-put-get :
    (f : Field) (v : String) (s : ConfigState) → put_field f (get_field f s) (put_field f v s) ≡ s
unfolding get_field put_field
put-put-get user_token v s = refl
put-put-get store_token v s = refl
put-put-get user_landscape v s = refl

module _ {E Bytes : Type 0} (codec : ConfigCodec E Bytes) where
  -- The file may be damaged by a failed dump, the memory is not touched.
  pub dump-state : (io : Io E Bytes) (c : Config Bytes) → (dump codec io c).0.state ≡ c.state
  unfolding dump write_file
  dump-state io c = ground arith

  pub dump_ok :
      (io : Io E Bytes) (c : Config Bytes)
      → (dump codec io c).1 ≡ ok tt
      → (b : Bytes) × (codec.marshal (stored c.state) ≡ ok b)
        × (dump codec io c ≡ (record c { file = some b }, ok tt))
  unfolding dump write_file
  dump_ok io c h = elim (Result-cases (codec.marshal (stored c.state))) [
    | inl (b, m) ↦ elim (Option-cases io.write_error) [
      | inl n ↦ (b, m, rw (m, n, dump, write_file) refl)
      | inr (x, n) ↦ absurd (ground (arith, h, m, n))
    ]
    | inr (x, m) ↦ absurd (ground (arith, h, m))
  ]

  pub load_reads :
      (io : Io E Bytes) (c : Config Bytes) (r : StoredConfig)
      → (read_file codec io.read_error c.file >>= codec.unmarshal) ≡ ok r
      → load codec io c ≡ (record c { state = loaded r c.state }, ok tt)
  unfolding load
  load_reads io c r h = rw (h, load) refl

  load_ok :
      (io : Io E Bytes) (c : Config Bytes)
      → (load codec io c).1 ≡ ok tt
      → (r : StoredConfig) × ((read_file codec io.read_error c.file >>= codec.unmarshal) ≡ ok r)
  unfolding load
  load_ok io c h = elim (Result-cases (read_file codec io.read_error c.file >>= codec.unmarshal)) [
    | inl x ↦ x
    | inr (x, m) ↦ absurd (ground (arith, h, m))
  ]

  read_again :
      (e : Option E) (file : Option Bytes) (r : StoredConfig)
      → (read_file codec e file >>= codec.unmarshal) ≡ ok r
      → (read_file codec none file >>= codec.unmarshal) ≡ ok r
  unfolding read_file
  read_again e none r h = h
  read_again none (some b) r h = h
  read_again (some x) (some b) r h = absurd (cc h)

  pub dump-InSync :
      ReadsStored codec
      → (io : Io E Bytes) (c : Config Bytes) → (dump codec io c).1 ≡ ok tt
      → InSync codec (dump codec io c).0
  unfolding read_file
  dump-InSync reads io c h io' e =
      let (b, m, d) = dump_ok io c h in
      rw (d) (
        load_reads io' (record c { file = some b }) (stored c.state)
          (rw (e, read_file) (reads (stored c.state) b m))
        ∙ ap (λ s. (record c { file = some b; state = s }, ok tt)) (loaded-stored c.state))

  pub load-InSync :
      (io : Io E Bytes) (c : Config Bytes)
      → (load codec io c).1 ≡ ok tt
      → InSync codec (load codec io c).0
  load-InSync io c h io' e =
      let (r, m) = load_ok io c h in
      rw (load_reads io c r m) (
        load_reads io' (record c { state = loaded r c.state }) r
          (rw (e) (read_again io.read_error c.file r m))
        ∙ ap (λ s. (record c { state = s }, ok tt)) (loaded-loaded r c.state))

-- What `set` and its last step leave: after no error, the value; after one, the state `s`.
abbrev pub Sets :
    {E Bytes : Type 0}
    → ConfigCodec E Bytes
    → Field
    → String
    → ConfigState
    → Config Bytes × Result E Bool
    → Type 0
Sets {E} codec field value s (c, r) =
    ((b : Bool) → r ≡ ok b → (get_field field c.state ≡ value) × InSync codec c)
    × ((e : E) → r ≡ err e → c.state ≡ s)

module _ {E Bytes : Type 0} (codec : ConfigCodec E Bytes) (reads : ReadsStored codec) where
  assign-Sets :
      (io : Io E Bytes) (field : Field) (value : String) (c : Config Bytes)
      → Sets codec field value c.state (assign codec io field value c)
  unfolding assign
  assign-Sets io field value c =
      let c' = record c { state = put_field field value c.state } in
      elim (Result-cases (dump codec io c').1) [
        | inl (_, d) ↦
            rw (d, assign)
              (
                λ b h. (
                  rw (dump-state codec io c') (get-put field value c.state),
                  dump-InSync codec reads io c' d,
                ),
                λ e h. absurd (cc h),
              )
        | inr (e, d) ↦
            rw (d, assign)
              (
                λ b h. absurd (cc h),
                λ e' h. rw (dump-state codec io c') (put-put-get field value c.state),
              )
      ]

  -- If `set` returns no error, whether the value changed or not, then the field has the value, and
  -- a restart reads from the file what is in memory. If it returns an error, whether of the read or
  -- of the write, then memory is as it was loaded.
  pub set-Sets :
      (io : Io E Bytes) (field : Field) (value : String) (c : Config Bytes)
      → Sets codec field value (load codec io c).0.state (set codec io field value c)
  unfolding set
  set-Sets io field value c = elim (Result-cases (load codec io c).1) [
    | inr (e, l) ↦ rw (l, set) (λ b h. absurd (cc h), λ e' h. refl)
    | inl (_, l) ↦ elim (Bool-cases (str_eq (get_field field (load codec io c).0.state) value)) [
      | inl q ↦
          rw (l, set)
            (rw (q, set)
              (λ b h. ((eq_iff _ _).0 q, load-InSync codec io c l), λ e h. absurd (cc h)))
      | inr q ↦ rw (l, set) (rw (q, set) (assign-Sets io field value (load codec io c).0))
    ]
  ]

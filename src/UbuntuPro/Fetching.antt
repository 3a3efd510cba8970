-- ===== src/UbuntuPro/Fetching.antt =====
-- What FetchFromMicrosoftStore of windows-agent/internal/ubuntupro/ubuntupro.go leaves.
use ubuntu_pro_for_wsl.Prelude.{
  ℕ, ◌≡◌, ◌≢◌, ◌<◌, none, Option-cases, refl, sym, subst, ◌∙◌, ◌≤◌, Bool, true, false, [], Result,
  ok, err, String, arith, ltb, ◌⊎◌, inl, inr, Bool-cases, Result-cases,
}
use ubuntu_pro_for_wsl.ConfigSource.{
  Source, source_none, source_user, source_microsoft_store, source_registry, rank,
  resolve_subscription,
}
use ubuntu_pro_for_wsl.Config.{
  ConfigCodec, Config, ConfigState, Io, store_token, get_field, Answer, Notification, load, get,
  set, notified, subscription, set_subscription, set_store_subscription,
}
use ubuntu_pro_for_wsl.Config.Persistence.{InSync, ReadsStored, Sets, set-Sets}
use ubuntu_pro_for_wsl.UbuntuPro.{
  StoreError, not_subscribed, from_store, FetchAnswers, Fetched, TokenAnswers, is_active,
  valid_subscription, new_pro_token, settle_token, renew_token, fetch_from_microsoft_store,
}

-- The contract server gives the token, for the access token and the JWT of the user.
abbrev pub IsContracted : {E : Type 0} → TokenAnswers E → String → Type 0
IsContracted a token =
    (a.url_error ≡ none)
    × ((access : String) × (jwt : String) × (a.access_token ≡ ok access)
        × (a.user_jwt access ≡ ok jwt)
        × (a.pro_token jwt ≡ ok token))

-- A new token is needed: the one that is there is not of the Store, or its subscription is none or over.
abbrev pub IsStale : {E : Type 0} → Source → ℕ → Result (StoreError E) ℕ → Type 0
IsStale source now expiration =
    (source ≢ source_microsoft_store)
    ⊎ ((expiration ≡ err not_subscribed) ⊎ ((x : ℕ) × (expiration ≡ ok x) × (x < now)))

-- A token was fetched, and is that of the Store in memory and after a restart; or nothing is notified.
abbrev pub Renews :
    {E Bytes : Type 0} → ConfigCodec E Bytes → FetchAnswers E Bytes → Fetched E Bytes → Type 0
Renews codec a (c, ok _, notes, asked) =
    (asked ≡ true)
    × ((token : String) × IsContracted a.tokens token
        × (c.state.subscription.store ≡ token)
        × InSync codec c)
Renews codec a (c, err e, notes, asked) = notes ≡ []

-- After no error: the subscription of the Store is active, and nothing was asked for or notified; or it
-- is not, and a token was fetched. After an error nothing is notified.
abbrev pub Fetches :
    {E Bytes : Type 0}
    → ConfigCodec E Bytes
    → FetchAnswers E Bytes
    → Config Bytes
    → Fetched E Bytes
    → Type 0
Fetches codec a c0 (c, ok u, notes, asked) =
    ((asked ≡ false)
      × (notes ≡ [])
      × ((resolve_subscription c.state.subscription).1 ≡ source_microsoft_store)
      × ((expiration : ℕ) × (a.expiration ≡ ok expiration) × (a.now ≤ expiration)))
    ⊎ (((token : String) × (source : Source) × ((subscription codec a.subscription_io c0).1
            ≡ ok (token, source))
          × IsStale source a.now a.expiration)
        × Renews codec a (c, ok u, notes, asked))
Fetches codec a c0 (c, err e, notes, asked) = notes ≡ []

module _ {E Bytes : Type 0} (codec : ConfigCodec E Bytes) (reads : ReadsStored codec) where
  -- What a `set` of the token of the Store leaves, once it is notified.
  Stores : String → Answer E Bytes (Unit {0}) → Type 0
  Stores token (c, ok _, notes) = (c.state.subscription.store ≡ token) × InSync codec c
  Stores token (c, err e, notes) = notes ≡ []

  notified-Stores :
      (token : String) (s : ConfigState) (note : Config Bytes → Notification)
      (x : Config Bytes × Result E Bool)
      → Sets codec store_token token s x
      → Stores token (notified note x)
  unfolding Stores notified get_field
  notified-Stores token s note (c, ok true) (h, _) = h true refl
  notified-Stores token s note (c, ok false) (h, _) = h false refl
  notified-Stores token s note (c, err e) h = refl

  set_store_subscription-Stores :
      (io io' : Io E Bytes) (token : String) (c : Config Bytes)
      → Stores token (set_store_subscription codec io io' token c)
  unfolding Stores set_store_subscription set_subscription
  set_store_subscription-Stores io io' token c =
      let (c', r) = get codec io c in
      elim (Result-cases r) [
        | inr (e, h) ↦ rw (h, set_subscription) refl
        | inl (s, h) ↦
            elim (Bool-cases
              (ltb (rank source_microsoft_store) (rank (resolve_subscription s.subscription).1))) [
                | inl q ↦ rw (h, set_subscription) (rw (q, set_subscription) refl)
                | inr q ↦
                    rw (h, set_subscription)
                      (rw (q, set_subscription)
                        (notified-Stores token (load codec io' c').0.state _
                          (set codec io' store_token token c')
                          (set-Sets codec reads io' store_token token c')))
              ]
      ]

  settled-Renews :
      (a : FetchAnswers E Bytes) (token : String) (x : Answer E Bytes (Unit {0}))
      → IsContracted a.tokens token
      → Stores token x
      → Renews codec a (settle_token codec x)
  unfolding Stores settle_token
  settled-Renews a token (c, ok _, notes) n s = (refl, (token, n, s.0, s.1))
  settled-Renews a token (c, err e, notes) n s = s

  new_pro_token-IsContracted :
      (a : TokenAnswers E) (token : String) → new_pro_token a ≡ ok token → IsContracted a token
  unfolding new_pro_token
  new_pro_token-IsContracted a token h = elim (Option-cases a.url_error) [
    | inr (e, u) ↦ absurd (cc (h, u))
    | inl u ↦ elim (Result-cases a.access_token) [
      | inr (e, k) ↦ absurd (cc (h, u, k))
      | inl (access, k) ↦ elim (Result-cases (a.user_jwt access)) [
        | inr (e, j) ↦ absurd (cc (h, u, k, j))
        | inl (jwt, j) ↦ (u, (access, jwt, k, j, cc (h, u, k, j)))
      ]
    ]
  ]

  renew_token-Renews :
      (a : FetchAnswers E Bytes) (c : Config Bytes) → Renews codec a (renew_token codec a c)
  unfolding renew_token
  renew_token-Renews a c = elim (Result-cases (new_pro_token a.tokens)) [
    | inr (e, n) ↦ rw (n, renew_token) refl
    | inl (token, n) ↦ subst (Renews codec a) (sym (rw (n, renew_token) refl)) (
        settled-Renews a token (set_store_subscription codec a.get_io a.set_io token c)
          (new_pro_token-IsContracted a.tokens token n)
          (set_store_subscription-Stores a.get_io a.set_io token c))
  ]

  -- The source that is returned is that of the configuration.
  subscription-source :
      (io : Io E Bytes) (c : Config Bytes) (token : String) (source : Source)
      → (subscription codec io c).1 ≡ ok (token, source)
      → (resolve_subscription (subscription codec io c).0.state.subscription).1 ≡ source
  unfolding subscription get
  subscription-source io c token source h = elim (Result-cases (load codec io c).1) [
    | inr (e, l) ↦ absurd (cc (h, l))
    | inl (_, l) ↦ cc (h, l)
  ]

is_active-store :
    {E : Type 0} (source : Source) (now : ℕ) (expiration : Result (StoreError E) ℕ)
    → is_active source now expiration ≡ ok true
    → (source ≡ source_microsoft_store) × ((x : ℕ) × (expiration ≡ ok x) × (now ≤ x))
unfolding is_active valid_subscription
is_active-store source_none now expiration h = absurd (cc h)
is_active-store source_user now expiration h = absurd (cc h)
is_active-store source_registry now expiration h = absurd (cc h)
is_active-store source_microsoft_store now (err not_subscribed) h = absurd (cc h)
is_active-store source_microsoft_store now (err (from_store e)) h = absurd (cc h)
is_active-store source_microsoft_store now (ok x) h = (refl, (x, refl, ground (arith, h)))

is_active-IsStale :
    {E : Type 0} (source : Source) (now : ℕ) (expiration : Result (StoreError E) ℕ)
    → is_active source now expiration ≡ ok false
    → IsStale source now expiration
unfolding is_active valid_subscription
is_active-IsStale source_none now expiration h = inl (λ q. cc q)
is_active-IsStale source_user now expiration h = inl (λ q. cc q)
is_active-IsStale source_registry now expiration h = inl (λ q. cc q)
is_active-IsStale source_microsoft_store now (err not_subscribed) h = inr (inl refl)
is_active-IsStale source_microsoft_store now (err (from_store e)) h = absurd (cc h)
is_active-IsStale source_microsoft_store now (ok x) h = inr (inr (x, refl, ground (arith, h)))

module _ {E Bytes : Type 0} (codec : ConfigCodec E Bytes) (reads : ReadsStored codec) where
  renewed-Fetches :
      (a : FetchAnswers E Bytes) (c0 : Config Bytes) (token : String) (source : Source)
      → (subscription codec a.subscription_io c0).1 ≡ ok (token, source)
      → IsStale source a.now a.expiration
      → (x : Fetched E Bytes) → Renews codec a x
      → Fetches codec a c0 x
  renewed-Fetches a c0 token source h k (c, ok _, notes, asked) r = inr ((token, source, h, k), r)
  renewed-Fetches a c0 token source h k (c, err e, notes, asked) r = r

  -- If FetchFromMicrosoftStore returns no error, then either the subscription comes from the Store and
  -- has not expired, and no token is asked for and nothing notified; or it does not, or has expired, and
  -- the token that the contract server gives, for the JWT of the user that the Store generates, is that
  -- of the Store, in memory and for a restart. If it returns an error, nothing is notified.
  pub fetch_from_microsoft_store-Fetches :
      (a : FetchAnswers E Bytes) (c : Config Bytes)
      → Fetches codec a c (fetch_from_microsoft_store codec a c)
  unfolding fetch_from_microsoft_store
  fetch_from_microsoft_store-Fetches a c =
      let (c', r) = subscription codec a.subscription_io c in
      elim (Result-cases r) [
        | inr (e, h) ↦ rw (h, fetch_from_microsoft_store) refl
        | inl ((token, source), h) ↦ elim (Result-cases (is_active source a.now a.expiration)) [
          | inr (e, k) ↦
              rw (h, fetch_from_microsoft_store) (rw (k, fetch_from_microsoft_store) refl)
          | inl (false, k) ↦
              subst (Fetches codec a c)
                (sym (rw (h, fetch_from_microsoft_store) (rw (k, fetch_from_microsoft_store) refl)))
                (renewed-Fetches a c token source h (is_active-IsStale source a.now a.expiration k)
                  (renew_token codec a c') (renew_token-Renews codec reads a c'))
          | inl (true, k) ↦
              let (s, expires) = is_active-store source a.now a.expiration k in
              rw (h, fetch_from_microsoft_store)
                (rw (k, fetch_from_microsoft_store)
                  (inl (
                    refl,
                    refl,
                    subscription-source codec reads a.subscription_io c token source h ∙ s,
                    expires,
                  )))
        ]
      ]

-- ===== src/ContractClient/Tokens.antt =====
-- Which tokens windows-agent/internal/ubuntupro/contractclient/client.go returns.
use ubuntu_pro_for_wsl.Prelude.{
  ℕ, ◌≤◌, ◌≡◌, refl, ◌⊎◌, inl, inr, ◌↔◌, Bool, true, false, List, [], ◌∷◌, ◌&&◌, Option, none, some,
  Result, ok, err, String, is_empty, ltb, ◌==◌, Bool-cases, Option-cases, Result-cases, arith, any,
  not, ap, ◌∙◌, subst,
}
use ubuntu_pro_for_wsl.ContractClient.{
  ℤ, pos, negsuc, Response, token_max_size, status_ok, ms_store_product_id, check_length,
  has_prefix, find_token, token_or_error, read_response, get_pro_token,
}

check_length-pos : (m : ℕ) → check_length (pos m) ≡ ok tt → (1 ≤ m) × (m ≤ token_max_size)
unfolding check_length
check_length-pos m h = elim (Bool-cases (m == 0)) [
  | inl z ↦ absurd (ground (arith, h, z))
  | inr z ↦ elim (Bool-cases (ltb token_max_size m)) [
    | inl b ↦ absurd (ground (arith, h, z, b))
    | inr b ↦ (ground arith, ground arith)
  ]
]

check_length-within : (m : ℕ) → 1 ≤ m → m ≤ token_max_size → check_length (pos m) ≡ ok tt
unfolding check_length
check_length-within m l u = ground arith

-- checkLength returns no error just for a length from 1 to the largest one.
pub check_length_iff :
    (n : ℤ) → (check_length n ≡ ok tt) ↔ ((m : ℕ) × (n ≡ pos m) × (1 ≤ m) × (m ≤ token_max_size))
unfolding check_length
check_length_iff (pos m) = (
  λ h. let (l, u) = check_length-pos m h in (m, refl, l, u),
  λ (k, e, l, u). ap check_length e ∙ check_length-within k l u,
)
check_length_iff (negsuc m) = (λ h. absurd (cc h), λ (k, e, _, _). absurd (cc e))

-- An entry with the product and a token.
abbrev pub entitles : String × String → Bool
entitles (product, token) = has_prefix product ms_store_product_id && not (is_empty token)

-- The token of one of the entries that entitle the user.
abbrev pub Entitled : String → List (String × String) → Type 0
Entitled token [] = ⊥
Entitled token (e ∷ es) = ((entitles e ≡ true) × (e.1 ≡ token)) ⊎ Entitled token es

abbrev pub Finds : List (String × String) → Option String → Type 0
Finds es none = any entitles es ≡ false
Finds es (some token) = Entitled token es

skipped :
    (product token : String) (es : List (String × String)) (found : Option String)
    → entitles (product, token) ≡ false
    → Finds es found
    → Finds ((product, token) ∷ es) found
skipped product token es none n h = rw (n) h
skipped product token es (some t) n h = inr h

find_token-Finds : (es : List (String × String)) → Finds es (find_token es)
unfolding find_token
find_token-Finds [] = refl
find_token-Finds ((product, token) ∷ es) =
    elim (Bool-cases (has_prefix product ms_store_product_id)) [
      | inr h ↦
          rw (h, find_token)
            (skipped product token es (find_token es) (rw h refl) (find_token-Finds es))
      | inl h ↦ elim (Bool-cases (is_empty token)) [
        | inl e ↦
            rw (h, find_token)
              (rw (e, find_token)
                (skipped product token es (find_token es) (rw (h, e) refl) (find_token-Finds es)))
        | inr e ↦ rw (h, find_token) (rw (e, find_token) (inl (rw (h, e) refl, refl)))
      ]
    ]

-- What the JSON of the server's answer holds, if the answer has a length in bounds and the status OK.
abbrev pub Delivers : {E : Type 0} → Result E (Response E) → List (String × String) → Type 0
Delivers {E} answer es =
    (res : Response E) × (answer ≡ ok res)
    × (check_length res.content_length ≡ ok tt)
    × (res.status_code ≡ status_ok)
    × (res.decoded ≡ ok es)

module _ {E : Type 0} where
  read_response-Delivers :
      (find : List (String × String) → Option String) (answer : Result E (Response E))
      (token : String)
      → (read_response find answer).0 ≡ ok token
      → (es : List (String × String)) × Delivers answer es × (find es ≡ some token)
  unfolding read_response token_or_error
  read_response-Delivers find (err e) token h = absurd (cc h)
  read_response-Delivers find (ok res) token h =
      elim (Result-cases (check_length res.content_length)) [
        | inr (e, l) ↦ absurd (ground (arith, h, l))
        | inl (_, l) ↦ elim (Bool-cases (res.status_code == status_ok)) [
          | inr s ↦ absurd (ground (arith, h, l, s))
          | inl s ↦ elim (Result-cases res.decoded) [
            | inr (e, d) ↦ absurd (ground (arith, h, l, s, d))
            | inl (es, d) ↦ elim (Option-cases (find es)) [
              | inl f ↦ absurd (ground (arith, h, l, s, d, f))
              | inr (t, f) ↦
                  (es, (res, refl, l, ground arith, d), f ∙ ap some (ground (arith, h, l, s, d, f)))
            ]
          ]
        ]
      ]

  Delivers-read_response :
      (find : List (String × String) → Option String) (answer : Result E (Response E))
      (es : List (String × String))
      → Delivers answer es
      → (token : String) → find es ≡ some token
      → (read_response find answer).0 ≡ ok token
  unfolding read_response token_or_error
  Delivers-read_response find answer es (res, a, l, s, d) token f = ground (arith, a, l, s, d, f)

  get_pro_token-within :
      (n : ℕ) (answer : Result E (Response E))
      → 1 ≤ n
      → n ≤ token_max_size
      → get_pro_token n answer ≡ read_response find_token answer
  unfolding get_pro_token
  get_pro_token-within n answer low high = rw (check_length-within n low high, get_pro_token) refl

  -- GetProToken returns a token only if the length of the user's JWT is in bounds, the answer of the
  -- server has a length in bounds and the status OK, and the token is that of an entry of it with
  -- the product of the store. And it does return one if there is an entry with the product and a
  -- token that is not empty, in whatever order the entries are visited.
  pub get_pro_token_lem :
      (n : ℕ) (answer : Result E (Response E))
      → ((token : String)
          → (get_pro_token n answer).0 ≡ ok token
          → (1 ≤ n)
            × (n ≤ token_max_size)
            × ((es : List (String × String)) × Delivers answer es × Entitled token es))
        × (1 ≤ n
            → n ≤ token_max_size
            → (es : List (String × String)) → Delivers answer es
            → any entitles es ≡ true
            → (token : String) × ((get_pro_token n answer).0 ≡ ok token))
  unfolding get_pro_token
  get_pro_token_lem n answer = (only, returned)
    where
      found :
          (es : List (String × String)) (token : String)
          → find_token es ≡ some token
          → Entitled token es
      found es token f = subst (Finds es) f (find_token-Finds es)

      only :
          (token : String)
          → (get_pro_token n answer).0 ≡ ok token
          → (1 ≤ n)
            × (n ≤ token_max_size)
            × ((es : List (String × String)) × Delivers answer es × Entitled token es)
      only token h = elim (Result-cases (check_length (pos n))) [
        | inr (e, l) ↦ absurd (ground (arith, h, l))
        | inl (_, l) ↦
            let (low, high) = check_length-pos n l in
            let (es, d, f) =
              read_response-Delivers find_token answer token
                (subst (λ p. p.0 ≡ ok token) (get_pro_token-within n answer low high) h) in
            (low, high, (es, d, found es token f))
      ]

      returned :
          1 ≤ n
          → n ≤ token_max_size
          → (es : List (String × String)) → Delivers answer es
          → any entitles es ≡ true
          → (token : String) × ((get_pro_token n answer).0 ≡ ok token)
      returned low high es d a = elim (Option-cases (find_token es)) [
        | inl f ↦ absurd (ground (arith, a, subst (Finds es) f (find_token-Finds es)))
        | inr (t, f) ↦ (
          t,
          rw (get_pro_token-within n answer low high)
              (Delivers-read_response find_token answer es d t f),
        )
      ]

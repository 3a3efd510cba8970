-- ===== src/ContractClient.antt =====
-- windows-agent/internal/ubuntupro/contractclient/client.go: what the agent makes of the answers of the
-- contract server. The HTTP client and the JSON decoder are arguments; the entries of a decoded map
-- are in the order in which the code visits them. A method also returns whether it leaves the body of
-- the response open.
pub mod Tokens
use ubuntu_pro_for_wsl.Prelude.{
  ℕ, suc, Bool, true, false, List, [], ◌∷◌, ◌&&◌, Option, none, some, Result, ok, err, String,
  str_eq, is_empty, ltb, ◌==◌, if◌then◌else◌,
}

-- int64: `pos n` is n, and `negsuc n` is - (n + 1), as the length of a body that is not known.
pub data ℤ : Type 0 where
  pos : ℕ → ℤ
  negsuc : ℕ → ℤ

pub data LengthError : Type 0 where
  negative_length : LengthError
  empty_token : LengthError
  too_big : LengthError

pub data ContractError (E : Type 0) : Type 0 where
  bad_length : LengthError → ContractError E
  not_done : E → ContractError E
  bad_status : ℕ → ContractError E
  not_decoded : E → ContractError E
  not_found : ContractError E

-- http.Response; `decoded` is what the JSON decoder makes of the body, as pairs of a key and a value.
pub record Response (E : Type 0) : Type 0 where
  pub content_length : ℤ
  pub status_code : ℕ
  pub decoded : Result E (List (String × String))

abbrev pub token_max_size : ℕ
token_max_size = 4096

abbrev pub status_ok : ℕ
status_ok = 200

abbrev pub ms_store_product_id : String
ms_store_product_id = "9P25B50XMKXT"

unfoldable pub check_length : ℤ → Result LengthError (Unit {0})
check_length (negsuc n) = err negative_length
check_length (pos n) =
    if n == 0 then err empty_token else (if ltb token_max_size n then err too_big else ok tt)

-- strings.HasPrefix, the prefix second.
unfoldable pub has_prefix : String → String → Bool
has_prefix s String.[] = true
has_prefix String.[] (String.◌∷◌ d p) = false
has_prefix (String.◌∷◌ c s) (String.◌∷◌ d p) =
    let rest = has_prefix s p in str_eq (String.◌∷◌ c String.[]) (String.◌∷◌ d String.[]) && rest

-- data[key]
unfoldable pub find_key : String → List (String × String) → Option String
find_key key [] = none
find_key key ((k, v) ∷ rest) =
    let found = find_key key rest in if str_eq k key then some v else found

-- The loop of GetProToken over the entitlements: a product, and its token.
unfoldable pub find_token : List (String × String) → Option String
unfolding has_prefix
find_token [] = none
find_token ((product, token) ∷ rest) =
    let found = find_token rest in
    if has_prefix product ms_store_product_id
    then (if is_empty token then found else some token)
    else found

module _ {E : Type 0} where
  -- What both methods do with a decoded body, with their own search of it.
  token_or_error :
      (List (String × String) → Option String)
      → Result E (List (String × String))
      → Result (ContractError E) String
  token_or_error find (err e) = err (not_decoded e)
  token_or_error find (ok entries) = elim (find entries) [
    | none ↦ err not_found
    | some token ↦ ok token
  ]

  -- What both methods do with the answer of the HTTP client. The body is closed by a deferred call
  -- after the check of the length.
  read_response :
      (List (String × String) → Option String)
      → Result E (Response E)
      → Result (ContractError E) String × Bool
  unfolding token_or_error
  read_response find (err e) = (err (not_done e), false)
  read_response find (ok res) = elim (check_length res.content_length) [
    | err e ↦ (err (bad_length e), true)
    | ok _ ↦ (
      if res.status_code == status_ok
          then token_or_error find res.decoded
          else err (bad_status res.status_code),
      false,
    )
  ]

  -- GetServerAccessToken
  unfoldable pub get_server_access_token :
      Result E (Response E) → Result (ContractError E) String × Bool
  unfolding read_response find_key
  get_server_access_token answer = read_response (find_key "azure_ad_token") answer

  -- GetProToken, with the length of the user's JWT in bytes.
  unfoldable pub get_pro_token : ℕ → Result E (Response E) → Result (ContractError E) String × Bool
  unfolding read_response find_token
  get_pro_token jwt_length answer = elim (check_length (pos jwt_length)) [
    | err e ↦ (err (bad_length e), false)
    | ok _ ↦ read_response find_token answer
  ]

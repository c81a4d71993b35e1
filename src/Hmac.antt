-- ===== src/Hmac.antt =====
-- The signatures of requests: client/src/utils.rs, client/src/middleware.rs and
-- client/src/middleware/axum.rs. The MAC and the hexadecimal code are calls of libraries, which are
-- parameters. A text is its bytes.
pub mod Message
pub mod Decimal
pub mod Validation
use kalatori.Common.Bytes.{
  Bytes, split_on, split_once, join_with, eq_bytes, leb_bytes, to_decimal, parse_u64,
}
use kalatori.Common.{
  ℕ, ◌-◌, Bool, true, false, Option, none, some, List, [], ◌∷◌, ◌++◌, map, Result, ok, err, panic,
  ltb, if◌then◌else◌, unwrap_or,
}

pub data Method : Type 0 where
  get post other : Method

pub record HmacConfig : Type 0 where
  pub secret_key : Bytes
  pub max_age_seconds : ℕ

-- The tag of a message under a key, and the code of the headers.
pub record Crypto : Type 0 where
  pub hmac : Bytes → Bytes → Bytes
  pub encode : Bytes → Bytes
  pub decode : Bytes → Option Bytes

-- `as_str`, which is used for the two methods that are signed.
abbrev pub method_name : Method → Bytes
method_name get = 71 ∷ 69 ∷ 84 ∷ []
method_name post = 80 ∷ 79 ∷ 83 ∷ 84 ∷ []
method_name other = []

-- The bytes that `calculate_hmac` feeds to the MAC.
abbrev pub message : Bytes → Bytes → Bytes → Bytes → Bytes
message method path query_or_body timestamp =
    method ++ 10 ∷ (path ++ 10 ∷ (query_or_body ++ 10 ∷ timestamp))

abbrev pub calculate_hmac : Crypto → Bytes → Bytes → Bytes → Bytes → Bytes → Bytes
calculate_hmac c secret_key method path query_or_body timestamp =
    c.hmac secret_key (message method path query_or_body timestamp)

-- `compute_webhook_signature`, which signs a body as it is.
abbrev compute_webhook_signature : Crypto → Bytes → Bytes → Bytes → Bytes → Bytes → Bytes
compute_webhook_signature c secret method path body timestamp =
    c.encode (calculate_hmac c secret method path body timestamp)

-- A stable sort of the pairs by their keys.
abbrev insert_pair : Bytes × Bytes → List (Bytes × Bytes) → List (Bytes × Bytes)
insert_pair p [] = p ∷ []
insert_pair p (q ∷ qs) =
    let rest = insert_pair p qs in if leb_bytes p.0 q.0 then p ∷ q ∷ qs else q ∷ rest

abbrev sort_pairs : List (Bytes × Bytes) → List (Bytes × Bytes)
sort_pairs [] = []
sort_pairs (p ∷ ps) = insert_pair p (sort_pairs ps)

unfoldable pub sorted_query_string : Bytes → Bytes
sorted_query_string query = join_with 38 (
    map (λ (p : Bytes × Bytes). p.0 ++ 61 ∷ p.1)
      (sort_pairs (map (split_once 61) (split_on 38 query))))

-- What is signed beside the path: the query of GET, the body of POST.
abbrev pub covered : Method → Option Bytes → Bytes → Option Bytes
covered get query body = some (sorted_query_string (unwrap_or query []))
covered post query body = some body
covered other query body = none

unfoldable pub hmac_from_request_parts :
    Crypto → HmacConfig → Method → Bytes → Option Bytes → Bytes → Bytes → Option Bytes
hmac_from_request_parts c config method path query body timestamp =
    elim (covered method query body) [
      | some text ↦
          some (calculate_hmac c config.secret_key (method_name method) path text timestamp)
      | none ↦ none
    ]

-- The two headers, which are missing when they are not visible ASCII.
pub record Headers : Type 0 where
  pub signature : Option Bytes
  pub timestamp : Option Bytes

-- The request of a client; a body that is streamed has no bytes.
pub record ClientRequest : Type 0 where
  pub method : Method
  pub path : Bytes
  pub query : Option Bytes
  pub body : Option Bytes

-- `timestamp_secs` is given; the client panics on a method that is not signed.
unfoldable pub add_headers_to_reqwest :
    Crypto → HmacConfig → ℕ → ClientRequest → Result (Unit {0}) Headers
add_headers_to_reqwest c config now r =
    let timestamp = to_decimal now in
    elim (hmac_from_request_parts c config r.method r.path r.query (unwrap_or r.body [])
      timestamp) [
        | some signature ↦
            ok (record { signature = some (c.encode signature); timestamp = some timestamp })
        | none ↦ panic
      ]

-- middleware

pub data HmacValidationError : Type 0 where
  missing_signature invalid_signature_format signature_mismatch : HmacValidationError
  missing_timestamp invalid_timestamp_format : HmacValidationError
  request_expired : ℕ → ℕ → HmacValidationError
  body_read_error method_not_allowed : HmacValidationError

-- An age of a time that is still to come is zero.
unfoldable pub validate_timestamp : ℕ → Bytes → ℕ → Result HmacValidationError (Unit {0})
validate_timestamp now timestamp max_age = elim (parse_u64 timestamp) [
  | none ↦ err invalid_timestamp_format
  | some time ↦
      if ltb max_age (now - time) then err (request_expired (now - time) max_age) else ok tt
]

unfoldable pub validate_timestamp_and_signature :
    HmacConfig → ℕ → Bytes → Bytes → Bytes → Result HmacValidationError (Unit {0})
validate_timestamp_and_signature config now tag timestamp expected =
    elim (validate_timestamp now timestamp config.max_age_seconds) [
      | ok _ ↦ if eq_bytes tag expected then ok tt else err signature_mismatch
      | err e ↦ err e
      | panic ↦ panic
    ]

unfoldable pub validate_request :
    Crypto
    → HmacConfig
    → ℕ
    → Bytes
    → Option Bytes
    → Method
    → Headers
    → Bytes
    → Result HmacValidationError (Unit {0})
validate_request c config now path query method headers body = elim headers.signature [
  | none ↦ err missing_signature
  | some signature_hex ↦ elim (c.decode signature_hex) [
    | none ↦ err invalid_signature_format
    | some expected ↦ elim headers.timestamp [
      | none ↦ err missing_timestamp
      | some timestamp ↦ elim (hmac_from_request_parts c config method path query body timestamp) [
        | none ↦ err method_not_allowed
        | some tag ↦ validate_timestamp_and_signature config now tag timestamp expected
      ]
    ]
  ]
]

-- The handler runs for a request that is validated; the body may be unreadable.
unfoldable pub axum_hmac_validator :
    Crypto
    → HmacConfig
    → ℕ
    → Bytes
    → Option Bytes
    → Method
    → Headers
    → Option Bytes
    → Result HmacValidationError (Unit {0})
axum_hmac_validator c config now path query method headers none = err body_read_error
axum_hmac_validator c config now path query method headers (some body) =
    validate_request c config now path query method headers body

-- ===== src/Tests/Requests.antt =====
-- A request of a shop, signed and checked.
use kalatori.Hmac.Validation.{
  Authentic, validate_request-Authentic, axum_hmac_validator-add_headers,
  validate_request-determines,
}
use kalatori.Hmac.{
  ClientRequest, Crypto, Headers, HmacConfig, Method, add_headers_to_reqwest, axum_hmac_validator,
  covered, hmac_from_request_parts, sorted_query_string, validate_request,
}
use kalatori.Common.Bytes.{Bytes, to_decimal, digits, parse_u64, parse_digits, split_on, split_once}
use kalatori.Common.{[], ◌∷◌, ◌++◌, ◌↔◌, ◌≡◌, refl, none, some, ok, arith}

abbrev crypto : Crypto
crypto = record { hmac = λ key text. key ++ text; encode = λ b. b; decode = some }

abbrev secret : HmacConfig
secret = record { secret_key = 7 ∷ 8 ∷ []; max_age_seconds = 60 }

-- `GET /a?b=1&a=2`, at second 100.
abbrev road : Bytes
road = 47 ∷ 97 ∷ []

abbrev asked : ClientRequest
asked = record {
  method = Method.get;
  path = road;
  query = some (98 ∷ 61 ∷ 49 ∷ 38 ∷ 97 ∷ 61 ∷ 50 ∷ []);
  body = none;
}

abbrev signed : Headers
signed = record {
  signature = some (
      7 ∷ 8 ∷ 71 ∷ 69 ∷ 84 ∷ 10 ∷ 47 ∷ 97 ∷ 10 ∷ 97 ∷ 61 ∷ 50 ∷ 38 ∷ 98 ∷ 61 ∷ 49 ∷ 10 ∷ 49 ∷ 48
      ∷ 48 ∷ []);
  timestamp = some (49 ∷ 48 ∷ 48 ∷ []);
}

axum_hmac_validator-add_headers_example :
    axum_hmac_validator crypto secret 130 road asked.query Method.get signed (some []) ≡ ok tt
unfolding add_headers_to_reqwest hmac_from_request_parts sorted_query_string to_decimal digits
    split_on split_once
axum_hmac_validator-add_headers_example =
    axum_hmac_validator-add_headers crypto secret 100 130 asked signed (λ _. refl) (omega arith)
      (omega arith) refl

validate_request-Authentic_example :
    (validate_request crypto secret 130 road asked.query Method.get signed [] ≡ ok tt)
    ↔ Authentic crypto secret 130 road asked.query Method.get signed []
validate_request-Authentic_example =
    validate_request-Authentic crypto secret 130 road asked.query Method.get signed []

-- The query in its sorted order is covered by the same signature.
vouched : Authentic crypto secret 130 road asked.query Method.get signed []
unfolding sorted_query_string split_on split_once parse_u64 parse_digits
vouched = record {
  text = 97 ∷ 61 ∷ 50 ∷ 38 ∷ 98 ∷ 61 ∷ 49 ∷ [];
  is_covered = refl;
  timestamp = 49 ∷ 48 ∷ 48 ∷ [];
  has_timestamp = refl;
  time = 100;
  is_time = refl;
  fresh = omega arith;
  signature = _;
  has_signature = refl;
  signed = refl;
}

abbrev reordered : Bytes
reordered = 97 ∷ 61 ∷ 50 ∷ 38 ∷ 98 ∷ 61 ∷ 49 ∷ []

vouched_too : Authentic crypto secret 150 road (some reordered) Method.get signed []
unfolding sorted_query_string split_on split_once parse_u64 parse_digits
vouched_too = record {
  text = reordered;
  is_covered = refl;
  timestamp = 49 ∷ 48 ∷ 48 ∷ [];
  has_timestamp = refl;
  time = 100;
  is_time = refl;
  fresh = omega arith;
  signature = _;
  has_signature = refl;
  signed = refl;
}

validate_request-determines_example :
    (Method.get ≡ Method.get)
    × (road ≡ road)
    × (signed.timestamp ≡ signed.timestamp)
    × (covered Method.get asked.query [] ≡ covered Method.get (some reordered) [])
unfolding vouched vouched_too
validate_request-determines_example =
    validate_request-determines crypto secret 130 150 road road asked.query (some reordered)
      Method.get Method.get signed signed [] [] vouched vouched_too refl refl refl

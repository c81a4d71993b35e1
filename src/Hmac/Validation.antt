-- ===== src/Hmac/Validation.antt =====
-- Which requests the middleware of client/src/middleware.rs lets through.
use kalatori.Hmac.Message.{first_line, last_line, plain_name, same_method}
use kalatori.Hmac.Decimal.{has_newline, parse_u64-no_newline, parse_u64-to_decimal}
use kalatori.Hmac.{
  Method, Headers, Crypto, HmacConfig, covered, message, method_name, ClientRequest,
  add_headers_to_reqwest, hmac_from_request_parts, validate_timestamp,
  validate_timestamp_and_signature, validate_request, axum_hmac_validator,
}
use kalatori.Common.Bytes.{
  Bytes, eq_bytes, eq_bytes-same, eq_bytes_refl, parse_u64, to_decimal, u64_max,
}
use kalatori.Common.{
  ℕ, ◌-◌, ◌≤◌, ◌≡◌, refl, sym, ap, ◌∙◌, inl, inr, ◌↔◌, false, Bool-cases, Option, Option-cases,
  some, [], ◌∷◌, ◌++◌, ok, err_ok, ok_inj, panic_ok, ltb, arith, unwrap_or,
}

-- A signature and a time stamp that vouch for a request: the time is not older than the
-- configuration allows, and the signature is the code of the MAC of the request with its time.
pub record Authentic (c : Crypto) (config : HmacConfig) (now : ℕ) (path : Bytes)
    (query : Option Bytes) (method : Method) (headers : Headers) (body : Bytes) : Type 0 where
  pub text : Bytes
  pub is_covered : covered method query body ≡ some text
  pub timestamp : Bytes
  pub has_timestamp : headers.timestamp ≡ some timestamp
  pub time : ℕ
  pub is_time : parse_u64 timestamp ≡ some time
  pub fresh : now - time ≤ config.max_age_seconds
  pub signature : Bytes
  pub has_signature : headers.signature ≡ some signature
  pub signed :
      c.decode signature
      ≡ some (c.hmac config.secret_key (message (method_name method) path text timestamp))

timestamp_checked :
    (config : HmacConfig) (now : ℕ) (tag timestamp expected : Bytes)
    → validate_timestamp_and_signature config now tag timestamp expected ≡ ok tt
    → (tag ≡ expected)
      × ((time : ℕ) × (parse_u64 timestamp ≡ some time) × (now - time ≤ config.max_age_seconds))
unfolding validate_timestamp_and_signature validate_timestamp
timestamp_checked config now tag timestamp expected e = elim (Option-cases (parse_u64 timestamp)) [
  | inl f ↦ absurd (err_ok (rw (f, validate_timestamp_and_signature) at e))
  | inr (time, f) ↦ elim (Bool-cases (ltb config.max_age_seconds (now - time))) [
    | inl old ↦ absurd (err_ok (rw (f, old, validate_timestamp_and_signature) at e))
    | inr fresh ↦ elim (Bool-cases (eq_bytes tag expected)) [
      | inl same ↦ (eq_bytes-same tag expected same, (time, f, young fresh))
      | inr differ ↦ absurd (err_ok (rw (f, fresh, differ, validate_timestamp_and_signature) at e))
    ]
  ]
]
  where
    young : {a b : ℕ} → ltb a b ≡ false → b ≤ a
    young h = ground arith

in_time :
    (config : HmacConfig) (now : ℕ) (tag timestamp : Bytes) (time : ℕ)
    → parse_u64 timestamp ≡ some time
    → now - time ≤ config.max_age_seconds
    → validate_timestamp_and_signature config now tag timestamp tag ≡ ok tt
unfolding validate_timestamp_and_signature validate_timestamp
in_time config now tag timestamp time read fresh =
    rw
      (
        read,
        young config.max_age_seconds (now - time) fresh,
        eq_bytes_refl tag,
        validate_timestamp_and_signature,
      )
      refl
  where
    young : (m age : ℕ) → age ≤ m → ltb m age ≡ false
    young m age h = ground arith

module _ (c : Crypto) (config : HmacConfig) (now : ℕ) (path : Bytes) (query : Option Bytes)
    (method : Method) (headers : Headers) (body : Bytes) where
  authentic :
      validate_request c config now path query method headers body ≡ ok tt
      → Authentic c config now path query method headers body
  unfolding validate_request hmac_from_request_parts
  authentic e = elim (Option-cases headers.signature) [
    | inl f ↦ absurd (err_ok (rw (f, validate_request) at e))
    | inr (hex, f) ↦ elim (Option-cases (c.decode hex)) [
      | inl g ↦ absurd (err_ok (rw (f, g, validate_request) at e))
      | inr (expected, g) ↦ elim (Option-cases headers.timestamp) [
        | inl h ↦ absurd (err_ok (rw (f, g, h, validate_request) at e))
        | inr (stamp, h) ↦ elim (Option-cases (covered method query body)) [
          | inl k ↦ absurd (err_ok (rw (f, g, h, k, validate_request) at e))
          | inr (text, k) ↦
              let (same, (time, read, young)) =
                timestamp_checked config now
                  (c.hmac config.secret_key (message (method_name method) path text stamp)) stamp
                  expected (rw (f, g, h, k, validate_request) at e) in
              record {
                text = text;
                is_covered = k;
                timestamp = stamp;
                has_timestamp = h;
                time = time;
                is_time = read;
                fresh = young;
                signature = hex;
                has_signature = f;
                signed = g ∙ ap some (sym same);
              }
        ]
      ]
    ]
  ]

  accepted :
      Authentic c config now path query method headers body
      → validate_request c config now path query method headers body ≡ ok tt
  unfolding validate_request hmac_from_request_parts
  accepted a =
      rw (a.has_signature, a.signed, a.has_timestamp, a.is_covered, validate_request)
        (in_time config now _ a.timestamp a.time a.is_time a.fresh)

  -- The middleware accepts a request exactly when its signature and its time stamp vouch for it.
  pub validate_request-Authentic :
      (validate_request c config now path query method headers body ≡ ok tt)
      ↔ Authentic c config now path query method headers body
  validate_request-Authentic = (authentic, accepted)

-- A request that the client has signed, with a code that the decoder reads back, is accepted as
-- long as it is not older than the configuration allows.
pub axum_hmac_validator-add_headers :
    (c : Crypto) (config : HmacConfig) (sent now : ℕ) (r : ClientRequest) (headers : Headers)
    → ((bytes : Bytes) → c.decode (c.encode bytes) ≡ some bytes)
    → sent ≤ u64_max
    → now - sent ≤ config.max_age_seconds
    → add_headers_to_reqwest c config sent r ≡ ok headers
    → axum_hmac_validator c config now r.path r.query r.method headers (some (unwrap_or r.body []))
      ≡ ok tt
unfolding axum_hmac_validator add_headers_to_reqwest hmac_from_request_parts
axum_hmac_validator-add_headers c config sent now r headers read_back fits fresh e =
    elim (Option-cases (covered r.method r.query (unwrap_or r.body []))) [
      | inl f ↦ absurd (panic_ok (rw (f, add_headers_to_reqwest) at e))
      | inr (text, f) ↦
          let tag =
            c.hmac config.secret_key
              (message (method_name r.method) r.path text (to_decimal sent)) in
          let same : ◌≡◌ {A = Headers}
              (record { signature = some (c.encode tag); timestamp = some (to_decimal sent) })
              headers =
            ok_inj (Unit {0}) (rw (f, add_headers_to_reqwest) at e) in
          accepted c config now r.path r.query r.method headers (unwrap_or r.body []) (record {
            text = text;
            is_covered = f;
            timestamp = to_decimal sent;
            has_timestamp = ap (λ (h : Headers). h.timestamp) (sym same);
            time = sent;
            is_time = parse_u64-to_decimal sent fits;
            fresh = fresh;
            signature = c.encode tag;
            has_signature = ap (λ (h : Headers). h.signature) (sym same);
            signed = read_back tag;
          })
    ]

-- Two accepted requests whose signatures are over one message have the same method, path, time
-- stamp, and body of POST or sorted query of GET, when their paths have no newline.
pub validate_request-determines :
    (c : Crypto) (config : HmacConfig) (now now' : ℕ) (path path' : Bytes)
    (query query' : Option Bytes) (method method' : Method) (headers headers' : Headers)
    (body body' : Bytes) (a : Authentic c config now path query method headers body)
    (b : Authentic c config now' path' query' method' headers' body')
    → has_newline path ≡ false
    → has_newline path' ≡ false
    → message (method_name method) path a.text a.timestamp
      ≡ message (method_name method') path' b.text b.timestamp
    → (method ≡ method')
      × (path ≡ path')
      × (headers.timestamp ≡ headers'.timestamp)
      × (covered method query body ≡ covered method' query' body')
validate_request-determines c config now now' path path' query query' method method' headers
      headers' body body' a b p p' e =
    let (name, rest) =
      first_line (method_name method) (path ++ 10 ∷ (a.text ++ 10 ∷ a.timestamp))
        (method_name method') (path' ++ 10 ∷ (b.text ++ 10 ∷ b.timestamp)) (plain_name method)
        (plain_name method') e in
    let (road, rest') =
      first_line path (a.text ++ 10 ∷ a.timestamp) path' (b.text ++ 10 ∷ b.timestamp) p p' rest in
    let (text, stamp) =
      last_line a.text a.timestamp b.text b.timestamp
        (parse_u64-no_newline a.timestamp a.time a.is_time)
        (parse_u64-no_newline b.timestamp b.time b.is_time) rest' in
    (
      same_method method method' a.text b.text body body' query query' a.is_covered b.is_covered
          name,
      road,
      a.has_timestamp ∙ ap some stamp ∙ sym b.has_timestamp,
      a.is_covered ∙ ap some text ∙ sym b.is_covered,
    )

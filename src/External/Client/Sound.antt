-- ===== src/External/Client/Sound.antt =====
-- About `submit_job` of src/boolean_maybe/external/client.py.
use boolean_maybe.Prelude.{
  ℕ, ◌≡◌, ◌⊎◌, inl, inr, refl, true, Option, some, arith, ◌||◌, ◌==◌, Bool-cases, Option-cases,
}
use boolean_maybe.Persistence.Rows.{Ident, Bytes}
use boolean_maybe.External.Literal
use boolean_maybe.External.Outcome.{success}
use boolean_maybe.External.Transport.{
  TransportResponse, TransportOutcome, response, connect_failed, failed, Json, boolean, Members,
  lookup, string_at, is_text, parse_json_object,
}
use boolean_maybe.External.Client.{
  classify_fields, classify_success, classify_submit_response, submit_job,
}

-- What a response must say for the submission to count as processed.
pub record Confirms (loads : Bytes → Option Json) (key digest : Ident) (status : ℕ)
    (remote_request_id : Ident) (o : TransportOutcome) : Type 0 where
  pub answer : TransportResponse
  pub body : Bytes
  pub fields : Members
  pub answered : o ≡ response answer
  pub in_bounds : answer.body ≡ some body
  pub parsed : parse_json_object loads body ≡ some fields
  pub of_status : answer.status ≡ status
  pub is_success : (status ≡ 200) ⊎ (status ≡ 201)
  pub replayed : lookup Literal.replayed fields ≡ some (boolean (status == 200))
  pub processed : is_text Literal.status Literal.processed fields ≡ true
  pub for_key : is_text Literal.idempotency_key key fields ≡ true
  pub for_digest : is_text Literal.payload_digest digest fields ≡ true
  pub identified : string_at Literal.remote_request_id fields ≡ some remote_request_id

-- What the fields must say.
record Fields (status : ℕ) (key digest remote_request_id : Ident) (fields : Members) : Type 0 where
  pub replayed : lookup Literal.replayed fields ≡ some (boolean (status == 200))
  pub processed : is_text Literal.status Literal.processed fields ≡ true
  pub for_key : is_text Literal.idempotency_key key fields ≡ true
  pub for_digest : is_text Literal.payload_digest digest fields ≡ true
  pub identified : string_at Literal.remote_request_id fields ≡ some remote_request_id

classify_fields-Fields :
    (n : ℕ) (key digest : Ident) (m : Members) (status : ℕ) (i : Ident)
    → (n ≡ 200) ⊎ (n ≡ 201)
    → classify_fields n key digest m ≡ success status i
    → (n ≡ status) × Fields status key digest i m
unfolding classify_fields
classify_fields-Fields n key digest m status i good h =
    elim (Option-cases (lookup Literal.replayed m)) [
      | inl e ↦ absurd (ground arith)
      | inr (value, e) ↦ elim (Option-cases (string_at Literal.remote_request_id m)) [
        | inl missing ↦ absurd (ground arith)
        | inr (id, found) ↦ (
          ground arith,
          record {
            replayed = ground arith;
            processed = ground arith;
            for_key = ground arith;
            for_digest = ground arith;
            identified = ground arith;
          },
        )
      ]
    ]

-- The response's part.
record ConfirmedBy (loads : Bytes → Option Json) (key digest : Ident) (status : ℕ)
    (remote_request_id : Ident) (r : TransportResponse) : Type 0 where
  pub body : Bytes
  pub fields : Members
  pub in_bounds : r.body ≡ some body
  pub parsed : parse_json_object loads body ≡ some fields
  pub of_status : r.status ≡ status
  pub shown : Fields status key digest remote_request_id fields

classify_success-ConfirmedBy :
    (loads : Bytes → Option Json) (r : TransportResponse) (key digest : Ident) (status : ℕ)
    (i : Ident)
    → (r.status ≡ 200) ⊎ (r.status ≡ 201)
    → classify_success loads r key digest ≡ success status i
    → ConfirmedBy loads key digest status i r
unfolding classify_success
classify_success-ConfirmedBy loads r key digest status i good h = elim (Option-cases r.body) [
  | inl e ↦ absurd (ground arith)
  | inr (body, e) ↦ elim (Option-cases (parse_json_object loads body)) [
    | inl missing ↦ absurd (ground arith)
    | inr (m, found) ↦
        let (same, shown) =
          classify_fields-Fields r.status key digest m status i good (ground arith) in
        record {
          body = body;
          fields = m;
          in_bounds = e;
          parsed = found;
          of_status = same;
          shown = shown;
        }
  ]
]

either_status : (n : ℕ) → (n == 200 || n == 201) ≡ true → (n ≡ 200) ⊎ (n ≡ 201)
either_status n h = ground arith

-- The client reports a success only of a response with a status of 200 or 201 whose body, read in
-- full, says that this key and this digest were processed, under that remote id, and that it is a
-- replay exactly under a status of 200.
pub submit_job-Confirms :
    (loads : Bytes → Option Json) (o : TransportOutcome) (key digest : Ident) (status : ℕ)
    (remote_request_id : Ident)
    → submit_job loads o key digest ≡ success status remote_request_id
    → Confirms loads key digest status remote_request_id o
unfolding submit_job classify_submit_response
submit_job-Confirms loads connect_failed key digest status i h = absurd (ground arith)
submit_job-Confirms loads failed key digest status i h = absurd (ground arith)
submit_job-Confirms loads (response r) key digest status i h =
    elim (Bool-cases (r.status == 200 || r.status == 201)) [
      | inr other ↦ absurd (ground arith)
      | inl good ↦
          let is_good = either_status r.status good in
          let c = classify_success-ConfirmedBy loads r key digest status i is_good (rw good at h) in
          record {
            answer = r;
            body = c.body;
            fields = c.fields;
            answered = refl;
            in_bounds = c.in_bounds;
            parsed = c.parsed;
            of_status = c.of_status;
            is_success = rw (← c.of_status) is_good;
            replayed = c.shown.replayed;
            processed = c.shown.processed;
            for_key = c.shown.for_key;
            for_digest = c.shown.for_digest;
            identified = c.shown.identified;
          }
    ]

-- ===== src/Application/Classification/Evidence.antt =====
-- About `classify_submission_outcome` of src/boolean_maybe/application/classification.py.
use boolean_maybe.Prelude.{
  ℕ, ◌≡◌, ◌⊎◌, ◌↔◌, inl, inr, refl, true, false, Option, none, some, leb, ◌==◌, ◌&&◌, ◌||◌, arith,
  Option-cases, Bool-cases,
}
use boolean_maybe.Persistence.Rows.{Ident, Bytes}
use boolean_maybe.External.Literal
use boolean_maybe.External.Outcome.{SubmitHttpOutcome}
use boolean_maybe.External.Transport.{
  TransportResponse, TransportOutcome, response, connect_failed, failed, Json, Members, is_text,
  string_at, parse_json_object, parse_error_envelope,
}
use boolean_maybe.External.Client.{
  rejected_by, conflicting, limited_by, error_fields, conflict_fields, classify_fields,
  classify_success, classify_submit_response, submit_job,
}
use boolean_maybe.Persistence.Finalize.{Disposition}
use boolean_maybe.Persistence.Finalize.Steps.{IsSound}
use boolean_maybe.Application.Classification.{classify_submission_outcome}

-- What the client takes for leave to submit again: no connection was made, or the answer is a 429
-- whose body is the error that the service reports of its rate.
abbrev pub AllowsRetry : (Bytes → Option Json) → TransportOutcome → Type 0
AllowsRetry loads connect_failed = Unit
AllowsRetry loads failed = ⊥
AllowsRetry loads (response r) =
    (r.status ≡ 429)
    × (e : Members) × (parse_error_envelope loads error_fields r.body ≡ some e)
    × (is_text Literal.code Literal.rate_limited e ≡ true)

IsRetryable : SubmitHttpOutcome → Type 0
IsRetryable o = (classify_submission_outcome o).disposition ≡ Disposition.retryable_failure

classify_fields-settled :
    (status : ℕ) (key digest : Ident) (m : Members)
    → IsRetryable (classify_fields status key digest m)
    → ⊥
unfolding classify_fields classify_submission_outcome IsRetryable
classify_fields-settled status key digest m h =
    elim (Option-cases (string_at Literal.remote_request_id m)) [
      | inl e ↦ ground arith
      | inr (i, e) ↦ ground arith
    ]

classify_success-settled :
    (loads : Bytes → Option Json) (r : TransportResponse) (key digest : Ident)
    → IsRetryable (classify_success loads r key digest)
    → ⊥
unfolding classify_success classify_submission_outcome IsRetryable
classify_success-settled loads r key digest h = elim (Option-cases r.body) [
  | inl e ↦ ground arith
  | inr (body, e) ↦ elim (Option-cases (parse_json_object loads body)) [
    | inl missing ↦ ground arith
    | inr (m, found) ↦ ground (arith, classify_fields-settled r.status key digest m)
  ]
]

rejected-settled : (found : Option Members) → IsRetryable (rejected_by found) → ⊥
unfolding classify_submission_outcome IsRetryable
rejected-settled none h = cc
rejected-settled (some e) h = cc

conflicting-settled :
    (digest : Ident) (found : Option Members) → IsRetryable (conflicting digest found) → ⊥
unfolding classify_submission_outcome IsRetryable
conflicting-settled digest none h = cc
conflicting-settled digest (some e) h = ground arith

limited-shown :
    (r : TransportResponse) (found : Option Members)
    → IsRetryable (limited_by r found)
    → (e : Members) × (found ≡ some e) × (is_text Literal.code Literal.rate_limited e ≡ true)
unfolding classify_submission_outcome IsRetryable
limited-shown r none h = absurd (let no = h in cc)
limited-shown r (some e) h = (e, refl, ground arith)

-- A status of no other kind.
response-AllowsRetry :
    (loads : Bytes → Option Json) (r : TransportResponse) (key digest : Ident)
    → IsRetryable (classify_submit_response loads r key digest)
    → AllowsRetry loads (response r)
unfolding classify_submit_response classify_submission_outcome IsRetryable
response-AllowsRetry loads r key digest h = elim (Bool-cases (r.status == 200 || r.status == 201)) [
  | inl good ↦ absurd (classify_success-settled loads r key digest (rw good at h))
  | inr b ↦ elim (Bool-cases (r.status == 400)) [
    | inl c ↦
        absurd (rejected-settled (parse_error_envelope loads error_fields r.body) (rw (b, c) at h))
    | inr c ↦ elim (Bool-cases (r.status == 409)) [
      | inl d ↦ absurd (
          conflicting-settled digest (parse_error_envelope loads conflict_fields r.body)
            (rw (b, c, d) at h))
      | inr d ↦ elim (Bool-cases (r.status == 429)) [
        | inl e ↦
            let (fields, found, shown) =
              limited-shown r (parse_error_envelope loads error_fields r.body)
                (rw (b, c, d, e) at h) in
            (ground arith, fields, found, shown)
        | inr e ↦ elim (Bool-cases (leb 500 r.status && leb r.status 599)) [
          | inl f ↦ absurd (ground arith)
          | inr f ↦ absurd (ground arith)
        ]
      ]
    ]
  ]
]

AllowsRetry-response :
    (loads : Bytes → Option Json) (r : TransportResponse) (key digest : Ident)
    → AllowsRetry loads (response r)
    → IsRetryable (classify_submit_response loads r key digest)
unfolding classify_submit_response classify_submission_outcome IsRetryable
AllowsRetry-response loads r key digest (status, fields, found, shown) =
    rw (status, found, shown) refl

-- What the client makes of a request is classified as a retryable failure exactly if no connection
-- was made, or the answer is a 429 whose body is the service's error for it. Any other answer,
-- and any failure after the connection, is none: the attempt is not submitted again for it.
pub classify-submit_job :
    (loads : Bytes → Option Json) (o : TransportOutcome) (key digest : Ident)
    → ((classify_submission_outcome (submit_job loads o key digest)).disposition
        ≡ Disposition.retryable_failure)
      ↔ AllowsRetry loads o
unfolding submit_job classify_submit_response classify_submission_outcome IsRetryable
classify-submit_job loads connect_failed key digest = (λ h. tt, λ h. refl)
classify-submit_job loads failed key digest = (λ h. cc, λ h. absurd h)
classify-submit_job loads (response r) key digest =
    (response-AllowsRetry loads r key digest, AllowsRetry-response loads r key digest)

-- The status of a success, as the client checks it before it reports one.
abbrev pub HasSuccessStatus : SubmitHttpOutcome → Type 0
HasSuccessStatus (SubmitHttpOutcome.success http_status _) =
    (http_status ≡ 200) ⊎ (http_status ≡ 201)
HasSuccessStatus _ = Unit

-- The evidence of an outcome of the client is sound: where it reports success, it carries a status of
-- 200 or 201 and a remote id.
pub classify-IsSound :
    (o : SubmitHttpOutcome) → HasSuccessStatus o → IsSound (classify_submission_outcome o)
unfolding classify_submission_outcome
classify-IsSound (SubmitHttpOutcome.success s i) h d = ground arith
classify-IsSound SubmitHttpOutcome.validation_rejected h d = ground arith
classify-IsSound SubmitHttpOutcome.idempotency_conflict h d = ground arith
classify-IsSound (SubmitHttpOutcome.rate_limited _) h d = ground arith
classify-IsSound (SubmitHttpOutcome.server_error _) h d = ground arith
classify-IsSound SubmitHttpOutcome.protocol_uncertain h d = ground arith
classify-IsSound (SubmitHttpOutcome.transport_failure true) h d = ground arith
classify-IsSound (SubmitHttpOutcome.transport_failure false) h d = ground arith

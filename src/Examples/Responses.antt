-- ===== src/Examples/Responses.antt =====
-- The client of src/boolean_maybe/external/client.py at a concrete response.
use boolean_maybe.Prelude.{◌≡◌, ◌↔◌, none, refl, false, Option, some, [], ◌∷◌}
use boolean_maybe.Domain.RetryAfter.{strip, lstrip, rstrip}
use boolean_maybe.Persistence.Rows.{Bytes}
use boolean_maybe.External.Literal
use boolean_maybe.External.Outcome.{success}
use boolean_maybe.External.Transport.{
  TransportOutcome, response, Json, object, string, boolean, member, end, has_json_content_type,
  after_prefix, parse_json_object, keys, has_exactly, lookup, string_at, is_text,
}
use boolean_maybe.External.Client.{
  classify_fields, classify_success, classify_submit_response, submit_job,
}
use boolean_maybe.Persistence.Finalize.{Disposition}
use boolean_maybe.Application.Classification.{classify_submission_outcome}
use boolean_maybe.Application.Classification.Evidence.{AllowsRetry, classify-submit_job}
use boolean_maybe.External.Client.Sound.{Confirms, submit_job-Confirms}

-- Every body reads as the same object.
abbrev one_object : Bytes → Option Json
one_object bytes = some (
    object (
      member Literal.idempotency_key (string 70) (
        member Literal.status (string Literal.processed) (
          member Literal.payload_digest (string 50) (
            member Literal.remote_request_id (string 77)
              (member Literal.replayed (boolean false) end))))))

abbrev created : TransportOutcome
created = response (record {
  status = 201;
  content_type = some (
      b'A' ∷ b'p' ∷ b'p' ∷ b'l' ∷ b'i' ∷ b'c' ∷ b'a' ∷ b't' ∷ b'i' ∷ b'o' ∷ b'n' ∷ b'/' ∷ b'j'
      ∷ b's' ∷ b'o' ∷ b'n' ∷ []);
  retry_after_values = [];
  body = some (1 ∷ []);
})

created-success : submit_job one_object created 70 50 ≡ success 201 77
unfolding submit_job classify_submit_response classify_success classify_fields has_json_content_type
    after_prefix strip lstrip rstrip parse_json_object keys has_exactly lookup string_at is_text
created-success = refl

submit_job-Confirms_example : Confirms one_object 70 50 201 77 created
submit_job-Confirms_example = submit_job-Confirms one_object created 70 50 201 77 created-success

abbrev rate_body : Bytes → Option Json
rate_body bytes = some (
    object (
      member Literal.error
        (object (
          member Literal.code (string Literal.rate_limited)
            (member Literal.message (string 80) end)))
        end))

abbrev limited : TransportOutcome
limited =
    response
      (record { status = 429; content_type = none; retry_after_values = []; body = some (1 ∷ []) })

classify-submit_job_example :
    ((classify_submission_outcome (submit_job rate_body limited 70 50)).disposition
      ≡ Disposition.retryable_failure)
    ↔ AllowsRetry rate_body limited
classify-submit_job_example = classify-submit_job rate_body limited 70 50

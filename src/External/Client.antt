-- ===== src/External/Client.antt =====
-- `submit_job` of src/boolean_maybe/external/client.py: what a response to a submission shows.
pub mod Sound
use boolean_maybe.Prelude.{
  ℕ, Bool, true, false, not, ◌&&◌, ◌||◌, Option, none, some, List, [], ◌∷◌, leb, ◌==◌,
  if◌then◌else◌,
}
use boolean_maybe.Persistence.Rows.{Ident, Bytes}
use boolean_maybe.External.Literal
use boolean_maybe.External.Outcome.{
  SubmitHttpOutcome, success, validation_rejected, idempotency_conflict, rate_limited, server_error,
  protocol_uncertain, transport_failure,
}
use boolean_maybe.External.Transport.{
  TransportResponse, TransportOutcome, response, connect_failed, failed, Json, boolean, Members,
  lookup, has_exactly, string_at, is_text, has_json_content_type, parse_json_object,
  parse_error_envelope, is_some,
}

abbrev expected_success_fields : List Ident
expected_success_fields =
    Literal.idempotency_key ∷ Literal.status ∷ Literal.payload_digest ∷ Literal.remote_request_id
    ∷ Literal.replayed ∷ []

abbrev pub error_fields : List Ident
error_fields = Literal.code ∷ Literal.message ∷ []

abbrev pub conflict_fields : List Ident
conflict_fields =
    Literal.code ∷ Literal.message ∷ Literal.stored_payload_digest
    ∷ Literal.submitted_payload_digest ∷ []

-- A `201` reports no replay, and a `200` does.
abbrev replay_fits : ℕ → Option Json → Bool
replay_fits status (some (boolean replayed)) = if status == 201 then not replayed else replayed
replay_fits status _ = false

abbrev success_with : ℕ → Option Ident → SubmitHttpOutcome
success_with status none = protocol_uncertain
success_with status (some remote_request_id) = success status remote_request_id

unfoldable pub classify_fields : ℕ → Ident → Ident → Members → SubmitHttpOutcome
unfolding has_exactly lookup is_text string_at
classify_fields status expected_key expected_digest m =
    if has_exactly expected_success_fields m
      && replay_fits status (lookup Literal.replayed m)
      && is_text Literal.status Literal.processed m
      && is_text Literal.idempotency_key expected_key m
      && is_text Literal.payload_digest expected_digest m
    then success_with status (string_at Literal.remote_request_id m)
    else protocol_uncertain

abbrev pub rejected_by : Option Members → SubmitHttpOutcome
rejected_by none = protocol_uncertain
rejected_by (some e) = validation_rejected

abbrev pub conflicting : Ident → Option Members → SubmitHttpOutcome
conflicting digest none = protocol_uncertain
conflicting digest (some e) =
    if is_text Literal.code Literal.idempotency_conflict e
      && is_text Literal.submitted_payload_digest digest e
      && is_some (string_at Literal.stored_payload_digest e)
    then idempotency_conflict
    else protocol_uncertain

abbrev pub limited_by : TransportResponse → Option Members → SubmitHttpOutcome
limited_by r none = protocol_uncertain
limited_by r (some e) =
    if is_text Literal.code Literal.rate_limited e
    then rate_limited r.retry_after_values
    else protocol_uncertain

module _ (loads : Bytes → Option Json) where
  abbrev success_body : ℕ → Ident → Ident → Option Members → SubmitHttpOutcome
  success_body status key digest none = protocol_uncertain
  success_body status key digest (some m) = classify_fields status key digest m

  abbrev body_in_bounds : TransportResponse → Ident → Ident → Option Bytes → SubmitHttpOutcome
  body_in_bounds r key digest none = protocol_uncertain
  body_in_bounds r key digest (some body) =
      if has_json_content_type r.content_type
      then success_body r.status key digest (parse_json_object loads body)
      else protocol_uncertain

  unfoldable pub classify_success : TransportResponse → Ident → Ident → SubmitHttpOutcome
  unfolding has_json_content_type parse_json_object classify_fields
  classify_success r expected_key expected_digest =
      body_in_bounds r expected_key expected_digest r.body

  -- `_classify_response`.
  unfoldable pub classify_submit_response : TransportResponse → Ident → Ident → SubmitHttpOutcome
  unfolding classify_success parse_error_envelope is_text string_at
  classify_submit_response r expected_key expected_digest =
      if r.status == 200 || r.status == 201
      then classify_success r expected_key expected_digest
      else if r.status == 400
      then rejected_by (parse_error_envelope loads error_fields r.body)
      else if r.status == 409
      then conflicting expected_digest (parse_error_envelope loads conflict_fields r.body)
      else if r.status == 429
      then limited_by r (parse_error_envelope loads error_fields r.body)
      else if leb 500 r.status && leb r.status 599
      then server_error r.status
      else protocol_uncertain

  -- `submit_job`, from the outcome of its request on.
  unfoldable pub submit_job : TransportOutcome → Ident → Ident → SubmitHttpOutcome
  unfolding classify_submit_response
  submit_job connect_failed key digest = transport_failure false
  submit_job failed key digest = transport_failure true
  submit_job (response r) key digest = classify_submit_response r key digest

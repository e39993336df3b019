-- ===== src/External/Reconcile.antt =====
-- `reconcile_job` of src/boolean_maybe/external/reconcile.py: what a response to a reconciliation
-- shows.
use boolean_maybe.Prelude.{◌&&◌, Option, none, some, List, [], ◌∷◌, leb, ◌==◌, if◌then◌else◌}
use boolean_maybe.Persistence.Rows.{Ident, Bytes}
use boolean_maybe.External.Literal
use boolean_maybe.External.Outcome.{
  ReconcileHttpOutcome, match_, conflict, not_found, rate_limited, server_error, protocol_uncertain,
  transport_failure,
}
use boolean_maybe.External.Client.{error_fields}
use boolean_maybe.External.Transport.{
  TransportResponse, TransportOutcome, response, connect_failed, failed, Json, Members, has_exactly,
  string_at, is_text, has_json_content_type, parse_json_object, parse_error_envelope,
}

abbrev expected_processed_fields : List Ident
expected_processed_fields =
    Literal.idempotency_key ∷ Literal.status ∷ Literal.payload_digest ∷ Literal.remote_request_id
    ∷ []

abbrev expected_not_found_fields : List Ident
expected_not_found_fields = Literal.idempotency_key ∷ Literal.status ∷ []

-- The same digest is a match, and any other a conflict.
abbrev compared : Ident → Option Ident → Option Ident → ReconcileHttpOutcome
compared expected_digest (some remote_request_id) (some payload_digest) =
    if payload_digest == expected_digest then match_ 200 remote_request_id else conflict
compared expected_digest _ _ = protocol_uncertain

unfoldable pub classify_processed_fields : Ident → Ident → Members → ReconcileHttpOutcome
unfolding has_exactly is_text string_at
classify_processed_fields expected_key expected_digest m =
    if has_exactly expected_processed_fields m
      && is_text Literal.status Literal.processed m
      && is_text Literal.idempotency_key expected_key m
    then compared expected_digest (string_at Literal.remote_request_id m)
        (string_at Literal.payload_digest m)
    else protocol_uncertain

unfoldable pub classify_not_found_fields : Ident → Members → ReconcileHttpOutcome
unfolding has_exactly is_text
classify_not_found_fields expected_key m =
    if has_exactly expected_not_found_fields m
      && is_text Literal.status Literal.not_found m
      && is_text Literal.idempotency_key expected_key m
    then not_found
    else protocol_uncertain

abbrev reconcile_limited : TransportResponse → Option Members → ReconcileHttpOutcome
reconcile_limited r none = protocol_uncertain
reconcile_limited r (some e) =
    if is_text Literal.code Literal.rate_limited e
    then rate_limited r.retry_after_values
    else protocol_uncertain

module _ (loads : Bytes → Option Json) where
  -- The fields of a JSON body within bounds.
  abbrev fields_of : TransportResponse → Option Bytes → Option Members
  fields_of r none = none
  fields_of r (some body) =
      if has_json_content_type r.content_type then parse_json_object loads body else none

  abbrev if_fields : (Members → ReconcileHttpOutcome) → Option Members → ReconcileHttpOutcome
  if_fields classify none = protocol_uncertain
  if_fields classify (some m) = classify m

  unfoldable pub classify_processed : TransportResponse → Ident → Ident → ReconcileHttpOutcome
  unfolding has_json_content_type parse_json_object classify_processed_fields
  classify_processed r expected_key expected_digest =
      if_fields (classify_processed_fields expected_key expected_digest) (fields_of r r.body)

  unfoldable pub classify_not_found : TransportResponse → Ident → ReconcileHttpOutcome
  unfolding has_json_content_type parse_json_object classify_not_found_fields
  classify_not_found r expected_key =
      if_fields (classify_not_found_fields expected_key) (fields_of r r.body)

  -- `_classify_response`.
  unfoldable pub classify_reconcile_response :
      TransportResponse → Ident → Ident → ReconcileHttpOutcome
  unfolding classify_processed classify_not_found parse_error_envelope
  classify_reconcile_response r expected_key expected_digest =
      if r.status == 200
      then classify_processed r expected_key expected_digest
      else if r.status == 404
      then classify_not_found r expected_key
      else if r.status == 429
      then reconcile_limited r (parse_error_envelope loads error_fields r.body)
      else if leb 500 r.status && leb r.status 599
      then server_error r.status
      else protocol_uncertain

  -- `reconcile_job`, from the outcome of its request on.
  unfoldable pub reconcile_job : TransportOutcome → Ident → Ident → ReconcileHttpOutcome
  unfolding classify_reconcile_response
  reconcile_job connect_failed key digest = transport_failure
  reconcile_job failed key digest = transport_failure
  reconcile_job (response r) key digest = classify_reconcile_response r key digest

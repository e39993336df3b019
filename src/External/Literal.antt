-- ===== src/External/Literal.antt =====
-- The names and texts that the adapters of src/boolean_maybe/external/client.py and reconcile.py look
-- for in a response, numbered.
use boolean_maybe.Persistence.Rows.{Ident}

abbrev pub status : Ident
status = 1

abbrev pub idempotency_key : Ident
idempotency_key = 2

abbrev pub payload_digest : Ident
payload_digest = 3

abbrev pub remote_request_id : Ident
remote_request_id = 4

abbrev pub replayed : Ident
replayed = 5

abbrev pub error : Ident
error = 6

abbrev pub code : Ident
code = 7

abbrev pub message : Ident
message = 8

abbrev pub stored_payload_digest : Ident
stored_payload_digest = 9

abbrev pub submitted_payload_digest : Ident
submitted_payload_digest = 10

abbrev pub processed : Ident
processed = 11

abbrev pub not_found : Ident
not_found = 12

abbrev pub rate_limited : Ident
rate_limited = 13

abbrev pub idempotency_conflict : Ident
idempotency_conflict = 14

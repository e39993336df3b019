-- ===== src/Domain/RetryAfter.antt =====
-- `Retry-After` header values: src/boolean_maybe/domain/retry_after.py. A text is the list of its
-- code points, an instant a number of microseconds. `strptime` is the standard library's parser
-- for the IMF-fixdate format; a result that is not there stands for its `ValueError`.
pub mod Bounds
use boolean_maybe.Prelude.{
  ℕ, zero, suc, ◌+◌, ◌-◌, ◌*◌, ◌/◌, ◌≤◌, Bool, true, false, ◌&&◌, ◌||◌, Option, none, some, List,
  [], ◌∷◌, ltb, leb, ◌==◌, if◌then◌else◌, length, all, is_none,
}

abbrev pub Text : Type 0
Text = List ℕ

abbrev pub max_server_delay_ms : ℕ
max_server_delay_ms = 3600000

-- `sys.int_info.default_max_str_digits`: `int` raises `ValueError` on a longer text of digits.
abbrev pub max_str_digits : ℕ
max_str_digits = 4300

pub data Diagnostic : Type 0 where
  retry_after_missing retry_after_repeated retry_after_negative : Diagnostic
  retry_after_malformed retry_after_elapsed retry_after_too_large : Diagnostic

pub data RetryAfterResult : Type 0 where
  accepted : ℕ → RetryAfterResult
  rejected : Diagnostic → RetryAfterResult

-- The code points that `str.strip` removes.
abbrev pub is_space : ℕ → Bool
is_space c =
    (leb 9 c && leb c 13)
    || (leb 28 c && leb c 32)
    || c == 0x85
    || c == 0xa0
    || c == 0x1680
    || (leb 0x2000 c && leb c 0x200a)
    || c == 0x2028
    || c == 0x2029
    || c == 0x202f
    || c == 0x205f
    || c == 0x3000

unfoldable pub lstrip : Text → Text
lstrip [] = []
lstrip (c ∷ cs) = if is_space c then lstrip cs else c ∷ cs

unfoldable pub rstrip : Text → Text
rstrip [] = []
rstrip (c ∷ cs) = elim (rstrip cs) [ [] ↦ if is_space c then [] else c ∷ [] | d ∷ ds ↦ c ∷ d ∷ ds ]

unfoldable pub strip : Text → Text
unfolding lstrip rstrip
strip value = lstrip (rstrip value)

unfoldable pub is_digit : ℕ → Bool
is_digit c = leb b'0' c && leb c b'9'

-- `_NON_NEGATIVE_DELTA_SECONDS_RE.fullmatch`: one digit or more.
unfoldable pub is_delta_seconds : Text → Bool
unfolding is_digit
is_delta_seconds [] = false
is_delta_seconds (c ∷ cs) = all is_digit (c ∷ cs)

-- `_NEGATIVE_DELTA_SECONDS_RE.fullmatch`: a minus sign, then one digit or more.
unfoldable pub is_negative_delta_seconds : Text → Bool
is_negative_delta_seconds [] = false
is_negative_delta_seconds (c ∷ cs) = c == b'-' && is_delta_seconds cs

unfoldable pub digits_value : ℕ → Text → ℕ
digits_value n [] = n
digits_value n (c ∷ cs) = digits_value (n * 10 + (c - b'0')) cs

-- `int(value)` of a text of digits; `none` is the `ValueError` on too many of them.
unfoldable pub int_of : Text → Option ℕ
int_of value = if ltb max_str_digits (length value) then none else some (digits_value 0 value)

unfoldable pub accept_delay_ms : ℕ → RetryAfterResult
accept_delay_ms delay_ms =
    if ltb max_server_delay_ms delay_ms then rejected retry_after_too_large else accepted delay_ms

-- `math.ceil` of a difference of instants, in milliseconds.
unfoldable pub ceil_ms : ℕ → ℕ
ceil_ms microseconds = (microseconds + 999) / 1000

module _ (strptime : Text → Option ℕ) where
  unfoldable pub parse_imf_fixdate : Text → ℕ → RetryAfterResult
  parse_imf_fixdate value now = elim (strptime value) [
    | none ↦ rejected retry_after_malformed
    | some parsed ↦
        if leb parsed now
        then rejected retry_after_elapsed
        else accept_delay_ms (ceil_ms (parsed - now))
  ]

  unfoldable pub accept_seconds : Option ℕ → Option RetryAfterResult
  accept_seconds none = none
  accept_seconds (some seconds) = some (accept_delay_ms (seconds * 1000))

  unfoldable pub parse_value : Text → ℕ → Option RetryAfterResult
  unfolding accept_seconds
  parse_value value now =
      if is_negative_delta_seconds value
      then some (rejected retry_after_negative)
      else if is_delta_seconds value
      then accept_seconds (int_of value)
      else some (parse_imf_fixdate value now)

  -- `none` is the `ValueError` that leaves the function.
  unfoldable pub parse_retry_after : List Text → ℕ → Option RetryAfterResult
  unfolding parse_value strip is_negative_delta_seconds
  parse_retry_after [] now = some (rejected retry_after_missing)
  parse_retry_after (raw ∷ []) now = parse_value (strip raw) now
  parse_retry_after (raw ∷ other ∷ more) now = some (rejected retry_after_repeated)

-- `server_delay_ms` of an accepted result, and nothing of a rejected one.
unfoldable pub server_delay_of : RetryAfterResult → Option ℕ
server_delay_of (accepted delay_ms) = some delay_ms
server_delay_of (rejected _) = none

unfoldable pub diagnostic_of : RetryAfterResult → Option Diagnostic
diagnostic_of (accepted _) = none
diagnostic_of (rejected diagnostic) = some diagnostic

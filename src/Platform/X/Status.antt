-- ===== src/Platform/X/Status.antt =====
-- internal/platform/x.go: what an answer other than 201 means, and how much of an answer is read.
use nomadposting.Prelude.{
  ℕ, ◌+◌, ◌-◌, ◌*◌, ◌%◌, ◌^◌, Bool, true, false, ◌||◌, [], ◌∷◌, Option, none, some, Str, text,
  length, all, ltb, leb, ◌==◌, in_range, ℤ, pos, pos_part, neg_part, sub_ℕ, if◌then◌else◌,
}
use nomadposting.Clock.{Time, Duration, epoch_seconds, sub_time}
use nomadposting.Platform.Contracts.{x}
use nomadposting.Platform.Errors.{
  PlatformError, ErrorCode, unauthorized, forbidden, rate_limited, remote_rejected, temporary,
  protocol_error,
}

-- What the code reads of an HTTP response. The body is the bytes that arrive, and whether the
-- connection fails behind them; `header` is `http.Header.Get`.
pub record Response : Type 0 where
  pub status : ℕ
  pub header : Str → Str
  pub body : Str
  pub broken : Bool

pub data Bounded : Type 0 where
  unreadable too_large : Bounded
  read : Str → Bounded

-- `readBounded`: a read never goes further than one byte past the limit.
unfoldable pub read_bounded : Response → ℕ → Bounded
read_bounded response maximum =
    if ltb maximum (length response.body)
    then too_large
    else if response.broken
    then unreadable
    else read response.body

abbrev value_of : ℕ → Str → ℕ
value_of n [] = n
value_of n (c ∷ s) = value_of (n * 10 + (c - b'0')) s

abbrev digits_value : Str → Option ℕ
digits_value s =
    if length s == 0 then none else if all (in_range b'0' b'9') s then some (value_of 0 s) else none

abbrev signed : Bool → Option ℕ → Option ℤ
signed negative none = none
signed true (some n) = if leb n (2 ^ 63) then some (sub_ℕ 0 n) else none
signed false (some n) = if ltb n (2 ^ 63) then some (pos n) else none

-- `strconv.ParseInt(s, 10, 64)`.
unfoldable pub parse_int : Str → Option ℤ
parse_int [] = none
parse_int (c ∷ s) =
    if c == b'-'
    then signed true (digits_value s)
    else if c == b'+'
    then signed false (digits_value s)
    else signed false (digits_value (c ∷ s))

-- An int64 product of two numbers that are not negative.
unfoldable pub mul_int64 : ℕ → ℕ → ℤ
mul_int64 a b = let p = a * b % 2 ^ 64 in if ltb p (2 ^ 63) then pos p else sub_ℕ p (2 ^ 64)

abbrev pub nanos_per_second : ℕ
nanos_per_second = 1000000000

-- `time.Unix(reset, 0)`, if it lies behind the zero time: the seconds are kept from there, in an int64.
unfoldable pub unix_time : ℤ → Option Time
unix_time reset =
    let seconds = epoch_seconds + pos_part reset in
    if ltb seconds (neg_part reset) || leb (2 ^ 63) seconds
    then none
    else some ((seconds - neg_part reset) * nanos_per_second)

abbrev pub wait_until : Option Time → Time → Duration
wait_until none now = pos 0
wait_until (some at) now = if ltb now at then sub_time at now else pos 0

abbrev pub wait_for_reset : Option ℤ → Time → Duration
wait_for_reset none now = pos 0
wait_for_reset (some reset) now = wait_until (unix_time reset) now

-- The wait that the two headers ask for.
unfoldable pub retry_after : (Str → Str) → Time → Duration
unfolding parse_int mul_int64 unix_time
retry_after header now =
    let reset = wait_for_reset (parse_int (header (text "x-rate-limit-reset"))) now in
    elim (parse_int (header (text "Retry-After"))) [
      | some seconds ↦
          if ltb 0 (pos_part seconds) then mul_int64 (pos_part seconds) nanos_per_second else reset
      | none ↦ reset
    ]

abbrev at_status : ℕ → ErrorCode → Str → Duration → PlatformError
at_status status code message wait = record {
  platform = x;
  code = code;
  http_status = status;
  retry_after = wait;
  message = message;
  ambiguous = false;
}

-- `classifyXStatusAt`.
unfoldable pub classify_x_status_at : ℕ → (Str → Str) → Time → PlatformError
unfolding retry_after
classify_x_status_at status header now =
    if status == 400 || status == 404 || status == 422
    then at_status status remote_rejected (text "request was rejected") (pos 0)
    else if status == 401
    then at_status status unauthorized (text "authorization was rejected") (pos 0)
    else if status == 402
    then at_status status forbidden (text "API credits are unavailable") (pos 0)
    else if status == 403
    then at_status status forbidden (text "publication is forbidden") (pos 0)
    else if status == 429
    then at_status status rate_limited (text "rate limit reached") (retry_after header now)
    else if in_range 500 599 status
    then at_status status temporary (text "remote service is unavailable") (pos 0)
    else at_status status protocol_error (text "unexpected remote response") (pos 0)

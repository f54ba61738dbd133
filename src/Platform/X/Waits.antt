-- ===== src/Platform/X/Waits.antt =====
-- internal/platform/x.go: the wait that a refused publication reports.
use nomadposting.Prelude.{
  ℕ, ◌-◌, ◌*◌, ◌%◌, ◌^◌, ◌≤◌, ◌<◌, ◌≡◌, refl, ◌∙◌, inl, inr, Option, none, some, Option-cases,
  Bool-cases, Str, text, ltb, ltb→lt, ◌==◌, ℤ, pos, negsuc, pos_part, neg_part, ◌+◌, arith,
  if◌then◌else◌,
}
use nomadposting.Clock.{Time, epoch_seconds, sub_time}
use nomadposting.Platform.X.Status.{
  parse_int, mul_int64, nanos_per_second, wait_until, wait_for_reset, unix_time, retry_after,
  classify_x_status_at,
}

-- The seconds that `Retry-After` asks for.
abbrev seconds_of : Option ℤ → ℕ
seconds_of none = 0
seconds_of (some n) = pos_part n

abbrev pub asked_seconds : (Str → Str) → ℕ
asked_seconds header = seconds_of (parse_int (header (text "Retry-After")))

-- The nanoseconds from `now` to the instant that lies so many seconds behind the epoch: 0 when it is past
-- or further away than an int64 of seconds reaches, and no more than an int64 of nanoseconds
-- holds.
abbrev pub until_reset : ℤ → Time → ℕ
until_reset reset now =
    let at = epoch_seconds + pos_part reset - neg_part reset in
    let left = at * 1000000000 - now in
    if ltb at (2 ^ 63) then if ltb left (2 ^ 63) then left else 2 ^ 63 - 1 else 0

abbrev pub reset_wait : Option ℤ → Time → ℕ
reset_wait none now = 0
reset_wait (some reset) now = until_reset reset now

-- The nanoseconds that the two headers ask for: `Retry-After` first, if it asks for a number of seconds
-- that is not 0, the reset time otherwise.
abbrev pub asked_wait : (Str → Str) → Time → ℕ
asked_wait header now =
    if ltb 0 (asked_seconds header)
    then asked_seconds header * 1000000000
    else reset_wait (parse_int (header (text "x-rate-limit-reset"))) now

mul_int64-small : (n : ℕ) → n ≤ 9223372036 → mul_int64 n nanos_per_second ≡ pos (n * 1000000000)
unfolding mul_int64
mul_int64-small n h =
    let small : n * 1000000000 % 2 ^ 64 ≡ n * 1000000000 = omega arith in ground arith

sub_time-later :
    (at now : Time)
    → now < at
    → sub_time at now ≡ pos (if ltb (at - now) (2 ^ 63) then at - now else 2 ^ 63 - 1)
unfolding sub_time
sub_time-later at now h = ground arith

wait_until-instant :
    (at now : Time)
    → wait_until (some at) now ≡ pos (if ltb (at - now) (2 ^ 63) then at - now else 2 ^ 63 - 1)
wait_until-instant at now = elim (Bool-cases (ltb now at)) [
  | inl e ↦ rw e (sub_time-later at now (ltb→lt now at e))
  | inr e ↦ ground arith
]

wait_for_reset-until :
    (reset : ℤ) (now : Time) → wait_for_reset (some reset) now ≡ pos (until_reset reset now)
unfolding unix_time
wait_for_reset-until (pos n) now = elim (Bool-cases (ltb (epoch_seconds + n) (2 ^ 63))) [
  | inl near ↦
      let there : unix_time (pos n) ≡ some ((epoch_seconds + n) * 1000000000) = ground arith in
      rw there (wait_until-instant ((epoch_seconds + n) * 1000000000) now ∙ ground arith)
  | inr far ↦ ground arith
]
wait_for_reset-until (negsuc n) now = elim (Bool-cases (ltb epoch_seconds (n + 1))) [
  | inl before ↦ ground arith
  | inr after ↦
      let there : unix_time (negsuc n) ≡ some ((epoch_seconds - (n + 1)) * 1000000000) =
        ground arith in
      rw there (wait_until-instant ((epoch_seconds - (n + 1)) * 1000000000) now ∙ ground arith)
]

wait_for_reset-exact :
    (reset : Option ℤ) (now : Time) → wait_for_reset reset now ≡ pos (reset_wait reset now)
wait_for_reset-exact none now = refl
wait_for_reset-exact (some reset) now = wait_for_reset-until reset now

retry_after-asked :
    (header : Str → Str) (now : Time)
    → asked_seconds header ≤ 9223372036
    → retry_after header now ≡ pos (asked_wait header now)
unfolding retry_after
retry_after-asked header now h =
    let reset = wait_for_reset-exact (parse_int (header (text "x-rate-limit-reset"))) now in
    elim (Option-cases (parse_int (header (text "Retry-After")))) [
      | inl e ↦ ground arith
      | inr (n, e) ↦ ground (arith, mul_int64-small (pos_part n))
    ]

until_reset-lt : (reset : ℤ) (now : Time) → until_reset reset now < 2 ^ 63
until_reset-lt reset now = ground arith

reset_wait-lt : (reset : Option ℤ) (now : Time) → reset_wait reset now < 2 ^ 63
reset_wait-lt none now = omega arith
reset_wait-lt (some reset) now = until_reset-lt reset now

asked_wait-lt :
    (header : Str → Str) (now : Time)
    → asked_seconds header ≤ 9223372036
    → asked_wait header now < 2 ^ 63
asked_wait-lt header now h =
    ground (arith, reset_wait-lt (parse_int (header (text "x-rate-limit-reset"))) now)

classify-wait :
    (status : ℕ) (header : Str → Str) (now : Time)
    → (classify_x_status_at status header now).retry_after
      ≡ (if status == 429 then retry_after header now else pos 0)
unfolding classify_x_status_at
classify-wait status header now = ground arith

-- The wait of a classified answer, whatever its status and headers, as long as `Retry-After` asks for
-- at most 9223372036 seconds, the most that an int64 of nanoseconds holds: a 429 carries the
-- seconds that the header asks for, or else the time from now to the announced reset, which is 0
-- when that is past or beyond what the code's times reach and is cut at the longest duration; every
-- other status carries no wait. The wait is never negative and stays within an int64.
pub classify-IsWait :
    (status : ℕ) (header : Str → Str) (now : Time)
    → asked_seconds header ≤ 9223372036
    → ((classify_x_status_at status header now).retry_after
        ≡ pos (if status == 429 then asked_wait header now else 0))
      × ((if status == 429 then asked_wait header now else 0) < 2 ^ 63)
classify-IsWait status header now h = (
  ground (arith, classify-wait status header now, retry_after-asked header now h),
  ground (arith, asked_wait-lt header now h),
)

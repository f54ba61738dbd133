-- ===== src/Clock.antt =====
-- Go's `time.Time` and `time.Duration`. An instant is the number of nanoseconds since the zero time,
-- January 1 of year 1 UTC; instants before it are not represented. A duration is an int64 number
-- of nanoseconds, read as an integer.
pub mod Millis
use nomadposting.Prelude.{
  ℕ, ◌+◌, ◌-◌, ◌*◌, ◌/◌, ◌^◌, Bool, ◌==◌, ltb, ℤ, pos, negsuc, sub_ℕ, pos_part, neg_part, eqb_ℤ,
  ltb_ℤ, if◌then◌else◌,
}

abbrev pub Time : Type 0
Time = ℕ

abbrev pub Duration : Type 0
Duration = ℤ

-- `t.IsZero()`.
abbrev pub is_zero : Time → Bool
is_zero t = t == 0

abbrev pub max_duration : Duration
max_duration = pos (2 ^ 63 - 1)

abbrev pub min_duration : Duration
min_duration = negsuc (2 ^ 63 - 1)

-- `t.Sub(u)`, which saturates.
unfoldable pub sub_time : Time → Time → Duration
sub_time t u =
    let d = sub_ℕ t u in
    if ltb_ℤ max_duration d then max_duration else if ltb_ℤ d min_duration then min_duration else d

-- `t.Add(d)`.
unfoldable pub add_time : Time → Duration → Time
add_time t d = t + pos_part d - neg_part d

-- Milliseconds from the zero time to the Unix epoch.
abbrev pub epoch_millis : ℕ
epoch_millis = 62135596800000

abbrev pub nanos_per_milli : ℕ
nanos_per_milli = 1000000

-- `t.UTC().UnixMilli()`.
unfoldable pub millis : Time → ℤ
millis t = sub_ℕ (t / nanos_per_milli) epoch_millis

-- `fromMillis` of internal/store/sqlite.go: the number 0 is read as the zero time.
unfoldable pub from_millis : ℤ → Time
from_millis v =
    if eqb_ℤ v (pos 0) then 0 else (epoch_millis + pos_part v - neg_part v) * nanos_per_milli

-- Seconds from the zero time to the Unix epoch.
abbrev pub epoch_seconds : ℕ
epoch_seconds = 62135596800

-- `t.Unix()`.
unfoldable pub unix_seconds : Time → ℤ
unix_seconds t = sub_ℕ (t / 1000000000) epoch_seconds

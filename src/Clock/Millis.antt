-- ===== src/Clock/Millis.antt =====
-- Instants as the database keeps them: whole milliseconds, with the number 0 read as the zero time.
use nomadposting.Prelude.{
  ℕ, ◌+◌, ◌-◌, ◌*◌, ◌/◌, ◌≡◌, ap, ◌≢◌, false, pos, pos_part, neg_part, sub_ℕ, eqb_ℤ, arith,
}
use nomadposting.Clock.{Time, millis, from_millis, epoch_millis, nanos_per_milli}

-- The whole milliseconds of an instant since the zero time.
abbrev pub whole_millis : Time → ℕ
whole_millis t = t / nanos_per_milli

parts-millis :
    (t : Time) → epoch_millis + pos_part (millis t) - neg_part (millis t) ≡ whole_millis t
unfolding millis
parts-millis t = ground arith

millis-ne_zero : (t : Time) → whole_millis t ≢ epoch_millis → eqb_ℤ (millis t) (pos 0) ≡ false
unfolding millis
millis-ne_zero t h = ground arith

-- What is read back is the instant cut to its millisecond, but for the first millisecond of 1970.
pub from_millis-millis :
    (t : Time)
    → whole_millis t ≢ epoch_millis
    → from_millis (millis t) ≡ whole_millis t * nanos_per_milli
unfolding from_millis
from_millis-millis t h = rw (millis-ne_zero t h, parts-millis t)

millis_whole : (t : Time) → millis (whole_millis t * nanos_per_milli) ≡ millis t
unfolding millis
millis_whole t =
    let cut : whole_millis t * nanos_per_milli / nanos_per_milli ≡ whole_millis t = omega arith in
    ap (λ (n : ℕ). sub_ℕ n epoch_millis) cut

pub millis-from_millis :
    (t : Time) → whole_millis t ≢ epoch_millis → millis (from_millis (millis t)) ≡ millis t
millis-from_millis t h = rw (from_millis-millis t h) (millis_whole t)

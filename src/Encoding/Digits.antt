-- ===== src/Encoding/Digits.antt =====
-- The fuel of `show_ℕ`, and the decimal digits it prints.
use nomadposting.Prelude.{
  ℕ, zero, suc, ◌+◌, ◌<◌, ◌/◌, ◌%◌, ◌≡◌, ◌∷◌, [], ◌++◌, ltb, if◌then◌else◌, inl, inr, arith,
  Bool-cases,
}
use nomadposting.Encoding.{show_fuel, show_ℕ}

-- More fuel than the number counts changes nothing.
show_fuel_enough : (f g n : ℕ) → n < f → n < g → show_fuel f n ≡ show_fuel g n
unfolding show_fuel
show_fuel_enough zero g n h k = absurd (omega arith)
show_fuel_enough (suc f) zero n h k = absurd (omega arith)
show_fuel_enough (suc f) (suc g) n h k = elim (Bool-cases (ltb n 10)) [
  | inl small ↦ ground arith
  | inr big ↦
      let ten : 9 < n = ground arith in
      let rest = show_fuel_enough f g (n / 10) (omega arith) (omega arith) in ground (arith, rest)
]

-- A number below ten is printed as its digit, and any other as the print of its tenth part followed by
-- its last digit: the fuel is never used up.
pub show_ℕ_digits :
    (n : ℕ)
    → show_ℕ n ≡ (if ltb n 10 then (b'0' + n) ∷ [] else show_ℕ (n / 10) ++ (b'0' + n % 10) ∷ [])
unfolding show_ℕ show_fuel
show_ℕ_digits n = elim (Bool-cases (ltb n 10)) [
  | inl small ↦ ground arith
  | inr big ↦
      let ten : 9 < n = ground arith in
      ground (arith, show_fuel_enough n (suc (n / 10)) (n / 10) (omega arith) (omega arith))
]

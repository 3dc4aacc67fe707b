-- ===== src/Tests/Fixed.antt =====
-- A stand-in for `double` that runs: fixed point, in thousandths.
use trading_simulation.Prelude.{not, ℕ, ◌+◌, ◌*◌, ◌/◌, ◌^◌}
use trading_simulation.Prelude.Int.{
  ℤ, pos, pos_part, neg_part, sub_ℕ, ltb_ℤ, eqb_ℤ, ◌+ℤ◌, ◌-ℤ◌, ◌*ℤ◌,
}
use trading_simulation.Double.{Double}

-- Division towards zero by a positive number.
abbrev div_ℕ : ℤ → ℕ → ℤ
div_ℕ a n = sub_ℕ (pos_part a / n) (neg_part a / n)

abbrev pub fixed : Double
fixed = record {
  Carrier = ℤ;
  decimal = λ m k. pos (m * 1000 / 10 ^ k);
  of_int = λ a. a *ℤ pos 1000;
  to_int = λ a. div_ℕ a 1000;
  to_uint = λ a. pos_part a / 1000;
  add = λ a b. a +ℤ b;
  sub = λ a b. a -ℤ b;
  mul = λ a b. div_ℕ (a *ℤ b) 1000;
  div = λ a b. div_ℕ (a *ℤ pos 1000) (pos_part b);
  neg = λ a. pos 0 -ℤ a;
  lt = λ a b. ltb_ℤ a b;
  le = λ a b. not (ltb_ℤ b a);
  eq = λ a b. eqb_ℤ a b;
}

abbrev pub clock : ℕ → ℤ
clock n = pos (1000 + n)

-- ===== src/Transport/Whole.antt =====
-- A concrete Floats for the tests: whole numbers.
use xray_mesh.Base.{ℕ, ◌+◌, ◌-◌, ◌*◌, ◌/◌, ◌≡◌, arith, false, ltb, leb}
use xray_mesh.Transport.Floats.{Floats}

-- Whole numbers have these operations and laws (seconds rounded down).
pub whole_irrefl : (a : ℕ) → ltb a a ≡ false
whole_irrefl a = ground arith

pub whole_sub_one : (a b : ℕ) → ltb b a ≡ false → ltb b (a - 1) ≡ false
whole_sub_one a b e = ground arith

abbrev pub whole_floats : Floats
whole_floats = record {
  Float = ℕ;
  of_int = λ n. n;
  seconds = λ n. n / 1_000_000_000;
  add = λ a b. a + b;
  mul = λ a b. a * b;
  sub = λ a b. a - b;
  less = ltb;
  at_most = leb;
  irrefl = whole_irrefl;
  sub_one = whole_sub_one;
}

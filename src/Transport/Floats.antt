-- ===== src/Transport/Floats.antt =====
-- The floating-point numbers of the token bucket, as an interface: the operations that the relay
-- uses, and what IEEE 754 says of them for every value, NaN and the infinities included.
use xray_mesh.Base.{ℕ, ◌≡◌, Bool, false}

pub record Floats : Type 1 where
  pub Float : Type 0
  -- `float64(n)`, and a duration of `n` nanoseconds in seconds.
  pub of_int : ℕ → Float
  pub seconds : ℕ → Float
  pub add : Float → Float → Float
  pub mul : Float → Float → Float
  pub sub : Float → Float → Float
  pub less : Float → Float → Bool
  pub at_most : Float → Float → Bool
  -- No value is below itself, and one less does not go above a value that was not exceeded.
  pub irrefl : (a : Float) → less a a ≡ false
  pub sub_one : (a b : Float) → less b a ≡ false → less b (sub a (of_int 1)) ≡ false

-- ===== src/Tests/Scaled.antt =====
-- Multiples of 1/64, with the distance of two values for their difference: an instance of the
-- float operations in which the tests compute.
use cpp_mmo.Base.{ℕ, zero, suc, ◌+◌, ◌-◌, ◌*◌, ◌/◌, ◌≤◌, ◌≡◌, true, arith, ltb, leb, if◌then◌else◌}
use cpp_mmo.Float.{FloatOps, FloatLaws, Between}
use cpp_mmo.QuadTree.{quadrant}
use cpp_mmo.QuadTree.Shape.{HalvesExactly, SplitsAt}

abbrev pub distance : ℕ → ℕ → ℕ
distance a b = if leb b a then a - b else b - a

instance abbrev pub scaled : FloatOps ℕ
scaled = record {
  lt = ltb;
  le = leb;
  add = λ a b. a + b;
  sub = distance;
  mul = λ a b. a * b / 64;
  div = λ a b. a * 64 / b;
  neg = λ a. 0;
  pow_sum = λ a b. (a * a + b * b) / 64;
  sqrt = λ a. a;
  of_nat = λ n. 64 * n;
  half = 32;
  diagonal = 45;
}

distance-Between : (c q p : ℕ) → Between scaled c q p → distance c q ≤ distance p c
distance-Between c q p h = ground arith

squares_mono : (a b c d : ℕ) → a ≤ c → b ≤ d → a * a + b * b ≤ c * c + d * d
squares_mono a b c d h k = grind arith

pub scaled-laws : FloatLaws scaled
scaled-laws = record {
  lt_lem = λ a b. ground arith;
  le_trans = λ a b c h k. ground arith;
  le_total = λ a b. ground arith;
  pow_sum_between = λ cx qx px cy qy py h k. le→leb _ _ (
      div_mono _ _ (
        squares_mono (distance cx qx) (distance cy qy) (distance px cx) (distance py cy)
          (distance-Between cx qx px h) (distance-Between cy qy py k)));
  zero_add = λ a h. omega arith;
}
  where
    le→leb : (a b : ℕ) → a ≤ b → leb a b ≡ true
    le→leb a b h = ground arith

    div_mono : (a b : ℕ) → a ≤ b → a / 64 ≤ b / 64
    div_mono a b h = omega arith

-- A width that halving divides evenly `n` times.
abbrev pub doubled : ℕ → ℕ → ℕ
doubled zero k = k
doubled (suc n) k = doubled n k + doubled n k

split_even : (x w : ℕ) → SplitsAt x (w + w)
split_even x w = (omega arith, ground arith, ground arith)

half_even : (w : ℕ) → (w + w) * 32 / 64 ≡ w
half_even w = omega arith

pub doubled-HalvesExactly :
    (n x y k l : ℕ)
    → HalvesExactly n (record { x = x; y = y; width = doubled n k; height = doubled n l })
unfolding quadrant
doubled-HalvesExactly zero x y k l = tt
doubled-HalvesExactly (suc n) x y k l = (
  split_even x (doubled n k),
  split_even y (doubled n l),
  rw (half_even (doubled n k), half_even (doubled n l)) (doubled-HalvesExactly n x y k l),
  rw (half_even (doubled n k), half_even (doubled n l)) (doubled-HalvesExactly n _ y k l),
  rw (half_even (doubled n k), half_even (doubled n l)) (doubled-HalvesExactly n x _ k l),
  rw (half_even (doubled n k), half_even (doubled n l)) (doubled-HalvesExactly n _ _ k l),
)

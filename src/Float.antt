-- ===== src/Float.antt =====
-- `float` as the game code uses it. The values and the operations are an argument of the
-- definitions, so every rounding is allowed; what a theorem needs of them is `FloatLaws`.
use cpp_mmo.Base.{ℕ, ◌≡◌, Bool, true, false, not, ◌||◌, ◌⊎◌, if◌then◌else◌}

pub record FloatOps (F : Type 0) : Type 0 where
  pub lt : F → F → Bool
  pub le : F → F → Bool
  pub add : F → F → F
  pub sub : F → F → F
  pub mul : F → F → F
  pub div : F → F → F
  pub neg : F → F
  -- `(float)(std::pow(a, 2) + std::pow(b, 2))`
  pub pow_sum : F → F → F
  pub sqrt : F → F
  -- An integer converted to `float`; also the literals `0.0f`, `1.0f` and so on.
  pub of_nat : ℕ → F
  -- The literals `0.5f` and `0.7071067f`.
  pub half : F
  pub diagonal : F

module _ {F : Type 0} ⦃fl : FloatOps F⦄ where
  -- `std::max` and `std::min`.
  unfoldable pub max : F → F → F
  max a b = if fl.lt a b then b else a

  unfoldable pub min : F → F → F
  min a b = if fl.lt b a then b else a

-- The value `q` lies between `c` and `p`, ends included.
abbrev pub Between : {F : Type 0} → FloatOps F → F → F → F → Type 0
Between fl c q p =
    ((fl.le c q ≡ true) × (fl.le q p ≡ true)) ⊎ ((fl.le p q ≡ true) × (fl.le q c ≡ true))

-- What IEEE 754 guarantees of values that are not NaN: the comparisons are a total order (`-0` and
-- `0` are equivalent), and rounding is monotone, so a point between `c` and `p` is, in both
-- coordinates, no farther from `c` than `p` is. Zero added to a positive value gives that value.
pub record FloatLaws {F : Type 0} (fl : FloatOps F) : Type 0 where
  pub lt_lem : (a b : F) → fl.lt a b ≡ not (fl.le b a)
  pub le_trans : (a b c : F) → fl.le a b ≡ true → fl.le b c ≡ true → fl.le a c ≡ true
  pub le_total : (a b : F) → (fl.le a b || fl.le b a) ≡ true
  pub pow_sum_between :
      (cx qx px cy qy py : F)
      → Between fl cx qx px
      → Between fl cy qy py
      → fl.le (fl.pow_sum (fl.sub cx qx) (fl.sub cy qy)) (fl.pow_sum (fl.sub px cx) (fl.sub py cy))
        ≡ true
  pub zero_add : (a : F) → fl.le a (fl.of_nat 0) ≡ false → fl.add (fl.of_nat 0) a ≡ a

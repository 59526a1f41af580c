-- ===== src/QuadTree/Shape.antt =====
-- The shape of a tree: bounds that tile, leaves within their capacity, ids where their stored
-- positions belong.
use cpp_mmo.Base.{
  ℕ, zero, suc, ◌+◌, ◌≤◌, ◌≡◌, inl, inr, true, false, some, List, [], arith, length, count, All,
  Bool-cases,
}
use cpp_mmo.Base.Dict.{Dict, find}
use cpp_mmo.Float.{FloatOps, FloatLaws}
use cpp_mmo.Vector.{Vec3}
use cpp_mmo.QuadTree.{
  Bounds, Node, leaf, inner, Corner, nw, ne, sw, se, bounds, contains, quadrant, choose,
  max_players_per_node,
}

-- How often an id stands in a tree.
unfoldable pub count_in : {F : Type 0} → ℕ → Node F → ℕ
count_in q (leaf b ids) = count q ids
count_in q (inner b ids a c d e) =
    count q ids + count_in q a + count_in q c + count_in q d + count_in q e

-- A leaf above the last level holds at most MAX_PLAYERS_PER_NODE ids.
abbrev pub Fits : ℕ → List ℕ → Type 0
Fits zero ids = Unit
Fits (suc n) ids = length ids ≤ max_players_per_node

module _ {F : Type 0} ⦃fl : FloatOps F⦄ where
  -- The interval from `x` over `width` splits exactly at its middle, which lies inside.
  abbrev pub SplitsAt : F → F → Type 0
  SplitsAt x width =
      (fl.add (fl.add x (fl.mul width fl.half)) (fl.mul width fl.half) ≡ fl.add x width)
      × (fl.le x (fl.add x (fl.mul width fl.half)) ≡ true)
      × (fl.le (fl.add x (fl.mul width fl.half)) (fl.add x width) ≡ true)

  -- Halving is exact in these bounds and in the bounds down to `n` levels below.
  abbrev pub HalvesExactly : ℕ → Bounds F → Type 0
  HalvesExactly zero b = Unit
  HalvesExactly (suc n) b =
      SplitsAt b.x b.width
      × SplitsAt b.y b.height
      × HalvesExactly n (quadrant nw b)
      × HalvesExactly n (quadrant ne b)
      × HalvesExactly n (quadrant sw b)
      × HalvesExactly n (quadrant se b)

  -- The id has a stored position, and the bounds contain it.
  abbrev pub Located : Dict (Vec3 F) → Bounds F → ℕ → Type 0
  Located ps b q = (p : Vec3 F) × (find q ps ≡ some p) × (contains b p ≡ true)

  -- A tree with `n` levels left below its root.
  abbrev pub Shape : Dict (Vec3 F) → ℕ → Node F → Type 0
  Shape ps n (leaf b ids) = HalvesExactly n b × All (Located ps b) ids × Fits n ids
  Shape ps zero (inner b ids a c d e) = ⊥
  Shape ps (suc n) (inner b ids a c d e) =
      HalvesExactly (suc n) b
      × (ids ≡ [])
      × (bounds a ≡ quadrant nw b)
      × (bounds c ≡ quadrant ne b)
      × (bounds d ≡ quadrant sw b)
      × (bounds e ≡ quadrant se b)
      × Shape ps n a
      × Shape ps n c
      × Shape ps n d
      × Shape ps n e

  -- Where halving is exact, a position in the bounds is in a quadrant, and `choose` finds it.
  pub choose-quadrant :
      FloatLaws fl
      → (n : ℕ) (b : Bounds F) (a c d e : Node F) (p : Vec3 F) → HalvesExactly (suc n) b
      → bounds a ≡ quadrant nw b
      → bounds c ≡ quadrant ne b
      → bounds d ≡ quadrant sw b
      → bounds e ≡ quadrant se b
      → contains b p ≡ true
      → (k : Corner) × (choose a c d e p ≡ some k) × (contains (quadrant k b) p ≡ true)
  unfolding choose contains quadrant
  choose-quadrant laws n b a c d e p h ha hc hd he i =
      let mid_x = fl.add b.x (fl.mul b.width fl.half) in
      let mid_y = fl.add b.y (fl.mul b.height fl.half) in
      let at_x = laws.lt_lem p.x mid_x in
      let at_y = laws.lt_lem p.y mid_y in
      rw (ha, hc, hd, he)
        (elim (Bool-cases (fl.lt p.x mid_x)) [
          | inl west ↦ elim (Bool-cases (fl.lt p.y mid_y)) [
            | inl north ↦ (nw, ground arith, ground arith)
            | inr south ↦ (sw, ground arith, ground arith)
          ]
          | inr east ↦ elim (Bool-cases (fl.lt p.y mid_y)) [
            | inl north ↦ (ne, ground arith, ground arith)
            | inr south ↦ (se, ground arith, ground arith)
          ]
        ])

  lt-lt_of_le : FloatLaws fl → (p a b : F) → fl.lt p a ≡ true → fl.le a b ≡ true → fl.lt p b ≡ true
  lt-lt_of_le laws p a b h k = ground (arith, laws.lt_lem p a, laws.lt_lem p b, laws.le_trans a b p)

  -- A quadrant lies within its bounds.
  quadrant-within :
      FloatLaws fl
      → (n : ℕ) (b : Bounds F) (k : Corner) (p : Vec3 F) → HalvesExactly (suc n) b
      → contains (quadrant k b) p ≡ true
      → contains b p ≡ true
  unfolding contains quadrant
  quadrant-within laws n b nw p h i = ground (
    arith,
    lt-lt_of_le laws p.x (fl.add b.x (fl.mul b.width fl.half)) (fl.add b.x b.width),
    lt-lt_of_le laws p.y (fl.add b.y (fl.mul b.height fl.half)) (fl.add b.y b.height),
  )
  quadrant-within laws n b ne p h i = ground (
    arith,
    laws.le_trans b.x (fl.add b.x (fl.mul b.width fl.half)) p.x,
    lt-lt_of_le laws p.y (fl.add b.y (fl.mul b.height fl.half)) (fl.add b.y b.height),
  )
  quadrant-within laws n b sw p h i = ground (
    arith,
    lt-lt_of_le laws p.x (fl.add b.x (fl.mul b.width fl.half)) (fl.add b.x b.width),
    laws.le_trans b.y (fl.add b.y (fl.mul b.height fl.half)) p.y,
  )
  quadrant-within laws n b se p h i = ground (
    arith,
    laws.le_trans b.x (fl.add b.x (fl.mul b.width fl.half)) p.x,
    laws.le_trans b.y (fl.add b.y (fl.mul b.height fl.half)) p.y,
  )

  pub quadrant_outside :
      FloatLaws fl
      → (n : ℕ) (b : Bounds F) (k : Corner) (p : Vec3 F) → HalvesExactly (suc n) b
      → contains b p ≡ false
      → contains (quadrant k b) p ≡ false
  quadrant_outside laws n b k p h out = elim (Bool-cases (contains (quadrant k b) p)) [
    | inl i ↦ ground (arith, quadrant-within laws n b k p h i)
    | inr o ↦ o
  ]

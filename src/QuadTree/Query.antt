-- ===== src/QuadTree/Query.antt =====
-- Lemmas on `QuadTree::QueryNode`.
use cpp_mmo.Base.{
  ℕ, zero, suc, ◌≡◌, inl, inr, Bool, true, false, some, List, [], ◌∷◌, arith, count, count-append,
  count_nil, Bool-cases, Option-cases, ◌==◌, ==_iff, if◌then◌else◌,
}
use cpp_mmo.Base.Dict.{Dict, find}
use cpp_mmo.Float.{FloatOps, FloatLaws, Between, max, min}
use cpp_mmo.Vector.{Vec3}
use cpp_mmo.QuadTree.{
  Bounds, Node, leaf, inner, bounds, contains, intersects, in_range, select, query_node,
}
use cpp_mmo.QuadTree.Shape.{count_in, Shape}
use cpp_mmo.QuadTree.Remove.{absent_outside}

pub count-select :
    (test : ℕ → Bool) (q : ℕ) (ids : List ℕ)
    → count q (select test ids) ≡ (if test q then count q ids else 0)
unfolding count select
count-select test q [] = ground arith
count-select test q (x ∷ ids) = elim (Bool-cases (q == x)) [
  | inl same ↦ let e = (==_iff q x).0 same in rw (← e) (ground (arith, count-select test q ids))
  | inr other ↦ ground (arith, count-select test q ids)
]

module _ {F : Type 0} ⦃fl : FloatOps F⦄ (laws : FloatLaws fl) where
  -- On one axis, the clamped centre lies between the centre and any point of the interval.
  closest-Between :
      (x hi c p : F) → fl.le x p ≡ true → fl.lt p hi ≡ true → Between fl c (max x (min c hi)) p
  unfolding max min
  closest-Between x hi c p h k = ground (
    arith,
    laws.lt_lem hi c,
    laws.lt_lem x hi,
    laws.lt_lem x c,
    laws.lt_lem p hi,
    laws.le_total c c,
    laws.le_total c p,
    laws.le_total hi c,
    laws.le_total p hi,
    laws.le_total c x,
    laws.le_trans hi x p,
  )

  -- Bounds with a point in range of the centre intersect the circle.
  intersects_of_near :
      (b : Bounds F) (center p : Vec3 F) (radius : F)
      → contains b p ≡ true
      → fl.le (fl.pow_sum (fl.sub p.x center.x) (fl.sub p.y center.y)) (fl.mul radius radius) ≡ true
      → intersects b center radius ≡ true
  unfolding contains intersects
  intersects_of_near b center p radius inside near =
      let bx =
        closest-Between b.x (fl.add b.x b.width) center.x p.x (ground arith) (ground arith) in
      let by =
        closest-Between b.y (fl.add b.y b.height) center.y p.y (ground arith) (ground arith) in
      laws.le_trans _ _ _ (laws.pow_sum_between center.x _ p.x center.y _ p.y bx by) near

  in_range_stored :
      (ps : Dict (Vec3 F)) (center : Vec3 F) (radius : F) (q : ℕ)
      → in_range ps center radius q ≡ true
      → (p : Vec3 F) × (find q ps ≡ some p)
        × (fl.le (fl.pow_sum (fl.sub p.x center.x) (fl.sub p.y center.y)) (fl.mul radius radius)
            ≡ true)
  unfolding in_range
  in_range_stored ps center radius q h = elim (Option-cases (find q ps)) [
    | inl gone ↦ ground arith
    | inr (p, at_q) ↦ (p, at_q, ground arith)
  ]

  -- A tree that the circle misses holds no id in range.
  missed :
      (ps : Dict (Vec3 F)) (n : ℕ) (t : Node F) (center : Vec3 F) (radius : F) (q : ℕ)
      → Shape ps n t
      → intersects (bounds t) center radius ≡ false
      → in_range ps center radius q ≡ true
      → count_in q t ≡ 0
  missed ps n t center radius q s miss h =
      let (p, at_q, near) = in_range_stored ps center radius q h in
      elim (Bool-cases (contains (bounds t) p)) [
        | inl inside ↦ ground (arith, intersects_of_near (bounds t) center p radius inside near)
        | inr outside ↦ absent_outside laws ps n t q p at_q s outside
      ]

  -- The query of a tree returns each of its ids that is in range as often as the tree holds it, and
  -- no other id.
  pub count-query_node :
      (ps : Dict (Vec3 F)) (n : ℕ) (t : Node F) (center : Vec3 F) (radius : F) (q : ℕ)
      → Shape ps n t
      → count q (query_node t ps center radius)
        ≡ (if in_range ps center radius q then count_in q t else 0)
  unfolding query_node count_in
  count-query_node ps n (leaf b ids) center radius q s =
      elim (Bool-cases (intersects b center radius)) [
        | inl hit ↦ rw hit (count-select (in_range ps center radius) q ids)
        | inr miss ↦
            rw miss (ground (arith, count_nil q, missed ps n (leaf b ids) center radius q s miss))
      ]
  count-query_node ps zero (inner b ids a c d e) center radius q s = absurd s
  count-query_node ps (suc n) (inner b ids a c d e) center radius q s =
      elim (Bool-cases (intersects b center radius)) [
        | inl hit ↦
            rw (hit, s.1, count-append, count-append, count-append, count_nil q)
              (ground (
                arith,
                count-query_node ps n a center radius q s.6,
                count-query_node ps n c center radius q s.7,
                count-query_node ps n d center radius q s.8,
                count-query_node ps n e center radius q s.9,
              ))
        | inr miss ↦ rw miss (
            ground
              (arith, count_nil q, missed ps (suc n) (inner b ids a c d e) center radius q s miss))
      ]

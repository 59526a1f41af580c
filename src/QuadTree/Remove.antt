-- ===== src/QuadTree/Remove.antt =====
-- Lemmas on `QuadTree::RemoveFromNode`.
use cpp_mmo.Base.{
  ℕ, zero, suc, ◌+◌, ◌≤◌, ◌≡◌, refl, sym, ◌∙◌, inl, inr, Bool, true, false, some, List, [], ◌∷◌,
  ◌&&◌, arith, length, count, count_nil, All, Bool-cases, to_nat, ◌==◌, ==_iff, leb,
}
use cpp_mmo.Base.Dict.{Dict, find}
use cpp_mmo.Float.{FloatOps, FloatLaws}
use cpp_mmo.Vector.{Vec3}
use cpp_mmo.QuadTree.{
  Bounds, Node, leaf, inner, nw, ne, sw, se, bounds, contains, holds, drop_first, remove_from_node,
}
use cpp_mmo.QuadTree.Shape.{count_in, Fits, Located, Shape, quadrant_outside}

holds-count : (p : ℕ) (ids : List ℕ) → holds p ids ≡ leb 1 (count p ids)
unfolding holds count
holds-count p [] = refl
holds-count p (q ∷ ids) = ground (arith, holds-count p ids)

count-drop_first :
    (p q : ℕ) (ids : List ℕ)
    → holds p ids ≡ true
    → to_nat (q == p) + count q (drop_first p ids) ≡ count q ids
unfolding holds drop_first count
count-drop_first p q [] h = cc
count-drop_first p q (x ∷ ids) h = ground (arith, count-drop_first p q ids)

length-drop_first-le : (p : ℕ) (ids : List ℕ) → length (drop_first p ids) ≤ length ids
unfolding drop_first
length-drop_first-le p [] = omega arith
length-drop_first-le p (q ∷ ids) = ground (arith, length-drop_first-le p ids)

All-drop_first {ℓ} : (P : ℕ → Type ℓ) (p : ℕ) (ids : List ℕ) → All P ids → All P (drop_first p ids)
unfolding drop_first
All-drop_first P p [] h = h
All-drop_first P p (q ∷ ids) h = elim (Bool-cases (p == q)) [
  | inl same ↦ rw same h.1
  | inr other ↦ rw other (h.0, All-drop_first P p ids h.1)
]

Fits-drop_first : (n p : ℕ) (ids : List ℕ) → Fits n ids → Fits n (drop_first p ids)
Fits-drop_first zero p ids h = tt
Fits-drop_first (suc n) p ids h = omega (arith, length-drop_first-le p ids)

module _ {F : Type 0} ⦃fl : FloatOps F⦄ where
  -- What a removal of `pid` from `t`, with `n` levels left, may do.
  pub record Removed (ps : Dict (Vec3 F)) (n : ℕ) (t : Node F) (pid : ℕ) (r : Node F × Bool)
      : Type 0 where
    pub shape : Shape ps n r.0
    pub bounds_kept : bounds r.0 ≡ bounds t
    pub found : r.1 ≡ leb 1 (count_in pid t)
    pub counted : (q : ℕ) → to_nat (r.1 && q == pid) + count_in q r.0 ≡ count_in q t

  absent_from_leaf :
      (ps : Dict (Vec3 F)) (b : Bounds F) (pid : ℕ) (p : Vec3 F) (ids : List ℕ)
      → find pid ps ≡ some p
      → contains b p ≡ false
      → All (Located ps b) ids
      → count pid ids ≡ 0
  unfolding count
  absent_from_leaf ps b pid p [] known out all = refl
  absent_from_leaf ps b pid p (q ∷ ids) known out ((r, at_q, inside), all) =
      let rest = absent_from_leaf ps b pid p ids known out all in
      elim (Bool-cases (pid == q)) [
        | inl same ↦
            let at_pid : find pid ps ≡ some r = rw ((==_iff pid q).0 same) at_q in
            let e : p ≡ r = ground (arith, known, at_pid) in
            let in_b : contains b p ≡ true = rw e inside in ground arith
        | inr other ↦ rw (other, rest)
      ]

module _ {F : Type 0} ⦃fl : FloatOps F⦄ (laws : FloatLaws fl) where
  -- An id whose stored position is outside the bounds of a tree is not in the tree.
  pub absent_outside :
      (ps : Dict (Vec3 F)) (n : ℕ) (t : Node F) (pid : ℕ) (p : Vec3 F)
      → find pid ps ≡ some p
      → Shape ps n t
      → contains (bounds t) p ≡ false
      → count_in pid t ≡ 0
  unfolding count_in
  absent_outside ps n (leaf b ids) pid p known s out = absent_from_leaf ps b pid p ids known out s.1
  absent_outside ps zero (inner b ids a c d e) pid p known s out = absurd s
  absent_outside ps (suc n) (inner b ids a c d e) pid p known
        (h, hi, ha, hc, hd, he, sa, sc, sd, sf) out =
      rw hi (
        omega (
          arith,
          count_nil pid,
          absent_outside ps n a pid p known sa (rw ha (quadrant_outside laws n b nw p h out)),
          absent_outside ps n c pid p known sc (rw hc (quadrant_outside laws n b ne p h out)),
          absent_outside ps n d pid p known sd (rw hd (quadrant_outside laws n b sw p h out)),
          absent_outside ps n e pid p known sf (rw he (quadrant_outside laws n b se p h out)),
        ))

  -- The four calls of an inner node, of which the first that succeeds counts.
  remove_from_first-Removed :
      (n : ℕ) (b : Bounds F) (ids : List ℕ) (a c d e : Node F) (pid : ℕ) (p : Vec3 F)
      (ps : Dict (Vec3 F))
      → find pid ps ≡ some p
      → Shape ps (suc n) (inner b ids a c d e)
      → Removed ps n a pid (remove_from_node a pid p)
      → Removed ps n c pid (remove_from_node c pid p)
      → Removed ps n d pid (remove_from_node d pid p)
      → Removed ps n e pid (remove_from_node e pid p)
      → Removed ps (suc n) (inner b ids a c d e) pid (remove_from_node (inner b ids a c d e) pid p)
  unfolding remove_from_node count_in
  remove_from_first-Removed n b ids a c d e pid p ps known s ra rc rd re =
      let (h, hi, ha, hc, hd, he, sa, sc, sd, sf) = s in
      elim (Bool-cases (contains b p)) [
        | inr outside ↦ rw outside (record {
          shape = s;
          bounds_kept = refl;
          found = rw (absent_outside ps (suc n) (inner b ids a c d e) pid p known s outside) refl;
          counted = λ q. omega arith;
        })
        | inl inside ↦ elim (Bool-cases (remove_from_node a pid p).1) [
          | inl hit ↦
              rw (inside, hit)
                (record {
                  shape = (h, hi, ra.bounds_kept ∙ ha, hc, hd, he, ra.shape, sc, sd, sf);
                  bounds_kept = refl;
                  found = ground (arith, ra.found);
                  counted = λ q. ground (arith, ra.counted q);
                })
          | inr miss_a ↦ elim (Bool-cases (remove_from_node c pid p).1) [
            | inl hit ↦
                rw (inside, miss_a, hit)
                  (record {
                    shape = (h, hi, ha, rc.bounds_kept ∙ hc, hd, he, sa, rc.shape, sd, sf);
                    bounds_kept = refl;
                    found = ground (arith, rc.found);
                    counted = λ q. ground (arith, rc.counted q);
                  })
            | inr miss_c ↦ elim (Bool-cases (remove_from_node d pid p).1) [
              | inl hit ↦
                  rw (inside, miss_a, miss_c, hit)
                    (record {
                      shape = (h, hi, ha, hc, rd.bounds_kept ∙ hd, he, sa, sc, rd.shape, sf);
                      bounds_kept = refl;
                      found = ground (arith, rd.found);
                      counted = λ q. ground (arith, rd.counted q);
                    })
              | inr miss_d ↦ elim (Bool-cases (remove_from_node e pid p).1) [
                | inl hit ↦
                    rw (inside, miss_a, miss_c, miss_d, hit)
                      (record {
                        shape = (h, hi, ha, hc, hd, re.bounds_kept ∙ he, sa, sc, sd, re.shape);
                        bounds_kept = refl;
                        found = ground (arith, re.found);
                        counted = λ q. ground (arith, re.counted q);
                      })
                | inr miss_e ↦
                    rw (inside, miss_a, miss_c, miss_d, miss_e)
                      (record {
                        shape = s;
                        bounds_kept = refl;
                        found =
                            rw (hi, count_nil pid)
                              (ground (arith, ra.found, rc.found, rd.found, re.found));
                        counted = λ q. omega arith;
                      })
              ]
            ]
          ]
        ]
      ]

  -- Removal under a node keeps the shape and the bounds; it succeeds exactly if the id is there,
  -- and then counts one less of it.
  pub remove_from_node-Removed :
      (n : ℕ) (t : Node F) (pid : ℕ) (p : Vec3 F) (ps : Dict (Vec3 F))
      → find pid ps ≡ some p
      → Shape ps n t
      → Removed ps n t pid (remove_from_node t pid p)
  unfolding remove_from_node count_in
  remove_from_node-Removed n (leaf b ids) pid p ps known (h, all, fits) =
      elim (Bool-cases (contains b p)) [
        | inl inside ↦ elim (Bool-cases (holds pid ids)) [
          | inl there ↦
              rw (inside, there)
                (record {
                  shape = (
                    h,
                    All-drop_first (Located ps b) pid ids all,
                    Fits-drop_first n pid ids fits,
                  );
                  bounds_kept = refl;
                  found = sym there ∙ holds-count pid ids;
                  counted = λ q. ground (arith, count-drop_first pid q ids);
                })
          | inr absent ↦
              rw (inside, absent)
                (record {
                  shape = (h, all, fits);
                  bounds_kept = refl;
                  found = sym absent ∙ holds-count pid ids;
                  counted = λ q. omega arith;
                })
        ]
        | inr outside ↦ rw outside (record {
          shape = (h, all, fits);
          bounds_kept = refl;
          found = rw (absent_from_leaf ps b pid p ids known outside all) refl;
          counted = λ q. omega arith;
        })
      ]
  remove_from_node-Removed zero (inner b ids a c d e) pid p ps known s = absurd s
  remove_from_node-Removed (suc n) (inner b ids a c d e) pid p ps known s =
      remove_from_first-Removed n b ids a c d e pid p ps known s
        (remove_from_node-Removed n a pid p ps known s.6)
        (remove_from_node-Removed n c pid p ps known s.7)
        (remove_from_node-Removed n d pid p ps known s.8)
        (remove_from_node-Removed n e pid p ps known s.9)

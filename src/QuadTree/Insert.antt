-- ===== src/QuadTree/Insert.antt =====
-- Lemmas on `QuadTree::InsertIntoNode` and what it calls.
use cpp_mmo.Base.{
  ℕ, zero, suc, ◌+◌, ◌≡◌, refl, ◌∙◌, ap, inl, inr, true, Option, none, some, List, [], ◌∷◌, ◌++◌,
  arith, length, count, count-append, All, All-append, Bool-cases, to_nat, ◌==◌, ==_iff, ltb,
  if◌then◌else◌,
}
use cpp_mmo.Base.Dict.{Dict, find}
use cpp_mmo.Float.{FloatOps, FloatLaws}
use cpp_mmo.Vector.{Vec3}
use cpp_mmo.QuadTree.{
  Bounds, Node, leaf, inner, Corner, nw, ne, sw, se, bounds, contains, quadrant, choose,
  max_players_per_node, create_node, subdivide_node, fetch, place, reinsert, insert_into_node,
}
use cpp_mmo.QuadTree.Shape.{count_in, HalvesExactly, Located, Shape, choose-quadrant}

count_snoc :
    (q pid : ℕ) (ids : List ℕ) → count q (ids ++ pid ∷ []) ≡ to_nat (q == pid) + count q ids
unfolding count
count_snoc q pid ids = omega (arith, count-append q ids (pid ∷ []))

count_in-subdivide :
    {F : Type 0} ⦃fl : FloatOps F⦄ (q : ℕ) (b : Bounds F) → count_in q (subdivide_node b) ≡ 0
unfolding count_in subdivide_node count
count_in-subdivide q b = refl

module _ {F : Type 0} ⦃fl : FloatOps F⦄ where
  abbrev IsInner : Node F → Type 0
  IsInner (leaf b ids) = ⊥
  IsInner (inner b ids a c d e) = Unit

  -- What an insertion of `pid` into `t`, with `n` levels left, may do.
  pub record Inserted (ps : Dict (Vec3 F)) (n : ℕ) (t : Node F) (pid : ℕ)
      (r : Node F × Dict (Vec3 F)) : Type 0 where
    pub map_kept : r.1 ≡ ps
    pub shape : Shape ps n r.0
    pub bounds_kept : bounds r.0 ≡ bounds t
    pub counted : (q : ℕ) → count_in q r.0 ≡ to_nat (q == pid) + count_in q t

module _ {F : Type 0} ⦃fl : FloatOps F⦄ where
  abbrev Step :
      (Node F → ℕ → Vec3 F → Dict (Vec3 F) → Node F × Dict (Vec3 F))
      → Dict (Vec3 F)
      → ℕ
      → ℕ
      → Vec3 F
      → Type 0
  Step insert ps n pid p =
      (t : Node F)
      → Shape ps n t
      → contains (bounds t) p ≡ true
      → Inserted ps n t pid (insert t pid p ps)

  -- The insertion into one child, seen from its parent.
  place_at :
      (insert : Node F → ℕ → Vec3 F → Dict (Vec3 F) → Node F × Dict (Vec3 F)) (ps : Dict (Vec3 F))
      (n pid : ℕ) (p : Vec3 F)
      → Step insert ps n pid p
      → (b : Bounds F) (ids : List ℕ) (a c d e : Node F) → Shape ps (suc n) (inner b ids a c d e)
      → (k : Corner) → choose a c d e p ≡ some k
      → contains (quadrant k b) p ≡ true
      → Inserted ps (suc n) (inner b ids a c d e) pid (place insert (inner b ids a c d e) pid p ps)
  unfolding place count_in
  place_at insert ps n pid p step b ids a c d e (h, hi, ha, hc, hd, he, sa, sc, sd, sf) nw chosen
        i =
      let r = step a sa (rw ha i) in
      rw (chosen, place)
        (record {
          map_kept = r.map_kept;
          shape = (h, hi, r.bounds_kept ∙ ha, hc, hd, he, r.shape, sc, sd, sf);
          bounds_kept = refl;
          counted = λ q. omega (arith, r.counted q);
        })
  place_at insert ps n pid p step b ids a c d e (h, hi, ha, hc, hd, he, sa, sc, sd, sf) ne chosen
        i =
      let r = step c sc (rw hc i) in
      rw (chosen, place)
        (record {
          map_kept = r.map_kept;
          shape = (h, hi, ha, r.bounds_kept ∙ hc, hd, he, sa, r.shape, sd, sf);
          bounds_kept = refl;
          counted = λ q. omega (arith, r.counted q);
        })
  place_at insert ps n pid p step b ids a c d e (h, hi, ha, hc, hd, he, sa, sc, sd, sf) sw chosen
        i =
      let r = step d sd (rw hd i) in
      rw (chosen, place)
        (record {
          map_kept = r.map_kept;
          shape = (h, hi, ha, hc, r.bounds_kept ∙ hd, he, sa, sc, r.shape, sf);
          bounds_kept = refl;
          counted = λ q. omega (arith, r.counted q);
        })
  place_at insert ps n pid p step b ids a c d e (h, hi, ha, hc, hd, he, sa, sc, sd, sf) se chosen
        i =
      let r = step e sf (rw he i) in
      rw (chosen, place)
        (record {
          map_kept = r.map_kept;
          shape = (h, hi, ha, hc, hd, r.bounds_kept ∙ he, sa, sc, sd, r.shape);
          bounds_kept = refl;
          counted = λ q. omega (arith, r.counted q);
        })

  place-IsInner :
      (insert : Node F → ℕ → Vec3 F → Dict (Vec3 F) → Node F × Dict (Vec3 F)) (t : Node F) (q : ℕ)
      (r : Vec3 F) (ps : Dict (Vec3 F))
      → IsInner t
      → IsInner (place insert t q r ps).0
  unfolding place
  place-IsInner insert (leaf b ids) q r ps w = absurd w
  place-IsInner insert (inner b ids a c d e) q r ps w = go (choose a c d e r) refl
    where
      go :
          (o : Option Corner)
          → choose a c d e r ≡ o
          → IsInner (place insert (inner b ids a c d e) q r ps).0
      go none h = rw (h, place) tt
      go (some nw) h = rw (h, place) tt
      go (some ne) h = rw (h, place) tt
      go (some sw) h = rw (h, place) tt
      go (some se) h = rw (h, place) tt

  -- The position that the loop reads for an id is the stored one, and the map stays as it is.
  read_position :
      (q pid : ℕ) (p r : Vec3 F) (ps : Dict (Vec3 F))
      → find pid ps ≡ some p
      → find q ps ≡ some r
      → (if q == pid then (p, ps) else fetch q ps) ≡ (r, ps)
  unfolding fetch
  read_position q pid p r ps known at_q = elim (Bool-cases (q == pid)) [
    | inl same ↦
        let e = (==_iff q pid).0 same in
        let at_p : find pid ps ≡ some r = rw (← e) at_q in rw same (ground (arith, known, at_p))
    | inr other ↦ rw (other, at_q, fetch)
  ]

  reinsert_step :
      (insert : Node F → ℕ → Vec3 F → Dict (Vec3 F) → Node F × Dict (Vec3 F)) (ps : Dict (Vec3 F))
      (q pid : ℕ) (p r : Vec3 F) (t : Node F) (ids : List ℕ)
      → find pid ps ≡ some p
      → find q ps ≡ some r
      → (place insert t q r ps).1 ≡ ps
      → reinsert insert pid p (q ∷ ids) t ps
        ≡ reinsert insert pid p ids (place insert t q r ps).0 ps
  unfolding reinsert
  reinsert_step insert ps q pid p r t ids known at_q kept =
      ap
        (λ (x : Vec3 F × Dict (Vec3 F)).
          let y = place insert t q x.0 x.1 in reinsert insert pid p ids y.0 y.1)
        (read_position q pid p r ps known at_q)
      ∙ ap (λ m. reinsert insert pid p ids (place insert t q r ps).0 m) kept

module _ {F : Type 0} ⦃fl : FloatOps F⦄ (laws : FloatLaws fl) where
  -- The insertion into the child that `choose` finds.
  place-Inserted :
      (insert : Node F → ℕ → Vec3 F → Dict (Vec3 F) → Node F × Dict (Vec3 F)) (ps : Dict (Vec3 F))
      (n pid : ℕ) (p : Vec3 F)
      → Step insert ps n pid p
      → (t : Node F) → IsInner t
      → Shape ps (suc n) t
      → contains (bounds t) p ≡ true
      → Inserted ps (suc n) t pid (place insert t pid p ps)
  place-Inserted insert ps n pid p step (leaf b ids) w s i = absurd w
  place-Inserted insert ps n pid p step (inner b ids a c d e) w s i =
      let (k, chosen, inside) = choose-quadrant laws n b a c d e p s.0 s.2 s.3 s.4 s.5 i in
      place_at insert ps n pid p step b ids a c d e s k chosen inside

  -- The loop over the ids of a leaf that is split.
  reinsert-counted :
      (insert : Node F → ℕ → Vec3 F → Dict (Vec3 F) → Node F × Dict (Vec3 F)) (ps : Dict (Vec3 F))
      (n pid : ℕ) (p : Vec3 F)
      → ((q : ℕ) (r : Vec3 F) → find q ps ≡ some r → Step insert ps n q r)
      → find pid ps ≡ some p
      → (ids : List ℕ) (t : Node F) → All (Located ps (bounds t)) ids
      → IsInner t
      → Shape ps (suc n) t
      → let r = reinsert insert pid p ids t ps in
        (r.1 ≡ ps)
        × Shape ps (suc n) r.0
        × (bounds r.0 ≡ bounds t)
        × ((q : ℕ) → count_in q r.0 ≡ count q ids + count_in q t)
  unfolding reinsert count
  reinsert-counted insert ps n pid p step known [] t all w s = (refl, s, refl, λ q. omega arith)
  reinsert-counted insert ps n pid p step known (q ∷ ids) t ((r, at_q, inside), all) w s =
      let v = place-Inserted insert ps n q r (step q r at_q) t w s inside in
      let inner_still = place-IsInner insert t q r ps w in
      let rest =
        reinsert-counted insert ps n pid p step known ids (place insert t q r ps).0
          (rw v.bounds_kept all) inner_still v.shape in
      rw (reinsert_step insert ps q pid p r t ids known at_q v.map_kept)
        (rest.0, rest.1, rest.2 ∙ v.bounds_kept, λ j. omega (arith, rest.3 j, v.counted j))

  subdivide-Shape :
      (ps : Dict (Vec3 F)) (n : ℕ) (b : Bounds F)
      → HalvesExactly (suc n) b
      → Shape ps (suc n) (subdivide_node b)
  unfolding subdivide_node create_node
  subdivide-Shape ps n b h = (
    h,
    refl,
    refl,
    refl,
    refl,
    refl,
    empty n (quadrant nw b) h.2,
    empty n (quadrant ne b) h.3,
    empty n (quadrant sw b) h.4,
    empty n (quadrant se b) h.5,
  )
    where
      empty : (n : ℕ) (b : Bounds F) → HalvesExactly n b → Shape ps n (leaf b [])
      empty zero b h = (h, tt, tt)
      empty (suc n) b h = (h, tt, omega arith)

  -- Insertion under a node keeps the position map, the bounds and the shape, and counts one more
  -- of the inserted id.
  pub insert_into_node-Inserted :
      (n : ℕ) (t : Node F) (pid : ℕ) (p : Vec3 F) (ps : Dict (Vec3 F))
      → find pid ps ≡ some p
      → Shape ps n t
      → contains (bounds t) p ≡ true
      → Inserted ps n t pid (insert_into_node n t pid p ps)
  unfolding insert_into_node count_in
  insert_into_node-Inserted zero (leaf b ids) pid p ps known (h, all, fits) i = record {
    map_kept = refl;
    shape = (h, All-append (Located ps b) ids (pid ∷ []) all ((p, known, i), tt), tt);
    bounds_kept = refl;
    counted = λ q. count_snoc q pid ids;
  }
  insert_into_node-Inserted zero (inner b ids a c d e) pid p ps known s i = absurd s
  insert_into_node-Inserted (suc n) (leaf b ids) pid p ps known (h, all, fits) i =
      let all' = All-append (Located ps b) ids (pid ∷ []) all ((p, known, i), tt) in
      elim (Bool-cases (ltb max_players_per_node (length (ids ++ pid ∷ [])))) [
        | inl full ↦
            let r =
              reinsert-counted (insert_into_node n) ps n pid p
                (λ q r at_q t s i. insert_into_node-Inserted n t q r ps at_q s i) known
                (ids ++ pid ∷ []) (subdivide_node b) (unfold subdivide_node in all')
                (unfold subdivide_node in tt) (subdivide-Shape ps n b h) in
            rw full (record {
              map_kept = r.0;
              shape = r.1;
              bounds_kept = r.2 ∙ (unfold subdivide_node in refl);
              counted = λ q. omega (arith, r.3 q, count_snoc q pid ids, count_in-subdivide q b);
            })
        | inr room ↦ rw room (record {
          map_kept = refl;
          shape = (h, all', ground arith);
          bounds_kept = refl;
          counted = λ q. count_snoc q pid ids;
        })
      ]
  insert_into_node-Inserted (suc n) (inner b ids a c d e) pid p ps known s i =
      place-Inserted (insert_into_node n) ps n pid p
        (λ t s i. insert_into_node-Inserted n t pid p ps known s i) (inner b ids a c d e) tt s i

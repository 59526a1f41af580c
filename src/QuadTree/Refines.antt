-- ===== src/QuadTree/Refines.antt =====
-- Theorems on the public operations of `QuadTree`.
use cpp_mmo.Base.{
  ◌||◌, ℕ, zero, suc, ◌+◌, ◌<◌, ◌≡◌, refl, sym, ap, ◌∙◌, ◌≢◌, inl, inr, Bool, true, false, none,
  some, List, [], ◌∷◌, ◌&&◌, arith, count, count_nil, All, Bool-cases, Option-cases, to_nat, ◌==◌,
  ==_iff, ==_refl, if◌then◌else◌, leb,
}
use mathlib.Core.Path.{subst}
use cpp_mmo.Base.Dict.{Dict, find, store, erase, has_some, find-store, find-erase}
use cpp_mmo.Float.{FloatOps, FloatLaws}
use cpp_mmo.Vector.{Vec3}
use cpp_mmo.QuadTree.{
  Bounds, Node, leaf, inner, QuadTree, bounds, max_depth, contains, in_range, new, insert, remove,
  update, query, clear, remove_from_node,
}
use cpp_mmo.QuadTree.Shape.{count_in, HalvesExactly, Located, Shape}
use cpp_mmo.QuadTree.Insert.{insert_into_node-Inserted}
use cpp_mmo.QuadTree.Remove.{remove_from_node-Removed}
use cpp_mmo.QuadTree.Query.{count-query_node}

module _ {F : Type 0} ⦃fl : FloatOps F⦄ where
  -- The tree is in shape, and an id stands in it once if it has a stored position, else never.
  pub record IsValid (t : QuadTree F) : Type 0 where
    pub shape : Shape t.positions max_depth t.root
    pub counted : (q : ℕ) → count_in q t.root ≡ to_nat (has_some (find q t.positions))

  -- The shape speaks of the stored positions of the tree's own ids only.
  All-Located :
      (ps ps' : Dict (Vec3 F)) (b : Bounds F) (ids : List ℕ)
      → ((q : ℕ) → 0 < count q ids → find q ps' ≡ find q ps)
      → All (Located ps b) ids
      → All (Located ps' b) ids
  unfolding count
  All-Located ps ps' b [] same h = tt
  All-Located ps ps' b (x ∷ ids) same ((p, at_x, inside), all) = (
    (p, same x (rw (==_refl x) (omega arith)) ∙ at_x, inside),
    All-Located ps ps' b ids (λ q k. same q (omega arith)) all,
  )

  Shape-transfer :
      (ps ps' : Dict (Vec3 F)) (n : ℕ) (t : Node F)
      → ((q : ℕ) → 0 < count_in q t → find q ps' ≡ find q ps)
      → Shape ps n t
      → Shape ps' n t
  unfolding count_in
  Shape-transfer ps ps' n (leaf b ids) same (h, all, fits) =
      (h, All-Located ps ps' b ids same all, fits)
  Shape-transfer ps ps' zero (inner b ids a c d e) same s = absurd s
  Shape-transfer ps ps' (suc n) (inner b ids a c d e) same (h, hi, ha, hc, hd, he, sa, sc, sd, sf) =
      (
        h,
        hi,
        ha,
        hc,
        hd,
        he,
        Shape-transfer ps ps' n a (λ q k. same q (omega arith)) sa,
        Shape-transfer ps ps' n c (λ q k. same q (omega arith)) sc,
        Shape-transfer ps ps' n d (λ q k. same q (omega arith)) sd,
        Shape-transfer ps ps' n e (λ q k. same q (omega arith)) sf,
      )

  empty-IsValid :
      (b : Bounds F)
      → HalvesExactly max_depth b
      → IsValid (record { root = leaf b []; positions = [] })
  unfolding count_in find
  empty-IsValid b h = record { shape = (h, tt, omega arith); counted = count_nil }

  Shape-HalvesExactly :
      (ps : Dict (Vec3 F)) (n : ℕ) (t : Node F) → Shape ps n t → HalvesExactly n (bounds t)
  Shape-HalvesExactly ps n (leaf b ids) s = s.0
  Shape-HalvesExactly ps zero (inner b ids a c d e) s = absurd s
  Shape-HalvesExactly ps (suc n) (inner b ids a c d e) s = s.0

  -- An index that the constructor makes, of bounds that halve exactly, is valid and has those bounds,
  -- and both sizes are positive.
  pub new-IsValid :
      (x y width height : F) (t : QuadTree F)
      → HalvesExactly max_depth (record { x = x; y = y; width = width; height = height })
      → new x y width height ≡ some t
      → IsValid t
        × (bounds t.root ≡ record { x = x; y = y; width = width; height = height })
        × (fl.le width (fl.of_nat 0) ≡ false)
        × (fl.le height (fl.of_nat 0) ≡ false)
  unfolding new
  new-IsValid x y width height t h e = elim (Bool-cases (fl.le width (fl.of_nat 0))) [
    | inl flat ↦ absurd (ground arith)
    | inr wide ↦ elim (Bool-cases (fl.le height (fl.of_nat 0))) [
      | inl flat ↦ absurd (ground arith)
      | inr tall ↦
          let b : Bounds F = record { x = x; y = y; width = width; height = height } in
          let made : record { root = leaf b []; positions = [] } ≡ t = ground arith in
          (
            subst IsValid made (empty-IsValid b h),
            ap (λ (u : QuadTree F). bounds u.root) (sym made),
            wide,
            tall,
          )
    ]
  ]

  pub positions-new :
      (x y width height : F) (t : QuadTree F) → new x y width height ≡ some t → t.positions ≡ []
  unfolding new
  positions-new x y width height t e =
      elim (Bool-cases (fl.le width (fl.of_nat 0) || fl.le height (fl.of_nat 0))) [
        | inl flat ↦ absurd (ground arith)
        | inr solid ↦
            let b : Bounds F = record { x = x; y = y; width = width; height = height } in
            let made : record { root = leaf b []; positions = [] } ≡ t = ground arith in
            ap (λ (u : QuadTree F). u.positions) (sym made)
      ]

  -- `Clear` forgets every player and every subdivision and keeps the bounds.
  clear-IsValid :
      (t : QuadTree F)
      → IsValid t
      → IsValid (clear t)
        × (bounds (clear t).root ≡ bounds t.root)
        × ((q : ℕ) → find q (clear t).positions ≡ none)
  unfolding clear find
  clear-IsValid t v = (
    empty-IsValid (bounds t.root) (Shape-HalvesExactly t.positions max_depth t.root v.shape),
    refl,
    λ q. refl,
  )

  -- An id that the tree holds has a stored position.
  stored_of_counted :
      (t : QuadTree F) (q : ℕ) → IsValid t → 0 < count_in q t.root → find q t.positions ≢ none
  stored_of_counted t q v k gone = ground (arith, v.counted q)

  counted_without :
      (t : QuadTree F) (pid : ℕ) (p : Vec3 F)
      → IsValid t
      → find pid t.positions ≡ some p
      → (q : ℕ) (r : Node F × Bool) → r.1 ≡ leb 1 (count_in pid t.root)
      → to_nat (r.1 && q == pid) + count_in q r.0 ≡ count_in q t.root
      → count_in q r.0 ≡ to_nat (has_some (if q == pid then none else find q t.positions))
  counted_without t pid p v at_pid q r found counted = elim (Bool-cases (q == pid)) [
    | inl same ↦
        let e : find q t.positions ≡ some p = rw ((==_iff q pid).0 same) at_pid in
        rw same (ground (arith, v.counted q, v.counted pid))
    | inr other ↦ rw other (ground (arith, v.counted q))
  ]

  erased_kept :
      (ps : Dict (Vec3 F)) (pid q : ℕ) (n : ℕ)
      → n ≡ to_nat (has_some (if q == pid then none else find q ps))
      → 0 < n
      → find q (erase pid ps) ≡ find q ps
  erased_kept ps pid q n e k = elim (Bool-cases (q == pid)) [
    | inl same ↦ absurd (ground arith)
    | inr other ↦ find-erase pid q ps ∙ rw other
  ]

module _ {F : Type 0} ⦃fl : FloatOps F⦄ (laws : FloatLaws fl) where
  -- A valid index that a player is inserted into, who is not in it, at a position inside its bounds,
  -- stays valid, keeps its bounds, and has that player's position besides those it had.
  pub insert-IsValid :
      (t : QuadTree F) (pid : ℕ) (p : Vec3 F)
      → IsValid t
      → find pid t.positions ≡ none
      → contains (bounds t.root) p ≡ true
      → IsValid (insert t pid p)
        × (bounds (insert t pid p).root ≡ bounds t.root)
        × ((q : ℕ)
            → find q (insert t pid p).positions ≡ (if q == pid then some p else find q t.positions))
  unfolding insert
  insert-IsValid t pid p v fresh inside =
      let ps' = store pid p t.positions in
      let r =
        insert_into_node-Inserted laws max_depth t.root pid p ps'
          (rw (find-store, ==_refl pid) refl)
          (Shape-transfer t.positions ps' max_depth t.root
            (λ q k. kept q (stored_of_counted t q v k)) v.shape)
          inside in
      (
        record {
          shape = rw r.map_kept r.shape;
          counted = λ q. rw (r.map_kept, r.counted q, find-store) (holds_once q);
        },
        r.bounds_kept,
        λ q. rw r.map_kept (find-store pid q p t.positions),
      )
    where
      kept :
          (q : ℕ)
          → find q t.positions ≢ none
          → find q (store pid p t.positions) ≡ find q t.positions
      kept q k = elim (Bool-cases (q == pid)) [
        | inl same ↦ absurd (k (rw ((==_iff q pid).0 same) fresh))
        | inr other ↦ find-store pid q p t.positions ∙ rw other
      ]

      holds_once :
          (q : ℕ)
          → to_nat (q == pid) + count_in q t.root
            ≡ to_nat (has_some (if q == pid then some p else find q t.positions))
      holds_once q = elim (Bool-cases (q == pid)) [
        | inl same ↦
            let e : find q t.positions ≡ none = rw ((==_iff q pid).0 same) fresh in
            rw same (rw (v.counted q, e) (omega arith))
        | inr other ↦ rw other (rw (v.counted q) (omega arith))
      ]

  -- A valid index that a player is removed from, who may be absent, stays valid, keeps its bounds, and
  -- has the positions of the other players only.
  pub remove-IsValid :
      (t : QuadTree F) (pid : ℕ)
      → IsValid t
      → IsValid (remove t pid)
        × (bounds (remove t pid).root ≡ bounds t.root)
        × ((q : ℕ)
            → find q (remove t pid).positions ≡ (if q == pid then none else find q t.positions))
  unfolding remove
  remove-IsValid t pid v = elim (Option-cases (find pid t.positions)) [
    | inl gone ↦
        rw (gone, remove)
          (
            v,
            refl,
            λ q. elim (Bool-cases (q == pid)) [
              | inl same ↦ rw same (rw ((==_iff q pid).0 same) gone)
              | inr other ↦ rw other
            ],
          )
    | inr (p, at_pid) ↦
        let r = remove_from_node-Removed laws max_depth t.root pid p t.positions at_pid v.shape in
        let counts = λ (q : ℕ).
          counted_without t pid p v at_pid q (remove_from_node t.root pid p) r.found
            (r.counted q) in
        rw (at_pid, remove)
          (
            record {
              shape =
                  Shape-transfer t.positions (erase pid t.positions) max_depth
                    (remove_from_node t.root pid p).0
                    (λ q k. erased_kept t.positions pid q _ (counts q) k) r.shape;
              counted = λ q. rw find-erase (counts q);
            },
            r.bounds_kept,
            λ q. find-erase pid q t.positions,
          )
  ]

  -- `Update` of a valid index, for a player known or new and a position inside the bounds, leaves it
  -- valid, with its bounds, and with that position for the player and the old ones for the others.
  pub update-IsValid :
      (t : QuadTree F) (pid : ℕ) (p : Vec3 F)
      → IsValid t
      → contains (bounds t.root) p ≡ true
      → IsValid (update t pid p)
        × (bounds (update t pid p).root ≡ bounds t.root)
        × ((q : ℕ)
            → find q (update t pid p).positions ≡ (if q == pid then some p else find q t.positions))
  update-IsValid t pid p v inside =
      let (valid, same_bounds, gone) = remove-IsValid t pid v in
      let (valid', same_bounds', there) =
        insert-IsValid (remove t pid) pid p valid (gone pid ∙ rw (==_refl pid) refl)
          (rw same_bounds inside) in
      unfold update in
      (
        valid',
        same_bounds' ∙ same_bounds,
        λ q.
            there q
            ∙ rw (gone q)
                (elim (Bool-cases (q == pid)) [ inl same ↦ rw same | inr other ↦ rw other ]),
      )

  -- A query of a valid index returns each player whose stored position is in range exactly once,
  -- and no other id.
  pub query-refines :
      (t : QuadTree F) (center : Vec3 F) (radius : F) (q : ℕ)
      → IsValid t
      → count q (query t center radius) ≡ to_nat (in_range t.positions center radius q)
  unfolding query in_range
  query-refines t center radius q v =
      count-query_node laws t.positions max_depth t.root center radius q v.shape
      ∙ ground (arith, v.counted q)

-- ===== src/QuadTree.antt =====
-- src/Game/Spatial/QuadTree.h and QuadTree.cpp. The four child pointers are either all set or
-- all null, so a node is a leaf or an inner node. `insert_into_node` counts the levels that are
-- left, MAX_DEPTH - depth, where the source counts the depth.
pub mod Shape
pub mod Insert
pub mod Remove
pub mod Query
pub mod Refines
pub mod Defects
use cpp_mmo.Base.{
  ℕ, zero, suc, Bool, true, false, ◌&&◌, ◌||◌, Option, none, some, List, [], ◌∷◌, ◌++◌, ◌+◌, ltb,
  ◌==◌, if◌then◌else◌, length,
}
use cpp_mmo.Base.Dict.{Dict, find, store, erase}
use cpp_mmo.Float.{FloatOps, max, min}
use cpp_mmo.Vector.{Vec3, origin}

pub record Bounds (F : Type 0) : Type 0 where
  pub x : F
  pub y : F
  pub width : F
  pub height : F

pub data Node (F : Type 0) : Type 0 where
  leaf : Bounds F → List ℕ → Node F
  inner : Bounds F → List ℕ → Node F → Node F → Node F → Node F → Node F

pub record QuadTree (F : Type 0) : Type 0 where
  pub root : Node F
  pub positions : Dict (Vec3 F)

pub data Corner : Type 0 where
  nw ne sw se : Corner

abbrev pub max_players_per_node : ℕ
max_players_per_node = 4

abbrev pub max_depth : ℕ
max_depth = 6

abbrev pub bounds : {F : Type 0} → Node F → Bounds F
bounds (leaf b ids) = b
bounds (inner b ids a c d e) = b

-- `std::find` on the vector of ids.
unfoldable pub holds : ℕ → List ℕ → Bool
holds p [] = false
holds p (q ∷ qs) = p == q || holds p qs

-- `erase(it)` at the first place where `p` stands.
unfoldable pub drop_first : ℕ → List ℕ → List ℕ
drop_first p [] = []
drop_first p (q ∷ qs) = if p == q then qs else q ∷ drop_first p qs

-- The ids that pass a test, in order.
unfoldable pub select : (ℕ → Bool) → List ℕ → List ℕ
select test [] = []
select test (q ∷ qs) = if test q then q ∷ select test qs else select test qs

module _ {F : Type 0} ⦃fl : FloatOps F⦄ where
  unfoldable pub contains : Bounds F → Vec3 F → Bool
  contains b p =
      fl.le b.x p.x
      && (fl.lt p.x (fl.add b.x b.width) && (fl.le b.y p.y && fl.lt p.y (fl.add b.y b.height)))

  unfoldable pub intersects : Bounds F → Vec3 F → F → Bool
  unfolding max min
  intersects b center radius =
      let closest_x = max b.x (min center.x (fl.add b.x b.width)) in
      let closest_y = max b.y (min center.y (fl.add b.y b.height)) in
      fl.le (fl.pow_sum (fl.sub center.x closest_x) (fl.sub center.y closest_y))
        (fl.mul radius radius)

  -- The bounds that `SubdivideNode` gives to each child.
  unfoldable pub quadrant : Corner → Bounds F → Bounds F
  quadrant nw b = record {
    x = b.x;
    y = b.y;
    width = fl.mul b.width fl.half;
    height = fl.mul b.height fl.half;
  }
  quadrant ne b = record {
    x = fl.add b.x (fl.mul b.width fl.half);
    y = b.y;
    width = fl.mul b.width fl.half;
    height = fl.mul b.height fl.half;
  }
  quadrant sw b = record {
    x = b.x;
    y = fl.add b.y (fl.mul b.height fl.half);
    width = fl.mul b.width fl.half;
    height = fl.mul b.height fl.half;
  }
  quadrant se b = record {
    x = fl.add b.x (fl.mul b.width fl.half);
    y = fl.add b.y (fl.mul b.height fl.half);
    width = fl.mul b.width fl.half;
    height = fl.mul b.height fl.half;
  }

  unfoldable pub create_node : Bounds F → Node F
  create_node b = leaf b []

  -- `SubdivideNode`, for a node whose ids have been moved out.
  unfoldable pub subdivide_node : Bounds F → Node F
  unfolding create_node
  subdivide_node b =
      inner b [] (create_node (quadrant nw b)) (create_node (quadrant ne b))
        (create_node (quadrant sw b)) (create_node (quadrant se b))

  -- The first child, in the order nw, ne, sw, se, whose bounds contain the position.
  unfoldable pub choose : Node F → Node F → Node F → Node F → Vec3 F → Option Corner
  choose a c d e p =
      if contains (bounds a) p
      then some nw
      else if contains (bounds c) p
      then some ne
      else if contains (bounds d) p
      then some sw
      else if contains (bounds e) p
      then some se
      else none

  -- `m_playerPositions[pid]`, which stores `Vec3()` where the key is missing.
  unfoldable pub fetch : ℕ → Dict (Vec3 F) → Vec3 F × Dict (Vec3 F)
  fetch pid ps = elim (find pid ps) [ none ↦ (origin, store pid origin ps) | some p ↦ (p, ps) ]

  -- The child into which the position falls is replaced; a position in no child is dropped.
  unfoldable pub place :
      (Node F → ℕ → Vec3 F → Dict (Vec3 F) → Node F × Dict (Vec3 F))
      → Node F
      → ℕ
      → Vec3 F
      → Dict (Vec3 F)
      → Node F × Dict (Vec3 F)
  place insert (leaf b ids) pid p ps = (leaf b ids, ps)
  place insert (inner b ids a c d e) pid p ps = elim (choose a c d e p) [
    | none ↦ (inner b ids a c d e, ps)
    | some nw ↦ let (t, ps') = insert a pid p ps in (inner b ids t c d e, ps')
    | some ne ↦ let (t, ps') = insert c pid p ps in (inner b ids a t d e, ps')
    | some sw ↦ let (t, ps') = insert d pid p ps in (inner b ids a c t e, ps')
    | some se ↦ let (t, ps') = insert e pid p ps in (inner b ids a c d t, ps')
  ]

  -- The loop over `playersToReinsert`.
  unfoldable pub reinsert :
      (Node F → ℕ → Vec3 F → Dict (Vec3 F) → Node F × Dict (Vec3 F))
      → ℕ
      → Vec3 F
      → List ℕ
      → Node F
      → Dict (Vec3 F)
      → Node F × Dict (Vec3 F)
  reinsert insert pid p [] t ps = (t, ps)
  reinsert insert pid p (q ∷ qs) t ps =
      let (player_pos, ps₁) = if q == pid then (p, ps) else fetch q ps in
      let (t', ps₂) = place insert t q player_pos ps₁ in reinsert insert pid p qs t' ps₂

  unfoldable pub insert_into_node : ℕ → Node F → ℕ → Vec3 F → Dict (Vec3 F) → Node F × Dict (Vec3 F)
  insert_into_node zero (leaf b ids) pid p ps = (leaf b (ids ++ pid ∷ []), ps)
  insert_into_node zero (inner b ids a c d e) pid p ps = elim (choose a c d e p) [
    | none ↦ (inner b ids a c d e, ps)
    | some nw ↦ let (t, ps') = insert_into_node zero a pid p ps in (inner b ids t c d e, ps')
    | some ne ↦ let (t, ps') = insert_into_node zero c pid p ps in (inner b ids a t d e, ps')
    | some sw ↦ let (t, ps') = insert_into_node zero d pid p ps in (inner b ids a c t e, ps')
    | some se ↦ let (t, ps') = insert_into_node zero e pid p ps in (inner b ids a c d t, ps')
  ]
  insert_into_node (suc n) (leaf b ids) pid p ps =
      if ltb max_players_per_node (length (ids ++ pid ∷ []))
      then reinsert (insert_into_node n) pid p (ids ++ pid ∷ []) (subdivide_node b) ps
      else (leaf b (ids ++ pid ∷ []), ps)
  insert_into_node (suc n) (inner b ids a c d e) pid p ps =
      place (insert_into_node n) (inner b ids a c d e) pid p ps

  -- The first child in which the removal succeeded is replaced.
  unfoldable remove_from_first :
      Node F → Node F × Bool → Node F × Bool → Node F × Bool → Node F × Bool → Node F × Bool
  remove_from_first (leaf b ids) ra rc rd re = (leaf b ids, false)
  remove_from_first (inner b ids a c d e) ra rc rd re =
      if ra.1
      then (inner b ids ra.0 c d e, true)
      else if rc.1
      then (inner b ids a rc.0 d e, true)
      else if rd.1
      then (inner b ids a c rd.0 e, true)
      else if re.1
      then (inner b ids a c d re.0, true)
      else (inner b ids a c d e, false)

  unfoldable pub remove_from_node : Node F → ℕ → Vec3 F → Node F × Bool
  unfolding remove_from_first
  remove_from_node (leaf b ids) pid p =
      if contains b p && holds pid ids
      then (leaf b (drop_first pid ids), true)
      else (leaf b ids, false)
  remove_from_node (inner b ids a c d e) pid p =
      if contains b p
      then remove_from_first (inner b ids a c d e) (remove_from_node a pid p)
          (remove_from_node c pid p) (remove_from_node d pid p) (remove_from_node e pid p)
      else (inner b ids a c d e, false)

  -- The test that `QueryNode` makes for one id of a leaf.
  unfoldable pub in_range : Dict (Vec3 F) → Vec3 F → F → ℕ → Bool
  in_range ps center radius pid = elim (find pid ps) [
    | none ↦ false
    | some p ↦ fl.le (fl.pow_sum (fl.sub p.x center.x) (fl.sub p.y center.y)) (fl.mul radius radius)
  ]

  -- What `QueryNode` appends to the result.
  unfoldable pub query_node : Node F → Dict (Vec3 F) → Vec3 F → F → List ℕ
  query_node (leaf b ids) ps center radius =
      if intersects b center radius then select (in_range ps center radius) ids else []
  query_node (inner b ids a c d e) ps center radius =
      if intersects b center radius
      then query_node a ps center radius
        ++ (query_node c ps center radius
            ++ (query_node d ps center radius ++ query_node e ps center radius))
      else []

  -- The constructor; `none` for the exception on bounds that are not positive.
  unfoldable pub new : F → F → F → F → Option (QuadTree F)
  unfolding create_node
  new x y width height =
      if fl.le width (fl.of_nat 0) || fl.le height (fl.of_nat 0)
      then none
      else some (record {
        root = create_node (record { x = x; y = y; width = width; height = height });
        positions = [];
      })

  unfoldable pub insert : QuadTree F → ℕ → Vec3 F → QuadTree F
  insert t pid p =
      let (root', ps) = insert_into_node max_depth t.root pid p (store pid p t.positions) in
      record { root = root'; positions = ps }

  unfoldable pub remove : QuadTree F → ℕ → QuadTree F
  remove t pid = elim (find pid t.positions) [
    | none ↦ t
    | some p ↦ record {
      root = (remove_from_node t.root pid p).0;
      positions = erase pid t.positions;
    }
  ]

  unfoldable pub update : QuadTree F → ℕ → Vec3 F → QuadTree F
  unfolding remove insert
  update t pid p = insert (remove t pid) pid p

  unfoldable pub query : QuadTree F → Vec3 F → F → List ℕ
  query t center radius = query_node t.root t.positions center radius

unfoldable count_nodes : {F : Type 0} → Node F → ℕ
count_nodes (leaf b ids) = 1
count_nodes (inner b ids a c d e) =
    1 + count_nodes a + count_nodes c + count_nodes d + count_nodes e

unfoldable count_players : {F : Type 0} → Node F → ℕ
count_players (leaf b ids) = length ids
count_players (inner b ids a c d e) =
    length ids + count_players a + count_players c + count_players d + count_players e

unfoldable get_total_nodes : {F : Type 0} → QuadTree F → ℕ
unfolding count_nodes
get_total_nodes t = count_nodes t.root

unfoldable get_total_players : {F : Type 0} → QuadTree F → ℕ
get_total_players t = length t.positions

unfoldable pub clear : {F : Type 0} → QuadTree F → QuadTree F
clear t = record { root = leaf (bounds t.root) []; positions = [] }

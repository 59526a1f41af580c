-- ===== src/QuadTree/Defects.antt =====
-- A theorem on `QuadTree::Insert` outside its use by the game.
use cpp_mmo.Base.{
  ℕ, ◌<◌, ◌≡◌, ◌∙◌, true, some, List, [], ◌∷◌, ◌++◌, arith, length, length-append, count,
  count-append, ==_refl,
}
use cpp_mmo.Base.Dict.{Dict, find, store, find-store}
use cpp_mmo.Float.{FloatOps}
use cpp_mmo.Vector.{Vec3}
use cpp_mmo.QuadTree.{
  Bounds, leaf, max_players_per_node, max_depth, intersects, in_range, query_node, insert, query,
  insert_into_node,
}
use cpp_mmo.QuadTree.Query.{count-select}

insert_into_leaf :
    {F : Type 0} ⦃fl : FloatOps F⦄ (b : Bounds F) (ids : List ℕ) (pid : ℕ) (p : Vec3 F)
    (ps : Dict (Vec3 F))
    → length ids < max_players_per_node
    → insert_into_node max_depth (leaf b ids) pid p ps ≡ (leaf b (ids ++ pid ∷ []), ps)
unfolding insert_into_node
insert_into_leaf b ids pid p ps room = ground (arith, length-append ids (pid ∷ []))

in_range_of_stored :
    {F : Type 0} ⦃fl : FloatOps F⦄ (ps : Dict (Vec3 F)) (center p : Vec3 F) (radius : F) (q : ℕ)
    → find q ps ≡ some p
    → in_range ps center radius q
      ≡ fl.le (fl.pow_sum (fl.sub p.x center.x) (fl.sub p.y center.y)) (fl.mul radius radius)
unfolding in_range
in_range_of_stored ps center p radius q h = rw (h, in_range)

-- `Insert` of a player that a small index already holds does not replace the entry of its id: a
-- query that reaches the leaf returns the id once more than before.
insert_known :
    {F : Type 0} ⦃fl : FloatOps F⦄ (b : Bounds F) (ids : List ℕ) (ps : Dict (Vec3 F)) (pid : ℕ)
    (p center : Vec3 F) (radius : F)
    → length ids < max_players_per_node
    → count pid ids ≡ 1
    → intersects b center radius ≡ true
    → fl.le (fl.pow_sum (fl.sub p.x center.x) (fl.sub p.y center.y)) (fl.mul radius radius) ≡ true
    → count pid (query (insert (record { root = leaf b ids; positions = ps }) pid p) center radius)
      ≡ 2
unfolding query insert query_node
insert_known b ids ps pid p center radius room once hit near =
    rw
      (
        insert_into_leaf b ids pid p (store pid p ps) room,
        hit,
        count-select,
        in_range_of_stored (store pid p ps) center p radius pid
            (find-store pid pid p ps ∙ rw (==_refl pid)),
        near,
      )
      (ground (arith, count-append pid ids (pid ∷ []), count_one pid))
  where
    count_one : (q : ℕ) → count q (q ∷ []) ≡ 1
    count_one q = unfold count in rw (==_refl q) (omega arith)

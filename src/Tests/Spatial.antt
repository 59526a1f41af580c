-- ===== src/Tests/Spatial.antt =====
-- The theorems on the spatial index at a map of 200 by 200.
use cpp_mmo.Base.{ℕ, ◌*◌, ◌≡◌, ◌∙◌, refl, true, none, some, [], count, to_nat, ◌==◌, if◌then◌else◌}
use cpp_mmo.Base.Dict.{find}
use cpp_mmo.Vector.{Vec3}
use cpp_mmo.QuadTree.{
  Bounds, leaf, QuadTree, bounds, max_depth, contains, in_range, query, insert, remove, update, new,
  create_node,
}
use cpp_mmo.QuadTree.Shape.{HalvesExactly}
use cpp_mmo.QuadTree.Refines.{
  IsValid, new-IsValid, insert-IsValid, remove-IsValid, update-IsValid, query-refines,
}
use cpp_mmo.Tests.Scaled.{scaled, scaled-laws, doubled, doubled-HalvesExactly}

abbrev pub side : ℕ
side = doubled 6 200

abbrev square : Bounds ℕ
square = record { x = 0; y = 0; width = side; height = side }

abbrev pub at : ℕ → ℕ → Vec3 ℕ
at x y = record { x = 64 * x; y = 64 * y; z = 0 }

abbrev pub empty_tree : QuadTree ℕ
empty_tree = record { root = leaf square []; positions = [] }

abbrev one_tree : QuadTree ℕ
one_tree = insert empty_tree 7 (at 30 40)

made : new 0 0 side side ≡ some empty_tree
unfolding new create_node
made = refl

halves : HalvesExactly max_depth square
halves = doubled-HalvesExactly 6 0 0 200 200

on_square : contains (bounds empty_tree.root) (at 30 40) ≡ true
unfolding contains
on_square = refl

absent : find 7 empty_tree.positions ≡ none
unfolding find
absent = refl

empty-IsValid : IsValid empty_tree
empty-IsValid = (new-IsValid 0 0 side side empty_tree halves made).0

one-IsValid : IsValid one_tree
one-IsValid = (insert-IsValid scaled-laws empty_tree 7 (at 30 40) empty-IsValid absent on_square).0

insert-IsValid_example :
    IsValid (insert empty_tree 7 (at 30 40))
    × (bounds (insert empty_tree 7 (at 30 40)).root ≡ square)
    × ((q : ℕ)
        → find q (insert empty_tree 7 (at 30 40)).positions
          ≡ (if q == 7 then some (at 30 40) else find q empty_tree.positions))
insert-IsValid_example =
    insert-IsValid scaled-laws empty_tree 7 (at 30 40) empty-IsValid absent on_square

remove-IsValid_example :
    IsValid (remove one_tree 7)
    × (bounds (remove one_tree 7).root ≡ bounds one_tree.root)
    × ((q : ℕ)
        → find q (remove one_tree 7).positions
          ≡ (if q == 7 then none else find q one_tree.positions))
remove-IsValid_example = remove-IsValid scaled-laws one_tree 7 one-IsValid

update-IsValid_example :
    IsValid (update empty_tree 7 (at 30 40))
    × (bounds (update empty_tree 7 (at 30 40)).root ≡ bounds empty_tree.root)
    × ((q : ℕ)
        → find q (update empty_tree 7 (at 30 40)).positions
          ≡ (if q == 7 then some (at 30 40) else find q empty_tree.positions))
update-IsValid_example = update-IsValid scaled-laws empty_tree 7 (at 30 40) empty-IsValid on_square

-- Five players, which a leaf does not hold: the index has been subdivided.
add-IsValid :
    (t : QuadTree ℕ) (id : ℕ) (p : Vec3 ℕ)
    → IsValid t × (bounds t.root ≡ square)
    → contains square p ≡ true
    → IsValid (update t id p) × (bounds (update t id p).root ≡ square)
add-IsValid t id p (valid, area) inside =
    let (valid', same, found) = update-IsValid scaled-laws t id p valid (rw area inside) in
    (valid', same ∙ area)

abbrev five_tree : QuadTree ℕ
five_tree =
    update (update (update (update one_tree 1 (at 20 20)) 2 (at 150 20)) 3 (at 20 150)) 4
      (at 150 150)

five-IsValid : IsValid five_tree
unfolding contains
five-IsValid =
    (add-IsValid _ 4 (at 150 150)
      (add-IsValid _ 3 (at 20 150)
        (add-IsValid _ 2 (at 150 20)
          (add-IsValid one_tree 1 (at 20 20)
            (
              one-IsValid,
              (insert-IsValid scaled-laws empty_tree 7 (at 30 40) empty-IsValid absent on_square).1,
            )
            refl)
          refl)
        refl)
      refl).0

query-refines_example :
    count 7 (query five_tree (at 50 50) 6400)
    ≡ to_nat (in_range five_tree.positions (at 50 50) 6400 7)
query-refines_example = query-refines scaled-laws five_tree (at 50 50) 6400 7 five-IsValid

-- ===== src/Game/Sync.antt =====
-- The agreement of GameManager's world and its spatial index, and `GetPlayersInAOI`.
use mathlib.Core.Path.{subst}
use cpp_mmo.Base.{
  ℕ, ◌≡◌, refl, sym, ap, ◌∙◌, inl, inr, Bool, true, false, ◌&&◌, Option, none, some, count,
  Bool-cases, to_nat, ◌==◌, ==_iff, if◌then◌else◌,
}
use cpp_mmo.Base.Dict.{Dict, find, store, IsKeyed, find-store, store-IsKeyed}
use cpp_mmo.Float.{FloatOps, FloatLaws}
use cpp_mmo.Vector.{Vec3}
use cpp_mmo.QuadTree.{QuadTree, bounds, contains, in_range}
use cpp_mmo.QuadTree
use cpp_mmo.QuadTree.Refines.{IsValid, insert-IsValid, remove-IsValid, query-refines}
use cpp_mmo.World.{Player}
use cpp_mmo.Game.State.{Config, Game, is_valid_position, get_players_in_aoi}

abbrev pub active_position : {F : Type 0} → Option (Player F) → Option (Vec3 F)
active_position none = none
active_position (some p) = if p.is_active then some p.position else none

module _ {F : Type 0} ⦃fl : FloatOps F⦄ where
  pub record Synced (c : Config F) (w : Dict (Player F)) (t : QuadTree F) : Type 0 where
    pub valid : IsValid t
    pub area : (p : Vec3 F) → contains (bounds t.root) p ≡ is_valid_position c p
    pub indexed : (q : ℕ) → find q t.positions ≡ active_position (find q w)
    pub on_map : (q : ℕ) (p : Player F) → find q w ≡ some p → is_valid_position c p.position ≡ true
    pub keyed : IsKeyed w

  abbrev pub IsSynced : Game F → Type 0
  IsSynced g = Synced g.config g.world g.quad_tree

  -- An active player whose squared distance from the position is at most the squared range.
  abbrev pub is_visible : F → Vec3 F → Option (Player F) → Bool
  is_visible range position none = false
  is_visible range position (some p) =
      p.is_active
      && fl.le (fl.pow_sum (fl.sub p.position.x position.x) (fl.sub p.position.y position.y))
          (fl.mul range range)

  in_range-visible :
      (ps : Dict (Vec3 F)) (position : Vec3 F) (range : F) (q : ℕ) (o : Option (Player F))
      → find q ps ≡ active_position o
      → in_range ps position range q ≡ is_visible range position o
  unfolding in_range
  in_range-visible ps position range q none e = rw (e, in_range)
  in_range-visible ps position range q (some p) e = elim (Bool-cases p.is_active) [
    | inl active ↦ let e' : find q ps ≡ some p.position = e ∙ rw active in rw (e', in_range, active)
    | inr away ↦ let e' : find q ps ≡ none = e ∙ rw away in rw (e', in_range, away)
  ]

  -- The map after `id` is stored agrees with the index if the index changed at `id` alone.
  store-indexed :
      (w : Dict (Player F)) (old new : Dict (Vec3 F)) (id : ℕ) (p : Player F) (v : Option (Vec3 F))
      → ((q : ℕ) → find q old ≡ active_position (find q w))
      → ((q : ℕ) → find q new ≡ (if q == id then v else find q old))
      → active_position (some p) ≡ v
      → (q : ℕ) → find q new ≡ active_position (find q (store id p w))
  store-indexed w old new id p v before after e q = elim (Bool-cases (q == id)) [
    | inl same ↦ rw (after q, find-store id q p w, same) (sym e)
    | inr other ↦ rw (after q, find-store id q p w, other) (before q)
  ]

  store-on_map :
      (c : Config F) (w : Dict (Player F)) (id : ℕ) (p : Player F)
      → ((q : ℕ) (r : Player F) → find q w ≡ some r → is_valid_position c r.position ≡ true)
      → is_valid_position c p.position ≡ true
      → (q : ℕ) (r : Player F) → find q (store id p w) ≡ some r
      → is_valid_position c r.position ≡ true
  store-on_map c w id p before inside q r h = elim (Bool-cases (q == id)) [
    | inl same ↦
        let e : some p ≡ some r = rw (find-store id q p w, same) at h in
        let e' : p ≡ r = cc in
        subst (λ (x : Player F). is_valid_position c x.position ≡ true) e' inside
    | inr other ↦ before q r (rw (find-store id q p w, other) at h)
  ]

  -- A player changed in nothing that the index knows.
  pub edit-Synced :
      (c : Config F) (w : Dict (Player F)) (t : QuadTree F) (id : ℕ) (p p' : Player F)
      → Synced c w t
      → find id w ≡ some p
      → p'.position ≡ p.position
      → p'.is_active ≡ p.is_active
      → Synced c (store id p' w) t
  edit-Synced c w t id p p' s at_id same_place same_state = record {
    valid = s.valid;
    area = s.area;
    indexed =
        store-indexed w t.positions t.positions id p' (find id t.positions) s.indexed
          (λ q. unchanged q) (rw (s.indexed id, at_id, same_state, same_place) refl);
    on_map = store-on_map c w id p' s.on_map (rw same_place (s.on_map id p at_id));
    keyed = store-IsKeyed id p' w s.keyed;
  }
    where
      unchanged :
          (q : ℕ)
          → find q t.positions ≡ (if q == id then find id t.positions else find q t.positions)
      unchanged q = elim (Bool-cases (q == id)) [
        | inl same ↦ rw same (ap (λ k. find k t.positions) ((==_iff q id).0 same))
        | inr other ↦ rw other
      ]

module _ {F : Type 0} ⦃fl : FloatOps F⦄ (laws : FloatLaws fl) where
  -- A player that the index does not have is stored as an active one and inserted.
  pub arrive-Synced :
      (c : Config F) (w : Dict (Player F)) (t : QuadTree F) (id : ℕ) (p : Player F)
      → Synced c w t
      → active_position (find id w) ≡ none
      → p.is_active ≡ true
      → is_valid_position c p.position ≡ true
      → Synced c (store id p w) (QuadTree.insert t id p.position)
  arrive-Synced c w t id p s away active inside =
      let (valid, same_bounds, reads) =
        insert-IsValid laws t id p.position s.valid (s.indexed id ∙ away)
          (s.area p.position ∙ inside) in
      record {
        valid = valid;
        area = λ v. rw same_bounds (s.area v);
        indexed =
            store-indexed w t.positions (QuadTree.insert t id p.position).positions id p
              (some p.position) s.indexed reads (rw active refl);
        on_map = store-on_map c w id p s.on_map inside;
        keyed = store-IsKeyed id p w s.keyed;
      }

  -- A player is stored as an inactive one and removed from the index.
  pub leave-Synced :
      (c : Config F) (w : Dict (Player F)) (t : QuadTree F) (id : ℕ) (p : Player F)
      → Synced c w t
      → p.is_active ≡ false
      → is_valid_position c p.position ≡ true
      → Synced c (store id p w) (QuadTree.remove t id)
  leave-Synced c w t id p s inactive inside =
      let (valid, same_bounds, reads) = remove-IsValid laws t id s.valid in
      record {
        valid = valid;
        area = λ v. rw same_bounds (s.area v);
        indexed =
            store-indexed w t.positions (QuadTree.remove t id).positions id p none s.indexed reads
              (rw inactive refl);
        on_map = store-on_map c w id p s.on_map inside;
        keyed = store-IsKeyed id p w s.keyed;
      }

  -- With a world and an index that are in step, `GetPlayersInAOI` returns each active player in range
  -- of the position once, and nobody else.
  pub get_players_in_aoi-exact :
      (g : Game F) (position : Vec3 F) (q : ℕ)
      → IsSynced g
      → count q (get_players_in_aoi g position)
        ≡ to_nat (is_visible g.config.aoi_range position (find q g.world))
  unfolding get_players_in_aoi
  get_players_in_aoi-exact g position q s =
      query-refines laws g.quad_tree position g.config.aoi_range q s.valid
      ∙ ap to_nat (
          in_range-visible g.quad_tree.positions position g.config.aoi_range q (find q g.world)
            (s.indexed q))

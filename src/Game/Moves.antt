-- ===== src/Game/Moves.antt =====
-- Theorems on `GameManager::UpdateWorld`.
use mathlib.Core.Path.{subst}
use cpp_mmo.Base.{
  ℕ, ◌+◌, ◌≡◌, refl, sym, ap, ◌∙◌, inl, inr, true, false, Option, none, some, [], ◌∷◌, arith, count,
  Bool-cases, to_nat, ◌==◌, ==_iff, ==_refl, if◌then◌else◌,
}
use cpp_mmo.Base.Dict.{Dict, find, keys, IsKeyed, find-none, map_found}
use cpp_mmo.Float.{FloatOps, FloatLaws}
use cpp_mmo.Vector.{Vec3}
use cpp_mmo.QuadTree.{QuadTree, bounds, contains}
use cpp_mmo.QuadTree
use cpp_mmo.QuadTree.Refines.{IsValid, update-IsValid}
use cpp_mmo.World.{Player, update_player, update_world}
use cpp_mmo.Game.State.{Config, Game, is_valid_position}
use cpp_mmo.Game.Input.{next_position, move_players, update_game_world}
use cpp_mmo.Game.Sync.{active_position, IsSynced}

module _ {F : Type 0} ⦃fl : FloatOps F⦄ where
  -- What a tick does to one player.
  abbrev pub moved : Config F → F → Player F → Player F
  moved c delta p = if p.is_active then record p { position = next_position c delta p } else p

  next_position-valid :
      (c : Config F) (delta : F) (p : Player F)
      → is_valid_position c p.position ≡ true
      → is_valid_position c (next_position c delta p) ≡ true
  unfolding next_position
  next_position-valid c delta p h = ground arith

  -- `World::Update` leaves every player as it is.
  update_world_lem : (w : Dict (Player F)) (delta : F) → update_world w delta ≡ w
  unfolding update_world update_player
  update_world_lem [] delta = refl
  update_world_lem (e ∷ w) delta = ap (◌∷◌ e) (update_world_lem w delta)

  -- The loop of `UpdateWorld` finds each player moved by one tick.
  find-moved :
      (c : Config F) (delta : F) (m : Dict (Player F)) (t : QuadTree F) (q : ℕ)
      → find q (move_players c delta m t).0 ≡ map_found (moved c delta) (find q m)
  unfolding move_players find
  find-moved c delta [] t q = refl
  find-moved c delta ((id, p) ∷ m) t q = elim (Bool-cases p.is_active) [
    | inl active ↦ simp active (elim (Bool-cases (q == id)) [
      | inl same ↦ rw same (ap some (simp active))
      | inr other ↦ rw other (find-moved c delta m _ q)
    ])
    | inr away ↦ simp away (elim (Bool-cases (q == id)) [
      | inl same ↦ rw same (ap some (simp away))
      | inr other ↦ rw other (find-moved c delta m t q)
    ])
  ]

  count-keys-moved :
      (c : Config F) (delta : F) (m : Dict (Player F)) (t : QuadTree F) (q : ℕ)
      → count q (keys (move_players c delta m t).0) ≡ count q (keys m)
  unfolding move_players count
  count-keys-moved c delta [] t q = refl
  count-keys-moved c delta ((id, p) ∷ m) t q = elim (Bool-cases p.is_active) [
    | inl active ↦ simp active (ap (λ n. to_nat (q == id) + n) (count-keys-moved c delta m _ q))
    | inr away ↦ simp away (ap (λ n. to_nat (q == id) + n) (count-keys-moved c delta m t q))
  ]

  -- The position that the index has for an id after the loop, given what it had before.
  abbrev indexed_after : Config F → F → Option (Player F) → Option (Vec3 F) → Option (Vec3 F)
  indexed_after c delta none before = before
  indexed_after c delta (some p) before =
      if p.is_active then some (next_position c delta p) else before

  none_at : (id q : ℕ) (m : Dict (Player F)) → (q == id) ≡ true → find id m ≡ none → find q m ≡ none
  none_at id q m same gone = rw ((==_iff q id).0 same) gone

  find_later :
      (id : ℕ) (p : Player F) (m : Dict (Player F)) (q : ℕ) (r : Player F)
      → find id m ≡ none
      → find q m ≡ some r
      → (if q == id then some p else find q m) ≡ some r
  find_later id p m q r gone h = elim (Bool-cases (q == id)) [
    | inl same ↦ ground (arith, none_at id q m same gone)
    | inr other ↦ rw other h
  ]

  after_active :
      (c : Config F) (delta : F) (id : ℕ) (p : Player F) (m : Dict (Player F)) (q : ℕ)
      (before between : Option (Vec3 F))
      → p.is_active ≡ true
      → find id m ≡ none
      → between ≡ (if q == id then some (next_position c delta p) else before)
      → indexed_after c delta (find q m) between
        ≡ indexed_after c delta (if q == id then some p else find q m) before
  after_active c delta id p m q before between active gone e = elim (Bool-cases (q == id)) [
    | inl same ↦ simp (none_at id q m same gone, same, active) (e ∙ rw same)
    | inr other ↦ rw (e, other)
  ]

  after_away :
      (c : Config F) (delta : F) (id : ℕ) (p : Player F) (m : Dict (Player F)) (q : ℕ)
      (before : Option (Vec3 F))
      → p.is_active ≡ false
      → find id m ≡ none
      → indexed_after c delta (find q m) before
        ≡ indexed_after c delta (if q == id then some p else find q m) before
  after_away c delta id p m q before away gone = elim (Bool-cases (q == id)) [
    | inl same ↦ simp (none_at id q m same gone, same, away)
    | inr other ↦ rw other
  ]

  after-active_position :
      (c : Config F) (delta : F) (o : Option (Player F)) (before : Option (Vec3 F))
      → before ≡ active_position o
      → indexed_after c delta o before ≡ active_position (map_found (moved c delta) o)
  after-active_position c delta none before e = e
  after-active_position c delta (some p) before e = elim (Bool-cases p.is_active) [
    | inl active ↦ simp active
    | inr away ↦ simp away (e ∙ simp away)
  ]

  moved-on_map :
      (c : Config F) (delta : F) (o : Option (Player F)) (r : Player F)
      → ((p : Player F) → o ≡ some p → is_valid_position c p.position ≡ true)
      → map_found (moved c delta) o ≡ some r
      → is_valid_position c r.position ≡ true
  moved-on_map c delta none r on_map h = cc
  moved-on_map c delta (some p) r on_map h =
      let e : moved c delta p ≡ r = cc in
      subst (λ (x : Player F). is_valid_position c x.position ≡ true) e
        (elim (Bool-cases p.is_active) [
          | inl active ↦ simp active (next_position-valid c delta p (on_map p refl))
          | inr away ↦ simp away (on_map p refl)
        ])

module _ {F : Type 0} ⦃fl : FloatOps F⦄ (laws : FloatLaws fl) where
  move_players-indexed :
      (c : Config F) (delta : F) (m : Dict (Player F)) (t : QuadTree F)
      → IsValid t
      → ((p : Vec3 F) → contains (bounds t.root) p ≡ is_valid_position c p)
      → ((q : ℕ) (p : Player F) → find q m ≡ some p → is_valid_position c p.position ≡ true)
      → IsKeyed m
      → let r = move_players c delta m t in
        IsValid r.1
        × (bounds r.1.root ≡ bounds t.root)
        × ((q : ℕ) → find q r.1.positions ≡ indexed_after c delta (find q m) (find q t.positions))
  unfolding move_players find count
  move_players-indexed c delta [] t v area on_map keyed = (v, refl, λ q. refl)
  move_players-indexed c delta ((id, p) ∷ m) t v area on_map keyed =
      let here : is_valid_position c p.position ≡ true = on_map id p (rw (==_refl id)) in
      let gone : find id m ≡ none = find-none id m (ground (arith, keyed id, ==_refl id)) in
      let keyed' : IsKeyed m = λ q. ground (arith, keyed q) in
      let on_map' = λ (q : ℕ) (r : Player F) (h : find q m ≡ some r).
        on_map q r (find_later id p m q r gone h) in
      elim (Bool-cases p.is_active) [
        | inl active ↦
            let u =
              update-IsValid laws t id (next_position c delta p) v
                (area _ ∙ next_position-valid c delta p here) in
            let rest =
              move_players-indexed c delta m (QuadTree.update t id (next_position c delta p)) u.0
                (λ x. rw u.1 (area x)) on_map' keyed' in
            simp active (
              rest.0,
              rest.1 ∙ u.1,
              λ q. rest.2 q ∙ after_active c delta id p m q _ _ active gone (u.2 q),
            )
        | inr away ↦
            let rest = move_players-indexed c delta m t v area on_map' keyed' in
            simp away (rest.0, rest.1, λ q. rest.2 q ∙ after_away c delta id p m q _ away gone)
      ]

  pub update_game_world-IsSynced :
      (g : Game F) (delta : F)
      → IsSynced g
      → IsSynced (update_game_world g delta)
        × ((q : ℕ)
            → find q (update_game_world g delta).world
              ≡ map_found (moved g.config delta) (find q g.world))
  unfolding update_game_world
  update_game_world-IsSynced g delta s =
      let w = g.world in
      let c = g.config in
      let r = move_players-indexed c delta w g.quad_tree s.valid s.area s.on_map s.keyed in
      rw (update_world_lem w delta) (
        record {
          valid = r.0;
          area = λ p. rw r.1 (s.area p);
          indexed = λ q.
              r.2 q
              ∙ after-active_position c delta (find q w) _ (s.indexed q)
              ∙ ap active_position (sym (find-moved c delta w g.quad_tree q));
          on_map = λ q p h.
              moved-on_map c delta (find q w) p (λ r h. s.on_map q r h)
                (sym (find-moved c delta w g.quad_tree q) ∙ h);
          keyed = λ q. rw (count-keys-moved c delta w g.quad_tree q) (s.keyed q);
        },
        λ q. find-moved c delta w g.quad_tree q,
      )

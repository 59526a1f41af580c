-- ===== src/Game/Inputs.antt =====
-- Theorems on `HandlePlayerInput` and on the direction table of `InputFlagsToDirection`.
use cpp_mmo.Base.{
  ℕ, zero, suc, ◌+◌, ◌-◌, ◌/◌, ◌%◌, ◌<◌, ◌≤◌, ◌≡◌, refl, sym, ◌∙◌, inl, inr, Option, none,
  Option-cases, ==_iff, ap, Bool, true, false, not, ◌&&◌, some, List, [], ◌∷◌, arith, Bool-cases,
  ◌==◌, ==_refl, ltb, leb, if◌then◌else◌, length,
}
use cpp_mmo.Base.Dict.{find, find-store, map_found}
use cpp_mmo.Float.{FloatOps}
use cpp_mmo.Vector
use cpp_mmo.Vector.{Vec3}
use cpp_mmo.Command.{PlayerInput, has_w, has_s, has_a, has_d}
use cpp_mmo.World.{Player, is_input_allowed, update_last_input_time}
use cpp_mmo.Game.State.{Config, Game, set_player}
use cpp_mmo.Game.Input.{
  handle_player_input, accept_input, direction_table, entry, input_flags_to_direction,
}

-- An input is accepted if it is newer than the last one, which is at least 33 ms old.
abbrev pub is_accepted : {F : Type 0} → Player F → PlayerInput F → ℕ → Bool
is_accepted p i now =
    leb 33_000_000 (now - p.last_input_time) && ltb p.last_input_sequence i.sequence_number

abbrev pub differ : Bool → Bool → Bool
differ a b = if a then not b else b

-- A rule for the player of one id leaves an entry of another id.
other_key :
    {A : Type 0} (c : A → Bool) (f : A → A) (o : Option A)
    → o ≡ map_found (λ p. if false && c p then f p else p) o
other_key c f none = refl
other_key c f (some p) = refl

module _ {F : Type 0} ⦃fl : FloatOps F⦄ where
  is_input_allowed_lem :
      (p : Player F) (now : ℕ) → is_input_allowed p now ≡ leb 33_000_000 (now - p.last_input_time)
  unfolding is_input_allowed
  is_input_allowed_lem p now = ground arith

  handle_player_input_found :
      (g : Game F) (i : PlayerInput F) (p : Player F) (now set_at : ℕ)
      → find i.player_id g.world ≡ some p
      → handle_player_input g i now set_at ≡ (
          if is_accepted p i now
          then set_player g i.player_id (accept_input g.config p i set_at)
          else g)
  unfolding handle_player_input
  handle_player_input_found g i p now set_at there =
      rw (there, handle_player_input)
        (simp (is_input_allowed_lem p now)
          (elim (Bool-cases (leb 33_000_000 (now - p.last_input_time))) [
            | inl rested ↦ elim (Bool-cases (leb i.sequence_number p.last_input_sequence)) [
              | inl old ↦
                  let e : ltb p.last_input_sequence i.sequence_number ≡ false = ground arith in
                  simp (rested, old, e) refl
              | inr newer ↦
                  let e : ltb p.last_input_sequence i.sequence_number ≡ true = ground arith in
                  simp (rested, newer, e) refl
            ]
            | inr soon ↦ simp soon refl
          ]))

  -- One coordinate of a direction: the keys of the two senses, and whether the other coordinate is
  -- not 0, which makes both the diagonal's.
  abbrev component : Bool → Bool → Bool → F
  component plus minus is_diagonal =
      let size = if is_diagonal then fl.diagonal else fl.of_nat 1 in
      if plus && not minus then size else if minus && not plus then fl.neg size else fl.of_nat 0

  abbrev pub wasd_direction : ℕ → Vec3 F
  wasd_direction flags = record {
    x = component (has_d flags) (has_a flags) (differ (has_w flags) (has_s flags));
    y = component (has_w flags) (has_s flags) (differ (has_d flags) (has_a flags));
    z = fl.of_nat 0;
  }

  wasd_direction_mod : (flags : ℕ) → wasd_direction flags ≡ wasd_direction (flags % 16)
  wasd_direction_mod flags =
      let w : flags % 2 ≡ flags % 16 % 2 = omega arith in
      let s : flags / 2 % 2 ≡ flags % 16 / 2 % 2 = omega arith in
      let a : flags / 4 % 2 ≡ flags % 16 / 4 % 2 = omega arith in
      let d : flags / 8 % 2 ≡ flags % 16 / 8 % 2 = omega arith in rw (w, s, a, d)

  -- The entries of a table from the flags `k` on.
  abbrev Agrees : List (Vec3 F) → ℕ → Type 0
  Agrees [] k = Unit
  Agrees (v ∷ vs) k = (v ≡ wasd_direction k) × Agrees vs (suc k)

  entry-Agrees :
      (vs : List (Vec3 F)) (k r : ℕ)
      → r < length vs
      → Agrees vs k
      → entry vs r ≡ wasd_direction (k + r)
  entry-Agrees [] k r h a = absurd (omega arith)
  entry-Agrees (v ∷ vs) k zero h a = let e : k + 0 ≡ k = omega arith in rw e a.0
  entry-Agrees (v ∷ vs) k (suc r) h a =
      let e : k + suc r ≡ suc k + r = omega arith in
      rw e (entry-Agrees vs (suc k) r (omega arith) a.1)

  -- The table's direction is, in each coordinate, the sense whose key alone is held, at length 1, or
  -- at the diagonal's length if the other coordinate has a sense too; bits above the four are
  -- ignored.
  pub input_flags_to_direction_lem :
      (flags : ℕ) → input_flags_to_direction flags ≡ wasd_direction flags
  unfolding input_flags_to_direction direction_table
  input_flags_to_direction_lem flags =
      entry-Agrees direction_table 0 (flags % 16) (omega arith) (
        refl,
        (
          refl,
          (
            refl,
            (
              refl,
              (
                refl,
                (
                  refl,
                  (
                    refl,
                    (refl, (refl, (refl, (refl, (refl, (refl, (refl, (refl, (refl, tt))))))))),
                  ),
                ),
              ),
            ),
          ),
        ),
      )
      ∙ (rw zero_plus (sym (wasd_direction_mod flags)))
    where
      zero_plus : 0 + flags % 16 ≡ flags % 16
      zero_plus = omega arith

  -- A player after an accepted input.
  abbrev pub steered : F → Player F → PlayerInput F → ℕ → Player F
  steered speed p i set_at = record p {
    last_input_time = set_at;
    last_input_sequence = i.sequence_number;
    current_input_flags = i.input_flags;
    velocity = Vector.scale (wasd_direction i.input_flags) speed;
  }

  accept_input-steered :
      (c : Config F) (p : Player F) (i : PlayerInput F) (set_at : ℕ)
      → accept_input c p i set_at ≡ steered c.move_speed p i set_at
  unfolding accept_input update_last_input_time
  accept_input-steered c p i set_at =
      ap
        (λ (v : Vec3 F). record (steered c.move_speed p i set_at) {
          velocity = Vector.scale v c.move_speed;
        })
        (input_flags_to_direction_lem i.input_flags)

  handle_player_input_missing :
      (g : Game F) (i : PlayerInput F) (now set_at : ℕ)
      → find i.player_id g.world ≡ none
      → handle_player_input g i now set_at ≡ g
  unfolding handle_player_input
  handle_player_input_missing g i now set_at gone = rw (gone, handle_player_input) refl

  -- It writes the entry of its id.
  same_key :
      (o : Option (Player F)) (p p' : Player F) (c : Player F → Bool) (f : Player F → Player F)
      → o ≡ some p
      → (if c p then f p else p) ≡ p'
      → some p' ≡ map_found (λ p. if true && c p then f p else p) o
  same_key none p p' c f e h = cc
  same_key (some x) p p' c f e h =
      let same : x ≡ p = cc in ap some (sym h) ∙ ap (λ y. some (if c y then f y else y)) (sym same)

  -- `HandlePlayerInput` changes at most the player of the input, if the world has that player, the
  -- input's number is above the player's, and the player's last input is at least 33 ms old. It then
  -- writes the time, the number and the flags of the input, and the speed of the map's players in the
  -- direction of the keys that are held.
  pub handle_player_input_lem :
      (g : Game F) (i : PlayerInput F) (now set_at q : ℕ)
      → find q (handle_player_input g i now set_at).world
        ≡ map_found
            (λ p.
              if (q == i.player_id) && is_accepted p i now
              then steered g.config.move_speed p i set_at
              else p)
            (find q g.world)
  unfolding set_player
  handle_player_input_lem g i now set_at q = elim (Option-cases (find i.player_id g.world)) [
    | inl gone ↦
        simp (handle_player_input_missing g i now set_at gone)
          (elim (Bool-cases (q == i.player_id)) [
            | inl same ↦
                let e : find q g.world ≡ none = rw ((==_iff q i.player_id).0 same) gone in rw e refl
            | inr other ↦ simp other (
                other_key (λ p. is_accepted p i now) (λ p. steered g.config.move_speed p i set_at)
                  (find q g.world))
          ])
    | inr (p, there) ↦
        let accepted = λ (x : Player F). is_accepted x i now in
        let written = λ (x : Player F). steered g.config.move_speed x i set_at in
        simp (handle_player_input_found g i p now set_at there)
          (elim (Bool-cases (is_accepted p i now)) [
            | inl ok ↦ simp ok (
                find-store i.player_id q (accept_input g.config p i set_at) g.world
                ∙ elim (Bool-cases (q == i.player_id)) [
                  | inl same ↦
                      let e : find q g.world ≡ some p = rw ((==_iff q i.player_id).0 same) there in
                      simp same (
                        ap some (accept_input-steered g.config p i set_at)
                        ∙ same_key (find q g.world) p (written p) accepted written e (simp ok refl))
                  | inr other ↦ simp other (other_key accepted written (find q g.world))
                ])
            | inr refused ↦ simp refused (elim (Bool-cases (q == i.player_id)) [
              | inl same ↦
                  let e : find q g.world ≡ some p = rw ((==_iff q i.player_id).0 same) there in
                  e
                  ∙ simp same (same_key (find q g.world) p p accepted written e (simp refused refl))
              | inr other ↦ simp other (other_key accepted written (find q g.world))
            ])
          ])
  ]

  -- Inputs that are handled in turn, each with its two readings of the clock.
  abbrev pub handle_inputs : Game F → List (PlayerInput F × ℕ × ℕ) → Game F
  handle_inputs g [] = g
  handle_inputs g ((i, now, set_at) ∷ is) = handle_inputs (handle_player_input g i now set_at) is

  -- The player is there, with a number that is not below `n`.
  abbrev HasSeen : Game F → ℕ → ℕ → Type 0
  HasSeen g id n = (p : Player F) × (find id g.world ≡ some p) × (n ≤ p.last_input_sequence)

  handle_player_input-HasSeen :
      (g : Game F) (i : PlayerInput F) (now set_at id n : ℕ)
      → HasSeen g id n
      → HasSeen (handle_player_input g i now set_at) id n
  handle_player_input-HasSeen g i now set_at id n (p, there, seen) =
      let e = handle_player_input_lem g i now set_at id in
      elim (Bool-cases ((id == i.player_id) && is_accepted p i now)) [
        | inl ok ↦
            let e' = simp (there, ok) at e in
            (steered g.config.move_speed p i set_at, e', ground arith)
        | inr refused ↦ let e' = simp (there, refused) at e in (p, e', seen)
      ]

  handle_inputs-HasSeen :
      (g : Game F) (is : List (PlayerInput F × ℕ × ℕ)) (id n : ℕ)
      → HasSeen g id n
      → HasSeen (handle_inputs g is) id n
  handle_inputs-HasSeen g [] id n h = h
  handle_inputs-HasSeen g ((i, now, set_at) ∷ is) id n h =
      handle_inputs-HasSeen (handle_player_input g i now set_at) is id n
        (handle_player_input-HasSeen g i now set_at id n h)

  -- Once an input of a player that the world has was accepted, an input of that player with the same
  -- or a lower number changes nothing, whatever inputs of any players, but nothing else, were handled
  -- in between and however late it comes.
  pub handle_inputs-stale :
      (g : Game F) (i j : PlayerInput F) (p : Player F) (is : List (PlayerInput F × ℕ × ℕ))
      (now set_at later later_set : ℕ)
      → find i.player_id g.world ≡ some p
      → is_accepted p i now ≡ true
      → j.player_id ≡ i.player_id
      → j.sequence_number ≤ i.sequence_number
      → let g' = handle_inputs (handle_player_input g i now set_at) is in
        handle_player_input g' j later later_set ≡ g'
  handle_inputs-stale g i j p is now set_at later later_set there ok same old =
      let e = handle_player_input_lem g i now set_at i.player_id in
      let first : HasSeen (handle_player_input g i now set_at) i.player_id i.sequence_number = (
        steered g.config.move_speed p i set_at,
        simp (there, ==_refl i.player_id, ok) at e,
        omega arith,
      ) in
      let (p', there', seen) =
        handle_inputs-HasSeen (handle_player_input g i now set_at) is i.player_id i.sequence_number
          first in
      let refused : is_accepted p' j later ≡ false = ground arith in
      handle_player_input_found (handle_inputs (handle_player_input g i now set_at) is) j p' later
        later_set
        (ap (λ id. find id (handle_inputs (handle_player_input g i now set_at) is).world) same
          ∙ there')
      ∙ simp refused refl

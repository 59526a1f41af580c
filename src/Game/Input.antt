-- ===== src/Game/Input.antt =====
-- Player input: the direction table, `HandlePlayerInput` and `UpdateWorld`.
use cpp_mmo.Base.{ℕ, zero, suc, ◌%◌, not, none, some, List, [], ◌∷◌, leb, if◌then◌else◌}
use cpp_mmo.Base.Dict.{Dict}
use cpp_mmo.Float.{FloatOps}
use cpp_mmo.Vector
use cpp_mmo.Vector.{Vec3, origin}
use cpp_mmo.Command.{PlayerInput}
use cpp_mmo.QuadTree
use cpp_mmo.QuadTree.{QuadTree}
use cpp_mmo.World.{Player, get_player, is_input_allowed, update_last_input_time, update_world}
use cpp_mmo.Game.State.{Config, Game, set_player, is_valid_position}

module _ {F : Type 0} ⦃fl : FloatOps F⦄ where
  abbrev flat : F → F → Vec3 F
  flat x y = record { x = x; y = y; z = fl.of_nat 0 }

  -- DIRECTION_TABLE.
  unfoldable pub direction_table : List (Vec3 F)
  direction_table =
      let o = fl.of_nat 0 in
      let one = fl.of_nat 1 in
      let d = fl.diagonal in
      flat o o
      ∷ flat o one
      ∷ flat o (fl.neg one)
      ∷ flat o o
      ∷ flat (fl.neg one) o
      ∷ flat (fl.neg d) d
      ∷ flat (fl.neg d) (fl.neg d)
      ∷ flat (fl.neg one) o
      ∷ flat one o
      ∷ flat d d
      ∷ flat d (fl.neg d)
      ∷ flat one o
      ∷ flat o o
      ∷ flat o one
      ∷ flat o (fl.neg one)
      ∷ flat o o
      ∷ []

  abbrev pub entry : List (Vec3 F) → ℕ → Vec3 F
  entry [] i = flat (fl.of_nat 0) (fl.of_nat 0)
  entry (v ∷ vs) zero = v
  entry (v ∷ vs) (suc i) = entry vs i

  unfoldable pub input_flags_to_direction : ℕ → Vec3 F
  unfolding direction_table
  input_flags_to_direction flags = entry direction_table (flags % 16)

  -- What an accepted input writes; `set_at` is the second clock reading.
  unfoldable pub accept_input : Config F → Player F → PlayerInput F → ℕ → Player F
  unfolding update_last_input_time
  accept_input c p i set_at = record (update_last_input_time p set_at) {
    last_input_sequence = i.sequence_number;
    current_input_flags = i.input_flags;
    velocity = Vector.scale (input_flags_to_direction i.input_flags) c.move_speed;
  }

  unfoldable pub handle_player_input : Game F → PlayerInput F → ℕ → ℕ → Game F
  unfolding get_player set_player
  handle_player_input g i now set_at = elim (get_player g.world i.player_id) [
    | none ↦ g
    | some p ↦
        if not (is_input_allowed p now)
        then g
        else if leb i.sequence_number p.last_input_sequence
        then g
        else set_player g i.player_id (accept_input g.config p i set_at)
  ]

  -- The position of an active player after `delta` seconds.
  unfoldable pub next_position : Config F → F → Player F → Vec3 F
  next_position c delta p =
      let new_pos = Vector.add p.position (Vector.scale p.velocity delta) in
      if is_valid_position c new_pos then new_pos else p.position

  -- The loop of `UpdateWorld` over the players.
  unfoldable pub move_players :
      Config F → F → Dict (Player F) → QuadTree F → Dict (Player F) × QuadTree F
  move_players c delta [] t = ([], t)
  move_players c delta ((id, p) ∷ rest) t =
      if p.is_active
      then (let p' = record p { position = next_position c delta p } in
          let (rest', t') = move_players c delta rest (QuadTree.update t id p'.position) in
          ((id, p') ∷ rest', t'))
      else (let (rest', t') = move_players c delta rest t in ((id, p) ∷ rest', t'))

  unfoldable pub update_game_world : Game F → F → Game F
  unfolding update_world move_players
  update_game_world g delta =
      let (world', tree') = move_players g.config delta (update_world g.world delta) g.quad_tree in
      record g { world = world'; quad_tree = tree' }

-- ===== src/Game/Zone.antt =====
-- Entering and leaving: `HandleEnterZone`, `HandlePlayerDisconnect`, the messages that they send,
-- and the dispatch of `ProcessGameCommand`.
use cpp_mmo.Base.{ℕ, true, false, not, ◌&&◌, Option, none, some, List, [], ◌∷◌, ◌==◌, if◌then◌else◌}
use cpp_mmo.Base.Dict.{Dict}
use cpp_mmo.Base.Text.{player_name}
use cpp_mmo.Float.{FloatOps}
use cpp_mmo.Vector.{Vec3}
use cpp_mmo.Command.{
  EnterZone, PlayerDisconnect, GameCommand, Payload, player_input, enter_zone, player_spawn,
  player_disconnect,
}
use cpp_mmo.QuadTree
use cpp_mmo.World.{Player, get_player, add_player, set_active, new_player}
use cpp_mmo.Game.State.{
  PlayerInfo, Packet, zone_entered, player_joined, player_left, SessionView, Game, get_session,
  send_if_connected, set_player, get_players_in_aoi,
}
use cpp_mmo.Game.Input.{handle_player_input}

module _ {F : Type 0} ⦃fl : FloatOps F⦄ where
  -- The entry of S_ZoneEntered for a player near by: the hit points are constants there.
  unfoldable pub near_infos : Dict (Player F) → ℕ → List ℕ → List (PlayerInfo F)
  unfolding get_player
  near_infos w self [] = []
  near_infos w self (id ∷ ids) =
      let rest = near_infos w self ids in
      if id == self then rest else elim (get_player w id) [
        | none ↦ rest
        | some p ↦
            record {
              player_id = id;
              name = player_name id;
              position = p.position;
              hp = 100;
              max_hp = 100;
            }
            ∷ rest
      ]

  unfoldable pub send_enter_zone_response : Game F → ℕ → Option SessionView → Game F
  unfolding get_player get_players_in_aoi near_infos send_if_connected
  send_enter_zone_response g id session = elim (get_player g.world id) [
    | none ↦ g
    | some p ↦
        let info : PlayerInfo F = record {
          player_id = id;
          name = player_name id;
          position = p.position;
          hp = 100;
          max_hp = 100;
        } in
        send_if_connected g session
          (zone_entered 1 info (near_infos g.world id (get_players_in_aoi g p.position)))
  ]

  -- The loop over the players of both broadcasts.
  unfoldable pub broadcast : Dict (Player F) → ℕ → Packet F → Game F → Game F
  unfolding get_session send_if_connected
  broadcast [] id packet g = g
  broadcast ((other, p) ∷ rest) id packet g = broadcast rest id packet (
      if not (other == id) && p.is_active
      then send_if_connected g (get_session g p.session_id) packet
      else g)

  unfoldable pub broadcast_player_joined : Game F → ℕ → Game F
  unfolding get_player broadcast
  broadcast_player_joined g id = elim (get_player g.world id) [
    | none ↦ g
    | some p ↦
        let info : PlayerInfo F = record {
          player_id = id;
          name = player_name id;
          position = p.position;
          hp = p.hp;
          max_hp = p.max_hp;
        } in
        broadcast g.world id (player_joined info) g
  ]

  unfoldable pub broadcast_player_left : Game F → ℕ → Game F
  unfolding broadcast
  broadcast_player_left g id = broadcast g.world id (player_left id) g

  -- The player is made active, or made, at `spawn`, and indexed: what precedes the messages.
  unfoldable pub return_player : Game F → EnterZone → Player F → Game F
  unfolding set_active set_player
  return_player g d p =
      let p' = record (set_active p true 0) { session_id = d.session_id } in
      record (set_player g d.player_id p') {
        quad_tree = QuadTree.insert g.quad_tree d.player_id p'.position;
      }

  unfoldable pub spawn_player : Game F → EnterZone → Vec3 F → Game F
  unfolding add_player new_player
  spawn_player g d spawn =
      let p = record (new_player d.player_id (player_name d.player_id) spawn) {
        session_id = d.session_id;
      } in
      record g {
        world = add_player g.world p;
        quad_tree = QuadTree.insert g.quad_tree d.player_id spawn;
      }

  unfoldable pub handle_enter_zone : Game F → EnterZone → Option SessionView → Vec3 F → Game F
  unfolding get_player return_player spawn_player
  handle_enter_zone g d session spawn = elim (get_player g.world d.player_id) [
    | none ↦
        broadcast_player_joined
          (send_enter_zone_response (spawn_player g d spawn) d.player_id session) d.player_id
    | some p ↦
        if p.is_active
        then g
        else broadcast_player_joined
            (send_enter_zone_response (return_player g d p) d.player_id session) d.player_id
  ]

  -- What precedes the broadcast.
  unfoldable pub retire_player : Game F → ℕ → Player F → ℕ → Game F
  unfolding set_active set_player
  retire_player g id p now =
      record (set_player g id (record (set_active p false now) { last_input_sequence = 0 })) {
        quad_tree = QuadTree.remove g.quad_tree id;
      }

  unfoldable pub handle_player_disconnect : Game F → PlayerDisconnect → ℕ → Game F
  unfolding get_player retire_player broadcast_player_left
  handle_player_disconnect g d now = elim (get_player g.world d.player_id) [
    | none ↦ g
    | some p ↦ broadcast_player_left (retire_player g d.player_id p now) d.player_id
  ]

-- What a command reads from outside: the clock, twice, and the random spawn position.
pub record Reads (F : Type 0) : Type 0 where
  pub now : ℕ
  pub set_at : ℕ
  pub spawn : Vec3 F

module _ {F : Type 0} ⦃fl : FloatOps F⦄ where
  -- The `std::visit` over the payload.
  unfoldable pub visit_payload : Game F → Payload F → SessionView → Reads F → Game F
  visit_payload g (player_input i) session r = handle_player_input g i r.now r.set_at
  visit_payload g (enter_zone d) session r = handle_enter_zone g d (some session) r.spawn
  visit_payload g (player_spawn d) session r = g
  visit_payload g (player_disconnect d) session r = g

  -- Every payload but a disconnection needs the sender's session.
  unfoldable pub dispatch_to_session : Game F → Payload F → ℕ → Reads F → Game F
  unfolding get_session visit_payload
  dispatch_to_session g payload sender r = elim (get_session g sender) [
    | none ↦ g
    | some session ↦ visit_payload g payload session r
  ]

  unfoldable pub dispatch_payload : Game F → Payload F → ℕ → Reads F → Game F
  unfolding dispatch_to_session
  dispatch_payload g (player_disconnect d) sender r = handle_player_disconnect g d r.now
  dispatch_payload g (player_input i) sender r = dispatch_to_session g (player_input i) sender r
  dispatch_payload g (enter_zone d) sender r = dispatch_to_session g (enter_zone d) sender r
  dispatch_payload g (player_spawn d) sender r = dispatch_to_session g (player_spawn d) sender r

  unfoldable pub process_game_command : Game F → GameCommand F → Reads F → Game F
  unfolding dispatch_payload
  process_game_command g c r = elim g.session_manager [
    | none ↦ g
    | some sessions ↦ dispatch_payload g c.payload c.sender_session_id r
  ]

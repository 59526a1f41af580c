-- ===== src/Tests/Messages.antt =====
-- The theorems on input, snapshots and departure at a game with one player.
use cpp_mmo.Base.{arith, ℕ, ◌≡◌, refl, true, false, ◌&&◌, some, [], ◌∷◌, count, ◌==◌, if◌then◌else◌}
use cpp_mmo.Base.Dict.{find, store, map_found}
use cpp_mmo.Vector.{Vec3}
use cpp_mmo.World.{Player, new_player}
use cpp_mmo.Game.State.{Game, get_players_in_aoi, get_session}
use cpp_mmo.Game.Input.{handle_player_input, input_flags_to_direction}
use cpp_mmo.Game.Zone.{process_game_command}
use cpp_mmo.Game.Loop.{empty_game, no_stats}
use cpp_mmo.Game.Inputs.{
  is_accepted, steered, handle_inputs, handle_inputs-stale, handle_player_input_lem, wasd_direction,
  input_flags_to_direction_lem,
}
use cpp_mmo.Game.Departure.{process_game_command-disconnect_command}
use cpp_mmo.Base.Text.{player_name, to_string, digits}
use cpp_mmo.QuadTree.{
  query, query_node, insert, insert_into_node, contains, intersects, in_range, select,
}
use cpp_mmo.World.{get_player, add_player, set_active}
use cpp_mmo.Game.State.{send_if_connected}
use cpp_mmo.Game.Zone.{
  dispatch_payload, dispatch_to_session, visit_payload, handle_enter_zone, spawn_player,
  send_enter_zone_response, broadcast_player_joined, broadcast, near_infos,
}
use cpp_mmo.Network.Session.{Session}
use cpp_mmo.Network.Manager.{disconnect_command}
use cpp_mmo.Tests.Scaled.{scaled, scaled-laws}
use cpp_mmo.Tests.Spatial.{at, empty_tree}
use cpp_mmo.Tests.Play.{config, sessions, first_game, enter, entered-IsSynced, input, reads}

abbrev flat_origin : Vec3 ℕ
flat_origin = record { x = 0; y = 0; z = 0 }

abbrev player : Player ℕ
player = record {
  player_id = 7;
  name = [];
  position = at 30 40;
  velocity = flat_origin;
  rotation = 0;
  hp = 100;
  max_hp = 100;
  mp = 50;
  max_mp = 50;
  current_input_flags = 0;
  mouse_position = flat_origin;
  last_input_sequence = 0;
  last_input_time = 0;
  is_active = true;
  session_id = 1;
  disconnect_time = 0;
  last_update_tick = 0;
  move_speed = 320;
}

abbrev game : Game ℕ
game = record {
  config = config;
  world = (7, player) ∷ [];
  quad_tree = empty_tree;
  session_manager = some sessions;
  tick_number = 10;
  player_batches = [];
  aoi_cache =
      (7, record { visible_players = 7 ∷ 9 ∷ []; last_update_tick = 9; last_position = at 30 40 })
      ∷ [];
  stats = no_stats;
  last_stats_report_tick = 0;
  deliveries = [];
}

there : find 7 game.world ≡ some player
unfolding find
there = refl

handle_player_input_lem_example :
    find 7 (handle_player_input game input 100_000_000 100_000_500).world
    ≡ map_found
        (λ p.
          if (7 == 7) && is_accepted p input 100_000_000
          then steered config.move_speed p input 100_000_500
          else p)
        (find 7 game.world)
handle_player_input_lem_example = handle_player_input_lem game input 100_000_000 100_000_500 7

newer : is_accepted player input 100_000_000 ≡ true
newer = refl

handle_inputs-stale_example :
    handle_player_input
      (handle_inputs
        (handle_player_input game input 100_000_000 100_000_500)
        ((record input { sequence_number = 9 }, 200_000_000, 200_000_500) ∷ []))
      input
      300_000_000
      300_000_500
    ≡ handle_inputs
        (handle_player_input game input 100_000_000 100_000_500)
        ((record input { sequence_number = 9 }, 200_000_000, 200_000_500) ∷ [])
handle_inputs-stale_example =
    handle_inputs-stale game input input player
      ((record input { sequence_number = 9 }, 200_000_000, 200_000_500) ∷ []) 100_000_000
      100_000_500 300_000_000 300_000_500 there newer refl (omega arith)

input_flags_to_direction_lem_example : input_flags_to_direction {F = ℕ} 25 ≡ wasd_direction 25
input_flags_to_direction_lem_example = input_flags_to_direction_lem 25

abbrev leaver : Session
leaver = record {
  session_id = 1;
  player_id = 7;
  is_open = false;
  read_header = [];
  read_body = [];
  write_queue = [];
  has_callback = true;
}

-- Player 7 has entered.
abbrev entered : Game ℕ
entered = process_game_command first_game (enter 7 1) (reads 0)

managed : entered.session_manager ≡ some sessions
unfolding empty_game process_game_command dispatch_payload dispatch_to_session visit_payload
    handle_enter_zone spawn_player send_enter_zone_response broadcast_player_joined broadcast
    get_player get_session send_if_connected find add_player store new_player player_name to_string
    digits set_active near_infos get_players_in_aoi query query_node insert insert_into_node
    contains intersects in_range select
managed = refl

process_game_command-disconnect_command_example :
    count 7 (
      get_players_in_aoi
        (process_game_command entered (disconnect_command leaver 3) (reads 1))
        (at 50 50))
    ≡ 0
process_game_command-disconnect_command_example =
    process_game_command-disconnect_command scaled-laws entered leaver 3 (reads 1) sessions
      (at 50 50) managed entered-IsSynced

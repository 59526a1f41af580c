-- ===== src/Tests/Play.antt =====
-- The theorems on the game at a map of 200 by 200 with one or two players.
use cpp_mmo.Base.{ℕ, ◌≡◌, refl, true, false, some, List, [], ◌∷◌, ◌++◌, count, to_nat, length, ◌≤◌}
use cpp_mmo.Base.Dict.{Dict, find}
use cpp_mmo.Command.{GameCommand, PlayerInput, player_input, enter_zone}
use cpp_mmo.QuadTree.{new, create_node, max_depth}
use cpp_mmo.QuadTree.Shape.{HalvesExactly}
use cpp_mmo.Game.State.{Config, Game, SessionView, is_valid_position, get_players_in_aoi}
use cpp_mmo.Game.Zone.{Reads, process_game_command}
use cpp_mmo.Game.Loop.{Check, Round, collect_commands, game_round, empty_game, new_game}
use cpp_mmo.Game.Sync.{IsSynced, is_visible}
use cpp_mmo.Game.Commands.{Kept, process_game_command-Kept}
use cpp_mmo.Game.Rounds.{
  collect_commands-accounts, new_game-IsSynced, map_bounds, Reached, start, round, reached-exact,
}
use cpp_mmo.Game.Snapshot.{get_cached_players_in_aoi}
use cpp_mmo.Game.Freshness.{snapped, IsRecent, get_cached_players_in_aoi-IsRecent}
use cpp_mmo.Tests.Scaled.{scaled, scaled-laws, doubled-HalvesExactly}
use cpp_mmo.Tests.Spatial.{side, at, empty_tree}

abbrev pub config : Config ℕ
config = record {
  aoi_range = 6400;
  move_speed = 320;
  map_width = side;
  map_height = side;
  tick_duration = 33;
  command_batch_size = 500;
  aoi_update_interval = 3;
  aoi_position_threshold = 640;
}

abbrev pub sessions : Dict SessionView
sessions =
    (1, record { session_id = 1; is_connected = true })
    ∷ (2, record { session_id = 2; is_connected = true })
    ∷ []

abbrev pub first_game : Game ℕ
first_game = empty_game config (some sessions) empty_tree

pub made_game : new_game config (some sessions) ≡ some first_game
unfolding new_game new create_node
made_game = refl

pub map_halves : HalvesExactly max_depth (map_bounds scaled-laws config)
map_halves = doubled-HalvesExactly 6 0 0 200 200

first_game-IsSynced : IsSynced first_game
first_game-IsSynced =
    (new_game-IsSynced scaled-laws config (some sessions) first_game map_halves made_game).0

abbrev pub enter : ℕ → ℕ → GameCommand ℕ
enter player session = record {
  command_id = 0;
  payload = enter_zone (record { player_id = player; zone_id = 1; session_id = session });
  sender_session_id = session;
  timestamp = 0;
}

abbrev pub input : PlayerInput ℕ
input = record {
  player_id = 7;
  tick_number = 0;
  client_time = 0;
  input_flags = 9;
  mouse_position = record { x = 0; y = 0; z = 0 };
  sequence_number = 1;
  session_id = 1;
}

abbrev queue : List (GameCommand ℕ)
queue =
    enter 7 1
    ∷ enter 8 2
    ∷ record { command_id = 0; payload = player_input input; sender_session_id = 1; timestamp = 0 }
    ∷ []

abbrev pub reads : ℕ → Reads ℕ
reads k = record { now = 100_000_000; set_at = 100_000_500; spawn = at 100 100 }

abbrev checks : ℕ → Check
checks k = record { timed_out = false; is_running = true }

abbrev pub tick : Round ℕ
tick = record {
  delta = 40;
  delta_seconds = 2;
  checks = checks;
  reads = reads;
  server_time = 5000;
  command_time = 10;
  world_time = 10;
  snapshot_time = 10;
}

pub spawns_on_map : (k : ℕ) → is_valid_position config (reads k).spawn ≡ true
unfolding is_valid_position
spawns_on_map k = refl

spawns_on_first_map : (k : ℕ) → is_valid_position first_game.config (reads k).spawn ≡ true
unfolding empty_game is_valid_position
spawns_on_first_map k = refl

reached : Reached scaled-laws config (game_round first_game queue tick).0
reached = round first_game queue tick spawns_on_map (start (some sessions) first_game made_game)

reached-exact_example :
    count 7 (get_players_in_aoi (game_round first_game queue tick).0 (at 90 90))
    ≡ to_nat (is_visible 6400 (at 90 90) (find 7 (game_round first_game queue tick).0.world))
reached-exact_example =
    reached-exact scaled-laws config (game_round first_game queue tick).0 (at 90 90) 7 map_halves
      reached

process_game_command-Kept_example :
    Kept first_game (process_game_command first_game (enter 7 1) (reads 0))
process_game_command-Kept_example =
    process_game_command-Kept scaled-laws first_game (enter 7 1) (reads 0) (spawns_on_first_map 0)
      first_game-IsSynced

pub entered-IsSynced : IsSynced (process_game_command first_game (enter 7 1) (reads 0))
entered-IsSynced =
    (process_game_command-Kept scaled-laws first_game (enter 7 1) (reads 0) (spawns_on_first_map 0)
      first_game-IsSynced).synced

collect_commands-accounts_example :
    (dropped : List (GameCommand ℕ)) × ((collect_commands 2 0 checks queue).0
        ++ dropped
        ++ (collect_commands 2 0 checks queue).1
      ≡ queue)
    × (length dropped ≤ 1)
    × (length (collect_commands 2 0 checks queue).0 ≤ 2)
    × (((k : ℕ) → (checks k).is_running ≡ true) → dropped ≡ [])
collect_commands-accounts_example = collect_commands-accounts 2 0 checks queue

-- The second round, with nothing to do but the snapshots.
abbrev once_played : Game ℕ
once_played = (game_round first_game queue tick).0

get_cached_players_in_aoi-IsRecent_example :
    IsRecent scaled-laws config once_played
      (snapped once_played [] tick)
      (at 100 100)
      (get_cached_players_in_aoi (snapped once_played [] tick) 7 (at 100 100)).0
get_cached_players_in_aoi-IsRecent_example =
    get_cached_players_in_aoi-IsRecent scaled-laws config once_played [] tick 7 (at 100 100)
      map_halves reached spawns_on_map

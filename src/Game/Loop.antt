-- ===== src/Game/Loop.antt =====
-- `ProcessPendingCommands` and one round of `GameLoop`. What a round reads from outside (clocks,
-- the running flag, random positions) is its argument; the queue is the list of its commands.
use cpp_mmo.Base.{
  ℕ, zero, suc, ◌+◌, ◌%◌, ◌/◌, ◌*◌, Bool, List, [], ◌∷◌, ltb, leb, if◌then◌else◌, length, Option,
}
use cpp_mmo.Base.Dict.{Dict, map_found}
use cpp_mmo.Float.{FloatOps}
use cpp_mmo.QuadTree
use cpp_mmo.QuadTree.{QuadTree}
use cpp_mmo.Command.{GameCommand}
use cpp_mmo.Game.State.{Config, Stats, SessionView, Game}
use cpp_mmo.Game.Input.{update_game_world}
use cpp_mmo.Game.Zone.{Reads, process_game_command}
use cpp_mmo.Game.Snapshot.{u64, sub_u64, send_world_snapshots, flush_all_batches}

-- What the loop that collects commands reads in one of its rounds.
pub record Check : Type 0 where
  pub timed_out : Bool
  pub is_running : Bool

-- At most `n` commands are moved from the queue to the batch. A command that is taken while the
-- manager stops is dropped.
unfoldable pub collect_commands :
    {F : Type 0}
    → ℕ
    → ℕ
    → (ℕ → Check)
    → List (GameCommand F)
    → List (GameCommand F) × List (GameCommand F)
collect_commands zero i checks queue = ([], queue)
collect_commands (suc n) i checks [] = ([], [])
collect_commands (suc n) i checks (c ∷ queue) =
    let (batch, left) = collect_commands n (suc i) checks queue in
    if (checks i).timed_out
    then ([], c ∷ queue)
    else if (checks i).is_running
    then (c ∷ batch, left)
    else ([], queue)

module _ {F : Type 0} ⦃fl : FloatOps F⦄ where
  unfoldable pub process_batch : List (GameCommand F) → ℕ → (ℕ → Reads F) → Game F → Game F
  unfolding process_game_command
  process_batch [] i reads g = g
  process_batch (c ∷ cs) i reads g =
      process_batch cs (suc i) reads (process_game_command g c (reads i))

  unfoldable pub process_pending_commands :
      Game F → List (GameCommand F) → (ℕ → Check) → (ℕ → Reads F) → Game F × List (GameCommand F)
  unfolding collect_commands process_batch
  process_pending_commands g queue checks reads =
      let (batch, left) = collect_commands g.config.command_batch_size 0 checks queue in
      let g' = process_batch batch 0 reads g in
      (
        record g' {
          stats = record g'.stats {
            total_commands_processed = (g'.stats.total_commands_processed + length batch) % u64;
          };
        },
        left,
      )

-- What one round of the loop reads; `delta` is in milliseconds, `delta_seconds` is it over 1000.
pub record Round (F : Type 0) : Type 0 where
  pub delta : ℕ
  pub delta_seconds : F
  pub checks : ℕ → Check
  pub reads : ℕ → Reads F
  pub server_time : ℕ
  pub command_time : ℕ
  pub world_time : ℕ
  pub snapshot_time : ℕ

abbrev pub stats_report_interval : ℕ
stats_report_interval = 300

abbrev pub no_stats : Stats
no_stats = record {
  total_commands_processed = 0;
  total_aoi_queries_skipped = 0;
  total_aoi_queries_executed = 0;
  total_command_processing_time = 0;
  total_world_update_time = 0;
  total_snapshot_time = 0;
}

-- What `ReportPerformanceStats` logs: averages of microseconds, and the share of the queries that the
-- cache answered, in percent.
pub record Report (F : Type 0) : Type 0 where
  pub commands_per_second : ℕ
  pub command_average : ℕ
  pub world_average : ℕ
  pub snapshot_average : ℕ
  pub hit_rate : F
  pub queries_skipped : ℕ
  pub queries_executed : ℕ

module _ {F : Type 0} ⦃fl : FloatOps F⦄ where
  unfoldable report_performance_stats : Stats → Report F × Stats
  report_performance_stats s =
      let total = (s.total_aoi_queries_skipped + s.total_aoi_queries_executed) % u64 in
      (
        record {
          commands_per_second = s.total_commands_processed * 60 % u64 / stats_report_interval;
          command_average = s.total_command_processing_time / stats_report_interval;
          world_average = s.total_world_update_time / stats_report_interval;
          snapshot_average = s.total_snapshot_time / stats_report_interval;
          hit_rate =
              if ltb 0 total
              then fl.mul (fl.div (fl.of_nat s.total_aoi_queries_skipped) (fl.of_nat total))
                  (fl.of_nat 100)
              else fl.of_nat 0;
          queries_skipped = s.total_aoi_queries_skipped;
          queries_executed = s.total_aoi_queries_executed;
        },
        no_stats,
      )

  -- The statistics of a round, which start again from nothing once they are reported.
  unfoldable pub update_stats : Game F → Round F → Game F
  unfolding report_performance_stats
  update_stats g r =
      let stats' = record g.stats {
        total_command_processing_time = g.stats.total_command_processing_time + r.command_time;
        total_world_update_time = g.stats.total_world_update_time + r.world_time;
        total_snapshot_time = g.stats.total_snapshot_time + r.snapshot_time;
      } in
      if leb stats_report_interval (sub_u64 g.tick_number g.last_stats_report_tick)
      then record g {
        stats = (report_performance_stats stats').1;
        last_stats_report_tick = g.tick_number;
      }
      else record g { stats = stats' }

  unfoldable pub game_round :
      Game F → List (GameCommand F) → Round F → Game F × List (GameCommand F)
  unfolding process_pending_commands update_game_world send_world_snapshots flush_all_batches
      update_stats
  game_round g queue r =
      if ltb r.delta g.config.tick_duration
      then (g, queue)
      else (let (g₁, left) = process_pending_commands g queue r.checks r.reads in
          let g₂ = update_game_world g₁ r.delta_seconds in
          let g₃ = flush_all_batches (send_world_snapshots g₂ r.server_time) in
          (update_stats g₃ r, left))

  -- The members after the constructor, which has made the index.
  unfoldable pub empty_game : Config F → Option (Dict SessionView) → QuadTree F → Game F
  empty_game c sessions t = record {
    config = c;
    world = [];
    quad_tree = t;
    session_manager = sessions;
    tick_number = 0;
    player_batches = [];
    aoi_cache = [];
    stats = no_stats;
    last_stats_report_tick = 0;
    deliveries = [];
  }

  -- The constructor; `LoadGameConfig` has read the configuration.
  unfoldable pub new_game : Config F → Option (Dict SessionView) → Option (Game F)
  unfolding empty_game
  new_game c sessions =
      map_found (λ t. empty_game c sessions t)
        (QuadTree.new (fl.of_nat 0) (fl.of_nat 0) c.map_width c.map_height)

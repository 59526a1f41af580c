-- ===== src/Game/Rounds.antt =====
-- The game loop over many rounds, for the theorems on `ProcessPendingCommands` and `GameLoop`.
use mathlib.Core.Path.{subst}
use cpp_mmo.Base.{
  ℕ, zero, suc, ◌≤◌, ◌≡◌, refl, ap, ◌∙◌, inl, inr, true, false, Option, some, List, [], ◌∷◌, ◌++◌,
  arith, Bool-cases, Option-cases, to_nat, leb, ltb, length, count, count_nil,
}
use cpp_mmo.Base.Dict.{Dict, find}
use cpp_mmo.Float.{FloatOps, FloatLaws}
use cpp_mmo.Vector.{Vec3}
use cpp_mmo.Command.{GameCommand}
use cpp_mmo.QuadTree
use cpp_mmo.QuadTree.{Bounds, QuadTree, max_depth, contains, bounds}
use cpp_mmo.QuadTree.Shape.{HalvesExactly}
use cpp_mmo.QuadTree.Refines.{new-IsValid, positions-new}
use cpp_mmo.World.{Player}
use cpp_mmo.Game.State.{Config, Game, SessionView, is_valid_position, get_players_in_aoi}
use cpp_mmo.Game.Input.{update_game_world}
use cpp_mmo.Game.Zone.{Reads, process_game_command}
use cpp_mmo.Game.Snapshot.{
  query_aoi, should_update_aoi, get_cached_players_in_aoi, add_snapshot_to_player_batch,
  add_to_player_batch, snapshot_players, send_world_snapshots, flush_all_batches, update_aoi_cache,
  next_u64, sub_u64,
}
use cpp_mmo.Game.Loop.{
  Check, Round, collect_commands, process_batch, process_pending_commands, update_stats, game_round,
  new_game, empty_game, stats_report_interval,
}
use cpp_mmo.Game.Sync.{IsSynced, is_visible, get_players_in_aoi-exact}
use cpp_mmo.Game.Moves.{update_game_world-IsSynced}
use cpp_mmo.Game.Commands.{
  SameWorld, SameWorld-trans, Kept, SameWorld-Kept, unchanged-Kept, process_game_command-Kept,
}

-- The commands of a batch and those left in the queue are the commands of the queue, in its order,
-- but for at most one, which is dropped only while the manager stops.
pub collect_commands-accounts :
    {F : Type 0} (n i : ℕ) (checks : ℕ → Check) (queue : List (GameCommand F))
    → let r = collect_commands n i checks queue in
      (dropped : List (GameCommand F)) × (r.0 ++ dropped ++ r.1 ≡ queue)
      × (length dropped ≤ 1)
      × (length r.0 ≤ n)
      × (((k : ℕ) → (checks k).is_running ≡ true) → dropped ≡ [])
unfolding collect_commands
collect_commands-accounts zero i checks queue = ([], refl, omega arith, omega arith, λ h. refl)
collect_commands-accounts (suc n) i checks [] = ([], refl, omega arith, omega arith, λ h. refl)
collect_commands-accounts (suc n) i checks (c ∷ queue) = elim (Bool-cases (checks i).timed_out) [
  | inl late ↦ simp late ([], refl, omega arith, omega arith, λ h. refl)
  | inr early ↦ elim (Bool-cases (checks i).is_running) [
    | inl running ↦
        let (dropped, parts, few, bounded, kept) =
          collect_commands-accounts n (suc i) checks queue in
        simp (early, running) (dropped, ap (◌∷◌ c) parts, few, omega arith, kept)
    | inr stopping ↦ simp (early, stopping) (c ∷ [], refl, omega arith, omega arith, λ h. cc (h i))
  ]
]

module _ {F : Type 0} ⦃fl : FloatOps F⦄ where
  query_aoi-SameWorld :
      (g : Game F) (id : ℕ) (position : Vec3 F) → SameWorld g (query_aoi g id position).1
  unfolding query_aoi update_aoi_cache
  query_aoi-SameWorld g id position = record { config = refl; world = refl; tree = refl }

  get_cached_players_in_aoi-SameWorld :
      (g : Game F) (id : ℕ) (position : Vec3 F)
      → SameWorld g (get_cached_players_in_aoi g id position).1
  unfolding get_cached_players_in_aoi
  get_cached_players_in_aoi-SameWorld g id position =
      elim (Bool-cases (should_update_aoi g id position)) [
        | inl stale ↦ simp stale (query_aoi-SameWorld g id position)
        | inr fresh ↦ elim (Option-cases (find id g.aoi_cache)) [
          | inl missing ↦ simp (fresh, missing) (query_aoi-SameWorld g id position)
          | inr (c, cached) ↦
              simp (fresh, cached) (record { config = refl; world = refl; tree = refl })
        ]
      ]

  pub snapshot_players-SameWorld :
      (w : Dict (Player F)) (server_time : ℕ) (g : Game F)
      → SameWorld g (snapshot_players w server_time g)
  unfolding snapshot_players add_snapshot_to_player_batch add_to_player_batch
  snapshot_players-SameWorld [] server_time g = record { config = refl; world = refl; tree = refl }
  snapshot_players-SameWorld ((id, p) ∷ w) server_time g = elim (Bool-cases p.is_active) [
    | inl active ↦
        let cached = get_cached_players_in_aoi g id p.position in
        let batched = add_snapshot_to_player_batch cached.1 id cached.0 server_time in
        let same : SameWorld cached.1 batched = record {
          config = refl;
          world = refl;
          tree = refl;
        } in
        simp active (
          SameWorld-trans g batched _
            (SameWorld-trans g cached.1 batched
              (get_cached_players_in_aoi-SameWorld g id p.position) same)
            (snapshot_players-SameWorld w server_time batched))
    | inr away ↦ simp away (snapshot_players-SameWorld w server_time g)
  ]

  -- The snapshots, the batches and the statistics change nothing of the simulation.
  after_update-SameWorld :
      (g : Game F) (r : Round F)
      → SameWorld g (update_stats (flush_all_batches (send_world_snapshots g r.server_time)) r)
  unfolding update_stats flush_all_batches send_world_snapshots
  after_update-SameWorld g r =
      let ticked : Game F = record g { tick_number = next_u64 g.tick_number } in
      let shown = flush_all_batches (snapshot_players g.world r.server_time ticked) in
      let same = snapshot_players-SameWorld g.world r.server_time ticked in
      elim (Bool-cases
        (leb stats_report_interval (sub_u64 shown.tick_number shown.last_stats_report_tick))) [
          | inl due ↦
              simp due (record { config = same.config; world = same.world; tree = same.tree })
          | inr early ↦
              simp early (record { config = same.config; world = same.world; tree = same.tree })
        ]

module _ {F : Type 0} ⦃fl : FloatOps F⦄ (laws : FloatLaws fl) where
  pub process_batch-Kept :
      (cs : List (GameCommand F)) (i : ℕ) (reads : ℕ → Reads F) (g : Game F)
      → ((k : ℕ) → is_valid_position g.config (reads k).spawn ≡ true)
      → IsSynced g
      → Kept g (process_batch cs i reads g)
  unfolding process_batch
  process_batch-Kept [] i reads g on_map s = unchanged-Kept g s
  process_batch-Kept (c ∷ cs) i reads g on_map s =
      let step = process_game_command-Kept laws g c (reads i) (on_map i) s in
      let rest =
        process_batch-Kept cs (suc i) reads (process_game_command g c (reads i))
          (λ k. rw step.config (on_map k)) step.synced in
      record { synced = rest.synced; config = rest.config ∙ step.config }

  pub config-update_game_world :
      (g : Game F) (delta : F) → (update_game_world g delta).config ≡ g.config
  unfolding update_game_world
  config-update_game_world g delta = refl

  -- A round keeps a world and an index that are in step so, under the same configuration, whatever
  -- commands are queued, if the spawn positions drawn are on the map.
  pub game_round-Kept :
      (g : Game F) (queue : List (GameCommand F)) (r : Round F)
      → ((k : ℕ) → is_valid_position g.config (r.reads k).spawn ≡ true)
      → IsSynced g
      → Kept g (game_round g queue r).0
  unfolding game_round process_pending_commands
  game_round-Kept g queue r on_map s = elim (Bool-cases (ltb r.delta g.config.tick_duration)) [
    | inl early ↦ simp early (unchanged-Kept g s)
    | inr due ↦
        let g₁ = (process_pending_commands g queue r.checks r.reads).0 in
        let done =
          process_batch-Kept (collect_commands g.config.command_batch_size 0 r.checks queue).0 0
            r.reads g on_map s in
        let g₂ = update_game_world g₁ r.delta_seconds in
        let moved = update_game_world-IsSynced laws g₁ r.delta_seconds done.synced in
        simp due (
          SameWorld-Kept g g₂ _ (after_update-SameWorld g₂ r)
            (config-update_game_world g₁ r.delta_seconds ∙ done.config) moved.0)
  ]

  abbrev pub map_bounds : Config F → Bounds F
  map_bounds c = record {
    x = fl.of_nat 0;
    y = fl.of_nat 0;
    width = c.map_width;
    height = c.map_height;
  }

  map_bounds-area :
      (c : Config F) (p : Vec3 F)
      → fl.le c.map_width (fl.of_nat 0) ≡ false
      → fl.le c.map_height (fl.of_nat 0) ≡ false
      → contains (map_bounds c) p ≡ is_valid_position c p
  unfolding contains is_valid_position
  map_bounds-area c p wide tall =
      simp (laws.zero_add c.map_width wide, laws.zero_add c.map_height tall) refl

  pub new_game-IsSynced :
      (c : Config F) (sessions : Option (Dict SessionView)) (g : Game F)
      → HalvesExactly max_depth (map_bounds c)
      → new_game c sessions ≡ some g
      → IsSynced g × (g.config ≡ c)
  unfolding new_game empty_game find QuadTree.new
  new_game-IsSynced c sessions g h e =
      elim (Option-cases (QuadTree.new (fl.of_nat 0) (fl.of_nat 0) c.map_width c.map_height)) [
        | inl refused ↦ absurd (ground arith)
        | inr (t, made) ↦
            let (valid, at_bounds, wide, tall) = new-IsValid _ _ _ _ t h made in
            let g' = empty_game c sessions t in
            let e' : g' ≡ g = ground arith in
            subst (λ (x : Game F). IsSynced x × (x.config ≡ c)) e'
              (
                record {
                  valid = valid;
                  area = λ p. rw at_bounds (map_bounds-area c p wide tall);
                  indexed = λ q. simp (positions-new _ _ _ _ t made) refl;
                  on_map = λ q p there. absurd (ground arith);
                  keyed = λ q. rw (count_nil q) (omega arith);
                },
                refl,
              )
      ]

  -- The states between rounds: the game loop makes rounds, with whatever commands the other threads
  -- queue, and those threads connect and disconnect sessions.
  pub data Reached (c : Config F) : Game F → Type 0 where
    start :
        (sessions : Option (Dict SessionView)) (g : Game F)
        → new_game c sessions ≡ some g
        → Reached c g
    round :
        (g : Game F) (queue : List (GameCommand F)) (r : Round F)
        → ((k : ℕ) → is_valid_position c (r.reads k).spawn ≡ true)
        → Reached c g
        → Reached c (game_round g queue r).0
    sessions_changed :
        (g : Game F) (sessions : Option (Dict SessionView))
        → Reached c g
        → Reached c (record g { session_manager = sessions })

  pub Reached-Kept :
      (c : Config F) {g : Game F}
      → HalvesExactly max_depth (map_bounds c)
      → Reached c g
      → IsSynced g × (g.config ≡ c)
  Reached-Kept c h (start sessions g e) = new_game-IsSynced c sessions g h e
  Reached-Kept c h (round g queue r on_map before) =
      let (s, same) = Reached-Kept c h before in
      let k = game_round-Kept g queue r (λ k. rw same (on_map k)) s in (k.synced, k.config ∙ same)
  Reached-Kept c h (sessions_changed g sessions before) = Reached-Kept c h before

  -- On a map whose bounds halve exactly, whatever was played since the start, between two rounds a
  -- query of the area of interest gives each active player in range once and nobody else.
  pub reached-exact :
      (c : Config F) (g : Game F) (position : Vec3 F) (q : ℕ)
      → HalvesExactly max_depth (map_bounds c)
      → Reached c g
      → count q (get_players_in_aoi g position)
        ≡ to_nat (is_visible c.aoi_range position (find q g.world))
  reached-exact c g position q h before =
      let (s, same) = Reached-Kept c h before in
      get_players_in_aoi-exact laws g position q s ∙ simp same refl

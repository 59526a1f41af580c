-- ===== src/Game/Freshness.antt =====
-- Theorems on the cache of visible players over many rounds of the game loop.
use cpp_mmo.Base.{
  ℕ, ◌<◌, ◌≡◌, refl, sym, ap, ◌∙◌, ◌⊎◌, inl, inr, true, false, Option, none, some, List, [], arith,
  Bool-cases, Option-cases, to_nat, ltb, count,
}
use cpp_mmo.Base.Dict.{Dict, find}
use cpp_mmo.Float.{FloatOps, FloatLaws}
use cpp_mmo.Vector.{Vec3}
use cpp_mmo.Command.{GameCommand}
use cpp_mmo.QuadTree
use cpp_mmo.QuadTree.{max_depth}
use cpp_mmo.QuadTree.Shape.{HalvesExactly}
use cpp_mmo.Game.State.{Config, Game, AoiCache, SessionView, is_valid_position, get_players_in_aoi}
use cpp_mmo.Game.Input.{update_game_world}
use cpp_mmo.Game.Snapshot.{get_cached_players_in_aoi, send_world_snapshots, sub_u64}
use cpp_mmo.Game.Snapshots.{get_cached_players_in_aoi-fresh}
use cpp_mmo.Game.Loop.{
  Round, collect_commands, process_pending_commands, game_round, new_game, empty_game,
}
use cpp_mmo.Game.Sync.{IsSynced, is_visible, get_players_in_aoi-exact}
use cpp_mmo.Game.Moves.{update_game_world-IsSynced}
use cpp_mmo.Game.Flush.{ticked}
use cpp_mmo.Game.Rounds.{
  Reached, start, round, sessions_changed, Reached-Kept, map_bounds, process_batch-Kept,
  config-update_game_world,
}
use cpp_mmo.Game.Untouched.{process_batch-Untouched}
use cpp_mmo.Game.Cached.{Cached, snapshot_players-Cached, cache-update_stats}

module _ {F : Type 0} ⦃fl : FloatOps F⦄ where
  -- The state of a round in which the snapshots are taken: the commands are done, the players moved.
  abbrev pub snapped : Game F → List (GameCommand F) → Round F → Game F
  snapped g queue r =
      ticked
        (update_game_world (process_pending_commands g queue r.checks r.reads).0 r.delta_seconds)

  -- The first state took snapshots in a round that led to the second.
  pub data Before (h : Game F) : Game F → Type 0 where
    snaps :
        (g : Game F) (queue : List (GameCommand F)) (r : Round F)
        → ltb r.delta g.config.tick_duration ≡ false
        → h ≡ snapped g queue r
        → Before h (game_round g queue r).0
    later :
        (g : Game F) (queue : List (GameCommand F)) (r : Round F)
        → Before h g
        → Before h (game_round g queue r).0
    connections :
        (g : Game F) (sessions : Option (Dict SessionView))
        → Before h g
        → Before h (record g { session_manager = sessions })

  -- A list has each active player in range once, and nobody else.
  abbrev IsExact : F → Game F → Vec3 F → List ℕ → Type 0
  IsExact range h position visible =
      (q : ℕ) → count q visible ≡ to_nat (is_visible range position (find q h.world))

  -- The entry was exact in an earlier state, whose tick it has.
  abbrev IsTaken : F → Game F → AoiCache F → Type 0
  IsTaken range g e =
      (h : Game F) × Before h g
      × (e.last_update_tick ≡ h.tick_number)
      × IsExact range h e.last_position e.visible_players

module _ {F : Type 0} ⦃fl : FloatOps F⦄ (laws : FloatLaws fl) where
  -- The state in which the snapshots are taken is in step with its index.
  pub snapped-IsSynced :
      (c : Config F) (g : Game F) (queue : List (GameCommand F)) (r : Round F)
      → ((k : ℕ) → is_valid_position c (r.reads k).spawn ≡ true)
      → IsSynced g
      → g.config ≡ c
      → IsSynced (snapped g queue r) × ((snapped g queue r).config ≡ c)
  unfolding process_pending_commands
  snapped-IsSynced c g queue r on_map s same =
      let batch = (collect_commands g.config.command_batch_size 0 r.checks queue).0 in
      let done = process_batch-Kept laws batch 0 r.reads g (λ k. rw same (on_map k)) s in
      let g₁ = (process_pending_commands g queue r.checks r.reads).0 in
      let moved = update_game_world-IsSynced laws g₁ r.delta_seconds done.synced in
      (moved.0, config-update_game_world laws g₁ r.delta_seconds ∙ done.config ∙ same)

  -- A query in that state is exact.
  snapped-IsExact :
      (c : Config F) (g : Game F) (queue : List (GameCommand F)) (r : Round F) (position : Vec3 F)
      → ((k : ℕ) → is_valid_position c (r.reads k).spawn ≡ true)
      → IsSynced g
      → g.config ≡ c
      → IsExact c.aoi_range
          (snapped g queue r)
          position
          (get_players_in_aoi (snapped g queue r) position)
  snapped-IsExact c g queue r position on_map s same q =
      let (synced, config) = snapped-IsSynced c g queue r on_map s same in
      get_players_in_aoi-exact laws (snapped g queue r) position q synced ∙ simp config refl

  round-Cached :
      (c : Config F) (g : Game F) (queue : List (GameCommand F)) (r : Round F)
      → ((k : ℕ) → is_valid_position c (r.reads k).spawn ≡ true)
      → IsSynced g
      → g.config ≡ c
      → Cached (IsTaken c.aoi_range g) g
      → Cached (IsTaken c.aoi_range (game_round g queue r).0) (game_round g queue r).0
  unfolding game_round process_pending_commands update_game_world send_world_snapshots
  round-Cached c g queue r on_map s same cached id e there =
      elim (Bool-cases (ltb r.delta g.config.tick_duration)) [
        | inl early ↦ earlier id e (simp early at there)
        | inr due ↦
            let shot = snapped g queue r in
            let sent = send_world_snapshots g₂ r.server_time in
            let taken : Cached (IsTaken c.aoi_range g') sent =
              snapshot_players-Cached (IsTaken c.aoi_range g') shot
                (λ position. (
                  shot,
                  snaps g queue r due refl,
                  refl,
                  snapped-IsExact c g queue r position on_map s same,
                ))
                g₂.world r.server_time shot (record { config = refl; tree = refl; tick = refl })
                (λ q d at_q. earlier q d (ap (find q) (sym untouched) ∙ at_q)) in
            taken id e (ap (find id) (sym (cache-update_stats sent r)) ∙ simp due at there)
      ]
    where
      g' : Game F
      g' = (game_round g queue r).0

      g₂ : Game F
      g₂ = update_game_world (process_pending_commands g queue r.checks r.reads).0 r.delta_seconds

      untouched : g₂.aoi_cache ≡ g.aoi_cache
      untouched =
          (process_batch-Untouched (collect_commands g.config.command_batch_size 0 r.checks queue).0
            0 r.reads g).cache

      earlier : Cached (IsTaken c.aoi_range g') g
      earlier q d at_q =
          let (h, before, tick, exact) = cached q d at_q in (h, later g queue r before, tick, exact)

  new_game-cache :
      (c : Config F) (sessions : Option (Dict SessionView)) (g : Game F)
      → new_game c sessions ≡ some g
      → g.aoi_cache ≡ []
  unfolding new_game empty_game
  new_game-cache c sessions g e =
      elim (Option-cases (QuadTree.new (fl.of_nat 0) (fl.of_nat 0) c.map_width c.map_height)) [
        | inl refused ↦ absurd (ground arith)
        | inr (t, made) ↦
            let e' : empty_game c sessions t ≡ g = ground arith in
            ap (λ (x : Game F). x.aoi_cache) (sym e')
      ]

  Reached-Cached :
      (c : Config F) {g : Game F}
      → HalvesExactly max_depth (map_bounds laws c)
      → Reached laws c g
      → Cached (IsTaken c.aoi_range g) g
  unfolding find
  Reached-Cached c h (start sessions g made) = λ id e there.
      let none_yet : find id g.aoi_cache ≡ none = ap (find id) (new_game-cache c sessions g made) in
      cc
  Reached-Cached c h (round g queue r on_map reached) =
      let (s, same) = Reached-Kept laws c h reached in
      round-Cached c g queue r on_map s same (Reached-Cached c h reached)
  Reached-Cached c h (sessions_changed g sessions reached) = λ id e there.
      let (k, before, tick, exact) = Reached-Cached c h reached id e there in
      (k, connections g sessions before, tick, exact)

  -- How far a player has moved between two positions, as the code computes it.
  abbrev moved_by : Vec3 F → Vec3 F → F
  moved_by at position = fl.sqrt (
      fl.add (fl.mul (fl.sub position.x at.x) (fl.sub position.x at.x))
        (fl.mul (fl.sub position.y at.y) (fl.sub position.y at.y)))

  -- A list is exact now, or was in a state not long before, at a position not far away.
  abbrev pub IsRecent : Config F → Game F → Game F → Vec3 F → List ℕ → Type 0
  IsRecent c g s position visible =
      IsExact c.aoi_range s position visible
      ⊎ ((h : Game F) × (at : Vec3 F) × Before h g
          × IsExact c.aoi_range h at visible
          × (sub_u64 s.tick_number h.tick_number < c.aoi_update_interval)
          × (fl.le c.aoi_position_threshold (moved_by at position) ≡ false))

  -- On a map whose bounds halve exactly, in any round after whatever was played since the start: the
  -- list that `GetCachedPlayersInAOI` gives for a snapshot has each active player in range once and
  -- nobody else, in the state in which the snapshots are taken, or in that of an earlier round, fewer
  -- ticks ago than the interval and with the player nearer to the position of then than the threshold.
  pub get_cached_players_in_aoi-IsRecent :
      (c : Config F) (g : Game F) (queue : List (GameCommand F)) (r : Round F) (id : ℕ)
      (position : Vec3 F)
      → HalvesExactly max_depth (map_bounds laws c)
      → Reached laws c g
      → ((k : ℕ) → is_valid_position c (r.reads k).spawn ≡ true)
      → IsRecent c g
          (snapped g queue r)
          position
          (get_cached_players_in_aoi (snapped g queue r) id position).0
  unfolding process_pending_commands update_game_world
  get_cached_players_in_aoi-IsRecent c g queue r id position h reached on_map =
      elim (get_cached_players_in_aoi-fresh s id position) [
        | inl now ↦
            inl (λ q. ap (count q) now ∙ snapped-IsExact c g queue r position on_map synced same q)
        | inr (e, found, shown, age, moved) ↦
            let (k, before, tick, exact) =
              Reached-Cached c h reached id e (ap (find id) (sym untouched) ∙ found) in
            inr (
              k,
              e.last_position,
              before,
              λ q. ap (count q) shown ∙ exact q,
              simp (tick, config) at age,
              simp config at moved,
            )
      ]
    where
      s : Game F
      s = snapped g queue r

      synced : IsSynced g
      synced = (Reached-Kept laws c h reached).0

      same : g.config ≡ c
      same = (Reached-Kept laws c h reached).1

      config : s.config ≡ c
      config = (snapped-IsSynced c g queue r on_map synced same).1

      untouched : s.aoi_cache ≡ g.aoi_cache
      untouched =
          (process_batch-Untouched (collect_commands g.config.command_batch_size 0 r.checks queue).0
            0 r.reads g).cache

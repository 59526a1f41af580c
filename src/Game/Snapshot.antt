-- ===== src/Game/Snapshot.antt =====
-- Snapshots: the cache of visible players, `SendWorldSnapshots` and the batches.
use cpp_mmo.Base.{
  ℕ, ◌+◌, ◌-◌, ◌%◌, ◌^◌, Bool, true, false, none, some, List, [], ◌∷◌, ◌++◌, leb, if◌then◌else◌,
}
use cpp_mmo.Base.Dict.{Dict, find, store, or_default}
use cpp_mmo.Float.{FloatOps}
use cpp_mmo.Vector
use cpp_mmo.Vector.{Vec3}
use cpp_mmo.World.{Player, get_player}
use cpp_mmo.Game.State.{
  PlayerState, Packet, world_snapshot, Delivery, sent_batch, AoiCache, Game, get_session,
  get_players_in_aoi,
}

-- `uint64_t` arithmetic.
abbrev pub u64 : ℕ
u64 = 2 ^ 64

abbrev pub next_u64 : ℕ → ℕ
next_u64 n = (n + 1) % u64

abbrev pub sub_u64 : ℕ → ℕ → ℕ
sub_u64 a b = (a + u64 - b) % u64

module _ {F : Type 0} ⦃fl : FloatOps F⦄ where
  -- What `ShouldUpdateAOI` decides from an entry of the cache.
  unfoldable pub is_stale : Game F → AoiCache F → Vec3 F → Bool
  is_stale g c position =
      let delta = Vector.sub position c.last_position in
      let moved = fl.sqrt (fl.add (fl.mul delta.x delta.x) (fl.mul delta.y delta.y)) in
      if leb g.config.aoi_update_interval (sub_u64 g.tick_number c.last_update_tick)
      then true
      else if fl.le g.config.aoi_position_threshold moved
      then true
      else false

  unfoldable pub should_update_aoi : Game F → ℕ → Vec3 F → Bool
  unfolding is_stale
  should_update_aoi g id position = elim (find id g.aoi_cache) [
    | none ↦ true
    | some c ↦ is_stale g c position
  ]

  unfoldable pub update_aoi_cache : Game F → ℕ → Vec3 F → List ℕ → Game F
  update_aoi_cache g id position visible = record g {
    aoi_cache =
        store id
          (record {
            visible_players = visible;
            last_update_tick = g.tick_number;
            last_position = position;
          })
          g.aoi_cache;
  }

  -- A fresh query, which is stored and counted.
  unfoldable pub query_aoi : Game F → ℕ → Vec3 F → List ℕ × Game F
  unfolding get_players_in_aoi update_aoi_cache
  query_aoi g id position =
      let visible = get_players_in_aoi g position in
      let g' = update_aoi_cache g id position visible in
      (
        visible,
        record g' {
          stats = record g'.stats {
            total_aoi_queries_executed = next_u64 g'.stats.total_aoi_queries_executed;
          };
        },
      )

  unfoldable pub get_cached_players_in_aoi : Game F → ℕ → Vec3 F → List ℕ × Game F
  unfolding should_update_aoi query_aoi
  get_cached_players_in_aoi g id position =
      if should_update_aoi g id position
      then query_aoi g id position
      else elim (find id g.aoi_cache) [
        | none ↦ query_aoi g id position
        | some c ↦ (
          c.visible_players,
          record g {
            stats = record g.stats {
              total_aoi_queries_skipped = next_u64 g.stats.total_aoi_queries_skipped;
            };
          },
        )
      ]

module _ {F : Type 0} where
  -- The states of those visible players that the world has.
  unfoldable pub player_states : Dict (Player F) → List ℕ → List (PlayerState F)
  unfolding get_player
  player_states w [] = []
  player_states w (id ∷ ids) =
      let rest = player_states w ids in
      elim (get_player w id) [
        | none ↦ rest
        | some p ↦
            record {
              player_id = id;
              position = p.position;
              velocity = p.velocity;
              is_active = p.is_active;
            }
            ∷ rest
      ]

  unfoldable pub add_to_player_batch : Game F → ℕ → Packet F → Game F
  add_to_player_batch g id packet = record g {
    player_batches =
        store id (or_default [] (find id g.player_batches) ++ packet ∷ []) g.player_batches;
  }

  unfoldable pub add_snapshot_to_player_batch : Game F → ℕ → List ℕ → ℕ → Game F
  unfolding player_states add_to_player_batch
  add_snapshot_to_player_batch g id visible server_time =
      add_to_player_batch g id
        (world_snapshot g.tick_number server_time (player_states g.world visible))

  -- The loop of `FlushAllBatches`: the batches left, all empty, and the calls of `SendBatch`.
  unfoldable pub flush_batch : Game F → ℕ → List (Packet F) → List (Delivery F)
  unfolding get_player get_session
  flush_batch g id [] = []
  flush_batch g id (packet ∷ packets) = elim (get_player g.world id) [
    | none ↦ []
    | some p ↦ elim (get_session g p.session_id) [
      | none ↦ []
      | some s ↦ if s.is_connected then sent_batch s.session_id (packet ∷ packets) ∷ [] else []
    ]
  ]

  unfoldable pub flush_batches :
      Game F → Dict (List (Packet F)) → Dict (List (Packet F)) × List (Delivery F)
  unfolding flush_batch
  flush_batches g [] = ([], [])
  flush_batches g ((id, packets) ∷ rest) =
      let (rest', calls) = flush_batches g rest in
      ((id, []) ∷ rest', flush_batch g id packets ++ calls)

  unfoldable pub flush_all_batches : Game F → Game F
  unfolding flush_batches
  flush_all_batches g =
      let (batches', calls) = flush_batches g g.player_batches in
      record g { player_batches = batches'; deliveries = g.deliveries ++ calls }

module _ {F : Type 0} ⦃fl : FloatOps F⦄ where
  -- The loop of `SendWorldSnapshots` over the players.
  unfoldable pub snapshot_players : Dict (Player F) → ℕ → Game F → Game F
  unfolding get_cached_players_in_aoi add_snapshot_to_player_batch
  snapshot_players [] server_time g = g
  snapshot_players ((id, p) ∷ rest) server_time g = snapshot_players rest server_time (
      if p.is_active
      then (let (visible, g') = get_cached_players_in_aoi g id p.position in
          add_snapshot_to_player_batch g' id visible server_time)
      else g)

  unfoldable pub send_world_snapshots : Game F → ℕ → Game F
  unfolding snapshot_players
  send_world_snapshots g server_time =
      snapshot_players g.world server_time (record g { tick_number = next_u64 g.tick_number })

-- ===== src/Game/Cached.antt =====
-- Theorems on what `SendWorldSnapshots` puts into the cache of visible players.
use mathlib.Core.Path.{subst}
use cpp_mmo.Base.{
  ℕ, ◌≡◌, refl, sym, ◌∙◌, inl, inr, some, [], ◌∷◌, Bool-cases, Option-cases, ◌==◌, leb,
}
use cpp_mmo.Base.Dict.{Dict, find, find-store}
use cpp_mmo.Float.{FloatOps}
use cpp_mmo.Vector.{Vec3}
use cpp_mmo.World.{Player}
use cpp_mmo.Game.State.{Game, AoiCache, get_players_in_aoi}
use cpp_mmo.Game.Snapshot.{
  query_aoi, should_update_aoi, get_cached_players_in_aoi, add_snapshot_to_player_batch,
  add_to_player_batch, snapshot_players, flush_all_batches, update_aoi_cache, sub_u64,
}
use cpp_mmo.Game.Loop.{Round, update_stats, stats_report_interval}

module _ {F : Type 0} ⦃fl : FloatOps F⦄ where
  -- What every entry of a cache satisfies.
  abbrev pub Cached : (AoiCache F → Type 0) → Game F → Type 0
  Cached P g = (id : ℕ) (e : AoiCache F) → find id g.aoi_cache ≡ some e → P e

  -- Two states in which a query gives the same and is stored with the same tick.
  pub record Same (s k : Game F) : Type 0 where
    pub config : k.config ≡ s.config
    pub tree : k.quad_tree ≡ s.quad_tree
    pub tick : k.tick_number ≡ s.tick_number

  abbrev fresh_entry : Game F → Vec3 F → AoiCache F
  fresh_entry s position = record {
    visible_players = get_players_in_aoi s position;
    last_update_tick = s.tick_number;
    last_position = position;
  }

  fresh_entry-Same :
      (s k : Game F) (position : Vec3 F)
      → Same s k
      → fresh_entry k position ≡ fresh_entry s position
  unfolding get_players_in_aoi
  fresh_entry-Same s k position e = simp (e.config, e.tree, e.tick) refl

  module _ (P : AoiCache F → Type 0) (s : Game F)
      (new : (position : Vec3 F) → P (fresh_entry s position)) where
    query_aoi-Cached :
        (k : Game F) (id : ℕ) (position : Vec3 F)
        → Same s k
        → Cached P k
        → Cached P (query_aoi k id position).1
    unfolding query_aoi update_aoi_cache
    query_aoi-Cached k id position same cached q e there = elim (Bool-cases (q == id)) [
      | inl here ↦
          let stored = find-store id q (fresh_entry k position) k.aoi_cache in
          let e' : some (fresh_entry k position) ≡ some e = sym (simp here at stored) ∙ there in
          let e'' : fresh_entry s position ≡ e = sym (fresh_entry-Same s k position same) ∙ cc in
          subst P e'' (new position)
      | inr other ↦
          let stored = find-store id q (fresh_entry k position) k.aoi_cache in
          cached q e (sym (simp other at stored) ∙ there)
    ]

    get_cached_players_in_aoi-Cached :
        (k : Game F) (id : ℕ) (position : Vec3 F)
        → Same s k
        → Cached P k
        → Cached P (get_cached_players_in_aoi k id position).1
          × Same s (get_cached_players_in_aoi k id position).1
    unfolding get_cached_players_in_aoi
    get_cached_players_in_aoi-Cached k id position same cached =
        elim (Bool-cases (should_update_aoi k id position)) [
          | inl stale ↦ simp stale (query_aoi-Cached k id position same cached, queried)
          | inr recent ↦ elim (Option-cases (find id k.aoi_cache)) [
            | inl missing ↦
                simp (recent, missing) (query_aoi-Cached k id position same cached, queried)
            | inr (c, there) ↦
                simp (recent, there)
                  (cached, record { config = same.config; tree = same.tree; tick = same.tick })
          ]
        ]
      where
        queried : Same s (query_aoi k id position).1
        queried = record { config = same.config; tree = same.tree; tick = same.tick }

    pub snapshot_players-Cached :
        (w : Dict (Player F)) (server_time : ℕ) (k : Game F)
        → Same s k
        → Cached P k
        → Cached P (snapshot_players w server_time k)
    unfolding snapshot_players add_snapshot_to_player_batch add_to_player_batch
    snapshot_players-Cached [] server_time k same cached = cached
    snapshot_players-Cached ((id, p) ∷ w) server_time k same cached =
        elim (Bool-cases p.is_active) [
          | inl active ↦
              let (cached', same') = get_cached_players_in_aoi-Cached k id p.position same cached in
              let visible = (get_cached_players_in_aoi k id p.position).0 in
              let k' =
                add_snapshot_to_player_batch (get_cached_players_in_aoi k id p.position).1 id
                  visible server_time in
              let same'' : Same s k' = record {
                config = same'.config;
                tree = same'.tree;
                tick = same'.tick;
              } in
              simp active (snapshot_players-Cached w server_time k' same'' cached')
          | inr away ↦ simp away (snapshot_players-Cached w server_time k same cached)
        ]

  -- The batches and the statistics leave the cache as it is.
  pub cache-update_stats :
      (g : Game F) (r : Round F) → (update_stats (flush_all_batches g) r).aoi_cache ≡ g.aoi_cache
  unfolding update_stats flush_all_batches
  cache-update_stats g r =
      elim (Bool-cases
        (leb stats_report_interval (sub_u64 g.tick_number g.last_stats_report_tick))) [
          | inl due ↦ simp due refl
          | inr early ↦ simp early refl
        ]

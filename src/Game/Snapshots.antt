-- ===== src/Game/Snapshots.antt =====
-- Theorems on the snapshots: the cache of visible players, the batches and `FlushAllBatches`.
use cpp_mmo.Base.{
  ℕ, ◌<◌, ◌≡◌, refl, ◌∙◌, ◌⊎◌, inl, inr, true, false, Option, none, some, List, arith, Bool-cases,
  Option-cases, if◌then◌else◌,
}
use cpp_mmo.Base.Dict.{find}
use cpp_mmo.Float.{FloatOps}
use cpp_mmo.Vector
use cpp_mmo.Vector.{Vec3}
use cpp_mmo.Game.State.{AoiCache, Game, get_players_in_aoi}
use cpp_mmo.Game.Snapshot.{
  sub_u64, is_stale, should_update_aoi, query_aoi, get_cached_players_in_aoi,
}

module _ {F : Type 0} ⦃fl : FloatOps F⦄ where
  -- `GetCachedPlayersInAOI` as a function of the player's cache entry.
  abbrev pub visible_from : Game F → Vec3 F → Option (AoiCache F) → List ℕ
  visible_from g position none = get_players_in_aoi g position
  visible_from g position (some c) =
      if is_stale g c position then get_players_in_aoi g position else c.visible_players

  pub get_cached_players_in_aoi_lem :
      (g : Game F) (id : ℕ) (position : Vec3 F)
      → (get_cached_players_in_aoi g id position).0 ≡ visible_from g position (find id g.aoi_cache)
  unfolding get_cached_players_in_aoi should_update_aoi query_aoi
  get_cached_players_in_aoi_lem g id position = elim (Option-cases (find id g.aoi_cache)) [
    | inl missing ↦
        let due : should_update_aoi g id position ≡ true = rw (missing, should_update_aoi) in
        simp (due, missing) refl
    | inr (c, there) ↦
        let due : should_update_aoi g id position ≡ is_stale g c position =
          rw (there, should_update_aoi) in
        elim (Bool-cases (is_stale g c position)) [
          | inl stale ↦ simp (due, there, stale) refl
          | inr fresh ↦ simp (due, there, fresh) refl
        ]
  ]

  -- A list that is not the answer of a query made now is the one in the cache, which is fewer ticks
  -- old than the interval, and the player has moved by less than the threshold since.
  pub get_cached_players_in_aoi-fresh :
      (g : Game F) (id : ℕ) (position : Vec3 F)
      → let visible = (get_cached_players_in_aoi g id position).0 in
        (visible ≡ get_players_in_aoi g position)
        ⊎ ((c : AoiCache F) × (find id g.aoi_cache ≡ some c)
            × (visible ≡ c.visible_players)
            × (sub_u64 g.tick_number c.last_update_tick < g.config.aoi_update_interval)
            × (fl.le g.config.aoi_position_threshold (
                  fl.sqrt (
                    fl.add
                      (fl.mul
                        (fl.sub position.x c.last_position.x)
                        (fl.sub position.x c.last_position.x))
                      (fl.mul
                        (fl.sub position.y c.last_position.y)
                        (fl.sub position.y c.last_position.y))))
                ≡ false))
  unfolding is_stale Vector.sub
  get_cached_players_in_aoi-fresh g id position = elim (Option-cases (find id g.aoi_cache)) [
    | inl missing ↦ inl (get_cached_players_in_aoi_lem g id position ∙ simp missing refl)
    | inr (c, there) ↦ elim (Bool-cases (is_stale g c position)) [
      | inl stale ↦ inl (get_cached_players_in_aoi_lem g id position ∙ simp (there, stale) refl)
      | inr fresh ↦ inr (
        c,
        there,
        get_cached_players_in_aoi_lem g id position ∙ simp (there, fresh) refl,
        ground arith,
        ground arith,
      )
    ]
  ]

-- ===== src/Game/Batches.antt =====
-- Theorems on the batches: `SendWorldSnapshots` fills them, `FlushAllBatches` sends and empties them.
use cpp_mmo.Base.{
  ℕ, ◌≡◌, refl, ◌∙◌, inl, inr, false, Option, none, some, List, [], ◌∷◌, ◌++◌, arith, Bool-cases,
  Option-cases, ◌==◌, ==_refl, ==_iff, if◌then◌else◌, count,
}
use cpp_mmo.Base.Dict.{Dict, find, find-store, or_default, IsKeyed, find-none}
use cpp_mmo.Float.{FloatOps}
use cpp_mmo.Vector.{Vec3}
use cpp_mmo.World.{Player}
use cpp_mmo.Game.State.{Packet, world_snapshot, AoiCache, Game, get_players_in_aoi}
use cpp_mmo.Game.Snapshot.{
  is_stale, should_update_aoi, update_aoi_cache, query_aoi, get_cached_players_in_aoi,
  player_states, add_to_player_batch, add_snapshot_to_player_batch, snapshot_players,
}
use cpp_mmo.Game.Snapshots.{visible_from, get_cached_players_in_aoi_lem}

module _ {F : Type 0} ⦃fl : FloatOps F⦄ where
  -- A step that touches the cache entry of one player only.
  record Frame (id : ℕ) (g h : Game F) : Type 0 where
    config : h.config ≡ g.config
    world : h.world ≡ g.world
    tree : h.quad_tree ≡ g.quad_tree
    tick : h.tick_number ≡ g.tick_number
    cache : (q : ℕ) → (q == id) ≡ false → find q h.aoi_cache ≡ find q g.aoi_cache
    batches : h.player_batches ≡ g.player_batches

  query_aoi-Frame :
      (g : Game F) (id : ℕ) (position : Vec3 F) → Frame id g (query_aoi g id position).1
  unfolding query_aoi update_aoi_cache
  query_aoi-Frame g id position = record {
    config = refl;
    world = refl;
    tree = refl;
    tick = refl;
    cache = λ q other. find-store id q _ g.aoi_cache ∙ simp other refl;
    batches = refl;
  }

  get_cached_players_in_aoi-Frame :
      (g : Game F) (id : ℕ) (position : Vec3 F)
      → Frame id g (get_cached_players_in_aoi g id position).1
  unfolding get_cached_players_in_aoi
  get_cached_players_in_aoi-Frame g id position =
      elim (Bool-cases (should_update_aoi g id position)) [
        | inl stale ↦ simp stale (query_aoi-Frame g id position)
        | inr fresh ↦ elim (Option-cases (find id g.aoi_cache)) [
          | inl missing ↦ simp (fresh, missing) (query_aoi-Frame g id position)
          | inr (c, cached) ↦
              simp (fresh, cached)
                (record {
                  config = refl;
                  world = refl;
                  tree = refl;
                  tick = refl;
                  cache = λ q other. refl;
                  batches = refl;
                })
        ]
      ]

  -- What the loop of `SendWorldSnapshots` does for one active player.
  abbrev one_snapshot : Game F → ℕ → Player F → ℕ → Game F
  one_snapshot g id p server_time =
      let (visible, g') = get_cached_players_in_aoi g id p.position in
      add_snapshot_to_player_batch g' id visible server_time

  -- The snapshot that a player in a state of the game gets.
  abbrev pub snapshot_for : Game F → ℕ → Player F → ℕ → Packet F
  snapshot_for g id p server_time =
      world_snapshot g.tick_number server_time
        (player_states g.world (visible_from g p.position (find id g.aoi_cache)))

  -- The batch of a player after the loop, from what the world says of that player.
  abbrev pub batch_after : Game F → ℕ → ℕ → Option (Player F) → Option (List (Packet F))
  batch_after g server_time q none = find q g.player_batches
  batch_after g server_time q (some p) =
      if p.is_active
      then some (or_default [] (find q g.player_batches) ++ snapshot_for g q p server_time ∷ [])
      else find q g.player_batches

  one_snapshot-batch :
      (g : Game F) (id : ℕ) (p : Player F) (server_time q : ℕ)
      → find q (one_snapshot g id p server_time).player_batches ≡ (
          if q == id
          then some
              (or_default [] (find id g.player_batches) ++ snapshot_for g id p server_time ∷ [])
          else find q g.player_batches)
  unfolding add_snapshot_to_player_batch add_to_player_batch
  one_snapshot-batch g id p server_time q =
      let e = get_cached_players_in_aoi-Frame g id p.position in
      find-store id q _ _
      ∙ simp (e.batches, e.world, e.tick, get_cached_players_in_aoi_lem g id p.position) refl

  -- Two states that agree on all that the snapshot of a player depends on.
  record Alike (q : ℕ) (g h : Game F) : Type 0 where
    config : h.config ≡ g.config
    world : h.world ≡ g.world
    tree : h.quad_tree ≡ g.quad_tree
    tick : h.tick_number ≡ g.tick_number
    cache : find q h.aoi_cache ≡ find q g.aoi_cache
    batch : find q h.player_batches ≡ find q g.player_batches

  visible_from-Alike :
      (q : ℕ) (g h : Game F) (position : Vec3 F) (o : Option (AoiCache F))
      → Alike q g h
      → visible_from h position o ≡ visible_from g position o
  unfolding is_stale get_players_in_aoi
  visible_from-Alike q g h position none e = simp (e.config, e.tree) refl
  visible_from-Alike q g h position (some c) e = simp (e.config, e.tree, e.tick) refl

  batch_after-Alike :
      (q : ℕ) (g h : Game F) (server_time : ℕ) (o : Option (Player F))
      → Alike q g h
      → batch_after h server_time q o ≡ batch_after g server_time q o
  batch_after-Alike q g h server_time none e = e.batch
  batch_after-Alike q g h server_time (some p) e =
      simp
        (
          e.batch,
          e.world,
          e.tick,
          e.cache,
          visible_from-Alike q g h p.position (find q g.aoi_cache) e,
        )
        refl

  one_snapshot-Alike :
      (g : Game F) (id : ℕ) (p : Player F) (server_time q : ℕ)
      → (q == id) ≡ false
      → Alike q g (one_snapshot g id p server_time)
  unfolding add_snapshot_to_player_batch add_to_player_batch
  one_snapshot-Alike g id p server_time q other =
      let e = get_cached_players_in_aoi-Frame g id p.position in
      record {
        config = e.config;
        world = e.world;
        tree = e.tree;
        tick = e.tick;
        cache = e.cache q other;
        batch = one_snapshot-batch g id p server_time q ∙ simp other refl;
      }

  pub snapshot_players-batches :
      (w : Dict (Player F)) (server_time : ℕ) (g : Game F) (q : ℕ)
      → IsKeyed w
      → find q (snapshot_players w server_time g).player_batches
        ≡ batch_after g server_time q (find q w)
  unfolding snapshot_players find count
  snapshot_players-batches [] server_time g q keyed = refl
  snapshot_players-batches ((id, p) ∷ w) server_time g q keyed =
      let keyed' : IsKeyed w = λ k. ground (arith, keyed k) in
      elim (Bool-cases p.is_active) [
        | inl active ↦
            let h = one_snapshot g id p server_time in
            let rest = snapshot_players-batches w server_time h q keyed' in
            elim (Bool-cases (q == id)) [
              | inl same ↦
                  let gone : find q w ≡ none = find-none q w (ground (arith, keyed q)) in
                  let at_id : q ≡ id = (==_iff q id).0 same in
                  simp (active, same)
                    (rest
                      ∙ simp gone
                          (one_snapshot-batch g id p server_time q ∙ simp (==_refl id, at_id) refl))
              | inr other ↦
                  simp (active, other)
                    (rest
                      ∙ batch_after-Alike q g h server_time (find q w)
                          (one_snapshot-Alike g id p server_time q other))
            ]
        | inr away ↦ elim (Bool-cases (q == id)) [
          | inl same ↦
              let gone : find q w ≡ none = find-none q w (ground (arith, keyed q)) in
              simp (away, same) (snapshot_players-batches w server_time g q keyed' ∙ simp gone refl)
          | inr other ↦ simp (away, other) (snapshot_players-batches w server_time g q keyed')
        ]
      ]

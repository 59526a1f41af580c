-- ===== src/Game/Flush.antt =====
-- Theorems on `FlushAllBatches` after `SendWorldSnapshots`.
use mathlib.Core.List.{Memᴰ}
use mathlib.Core.List.Memᴰ
use cpp_mmo.Base.{
  ℕ, ◌≡◌, ◌≢◌, refl, sym, ap, ◌∙◌, inl, inr, true, Option, none, some, List, [], ◌∷◌, arith,
  Bool-cases, Option-cases, ◌==◌, ==_iff, if◌then◌else◌,
}
use cpp_mmo.Base.Dict.{Dict, find, or_default, IsKeyed}
use cpp_mmo.Float.{FloatOps}
use cpp_mmo.Vector.{Vec3}
use cpp_mmo.World.{Player, get_player}
use cpp_mmo.Game.State.{Packet, SessionView, sent_batch, Game, get_session}
use cpp_mmo.Game.Snapshot.{
  should_update_aoi, query_aoi, update_aoi_cache, get_cached_players_in_aoi, add_to_player_batch,
  add_snapshot_to_player_batch, next_u64, snapshot_players, send_world_snapshots, flush_batch,
  flush_batches, flush_all_batches,
}
use cpp_mmo.Game.Rounds.{snapshot_players-SameWorld}
use cpp_mmo.Game.Batches.{snapshot_for, batch_after, snapshot_players-batches}

module _ {F : Type 0} where
  -- Nothing waits to be sent.
  abbrev pub IsFlushed : Game F → Type 0
  IsFlushed g = (q : ℕ) → or_default [] (find q g.player_batches) ≡ []

  flush_batches_emptied :
      (g : Game F) (m : Dict (List (Packet F))) (q : ℕ)
      → or_default [] (find q (flush_batches g m).0) ≡ []
  unfolding flush_batches find
  flush_batches_emptied g [] q = refl
  flush_batches_emptied g ((id, packets) ∷ m) q = elim (Bool-cases (q == id)) [
    | inl same ↦ simp same refl
    | inr other ↦ simp other (flush_batches_emptied g m q)
  ]

  -- `FlushAllBatches` leaves no packet in any batch, sent or not.
  pub flush_all_batches-IsFlushed : (g : Game F) → IsFlushed (flush_all_batches g)
  unfolding flush_all_batches
  flush_all_batches-IsFlushed g q = flush_batches_emptied g g.player_batches q

  get_session-same :
      (g h : Game F) (id : ℕ)
      → h.session_manager ≡ g.session_manager
      → get_session h id ≡ get_session g id
  unfolding get_session
  get_session-same g h id e =
      ap
        (λ (m : Option (Dict SessionView)). elim m [
          | none ↦ none
          | some sessions ↦ find id sessions
        ])
        e

  flush_batch-sends :
      (g : Game F) (q : ℕ) (packets : List (Packet F)) (p : Player F) (s : SessionView)
      → find q g.world ≡ some p
      → get_session g p.session_id ≡ some s
      → s.is_connected ≡ true
      → packets ≢ []
      → flush_batch g q packets ≡ sent_batch s.session_id packets ∷ []
  unfolding flush_batch get_player
  flush_batch-sends g q [] p s there session connected full = absurd (full refl)
  flush_batch-sends g q (packet ∷ packets) p s there session connected full =
      rw (there, session, connected, flush_batch)

  flush_batches-sends :
      (g : Game F) (m : Dict (List (Packet F))) (q : ℕ) (packets : List (Packet F)) (p : Player F)
      (s : SessionView)
      → find q m ≡ some packets
      → find q g.world ≡ some p
      → get_session g p.session_id ≡ some s
      → s.is_connected ≡ true
      → packets ≢ []
      → Memᴰ (sent_batch s.session_id packets) (flush_batches g m).1
  unfolding flush_batches find
  flush_batches-sends g [] q packets p s at_q there session connected full = absurd (ground arith)
  flush_batches-sends g ((id, batch) ∷ m) q packets p s at_q there session connected full =
      elim (Bool-cases (q == id)) [
        | inl same ↦
            let e : some batch ≡ some packets = simp same at at_q in
            let e' : batch ≡ packets = cc in
            let e'' : q ≡ id = (==_iff q id).0 same in
            rw (sym e'', e', flush_batch-sends g q packets p s there session connected full)
              (Memᴰ.head refl)
        | inr other ↦ Memᴰ.append_right (flush_batch g id batch) (
            flush_batches-sends g m q packets p s (simp other at at_q) there session connected full)
      ]

module _ {F : Type 0} ⦃fl : FloatOps F⦄ where
  abbrev pub ticked : Game F → Game F
  ticked g = record g { tick_number = next_u64 g.tick_number }

  -- With no packet waiting and each player once in the world, `SendWorldSnapshots` leaves one snapshot for each active player, with the
  -- new tick and that player's visible players, and nothing for anyone else.
  send_world_snapshots-batches :
      (g : Game F) (server_time q : ℕ)
      → IsKeyed g.world
      → IsFlushed g
      → or_default [] (find q (send_world_snapshots g server_time).player_batches)
        ≡ elim (find q g.world) [
          | none ↦ []
          | some p ↦ if p.is_active then snapshot_for (ticked g) q p server_time ∷ [] else []
        ]
  unfolding send_world_snapshots
  send_world_snapshots-batches g server_time q keyed flushed =
      ap (or_default []) (snapshot_players-batches g.world server_time (ticked g) q keyed)
      ∙ batch (find q g.world)
    where
      batch :
          (o : Option (Player F))
          → or_default [] (batch_after (ticked g) server_time q o) ≡ elim o [
            | none ↦ []
            | some p ↦ if p.is_active then snapshot_for (ticked g) q p server_time ∷ [] else []
          ]
      batch none = flushed q
      batch (some p) = elim (Bool-cases p.is_active) [
        | inl active ↦ simp (active, flushed q) refl
        | inr away ↦ simp away (flushed q)
      ]

  session_manager-get_cached :
      (g : Game F) (id : ℕ) (position : Vec3 F)
      → (get_cached_players_in_aoi g id position).1.session_manager ≡ g.session_manager
  unfolding get_cached_players_in_aoi query_aoi update_aoi_cache
  session_manager-get_cached g id position = elim (Bool-cases (should_update_aoi g id position)) [
    | inl stale ↦ simp stale refl
    | inr fresh ↦ elim (Option-cases (find id g.aoi_cache)) [
      | inl missing ↦ simp (fresh, missing) refl
      | inr (c, cached) ↦ simp (fresh, cached) refl
    ]
  ]

  session_manager-snapshot_players :
      (w : Dict (Player F)) (server_time : ℕ) (g : Game F)
      → (snapshot_players w server_time g).session_manager ≡ g.session_manager
  unfolding snapshot_players add_snapshot_to_player_batch add_to_player_batch
  session_manager-snapshot_players [] server_time g = refl
  session_manager-snapshot_players ((id, p) ∷ w) server_time g = elim (Bool-cases p.is_active) [
    | inl active ↦ simp active (
        session_manager-snapshot_players w server_time _
        ∙ session_manager-get_cached g id p.position)
    | inr away ↦ simp away (session_manager-snapshot_players w server_time g)
  ]

  -- With no packet waiting and each player once in the world, the snapshots of a tick, once flushed, have been sent: each active player
  -- whose session is connected has been sent a batch of one snapshot, its own.
  pub flush_all_batches-send_world_snapshots :
      (g : Game F) (server_time q : ℕ) (p : Player F) (s : SessionView)
      → IsKeyed g.world
      → IsFlushed g
      → find q g.world ≡ some p
      → p.is_active ≡ true
      → get_session g p.session_id ≡ some s
      → s.is_connected ≡ true
      → Memᴰ
          (sent_batch s.session_id (snapshot_for (ticked g) q p server_time ∷ []))
          (flush_all_batches (send_world_snapshots g server_time)).deliveries
  unfolding flush_all_batches send_world_snapshots
  flush_all_batches-send_world_snapshots g server_time q p s keyed flushed there active session
        connected =
      let h = snapshot_players g.world server_time (ticked g) in
      let same = snapshot_players-SameWorld g.world server_time (ticked g) in
      let waiting =
        snapshot_players-batches g.world server_time (ticked g) q keyed
        ∙ simp (there, active, flushed q) refl in
      Memᴰ.append_right h.deliveries (
        flush_batches-sends h h.player_batches q _ p s waiting (simp same.world there)
          (get_session-same g h p.session_id
              (session_manager-snapshot_players g.world server_time (ticked g))
            ∙ session)
          connected (λ e. absurd (ground arith)))

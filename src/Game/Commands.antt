-- ===== src/Game/Commands.antt =====
-- Theorems on the handlers of `ProcessGameCommand`.
use cpp_mmo.Base.{
  ℕ, ◌≡◌, refl, ◌∙◌, inl, inr, Bool, true, false, not, ◌&&◌, Option, none, some, [], ◌∷◌, arith,
  Bool-cases, Option-cases, ◌==◌, leb, if◌then◌else◌,
}
use cpp_mmo.Base.Dict.{Dict, find}
use cpp_mmo.Float.{FloatOps, FloatLaws}
use cpp_mmo.Vector.{Vec3}
use cpp_mmo.Command.{
  PlayerInput, EnterZone, PlayerDisconnect, GameCommand, Payload, player_input, enter_zone,
  player_spawn, player_disconnect,
}
use cpp_mmo.World.{Player, get_player, is_input_allowed, set_active, new_player}
use cpp_mmo.Game.State.{
  Game, Packet, SessionView, is_valid_position, set_player, send_if_connected, get_session,
}
use cpp_mmo.Game.Input.{handle_player_input, accept_input}
use cpp_mmo.Game.Zone.{
  Reads, send_enter_zone_response, broadcast, broadcast_player_joined, return_player, spawn_player,
  handle_enter_zone, retire_player, handle_player_disconnect, visit_payload, dispatch_payload,
  dispatch_to_session, process_game_command,
}
use cpp_mmo.Game.Sync.{IsSynced, edit-Synced, arrive-Synced, leave-Synced}

module _ {F : Type 0} ⦃fl : FloatOps F⦄ where
  -- Two states that differ in nothing that the simulation reads.
  pub record SameWorld (g h : Game F) : Type 0 where
    pub config : h.config ≡ g.config
    pub world : h.world ≡ g.world
    pub tree : h.quad_tree ≡ g.quad_tree

  pub SameWorld-trans : (g h k : Game F) → SameWorld g h → SameWorld h k → SameWorld g k
  SameWorld-trans g h k a b = record {
    config = b.config ∙ a.config;
    world = b.world ∙ a.world;
    tree = b.tree ∙ a.tree;
  }

  -- The state after a step: still in step with its index, under the same configuration.
  pub record Kept (g h : Game F) : Type 0 where
    pub synced : IsSynced h
    pub config : h.config ≡ g.config

  -- A step whose later part only sends.
  pub SameWorld-Kept :
      (g h k : Game F) → SameWorld h k → h.config ≡ g.config → IsSynced h → Kept g k
  SameWorld-Kept g h k e c s = record {
    synced = rw (e.config, e.world, e.tree) s;
    config = e.config ∙ c;
  }

  pub unchanged-Kept : (g : Game F) → IsSynced g → Kept g g
  unchanged-Kept g s = record { synced = s; config = refl }

  if-Kept : (g h k : Game F) (b : Bool) → Kept g h → Kept g k → Kept g (if b then h else k)
  if-Kept g h k true x y = x
  if-Kept g h k false x y = y

  send_if_connected-SameWorld :
      (g : Game F) (s : Option SessionView) (packet : Packet F)
      → SameWorld g (send_if_connected g s packet)
  unfolding send_if_connected
  send_if_connected-SameWorld g none packet = record { config = refl; world = refl; tree = refl }
  send_if_connected-SameWorld g (some s) packet = ground arith

  pub broadcast-SameWorld :
      (w : Dict (Player F)) (id : ℕ) (packet : Packet F) (g : Game F)
      → SameWorld g (broadcast w id packet g)
  unfolding broadcast
  broadcast-SameWorld [] id packet g = record { config = refl; world = refl; tree = refl }
  broadcast-SameWorld ((other, p) ∷ w) id packet g =
      elim (Bool-cases (not (other == id) && p.is_active)) [
        | inl told ↦ simp told (
            SameWorld-trans g _ _
              (send_if_connected-SameWorld g (get_session g p.session_id) packet)
              (broadcast-SameWorld w id packet
                (send_if_connected g (get_session g p.session_id) packet)))
        | inr skipped ↦ simp skipped (broadcast-SameWorld w id packet g)
      ]

  send_enter_zone_response-SameWorld :
      (g : Game F) (id : ℕ) (session : Option SessionView)
      → SameWorld g (send_enter_zone_response g id session)
  unfolding send_enter_zone_response
  send_enter_zone_response-SameWorld g id session = elim (Option-cases (get_player g.world id)) [
    | inl gone ↦
        rw (gone, send_enter_zone_response) (record { config = refl; world = refl; tree = refl })
    | inr (p, there) ↦
        rw (there, send_enter_zone_response) (send_if_connected-SameWorld g session _)
  ]

  broadcast_player_joined-SameWorld :
      (g : Game F) (id : ℕ) → SameWorld g (broadcast_player_joined g id)
  unfolding broadcast_player_joined
  broadcast_player_joined-SameWorld g id = elim (Option-cases (get_player g.world id)) [
    | inl gone ↦
        rw (gone, broadcast_player_joined) (record { config = refl; world = refl; tree = refl })
    | inr (p, there) ↦ rw (there, broadcast_player_joined) (broadcast-SameWorld g.world id _ g)
  ]

  announce-SameWorld :
      (g : Game F) (id : ℕ) (session : Option SessionView)
      → SameWorld g (broadcast_player_joined (send_enter_zone_response g id session) id)
  announce-SameWorld g id session =
      SameWorld-trans g _ _ (send_enter_zone_response-SameWorld g id session)
        (broadcast_player_joined-SameWorld (send_enter_zone_response g id session) id)

  handle_player_input-Kept :
      (g : Game F) (i : PlayerInput F) (now set_at : ℕ)
      → IsSynced g
      → Kept g (handle_player_input g i now set_at)
  unfolding handle_player_input accept_input
  handle_player_input-Kept g i now set_at s = elim (Option-cases (find i.player_id g.world)) [
    | inl gone ↦ rw (gone, handle_player_input) (unchanged-Kept g s)
    | inr (p, there) ↦
        let p' = accept_input g.config p i set_at in
        rw (there, handle_player_input)
          (if-Kept g g _ (not (is_input_allowed p now)) (unchanged-Kept g s) (
            if-Kept g g (set_player g i.player_id p') (leb i.sequence_number p.last_input_sequence)
              (unchanged-Kept g s)
              (record {
                synced =
                    edit-Synced g.config g.world g.quad_tree i.player_id p p' s there refl refl;
                config = refl;
              })))
  ]

module _ {F : Type 0} ⦃fl : FloatOps F⦄ (laws : FloatLaws fl) where
  handle_enter_zone-Kept :
      (g : Game F) (d : EnterZone) (session : Option SessionView) (spawn : Vec3 F)
      → is_valid_position g.config spawn ≡ true
      → IsSynced g
      → Kept g (handle_enter_zone g d session spawn)
  unfolding handle_enter_zone new_player set_active
  handle_enter_zone-Kept g d session spawn on_map s =
      elim (Option-cases (find d.player_id g.world)) [
        | inl gone ↦
            rw (gone, handle_enter_zone)
              (SameWorld-Kept g (spawn_player g d spawn) _
                (announce-SameWorld (spawn_player g d spawn) d.player_id session) refl
                (arrive-Synced laws g.config g.world g.quad_tree d.player_id _ s (rw gone) refl
                  on_map))
        | inr (p, there) ↦ elim (Bool-cases p.is_active) [
          | inl active ↦ rw (there, handle_enter_zone) (simp active (unchanged-Kept g s))
          | inr away ↦
              rw (there, handle_enter_zone)
                (simp away (
                  SameWorld-Kept g (return_player g d p) _
                    (announce-SameWorld (return_player g d p) d.player_id session) refl
                    (arrive-Synced laws g.config g.world g.quad_tree d.player_id _ s
                      (rw there (simp away)) refl (s.on_map d.player_id p there))))
        ]
      ]

  pub handle_player_disconnect-Kept :
      (g : Game F) (d : PlayerDisconnect) (now : ℕ)
      → IsSynced g
      → Kept g (handle_player_disconnect g d now)
  unfolding handle_player_disconnect set_active
  handle_player_disconnect-Kept g d now s = elim (Option-cases (find d.player_id g.world)) [
    | inl gone ↦ rw (gone, handle_player_disconnect) (unchanged-Kept g s)
    | inr (p, there) ↦
        let g' = retire_player g d.player_id p now in
        rw (there, handle_player_disconnect)
          (SameWorld-Kept g g' _ (broadcast-SameWorld g'.world d.player_id _ g') refl (
            leave-Synced laws g.config g.world g.quad_tree d.player_id _ s refl
              (s.on_map d.player_id p there)))
  ]

  dispatch_to_session-Kept :
      (g : Game F) (payload : Payload F) (sender : ℕ) (r : Reads F)
      → is_valid_position g.config r.spawn ≡ true
      → IsSynced g
      → Kept g (dispatch_to_session g payload sender r)
  unfolding dispatch_to_session
  dispatch_to_session-Kept g payload sender r on_map s =
      elim (Option-cases (get_session g sender)) [
        | inl gone ↦ rw (gone, dispatch_to_session) (unchanged-Kept g s)
        | inr (session, there) ↦ rw (there, dispatch_to_session) (visited payload session)
      ]
    where
      visited :
          (payload : Payload F) (session : SessionView) → Kept g (visit_payload g payload session r)
      visited (player_input i) session = handle_player_input-Kept g i r.now r.set_at s
      visited (enter_zone d) session = handle_enter_zone-Kept g d (some session) r.spawn on_map s
      visited (player_spawn d) session = unchanged-Kept g s
      visited (player_disconnect d) session = unchanged-Kept g s

  -- Whatever the command, a world and an index that are in step stay so, under the same configuration,
  -- if the spawn position that the handler draws is on the map.
  pub process_game_command-Kept :
      (g : Game F) (c : GameCommand F) (r : Reads F)
      → is_valid_position g.config r.spawn ≡ true
      → IsSynced g
      → Kept g (process_game_command g c r)
  unfolding process_game_command dispatch_payload
  process_game_command-Kept g c r on_map s = with_manager g.session_manager
    where
      dispatched : (payload : Payload F) → Kept g (dispatch_payload g payload c.sender_session_id r)
      dispatched (player_input i) = dispatch_to_session-Kept g (player_input i) _ r on_map s
      dispatched (enter_zone d) = dispatch_to_session-Kept g (enter_zone d) _ r on_map s
      dispatched (player_spawn d) = dispatch_to_session-Kept g (player_spawn d) _ r on_map s
      dispatched (player_disconnect d) = handle_player_disconnect-Kept g d r.now s

      with_manager :
          (o : Option (Dict SessionView))
          → Kept g (elim o [
            | none ↦ g
            | some sessions ↦ dispatch_payload g c.payload c.sender_session_id r
          ])
      with_manager none = unchanged-Kept g s
      with_manager (some sessions) = dispatched c.payload

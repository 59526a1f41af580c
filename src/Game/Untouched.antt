-- ===== src/Game/Untouched.antt =====
-- Theorems on what commands leave alone: the cache of visible players and the batches.
use cpp_mmo.Base.{
  ℕ, suc, ◌≡◌, refl, ◌∙◌, inl, inr, Bool, true, false, not, ◌&&◌, Option, none, some, List, [], ◌∷◌,
  arith, Option-cases, ◌==◌, leb, if◌then◌else◌,
}
use cpp_mmo.Base.Dict.{Dict}
use cpp_mmo.Float.{FloatOps}
use cpp_mmo.Vector.{Vec3}
use cpp_mmo.Command.{
  PlayerInput, EnterZone, PlayerDisconnect, GameCommand, Payload, player_input, enter_zone,
  player_spawn, player_disconnect,
}
use cpp_mmo.World.{Player, get_player, is_input_allowed}
use cpp_mmo.Game.State.{Game, Packet, SessionView, set_player, send_if_connected, get_session}
use cpp_mmo.Game.Input.{handle_player_input}
use cpp_mmo.Game.Zone.{
  Reads, send_enter_zone_response, broadcast, broadcast_player_joined, broadcast_player_left,
  return_player, spawn_player, handle_enter_zone, retire_player, handle_player_disconnect,
  visit_payload, dispatch_payload, dispatch_to_session, process_game_command,
}
use cpp_mmo.Game.Loop.{process_batch}

module _ {F : Type 0} ⦃fl : FloatOps F⦄ where
  pub record Untouched (g h : Game F) : Type 0 where
    pub cache : h.aoi_cache ≡ g.aoi_cache
    pub batches : h.player_batches ≡ g.player_batches

  same : (g : Game F) → Untouched g g
  same g = record { cache = refl; batches = refl }

  after : (g h k : Game F) → Untouched g h → Untouched h k → Untouched g k
  after g h k a b = record { cache = b.cache ∙ a.cache; batches = b.batches ∙ a.batches }

  if-Untouched :
      (g h k : Game F) (b : Bool) → Untouched g h → Untouched g k → Untouched g (if b then h else k)
  if-Untouched g h k true x y = x
  if-Untouched g h k false x y = y

  send_if_connected-Untouched :
      (g : Game F) (s : Option SessionView) (packet : Packet F)
      → Untouched g (send_if_connected g s packet)
  unfolding send_if_connected
  send_if_connected-Untouched g none packet = same g
  send_if_connected-Untouched g (some s) packet = ground arith

  broadcast-Untouched :
      (w : Dict (Player F)) (id : ℕ) (packet : Packet F) (g : Game F)
      → Untouched g (broadcast w id packet g)
  unfolding broadcast
  broadcast-Untouched [] id packet g = same g
  broadcast-Untouched ((other, p) ∷ w) id packet g =
      let sent = send_if_connected g (get_session g p.session_id) packet in
      let told =
        if-Untouched g sent g (not (other == id) && p.is_active)
          (send_if_connected-Untouched g (get_session g p.session_id) packet) (same g) in
      after g _ _ told (broadcast-Untouched w id packet _)

  announce-Untouched :
      (g : Game F) (id : ℕ) (session : Option SessionView)
      → Untouched g (broadcast_player_joined (send_enter_zone_response g id session) id)
  unfolding send_enter_zone_response broadcast_player_joined
  announce-Untouched g id session =
      after g _ _ responded (joined (send_enter_zone_response g id session))
    where
      responded : Untouched g (send_enter_zone_response g id session)
      responded = elim (Option-cases (get_player g.world id)) [
        | inl gone ↦ rw (gone, send_enter_zone_response) (same g)
        | inr (p, there) ↦
            rw (there, send_enter_zone_response) (send_if_connected-Untouched g session _)
      ]

      joined : (h : Game F) → Untouched h (broadcast_player_joined h id)
      joined h = elim (Option-cases (get_player h.world id)) [
        | inl gone ↦ rw (gone, broadcast_player_joined) (same h)
        | inr (p, there) ↦ rw (there, broadcast_player_joined) (broadcast-Untouched h.world id _ h)
      ]

  handle_player_input-Untouched :
      (g : Game F) (i : PlayerInput F) (now set_at : ℕ)
      → Untouched g (handle_player_input g i now set_at)
  unfolding handle_player_input set_player
  handle_player_input-Untouched g i now set_at =
      elim (Option-cases (get_player g.world i.player_id)) [
        | inl gone ↦ rw (gone, handle_player_input) (same g)
        | inr (p, there) ↦
            rw (there, handle_player_input)
              (if-Untouched g g _ (not (is_input_allowed p now)) (same g) (
                if-Untouched g g _ (leb i.sequence_number p.last_input_sequence) (same g)
                  (record { cache = refl; batches = refl })))
      ]

  handle_enter_zone-Untouched :
      (g : Game F) (d : EnterZone) (session : Option SessionView) (spawn : Vec3 F)
      → Untouched g (handle_enter_zone g d session spawn)
  unfolding handle_enter_zone spawn_player return_player set_player
  handle_enter_zone-Untouched g d session spawn =
      elim (Option-cases (get_player g.world d.player_id)) [
        | inl gone ↦
            let made = spawn_player g d spawn in
            rw (gone, handle_enter_zone)
              (after g made _ (record { cache = refl; batches = refl })
                (announce-Untouched made d.player_id session))
        | inr (p, there) ↦
            let back = return_player g d p in
            rw (there, handle_enter_zone)
              (if-Untouched g g _ p.is_active (same g) (
                after g back _ (record { cache = refl; batches = refl })
                  (announce-Untouched back d.player_id session)))
      ]

  handle_player_disconnect-Untouched :
      (g : Game F) (d : PlayerDisconnect) (now : ℕ) → Untouched g (handle_player_disconnect g d now)
  unfolding handle_player_disconnect retire_player set_player broadcast_player_left
  handle_player_disconnect-Untouched g d now =
      elim (Option-cases (get_player g.world d.player_id)) [
        | inl gone ↦ rw (gone, handle_player_disconnect) (same g)
        | inr (p, there) ↦
            let gone = retire_player g d.player_id p now in
            rw (there, handle_player_disconnect)
              (after g gone _ (record { cache = refl; batches = refl })
                (broadcast-Untouched gone.world d.player_id _ gone))
      ]

  dispatch_to_session-Untouched :
      (g : Game F) (payload : Payload F) (sender : ℕ) (r : Reads F)
      → Untouched g (dispatch_to_session g payload sender r)
  unfolding dispatch_to_session
  dispatch_to_session-Untouched g payload sender r = elim (Option-cases (get_session g sender)) [
    | inl gone ↦ rw (gone, dispatch_to_session) (same g)
    | inr (session, there) ↦ rw (there, dispatch_to_session) (visited payload session)
  ]
    where
      visited :
          (payload : Payload F) (session : SessionView)
          → Untouched g (visit_payload g payload session r)
      visited (player_input i) session = handle_player_input-Untouched g i r.now r.set_at
      visited (enter_zone d) session = handle_enter_zone-Untouched g d (some session) r.spawn
      visited (player_spawn d) session = same g
      visited (player_disconnect d) session = same g

  process_game_command-Untouched :
      (g : Game F) (c : GameCommand F) (r : Reads F) → Untouched g (process_game_command g c r)
  unfolding process_game_command dispatch_payload
  process_game_command-Untouched g c r = with_manager g.session_manager
    where
      dispatched :
          (payload : Payload F) → Untouched g (dispatch_payload g payload c.sender_session_id r)
      dispatched (player_input i) = dispatch_to_session-Untouched g (player_input i) _ r
      dispatched (enter_zone d) = dispatch_to_session-Untouched g (enter_zone d) _ r
      dispatched (player_spawn d) = dispatch_to_session-Untouched g (player_spawn d) _ r
      dispatched (player_disconnect d) = handle_player_disconnect-Untouched g d r.now

      with_manager :
          (o : Option (Dict SessionView))
          → Untouched g (elim o [
            | none ↦ g
            | some sessions ↦ dispatch_payload g c.payload c.sender_session_id r
          ])
      with_manager none = same g
      with_manager (some sessions) = dispatched c.payload

  pub process_batch-Untouched :
      (cs : List (GameCommand F)) (i : ℕ) (reads : ℕ → Reads F) (g : Game F)
      → Untouched g (process_batch cs i reads g)
  unfolding process_batch
  process_batch-Untouched [] i reads g = same g
  process_batch-Untouched (c ∷ cs) i reads g =
      after g _ _ (process_game_command-Untouched g c (reads i))
        (process_batch-Untouched cs (suc i) reads (process_game_command g c (reads i)))

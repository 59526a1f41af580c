-- ===== src/Game/Departure.antt =====
-- Theorems on a player who left: from `SessionManager::OnSessionDisconnected` to
-- `HandlePlayerDisconnect`.
use cpp_mmo.Base.{
  ℕ, ◌≡◌, refl, ap, ◌∙◌, inl, inr, false, Option, none, some, Option-cases, count, to_nat, ==_refl,
}
use cpp_mmo.Base.Dict.{Dict, find, store, find-store}
use cpp_mmo.Float.{FloatOps, FloatLaws}
use cpp_mmo.Vector.{Vec3}
use cpp_mmo.World.{Player, set_active}
use cpp_mmo.Command.{PlayerDisconnect}
use cpp_mmo.Game.State.{Game, SessionView, get_players_in_aoi, set_player}
use cpp_mmo.Game.Zone.{
  Reads, process_game_command, dispatch_payload, handle_player_disconnect, retire_player,
  broadcast_player_left,
}
use cpp_mmo.Game.Sync.{IsSynced, is_visible, get_players_in_aoi-exact}
use cpp_mmo.Game.Commands.{SameWorld, handle_player_disconnect-Kept, broadcast-SameWorld}
use cpp_mmo.Network.Session.{Session}
use cpp_mmo.Network.Manager.{disconnect_command}

module _ {F : Type 0} ⦃fl : FloatOps F⦄ (laws : FloatLaws fl) where
  broadcast_player_left-SameWorld : (g : Game F) (id : ℕ) → SameWorld g (broadcast_player_left g id)
  unfolding broadcast_player_left
  broadcast_player_left-SameWorld g id = broadcast-SameWorld g.world id _ g

  retired :
      (g : Game F) (id : ℕ) (p : Player F) (now : ℕ)
      → (r : Player F) × (find id (retire_player g id p now).world ≡ some r) × (r.is_active ≡ false)
  unfolding retire_player set_active set_player
  retired g id p now =
      let r : Player F = record (set_active p false now) { last_input_sequence = 0 } in
      let at_id : find id (store id r g.world) ≡ some r =
        find-store id id r g.world ∙ simp (==_refl id) refl in
      (r, at_id, refl)

  active_after :
      (g : Game F) (d : PlayerDisconnect) (now : ℕ) (position : Vec3 F)
      → is_visible g.config.aoi_range position
          (find d.player_id (handle_player_disconnect g d now).world)
        ≡ false
  unfolding handle_player_disconnect
  active_after g d now position = elim (Option-cases (find d.player_id g.world)) [
    | inl gone ↦ rw (gone, handle_player_disconnect) (simp gone refl)
    | inr (p, there) ↦
        let same =
          broadcast_player_left-SameWorld (retire_player g d.player_id p now) d.player_id in
        let (r, at_id, away) = retired g d.player_id p now in
        rw (there, handle_player_disconnect) (simp (same.world, at_id, away) refl)
  ]

  disconnected :
      (g : Game F) (s : Session) (now : ℕ) (r : Reads F) (sessions : Dict SessionView)
      → g.session_manager ≡ some sessions
      → process_game_command g (disconnect_command s now) r
        ≡ handle_player_disconnect g (record { player_id = s.player_id }) r.now
  unfolding process_game_command dispatch_payload disconnect_command
  disconnected g s now r sessions set =
      ap
        (λ (o : Option (Dict SessionView)). elim o [
          | none ↦ g
          | some sessions ↦ handle_player_disconnect g (record { player_id = s.player_id }) r.now
        ])
        set

  -- With a world and an index that are in step and a session manager, once the game has processed the command that the session manager queues for a session that
  -- disconnects, no query of the area of interest, anywhere, gives the session's player.
  pub process_game_command-disconnect_command :
      (g : Game F) (s : Session) (now : ℕ) (r : Reads F) (sessions : Dict SessionView)
      (position : Vec3 F)
      → g.session_manager ≡ some sessions
      → IsSynced g
      → count s.player_id
          (get_players_in_aoi (process_game_command g (disconnect_command s now) r) position)
        ≡ 0
  process_game_command-disconnect_command g s now r sessions position set synced =
      let d : PlayerDisconnect = record { player_id = s.player_id } in
      let kept = handle_player_disconnect-Kept laws g d r.now synced in
      simp (disconnected g s now r sessions set) (
        get_players_in_aoi-exact laws (handle_player_disconnect g d r.now) position s.player_id
          kept.synced
        ∙ simp kept.config (ap to_nat (active_after g d r.now position)))

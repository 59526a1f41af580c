-- ===== src/Game/State.antt =====
-- The members of GameManager, and what it sends. A FlatBuffers message stands for its table.
use cpp_mmo.Base.{ℕ, Bool, ◌&&◌, Option, none, some, List, [], ◌∷◌, ◌++◌, if◌then◌else◌}
use cpp_mmo.Base.Dict.{Dict, find, store}
use cpp_mmo.Base.Text.{Text}
use cpp_mmo.Float.{FloatOps}
use cpp_mmo.Vector.{Vec3}
use cpp_mmo.QuadTree
use cpp_mmo.QuadTree.{QuadTree}
use cpp_mmo.World.{Player}

pub record PlayerInfo (F : Type 0) : Type 0 where
  pub player_id : ℕ
  pub name : Text
  pub position : Vec3 F
  pub hp : ℕ
  pub max_hp : ℕ

pub record PlayerState (F : Type 0) : Type 0 where
  pub player_id : ℕ
  pub position : Vec3 F
  pub velocity : Vec3 F
  pub is_active : Bool

pub data Packet (F : Type 0) : Type 0 where
  zone_entered : ℕ → PlayerInfo F → List (PlayerInfo F) → Packet F
  player_joined : PlayerInfo F → Packet F
  player_left : ℕ → Packet F
  world_snapshot : ℕ → ℕ → List (PlayerState F) → Packet F

-- What the manager asks of an `ISession`.
pub record SessionView : Type 0 where
  pub session_id : ℕ
  pub is_connected : Bool

-- A call of `Send` or of `SendBatch` on a session.
pub data Delivery (F : Type 0) : Type 0 where
  sent : ℕ → Packet F → Delivery F
  sent_batch : ℕ → List (Packet F) → Delivery F

pub record AoiCache (F : Type 0) : Type 0 where
  pub visible_players : List ℕ
  pub last_update_tick : ℕ
  pub last_position : Vec3 F

pub record Stats : Type 0 where
  pub total_commands_processed : ℕ
  pub total_aoi_queries_skipped : ℕ
  pub total_aoi_queries_executed : ℕ
  -- In microseconds.
  pub total_command_processing_time : ℕ
  pub total_world_update_time : ℕ
  pub total_snapshot_time : ℕ

pub record Config (F : Type 0) : Type 0 where
  pub aoi_range : F
  pub move_speed : F
  pub map_width : F
  pub map_height : F
  -- In milliseconds.
  pub tick_duration : ℕ
  pub command_batch_size : ℕ
  pub aoi_update_interval : ℕ
  pub aoi_position_threshold : F

pub record Game (F : Type 0) : Type 0 where
  pub config : Config F
  pub world : Dict (Player F)
  pub quad_tree : QuadTree F
  -- `m_sessionManager`: null, or the sessions that it has.
  pub session_manager : Option (Dict SessionView)
  pub tick_number : ℕ
  pub player_batches : Dict (List (Packet F))
  pub aoi_cache : Dict (AoiCache F)
  pub stats : Stats
  pub last_stats_report_tick : ℕ
  -- The calls made on sessions so far, in order.
  pub deliveries : List (Delivery F)

module _ {F : Type 0} where
  -- `m_sessionManager->GetSession(id)`; only `ProcessGameCommand` tests for a null manager, and the
  -- other calls are made behind that test.
  unfoldable pub get_session : Game F → ℕ → Option SessionView
  get_session g id = elim g.session_manager [ none ↦ none | some sessions ↦ find id sessions ]

  -- `if (session && session->IsConnected()) session->Send(packet)`
  unfoldable pub send_if_connected : Game F → Option SessionView → Packet F → Game F
  send_if_connected g none packet = g
  send_if_connected g (some s) packet =
      if s.is_connected
      then record g { deliveries = g.deliveries ++ sent s.session_id packet ∷ [] }
      else g

  -- A player changed through the reference that `GetPlayer` gave.
  unfoldable pub set_player : Game F → ℕ → Player F → Game F
  set_player g id p = record g { world = store id p g.world }

module _ {F : Type 0} ⦃fl : FloatOps F⦄ where
  unfoldable pub is_valid_position : Config F → Vec3 F → Bool
  is_valid_position c p =
      fl.le (fl.of_nat 0) p.x
      && (fl.lt p.x c.map_width && (fl.le (fl.of_nat 0) p.y && fl.lt p.y c.map_height))

  -- The two draws, from 20 up to the map's size less 20, come from the random engine.
  unfoldable get_spawn_position : F → F → Vec3 F
  get_spawn_position x y = record { x = x; y = y; z = fl.of_nat 0 }

  unfoldable pub get_players_in_aoi : Game F → Vec3 F → List ℕ
  get_players_in_aoi g position = QuadTree.query g.quad_tree position g.config.aoi_range

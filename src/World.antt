-- ===== src/World.antt =====
-- src/Game/Models/Player.h, Player.cpp, World.h and World.cpp. Clock readings, in nanoseconds of
-- `steady_clock`, are arguments; the clock never runs back, so a difference of two is not negative.
use cpp_mmo.Base.{ℕ, ◌-◌, ◌/◌, Bool, true, false, Option, List, map, leb, if◌then◌else◌, length}
use cpp_mmo.Base.Dict.{Dict, find, store, erase, keys}
use cpp_mmo.Base.Int.{ℤ, pos, negsuc}
use cpp_mmo.Base.Text.{Text}
use cpp_mmo.Float.{FloatOps}
use cpp_mmo.Vector.{Vec3, origin}

pub record Player (F : Type 0) : Type 0 where
  pub player_id : ℕ
  pub name : Text
  pub position : Vec3 F
  pub velocity : Vec3 F
  pub rotation : F
  pub hp : ℕ
  pub max_hp : ℕ
  pub mp : ℕ
  pub max_mp : ℕ
  pub current_input_flags : ℕ
  pub mouse_position : Vec3 F
  pub last_input_sequence : ℕ
  pub last_input_time : ℕ
  pub is_active : Bool
  pub session_id : ℕ
  pub disconnect_time : ℕ
  pub last_update_tick : ℕ
  pub move_speed : F

-- `std::clamp(value, 0, high)` for a bound that is not negative.
unfoldable clamp : ℤ → ℕ → ℕ
clamp (pos n) high = if leb n high then n else high
clamp (negsuc n) high = 0

module _ {F : Type 0} where
  unfoldable set_hp : Player F → ℤ → Player F
  unfolding clamp
  set_hp p hp = record p { hp = clamp hp p.max_hp }

  unfoldable set_mp : Player F → ℤ → Player F
  unfolding clamp
  set_mp p mp = record p { mp = clamp mp p.max_mp }

  -- A difference of at least 33 whole milliseconds.
  unfoldable pub is_input_allowed : Player F → ℕ → Bool
  is_input_allowed p now = leb 33 ((now - p.last_input_time) / 1_000_000)

  unfoldable pub update_last_input_time : Player F → ℕ → Player F
  update_last_input_time p now = record p { last_input_time = now }

  unfoldable pub set_active : Player F → Bool → ℕ → Player F
  set_active p active now =
      if active
      then record p { is_active = true }
      else record p { is_active = false; disconnect_time = now }

  -- Five whole minutes after the disconnection.
  unfoldable should_remove : Player F → ℕ → Bool
  should_remove p now =
      if p.is_active then false else leb 5 ((now - p.disconnect_time) / 60_000_000_000)

  -- `Player::Update` does nothing yet.
  unfoldable pub update_player : Player F → F → Player F
  update_player p delta = p

  unfoldable pub add_player : Dict (Player F) → Player F → Dict (Player F)
  add_player w p = store p.player_id p w

  unfoldable remove_player : Dict (Player F) → ℕ → Dict (Player F)
  remove_player w id = erase id w

  unfoldable pub get_player : Dict (Player F) → ℕ → Option (Player F)
  get_player w id = find id w

  unfoldable get_player_ids : Dict (Player F) → List ℕ
  get_player_ids w = keys w

  unfoldable get_player_count : Dict (Player F) → ℕ
  get_player_count w = length w

  unfoldable pub update_world : Dict (Player F) → F → Dict (Player F)
  unfolding update_player
  update_world w delta = map (λ e. (e.0, update_player e.1 delta)) w

-- The constructor with an id, a name and a position; the other fields have their defaults.
unfoldable pub new_player : {F : Type 0} ⦃fl : FloatOps F⦄ → ℕ → Text → Vec3 F → Player F
unfolding origin
new_player ⦃fl⦄ id name spawn = record {
  player_id = id;
  name = name;
  position = spawn;
  velocity = origin;
  rotation = fl.of_nat 0;
  hp = 100;
  max_hp = 100;
  mp = 50;
  max_mp = 50;
  current_input_flags = 0;
  mouse_position = origin;
  last_input_sequence = 0;
  last_input_time = 0;
  is_active = true;
  session_id = 0;
  disconnect_time = 0;
  last_update_tick = 0;
  move_speed = fl.of_nat 5;
}

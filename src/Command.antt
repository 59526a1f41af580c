-- ===== src/Command.antt =====
-- src/Game/GameCommand.h: the input flags and the commands of the game queue.
use cpp_mmo.Base.{ℕ, ◌/◌, ◌%◌, Bool, not, ◌&&◌, ◌||◌, ◌==◌, if◌then◌else◌}
use cpp_mmo.Base.Text.{Text}
use cpp_mmo.Float.{FloatOps}
use cpp_mmo.Vector.{Vec3, normalized}

-- `(flags & InputFlags::W) != 0` and so on, for the bits 1, 2, 4 and 8.
abbrev pub has_w : ℕ → Bool
has_w flags = flags % 2 == 1

abbrev pub has_s : ℕ → Bool
has_s flags = flags / 2 % 2 == 1

abbrev pub has_a : ℕ → Bool
has_a flags = flags / 4 % 2 == 1

abbrev pub has_d : ℕ → Bool
has_d flags = flags / 8 % 2 == 1

unfoldable is_moving : ℕ → Bool
is_moving flags = has_w flags || (has_s flags || (has_a flags || has_d flags))

module _ {F : Type 0} ⦃fl : FloatOps F⦄ where
  -- The free function `InputFlagsToDirection`, before `Normalized()`.
  unfoldable raw_direction : ℕ → Vec3 F
  raw_direction flags = record {
    x =
        if has_a flags && not (has_d flags)
        then fl.sub (fl.of_nat 0) (fl.of_nat 1)
        else if has_d flags && not (has_a flags)
        then fl.add (fl.of_nat 0) (fl.of_nat 1)
        else fl.of_nat 0;
    y =
        if has_w flags && not (has_s flags)
        then fl.add (fl.of_nat 0) (fl.of_nat 1)
        else if has_s flags && not (has_w flags)
        then fl.sub (fl.of_nat 0) (fl.of_nat 1)
        else fl.of_nat 0;
    z = fl.of_nat 0;
  }

  unfoldable free_direction : ℕ → Vec3 F
  unfolding raw_direction
  free_direction flags = normalized (raw_direction flags)

pub record PlayerInput (F : Type 0) : Type 0 where
  pub player_id : ℕ
  pub tick_number : ℕ
  pub client_time : ℕ
  pub input_flags : ℕ
  pub mouse_position : Vec3 F
  pub sequence_number : ℕ
  pub session_id : ℕ

pub record EnterZone : Type 0 where
  pub player_id : ℕ
  pub zone_id : ℕ
  pub session_id : ℕ

pub record PlayerSpawn (F : Type 0) : Type 0 where
  pub player_id : ℕ
  pub player_name : Text
  pub spawn_position : Vec3 F
  pub hp : ℕ
  pub max_hp : ℕ
  pub mp : ℕ
  pub max_mp : ℕ

pub record PlayerDisconnect : Type 0 where
  pub player_id : ℕ

pub data Payload (F : Type 0) : Type 0 where
  player_input : PlayerInput F → Payload F
  enter_zone : EnterZone → Payload F
  player_spawn : PlayerSpawn F → Payload F
  player_disconnect : PlayerDisconnect → Payload F

-- Session ids are `int64_t` here and `uint64_t` in the sessions; both are the 64-bit pattern.
pub record GameCommand (F : Type 0) : Type 0 where
  pub command_id : ℕ
  pub payload : Payload F
  pub sender_session_id : ℕ
  pub timestamp : ℕ

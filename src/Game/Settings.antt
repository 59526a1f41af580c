-- ===== src/Game/Settings.antt =====
-- `LoadGameConfig` of src/Game/Managers/GameManager.cpp. The file and its JSON are an argument: each
-- field as the code asks for it, with `none` where the access or the conversion throws.
use cpp_mmo.Base.{◌==◌, ℕ, zero, suc, ◌-◌, ◌/◌, ◌^◌, Option, none, some, if◌then◌else◌}
use cpp_mmo.Base.Int.{ℤ, pos, negsuc}
use cpp_mmo.Float.{FloatOps}
use cpp_mmo.Base.Dict.{Dict}
use cpp_mmo.Game.State.{Config, SessionView, Game}
use cpp_mmo.Game.Loop.{new_game}

-- A key of an object: it is not there, it has a value that the code cannot use, or one that it can.
pub data Entry (A : Type 0) : Type 0 where
  missing : Entry A
  unusable : Entry A
  entry : A → Entry A

pub record Document (F : Type 0) : Type 0 where
  pub aoi_range : Option F
  pub chat_range : Option F
  pub move_speed : Option F
  pub tick_rate : Option ℤ
  pub map_width : Option F
  pub map_height : Option F
  -- The object `performance`, by its key `command_batch_size`.
  pub performance : Entry (Entry ℤ)

-- What reading the file gives: it does not open, it is no JSON, or a document.
pub data ConfigFile (F : Type 0) : Type 0 where
  not_open : ConfigFile F
  not_json : ConfigFile F
  document : Document F → ConfigFile F

-- The members that the file sets.
pub record Settings (F : Type 0) : Type 0 where
  pub aoi_range : F
  pub chat_range : F
  pub move_speed : F
  pub tick_rate : ℤ
  -- In milliseconds.
  pub tick_duration : ℤ
  pub map_width : F
  pub map_height : F
  pub command_batch_size : ℤ

-- Their initial values.
unfoldable pub default_settings : {F : Type 0} ⦃fl : FloatOps F⦄ → Settings F
default_settings ⦃fl⦄ = record {
  aoi_range = fl.of_nat 100;
  chat_range = fl.of_nat 50;
  move_speed = fl.of_nat 5;
  tick_rate = pos 30;
  tick_duration = pos 33;
  map_width = fl.of_nat 200;
  map_height = fl.of_nat 200;
  command_batch_size = pos 500;
}

-- How far the loading is: it goes on, an exception has ended it, or it divided by zero, which C++
-- leaves undefined.
pub data Loading (F : Type 0) : Type 0 where
  going : Settings F → Loading F
  threw : Settings F → Loading F
  undefined : Loading F

infixl 5 ◌>>=◌
abbrev ◌>>=◌ : {F : Type 0} → Loading F → (Settings F → Loading F) → Loading F
going s >>= f = f s
threw s >>= f = threw s
undefined >>= f = undefined

-- `1000 / m_tickRate`, which truncates towards zero; `none` where it is undefined.
unfoldable pub thousand_over : ℤ → Option ℤ
thousand_over (pos zero) = none
thousand_over (pos (suc n)) = some (pos (1000 / suc n))
thousand_over (negsuc n) = let q = 1000 / suc n in some (if q == 0 then pos 0 else negsuc (q - 1))

-- `config.value("performance", json{}).value("command_batch_size", 100)`; the default `json{}` is
-- null, and `value` of null throws.
unfoldable pub batch_size : Entry (Entry ℤ) → Option ℤ
batch_size missing = none
batch_size unusable = none
batch_size (entry missing) = some (pos 100)
batch_size (entry unusable) = none
batch_size (entry (entry v)) = some v

module _ {F : Type 0} where
  -- A member set to a field of the document.
  unfoldable pub assign : {A : Type 0} → Option A → (A → Settings F) → Settings F → Loading F
  assign none f s = threw s
  assign (some v) f s = going (f v)

  unfoldable pub set_tick_duration : Settings F → Option ℤ → Loading F
  set_tick_duration s none = undefined
  set_tick_duration s (some d) = going (record s { tick_duration = d })

  unfoldable pub read_document : Document F → Settings F → Loading F
  unfolding assign set_tick_duration thousand_over batch_size
  read_document d s = do
    s₁ ← assign d.aoi_range (λ v. record s { aoi_range = v }) s
    s₂ ← assign d.chat_range (λ v. record s₁ { chat_range = v }) s₁
    s₃ ← assign d.move_speed (λ v. record s₂ { move_speed = v }) s₂
    s₄ ← assign d.tick_rate (λ v. record s₃ { tick_rate = v }) s₃
    s₅ ← set_tick_duration s₄ (thousand_over s₄.tick_rate)
    s₆ ← assign d.map_width (λ v. record s₅ { map_width = v }) s₅
    s₇ ← assign d.map_height (λ v. record s₆ { map_height = v }) s₆
    assign (batch_size d.performance) (λ v. record s₇ { command_batch_size = v }) s₇

  -- The members after `LoadGameConfig`, which catches every exception; `none` where it is undefined.
  abbrev loaded : Loading F → Option (Settings F)
  loaded (going s) = some s
  loaded (threw s) = some s
  loaded undefined = none

  unfoldable pub load_game_config : ConfigFile F → Settings F → Option (Settings F)
  unfolding read_document
  load_game_config not_open s = some s
  load_game_config not_json s = some s
  load_game_config (document d) s = loaded (read_document d s)

-- A cast of an `int` to `size_t`, and a duration as a bound of one that is not negative.
abbrev to_size : ℤ → ℕ
to_size (pos n) = n
to_size (negsuc n) = 2 ^ 64 - 1 - n

abbrev at_least_zero : ℤ → ℕ
at_least_zero (pos n) = n
at_least_zero (negsuc n) = 0

module _ {F : Type 0} ⦃fl : FloatOps F⦄ where
  -- The members that the tick reads; the last two have no field in the file.
  unfoldable config_of : Settings F → Config F
  config_of s = record {
    aoi_range = s.aoi_range;
    move_speed = s.move_speed;
    map_width = s.map_width;
    map_height = s.map_height;
    tick_duration = at_least_zero s.tick_duration;
    command_batch_size = to_size s.command_batch_size;
    aoi_update_interval = 3;
    aoi_position_threshold = fl.of_nat 10;
  }

  abbrev with_settings : Option (Settings F) → Option (Dict SessionView) → Option (Game F)
  with_settings none sessions = none
  with_settings (some s) sessions = new_game (config_of s) sessions

  -- The constructor of the manager; `none` where it throws or is undefined.
  unfoldable construct_game : ConfigFile F → Option (Dict SessionView) → Option (Game F)
  unfolding load_game_config config_of new_game default_settings
  construct_game file sessions = with_settings (load_game_config file default_settings) sessions

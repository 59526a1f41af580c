-- ===== src/Game/Loading.antt =====
-- Theorems on the configuration that `LoadGameConfig` reads.
use cpp_mmo.Base.{◌≡◌, ◌≢◌, Option, none, some}
use cpp_mmo.Base.Dict.{or_default}
use cpp_mmo.Base.Int.{ℤ, pos}
use cpp_mmo.Game.Settings.{Entry, Document, Settings, thousand_over, batch_size}

-- A field that the code reads after another.
abbrev pub after : {A B : Type 0} → Option A → Option B → Option B
after none y = none
after (some x) y = y

abbrev duration_of : Option ℤ → Option ℤ
duration_of none = none
duration_of (some rate) = thousand_over rate

module _ {F : Type 0} (d : Document F) where
  -- The fields with those that the code reads before them.
  abbrev rate_read : Option ℤ
  rate_read = after d.aoi_range (after d.chat_range (after d.move_speed d.tick_rate))

  abbrev width_read : Option F
  width_read = after (duration_of rate_read) d.map_width

  abbrev height_read : Option F
  height_read = after width_read d.map_height

  abbrev batch_read : Option ℤ
  batch_read = after height_read (batch_size d.performance)

  -- Each member has the value of the file if that field and those before it can be read, and is as
  -- it was otherwise.
  pub record IsLoaded (s s' : Settings F) : Type 0 where
    pub aoi_range : s'.aoi_range ≡ or_default s.aoi_range d.aoi_range
    pub chat_range : s'.chat_range ≡ or_default s.chat_range (after d.aoi_range d.chat_range)
    pub move_speed :
        s'.move_speed
        ≡ or_default s.move_speed (after d.aoi_range (after d.chat_range d.move_speed))
    pub tick_rate : s'.tick_rate ≡ or_default s.tick_rate rate_read
    pub tick_duration : s'.tick_duration ≡ or_default s.tick_duration (duration_of rate_read)
    pub map_width : s'.map_width ≡ or_default s.map_width width_read
    pub map_height : s'.map_height ≡ or_default s.map_height height_read
    pub command_batch_size : s'.command_batch_size ≡ or_default s.command_batch_size batch_read

-- Undefined exactly if a tick rate of 0 is read.
abbrev pub Outcome : {F : Type 0} → Document F → Settings F → Option (Settings F) → Type 0
Outcome d s none = rate_read d ≡ some (pos 0)
Outcome d s (some s') = IsLoaded d s s' × (rate_read d ≢ some (pos 0))

module _ {F : Type 0} where
  abbrev doc :
      Option F → Option F → Option F → Option ℤ → Option F → Option F → Entry (Entry ℤ) → Document F
  doc a c m r w h p = record {
    aoi_range = a;
    chat_range = c;
    move_speed = m;
    tick_rate = r;
    map_width = w;
    map_height = h;
    performance = p;
  }

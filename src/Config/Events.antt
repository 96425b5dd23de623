-- ===== src/Config/Events.antt =====
-- EventConfig.cpp: the configured events.
use rpi_cam.Base.{ℕ, Option, none, some, List, [], ◌∷◌, ◌++◌, String}
use rpi_cam.Base.Int.{ℤ, negsuc}
use rpi_cam.Base.Dict.{Dict, find, emplace}
use rpi_cam.Base.Outcome.{Outcome, ok}
use rpi_cam.Config.Tree.{Tree, get_string, get_int, reading}

-- `class EventConfig`
pub record EventConfig : Type 0 where
  pub name : List String
  pub fps : Dict ℤ

-- `EventConfig::read_config`: a name that comes twice keeps its first rate.
unfoldable pub read_config : List Tree → EventConfig → Outcome (ℕ × EventConfig)
read_config [] c = ok (0, c)
read_config (event ∷ props) c = reading 1 c (get_string event "event_name") λ name.
    reading 1 c (get_int event "fps")
      λ fps. read_config props (record { name = c.name ++ name ∷ []; fps = emplace name fps c.fps })

-- `EventConfig::set_file`
unfoldable pub set_file : (String → Option (List Tree)) → EventConfig → Outcome (ℕ × EventConfig)
unfolding read_config
set_file json c = elim (json "events") [ none ↦ ok (1, c) | some props ↦ read_config props c ]

abbrev pub rate_of : Option ℤ → ℤ
rate_of none = negsuc 0
rate_of (some fps) = fps

-- `EventConfig::event_fps`
unfoldable pub event_fps : String → EventConfig → ℤ
event_fps name c = rate_of (find name c.fps)

-- ===== src/Video/Recorder.antt =====
-- VideoStreamerGST.cpp and GstreamerCallbacks.cpp: the server that records the camera to files.
use rpi_cam.Base.{suc, ℕ, ◌+◌, Bool, true, false, List, [], ◌∷◌, String, if◌then◌else◌}
use Prim.Native.String
use Prim.Native.Nat.{zero, suc}
use rpi_cam.Base.Int.{ℤ, pos, negsuc}
use rpi_cam.Base.Decimal.{to_string}
use rpi_cam.Base.Outcome.{Outcome, ok, fault, use_after_free, ◌>>=◌}
use rpi_cam.Config.Recording.{VideoConfig, split_time}
use rpi_cam.VideoQueue.{VideoQueue, ThreadInfo, update, insert_event}

-- An `int` written to a stream.
abbrev pub show_int : ℤ → String
show_int (pos n) = to_string n
show_int (negsuc n) = String.◌++◌ "-" (to_string (n + 1))

abbrev pub append_all : List String → String
append_all [] = ""
append_all (s ∷ texts) = String.◌++◌ s (append_all texts)

-- `createPipeline`
unfoldable pub create_pipeline : VideoConfig → Outcome String
unfolding to_string split_time
create_pipeline config = split_time config >>= λ split. ok (
    append_all (
      "( appsrc name=stream_src is-live=true format=time "
      ∷ "caps=video/x-raw,"
      ∷ "width="
      ∷ show_int config.width
      ∷ ",height="
      ∷ show_int config.height
      ∷ ",framerate="
      ∷ config.frame_rate
      ∷ ",format="
      ∷ config.format
      ∷ " ! tee name=t ! "
      ∷ "queue ! videoconvert ! x264enc speed-preset=ultrafast tune=fastdecode ! "
      ∷ "video/x-h264,profile=high ! rtph264pay config-interval=1 name=pay0 pt=96 "
      ∷ "t. ! queue ! videoconvert ! x264enc speed-preset=ultrafast tune=fastdecode ! "
      ∷ "splitmuxsink name=muxsink max-size-time="
      ∷ show_int split
      ∷ " )"
      ∷ []))

-- `VideoStreamerGST`, as far as its server goes; the pointers are set or null.
pub record Streamer : Type 0 where
  pub has_server : Bool
  pub has_loop : Bool
  pub pipeline : String

-- `make_server`
unfoldable pub make_server : VideoConfig → Streamer → Outcome Streamer
unfolding create_pipeline
make_server config s = create_pipeline config >>= λ text.
    ok (record { has_server = true; has_loop = true; pipeline = text })

-- `start_server`, whose main loop runs until it is stopped.
unfoldable pub start_server : VideoConfig → Bool → Streamer → Outcome (ℤ × Streamer)
unfolding make_server
start_server config attaches s =
    make_server config s >>= λ s'. ok (if attaches then pos 0 else negsuc 0, s')

-- `stop_server`: the test after the release looks at the pointer that was released.
unfoldable pub stop_server : Streamer → ℤ × Streamer
stop_server s = (if s.has_server then negsuc 0 else pos 0, record s { has_loop = false })

-- The name under `format_location_callback` at the time `t`.
unfoldable pub format_location_callback : ℕ → String
unfolding to_string
format_location_callback t = String.◌++◌ "video/" (String.◌++◌ (to_string t) ".mp4")

-- `new ThreadInfo()` at 60 frames a second.
abbrev pub at_60 : ThreadInfo
at_60 = record { is_run = true; fps = 60 }

-- `on_media_configure`: the part that other components see. `p` is the address of the new
-- `ThreadInfo`.
unfoldable pub on_media_configure : String → ℕ → VideoQueue → Outcome VideoQueue
unfolding insert_event
on_media_configure uuid p q =
    insert_event uuid p (record q { infos = update q.infos p at_60 }) >>= λ r. ok r.1

-- The `sess_info` of a medium, and how many threads of `need_data` hold it in a pointer that
-- deletes it.
pub record Medium : Type 0 where
  pub alive : Bool
  pub holders : ℕ

-- What happens to a medium: `need_data` starts a thread, such a thread ends, `media_unprepared`.
pub data MediumEvent : Type 0 where
  need_data thread_ends media_unprepared : MediumEvent

-- `delete` of the `sess_info`.
abbrev pub delete_session : Medium → Outcome Medium
delete_session m = if m.alive then ok (record m { alive = false }) else fault use_after_free

abbrev pub end_thread : ℕ → Medium → Outcome Medium
end_thread zero m = ok m
end_thread (suc n) m = delete_session (record m { holders = n })

unfoldable pub medium_step : MediumEvent → Medium → Outcome Medium
medium_step need_data m =
    if m.alive then ok (record m { holders = m.holders + 1 }) else fault use_after_free
medium_step thread_ends m = end_thread m.holders m
medium_step media_unprepared m = delete_session m

unfoldable pub medium_run : List MediumEvent → Medium → Outcome Medium
unfolding medium_step
medium_run [] m = ok m
medium_run (e ∷ events) m = medium_step e m >>= medium_run events

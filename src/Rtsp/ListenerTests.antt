-- ===== src/Rtsp/ListenerTests.antt =====
-- Connections that come and go.
use rpi_cam.Base.{◌≡◌, refl, false, none, some, [], ◌∷◌, ◌↔◌, List, length, ℕ, String}
use rpi_cam.Base.Dict.{Dict}
use rpi_cam.Base.Outcome.{ok, ◌>>=◌}
use rpi_cam.Rtsp.Lifecycle.{request, end_of_stream, failed, handle_session, build}
use rpi_cam.Rtsp.Listener.{Event, accepted, received, Listener, serve_all, session_thread}
use rpi_cam.Rtsp.Listening.{finished, session_thread-handle_session}
use rpi_cam.Rtsp.Quiet.{IsQuiet, after_events}
use rpi_cam.Rtsp.Crowd.{serve_all-ok}
use rpi_cam.Rtsp.Tests.{counting, library, closing}

abbrev table : Dict String
table = ("/live", "/dev/video") ∷ []

-- A second client connects while the first is silent, and an accept fails.
abbrev visits : List Event
visits =
    accepted (some "a")
    ∷ accepted none
    ∷ accepted (some "b")
    ∷ received 1 end_of_stream
    ∷ received 0 (failed false)
    ∷ []

abbrev left : Listener ℕ (Unit {0})
left = record { world = tt; sessions = none ∷ none ∷ [] }

serve_all-ok_example :
    ((serve_all counting library table visits (record { world = tt; sessions = [] }) ≡ ok left) ↔ (
      IsQuiet {H = ℕ} table visits []
      × (left ≡ record { world = tt; sessions = after_events table visits [] })))
    × (length (after_events {H = ℕ} table visits []) ≡ 2)
serve_all-ok_example = serve_all-ok counting library table visits tt left

visits-served :
    serve_all counting library table visits (record { world = tt; sessions = [] }) ≡ ok left
unfolding serve_all
visits-served = refl

closing_thread :
    handle_session counting library "u" table (request closing ∷ end_of_stream ∷ []) (tt {0}) ≡ (
      session_thread counting library (request closing ∷ end_of_stream ∷ []) (build "u" table) tt
      >>= finished)
closing_thread =
    session_thread-handle_session counting library "u" table (request closing ∷ end_of_stream ∷ [])
      tt

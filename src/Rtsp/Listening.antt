-- ===== src/Rtsp/Listening.antt =====
-- RTSPListener.cpp: what the listener and the threads of its sessions do together.
use rpi_cam.Base.{Option, none, some, List, [], ◌∷◌, String, ◌&&◌, ◌≡◌, refl, Bool-cases, inl, inr}
use rpi_cam.Base.Dict.{Dict}
use rpi_cam.Base.Outcome.{Outcome, ok, fault, blocked, use_after_free, ◌>>=◌, Outcome-cases}
use rpi_cam.Rtsp.Session.{Handler, Library, Session, run_once}
use rpi_cam.Rtsp.Lifecycle.{
  Reception, closed, request, end_of_stream, aborted, failed, build, destroy_session, run,
  handle_session,
}
use rpi_cam.Rtsp.Listener.{end_session, session_round, session_thread}

-- What `handle_session` makes of a thread: one that has not ended waits for ever.
abbrev pub finished : {H W : Type 0} → Option (Session H) × W → Outcome W
finished (none, w) = ok w
finished (some s, w) = fault blocked

module _ {H W : Type 0} (handler : Handler H W) (library : Library) where
  abbrev left_over : Option (Session H) × W → Outcome W
  left_over (left, w) = elim left [
    | none ↦ fault use_after_free
    | some s ↦ destroy_session handler library s w
  ]

  thread_ended :
      (rest : List Reception) (s : Session H) (w : W)
      → (run handler library (end_of_stream ∷ rest) s w >>= left_over)
        ≡ (session_thread handler library (end_of_stream ∷ rest) s w >>= finished)
  unfolding run session_thread session_round end_session
  thread_ended rest s w = elim (Outcome-cases (destroy_session handler library s w)) [
    | inl (w', e) ↦ rw (e, ◌>>=◌) refl
    | inr (f, e) ↦ rw (e, ◌>>=◌) refl
  ]

  thread_left :
      (receptions : List Reception) (s : Session H) (w : W)
      → (run handler library receptions s w >>= left_over)
        ≡ (session_thread handler library receptions s w >>= finished)
  unfolding run session_thread session_round end_session
  thread_left [] s w = refl
  thread_left (closed ∷ rest) s w = elim (Outcome-cases (destroy_session handler library s w)) [
    | inl (w', e) ↦ rw (e, ◌>>=◌) refl
    | inr (f, e) ↦ rw (e, ◌>>=◌) refl
  ]
  thread_left (end_of_stream ∷ rest) s w = thread_ended rest s w
  thread_left (aborted is_open throws ∷ rest) s w = elim (Bool-cases (is_open && throws)) [
    | inl y ↦ rw (y, ◌>>=◌) refl
    | inr n ↦ rw (n, ◌>>=◌) (thread_ended rest s w)
  ]
  thread_left (failed throws ∷ rest) s w = elim (Bool-cases throws) [
    | inl y ↦ rw (y, ◌>>=◌) refl
    | inr n ↦ rw (n, ◌>>=◌) (thread_ended rest s w)
  ]
  thread_left (request r ∷ rest) s w = elim (Outcome-cases (run_once handler library r s w)) [
    | inr (f, e) ↦ rw (e, ◌>>=◌) refl
    | inl ((go_on, s', w'), e) ↦ elim (Bool-cases go_on) [
      | inl y ↦ rw (e, ◌>>=◌, y) (thread_left rest s' w')
      | inr n ↦ rw (e, ◌>>=◌, n) (thread_ended rest s' w')
    ]
  ]

  -- The thread that serves a connection, taken round by round, does what `handle_session` does.
  pub session_thread-handle_session :
      (uuid : String) (path : Dict String) (receptions : List Reception) (w : W)
      → handle_session handler library uuid path receptions w
        ≡ (session_thread handler library receptions (build uuid path) w >>= finished)
  unfolding handle_session
  session_thread-handle_session uuid path receptions w = thread_left receptions (build uuid path) w

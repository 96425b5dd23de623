-- ===== src/Rtsp/Lifecycle.antt =====
-- RTSPListener.cpp and the life of a session of RTSPSessionImpl.cpp, from the accepted connection
-- to the deletion of the session. What the library reads from the socket is a list.
use rpi_cam.Base.{Bool, Option, none, some, List, [], ◌∷◌, String, ◌&&◌, if◌then◌else◌}
use rpi_cam.Base.Dict.{Dict}
use rpi_cam.Base.Outcome.{Outcome, ok, fault, blocked, uncaught, use_after_free, ◌>>=◌}
use rpi_cam.Rtsp.Session.{Request, Handler, Library, Session, run_once}

-- One round of `run`: the socket is closed already, a request is read, or the read fails because
-- the peer has finished, because it was aborted (is the socket open, does the shutdown throw), or
-- otherwise (does the shutdown throw).
pub data Reception : Type 0 where
  closed : Reception
  request : Request → Reception
  end_of_stream : Reception
  aborted : Bool → Bool → Reception
  failed : Bool → Reception

-- `RTSPSession::build`.
unfoldable pub build : {H : Type 0} → String → Dict String → Session H
build uuid path = record { uuid = uuid; path = path; url_path = ""; file_path = ""; handler = none }

-- `shutdown` without an error code.
abbrev pub shutdown : {A : Type 0} → Bool → A → Outcome A
shutdown throws a = if throws then fault uncaught else ok a

module _ {H W : Type 0} (handler : Handler H W) (library : Library) where
  -- `delete this`, whose destructor destroys the handler.
  unfoldable pub destroy_session : Session H → W → Outcome W
  destroy_session s w = elim s.handler [ none ↦ ok w | some h ↦ handler.destroy h w ]

  -- `RTSPSessionImpl::run`: the session that is left, `none` after it has deleted itself.
  unfoldable pub run : List Reception → Session H → W → Outcome (Option (Session H) × W)
  unfolding destroy_session
  run [] s w = fault blocked
  run (closed ∷ rest) s w = destroy_session s w >>= λ w'. ok (none, w')
  run (end_of_stream ∷ rest) s w = ok (some s, w)
  run (aborted is_open throws ∷ rest) s w = shutdown (is_open && throws) (some s, w)
  run (failed throws ∷ rest) s w = shutdown throws (some s, w)
  run (request r ∷ rest) s w = do
    (go_on, s', w') ← run_once handler library r s w
    let later = run rest s' w'
    if go_on then later else ok (some s', w')

  -- `RTSPListenerImpl::handle_session`.
  unfoldable pub handle_session : String → Dict String → List Reception → W → Outcome W
  unfolding build run destroy_session
  handle_session uuid path receptions w = do
    (left, w') ← run receptions (build uuid path) w
    elim left [ none ↦ fault use_after_free | some s ↦ destroy_session s w' ]

-- ===== src/Rtsp/Listener.antt =====
-- RTSPListener.cpp: the accepting of connections, and the threads that serve them. Each accepted
-- connection is served by a detached thread of its own; the threads share what the handlers share.
use rpi_cam.Base.{
  refl, false, true, Bool, ◌≡◌, ℕ, Option, none, some, List, [], ◌∷◌, ◌++◌, String, get_elem?, set,
  ◌&&◌, if◌then◌else◌,
}
use rpi_cam.Base.Dict.{Dict}
use rpi_cam.Base.Outcome.{Outcome, ok, fault, use_after_free, ◌>>=◌}
use rpi_cam.Rtsp.Session.{Handler, Library, Session, run_once}
use rpi_cam.Rtsp.Lifecycle.{
  Reception, closed, request, end_of_stream, aborted, failed, build, shutdown, destroy_session,
}

-- What the calls on the acceptor answer in the constructor: `open`, `set_option`, `bind`, `listen`.
pub record AcceptorCalls : Type 0 where
  pub opens : Bool
  pub sets_option : Bool
  pub binds : Bool
  pub listens : Bool

abbrev reported : Bool → String → List String
reported succeeds message = if succeeds then [] else message ∷ []

-- The constructor: the errors that it logs. That of `bind` is overwritten by that of `listen`.
unfoldable pub open_acceptor : AcceptorCalls → List String
open_acceptor c =
    reported c.opens "Failed to open RTSP acceptor"
    ++ reported c.sets_option "Failed to set option address reuse"
    ++ reported c.listens "Failed to listen RTSP acceptor"

-- A port that is taken is not reported, if `listen` then takes another one.
open_acceptor-binds :
    (c : AcceptorCalls)
    → c.opens ≡ true
    → c.sets_option ≡ true
    → c.listens ≡ true
    → open_acceptor (record c { binds = false }) ≡ []
unfolding open_acceptor
open_acceptor-binds c o s l = rw (o, s, l) refl

-- What happens at the listener: a connection is accepted under a new identifier, or not; or the
-- thread of the session number i reads from its socket.
pub data Event : Type 0 where
  accepted : Option String → Event
  received : ℕ → Reception → Event

-- What the handlers share, and the sessions that were accepted; `none` for one that has ended.
pub record Listener (H W : Type 0) : Type 0 where
  pub world : W
  pub sessions : List (Option (Session H))

module _ {H W : Type 0} (handler : Handler H W) (library : Library) where
  -- The end of `handle_session`: the session is destroyed.
  unfoldable pub end_session : Session H → W → Outcome (Option (Session H) × W)
  unfolding destroy_session
  end_session s w = destroy_session handler library s w >>= λ w'. ok (none, w')

  -- One round of `run`, with the end of `handle_session` if it is the last one.
  unfoldable pub session_round : Reception → Session H → W → Outcome (Option (Session H) × W)
  unfolding end_session destroy_session
  session_round closed s w = destroy_session handler library s w >>= λ w'. fault use_after_free
  session_round end_of_stream s w = end_session s w
  session_round (aborted is_open throws) s w =
      shutdown (is_open && throws) s >>= λ s'. end_session s' w
  session_round (failed throws) s w = shutdown throws s >>= λ s'. end_session s' w
  session_round (request r) s w = do
    (go_on, s', w') ← run_once handler library r s w
    let ends = end_session s' w'
    if go_on then ok (some s', w') else ends

  -- The thread of a session: `none` once it has ended.
  unfoldable pub session_thread : List Reception → Session H → W → Outcome (Option (Session H) × W)
  unfolding session_round
  session_thread [] s w = ok (some s, w)
  session_thread (r ∷ rest) s w = do
    (left, w') ← session_round r s w
    elim left [ none ↦ ok (none, w') | some s' ↦ session_thread rest s' w' ]

  -- `do_accept`, whose callback accepts again also after a failure, and the sessions.
  unfoldable pub serve : Dict String → Event → Listener H W → Outcome (Listener H W)
  unfolding session_round build
  serve path (accepted none) v = ok v
  serve path (accepted (some uuid)) v =
      ok (record v { sessions = v.sessions ++ some (build uuid path) ∷ [] })
  serve path (received i r) v = elim (get_elem? v.sessions i) [
    | none ↦ ok v
    | some none ↦ ok v
    | some (some s) ↦
        (session_round r s v.world >>= λ t.
        ok (record { world = t.1; sessions = set v.sessions i t.0 }))
  ]

  unfoldable pub serve_all : Dict String → List Event → Listener H W → Outcome (Listener H W)
  unfolding serve
  serve_all path [] v = ok v
  serve_all path (e ∷ events) v = serve path e v >>= serve_all path events

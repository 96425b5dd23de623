-- ===== src/Rtsp/Ending.antt =====
-- How a connection of the RTSP server ends.
use rpi_cam.Base.{arith, Bool, false, Option, List, [], ◌∷◌, String, ◌&&◌, ◌≡◌, ◌↔◌}
use rpi_cam.Base.Dict.{Dict}
use rpi_cam.Base.Outcome.{ok, >>=-eq-ok}
use rpi_cam.Rtsp.Session.{Request, Handler, Library, Session, read, run_once}
use rpi_cam.Rtsp.Requests.{run_once-read}
use rpi_cam.Rtsp.Lifecycle.{
  Reception, closed, request, end_of_stream, aborted, failed, build, destroy_session, run,
  handle_session,
}

-- The connections on which the client is gone before it has sent a request, and the socket is shut
-- down without an exception.
unfoldable pub Quits : List Reception → Type 0
Quits [] = ⊥
Quits (closed ∷ rest) = ⊥
Quits (request r ∷ rest) = ⊥
Quits (end_of_stream ∷ rest) = Unit
Quits (aborted is_open throws ∷ rest) = (is_open && throws) ≡ false
Quits (failed throws ∷ rest) = throws ≡ false

-- A round that has read a request never says whether the session goes on.
pub run_once-fails :
    {H W : Type 0} (handler : Handler H W) (library : Library) (r : Request) (s : Session H) (w : W)
    {t : Bool × Session H × W}
    → run_once handler library r s w ≡ ok t
    → ⊥
unfolding run_once
run_once-fails handler library r s w e =
    let ((res, s', w', ret), m, _) = >>=-eq-ok (read handler library r s w) _ e in
    let f = run_once-read handler library r s s' w w' res ret m in cc

run-fails :
    {H W : Type 0} (handler : Handler H W) (library : Library) (r : Request) (rest : List Reception)
    (s : Session H) (w : W) {t : Option (Session H) × W}
    → run handler library (request r ∷ rest) s w ≡ ok t
    → ⊥
unfolding run
run-fails handler library r rest s w e =
    let (t, m, _) = >>=-eq-ok (run_once handler library r s w) _ e in
    run_once-fails handler library r s w m

handle_session-fails :
    {H W : Type 0} (handler : Handler H W) (library : Library) (uuid : String) (path : Dict String)
    (r : Request) (rest : List Reception) (w w' : W)
    → handle_session handler library uuid path (request r ∷ rest) w ≡ ok w'
    → ⊥
unfolding handle_session
handle_session-fails handler library uuid path r rest w w' e =
    let (t, m, _) = >>=-eq-ok (run handler library (request r ∷ rest) (build uuid path) w) _ e in
    run-fails handler library r rest (build uuid path) w m

-- A connection is served without a fault exactly when the client is gone before its first
-- request, and then nothing that the handlers share has changed.
pub handle_session-ok :
    {H W : Type 0} (handler : Handler H W) (library : Library) (uuid : String) (path : Dict String)
    (receptions : List Reception) (w w' : W)
    → (handle_session handler library uuid path receptions w ≡ ok w')
      ↔ (Quits receptions × (w ≡ w'))
unfolding handle_session run destroy_session build Quits
handle_session-ok handler library uuid path [] w w' = ground arith
handle_session-ok handler library uuid path (closed ∷ rest) w w' = ground arith
handle_session-ok handler library uuid path (request r ∷ rest) w w' =
    (λ e. absurd (handle_session-fails handler library uuid path r rest w w' e), λ q. absurd q.0)
handle_session-ok handler library uuid path (end_of_stream ∷ rest) w w' = ground arith
handle_session-ok handler library uuid path (aborted is_open throws ∷ rest) w w' = ground arith
handle_session-ok handler library uuid path (failed throws ∷ rest) w w' = ground arith

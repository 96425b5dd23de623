-- ===== src/Rtsp/Crowd.antt =====
-- RTSPListener.cpp: the histories of connections that the server serves without a fault.
use rpi_cam.Base.{
  ℕ, Option, none, some, List, [], ◌∷◌, String, length, get_elem?, set, arith, ◌≡◌, ◌↔◌, refl, sym,
  ap, subst, ◌∙◌, All,
}
use rpi_cam.Base.Dict.{Dict}
use rpi_cam.Base.Outcome.{ok, ◌>>=◌, >>=-eq-ok, ok-injective}
use rpi_cam.Rtsp.Session.{Handler, Library, Session, run_once}
use rpi_cam.Rtsp.Lifecycle.{
  Reception, closed, request, end_of_stream, aborted, failed, destroy_session,
}
use rpi_cam.Rtsp.Listener.{
  Event, accepted, received, Listener, end_session, session_round, serve, serve_all,
}
use rpi_cam.Rtsp.Ending.{Quits, run_once-fails}
use rpi_cam.Rtsp.Quiet.{
  MayRead, MayHappen, ended_at, after_event, after_events, IsQuiet, connections, IsFresh, All-get,
  after_event-IsFresh, length-after_events,
}

module _ {H W : Type 0} (handler : Handler H W) (library : Library) where
  end_fresh :
      (s : Session H) (w : W) → s.handler ≡ none → end_session handler library s w ≡ ok (none, w)
  unfolding end_session destroy_session
  end_fresh s w f = ground (arith, f)

  -- A round of a session without a handler succeeds only if it is the end of the session.
  session_round-ok :
      (r : Reception) (s : Session H) (w : W) (t : Option (Session H) × W)
      → s.handler ≡ none
      → (session_round handler library r s w ≡ ok t) ↔ (Quits (r ∷ []) × (t ≡ (none, w)))
  unfolding session_round destroy_session Quits
  session_round-ok closed s w t f = ground (arith, f, end_fresh s w f)
  session_round-ok end_of_stream s w t f = ground (arith, f, end_fresh s w f)
  session_round-ok (aborted is_open throws) s w t f = ground (arith, f, end_fresh s w f)
  session_round-ok (failed throws) s w t f = ground (arith, f, end_fresh s w f)
  session_round-ok (request r) s w t f = (
    λ e.
        let (u, m, _) = >>=-eq-ok (run_once handler library r s w) _ e in
        absurd (run_once-fails handler library r s w m),
    λ q. absurd q.0,
  )

  received-ok :
      (path : Dict String) (i : ℕ) (r : Reception) (v v' : Listener H W)
      (t : Option (Option (Session H)))
      → get_elem? v.sessions i ≡ t
      → All IsFresh v.sessions
      → (serve handler library path (received i r) v ≡ ok v')
        ↔ (MayRead t r × (v' ≡ record { world = v.world; sessions = ended_at i t v.sessions }))
  unfolding serve
  received-ok path i r v v' none e a = ground (arith, e)
  received-ok path i r v v' (some none) e a = ground (arith, e)
  received-ok path i r v v' (some (some s)) e a =
      let fresh = All-get IsFresh v.sessions i (some s) a e in
      (
        λ h.
            let (t, m, f) =
              >>=-eq-ok (session_round handler library r s v.world) _ (rw (e, serve) at h) in
            let (q, n) = (session_round-ok r s v.world t fresh).0 m in
            (
              q,
              sym (ok-injective f)
                  ∙ ap (λ u. record { world = u.1; sessions = set v.sessions i u.0 }) n,
            ),
        λ q.
            rw (e, serve, (session_round-ok r s v.world (none, v.world) fresh).1 (q.0, refl), ◌>>=◌)
              (ap ok (sym q.1)),
      )

  -- What one event does to sessions without a handler.
  serve-ok :
      (path : Dict String) (e : Event) (v v' : Listener H W)
      → All IsFresh v.sessions
      → (serve handler library path e v ≡ ok v') ↔ (
          MayHappen e v.sessions
          × (v' ≡ record { world = v.world; sessions = after_event path e v.sessions }))
  unfolding serve
  serve-ok path (accepted none) v v' a = ground arith
  serve-ok path (accepted (some uuid)) v v' a = ground arith
  serve-ok path (received i r) v v' a = received-ok path i r v v' (get_elem? v.sessions i) refl a

  serve_all-IsQuiet :
      (path : Dict String) (events : List Event) (v v' : Listener H W)
      → All IsFresh v.sessions
      → (serve_all handler library path events v ≡ ok v') ↔ (
          IsQuiet path events v.sessions
          × (v' ≡ record { world = v.world; sessions = after_events path events v.sessions }))
  unfolding serve_all
  serve_all-IsQuiet path [] v v' a = ground arith
  serve_all-IsQuiet path (e ∷ events) v v' a =
      let next : Listener H W = record {
        world = v.world;
        sessions = after_event path e v.sessions;
      } in
      let ih = serve_all-IsQuiet path events next v' (after_event-IsFresh path e v.sessions a) in
      (
        λ h.
            let (v₁, m, rest) = >>=-eq-ok (serve handler library path e v) _ h in
            let (calm, same) = (serve-ok path e v v₁ a).0 m in
            let (quiet, last) =
              ih.0 (subst (λ x. serve_all handler library path events x ≡ ok v') same rest) in
            ((calm, quiet), last),
        λ q. rw ((serve-ok path e v next a).1 (q.0.0, refl), ◌>>=◌) (ih.1 (q.0.1, q.1)),
      )

  -- In any history of the listener from its start on, in any order of the accepted connections and
  -- of what their threads read: the server gets through without a fault exactly when no session that
  -- is still served reads a request, finds its socket closed or has a shutdown that throws; then the
  -- handlers share what they shared before, and there is one session for each accepted connection.
  pub serve_all-ok :
      (path : Dict String) (events : List Event) (w : W) (v' : Listener H W)
      → ((serve_all handler library path events (record { world = w; sessions = [] }) ≡ ok v') ↔ (
          IsQuiet {H = H} path events []
          × (v' ≡ record { world = w; sessions = after_events path events [] })))
        × (length (after_events {H = H} path events []) ≡ connections events)
  serve_all-ok path events w v' = (
    serve_all-IsQuiet path events (record { world = w; sessions = [] }) v' tt,
    let count = length-after_events {H = H} path events [] in omega (arith, count),
  )

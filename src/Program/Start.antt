-- ===== src/Program/Start.antt =====
-- What main.cpp leaves running.
use rpi_cam.Base.{
  ℕ, ◌+◌, ◌==◌, ◌≡◌, ◌≢◌, ◌⊎◌, inl, inr, refl, sym, ap, subst, arith, Option, none, some, List, [],
  ◌∷◌, String, length, length-append, Bool-cases,
}
use rpi_cam.Base.Dict.{find}
use rpi_cam.Base.Outcome.{Outcome, ok, >>=-eq-ok, ok-injective}
use rpi_cam.Config.Camera.{CameraConfig, set_file as set_camera}
use rpi_cam.Config.Server.{HttpConfig, set_file as set_http}
use rpi_cam.Config.Recording.{VideoConfig, set_file as set_video}
use rpi_cam.Config.Program.{get_config}
use rpi_cam.VideoQueue.History.{run, IsValid, run-IsValid}
use rpi_cam.Event.Handler.{EventHandler, Disk, start_event, init as init_events}
use rpi_cam.Rtsp.Live.{Multicast, start_video}
use rpi_cam.Rtsp.Startup.{start_video-live}
use rpi_cam.Program.{
  ProgramConfig, Machine, Program, get_singleton, no_configs, read_configs, start_http, launch,
  main,
}

-- A getter that has returned has set its member, also when the reading failed.
get_config-known :
    {C : Type 0} (read : C → Outcome (ℕ × C)) (fresh : C) (member : Option C)
    (r : Option C × Option C)
    → get_config read fresh member ≡ ok r
    → (c : C) × (r.1 ≡ some c)
unfolding get_config
get_config-known read fresh (some c) r h = (c, ap (λ x. x.1) (sym (ok-injective h)))
get_config-known read fresh none r h =
    let ((code, c), e, f) = >>=-eq-ok (read fresh) _ h in (c, ap (λ x. x.1) (sym (ok-injective f)))

-- The getters answer objects.
abbrev pub AreRead : Machine → ProgramConfig → Type 0
AreRead m c =
    ((h : HttpConfig) × (get_config (set_http m.json) m.new_http c.http_config
        ≡ ok (some h, some h)))
    × ((v : VideoConfig) × (get_config (set_video m.json) m.new_video c.video_config
          ≡ ok (some v, some v)))
    × ((k : CameraConfig) × (get_config (set_camera m.formats m.json) m.new_camera c.camera_config
          ≡ ok (some k, some k)))

-- Once main has called the getters of the three configurations and they have returned, each of them
-- answers an object and no null pointer, whatever the file held and whatever it holds by then.
pub read_configs-AreRead :
    (m m' : Machine) (c c' : ProgramConfig) → read_configs m c ≡ ok c' → AreRead m' c'
unfolding read_configs get_config
read_configs-AreRead m m' c c' e =
    let (r, e₁, f) = >>=-eq-ok (get_config (set_http m.json) m.new_http c.http_config) _ e in
    let (s, e₂, g) = >>=-eq-ok (get_config (set_video m.json) m.new_video c.video_config) _ f in
    let (t, e₃, i) =
      >>=-eq-ok (get_config (set_camera m.formats m.json) m.new_camera c.camera_config) _ g in
    let (h, k) = get_config-known (set_http m.json) m.new_http c.http_config r e₁ in
    let (v, l) = get_config-known (set_video m.json) m.new_video c.video_config s e₂ in
    let (o, n) = get_config-known (set_camera m.formats m.json) m.new_camera c.camera_config t e₃ in
    subst (AreRead m') (ok-injective i) (
      (h, ap (get_config (set_http m'.json) m'.new_http) k),
      (v, ap (get_config (set_video m'.json) m'.new_video) l),
      (o, ap (get_config (set_camera m'.formats m'.json) m'.new_camera) n),
    )

-- Each program of the directory has an entry, and its thread was started.
init-threads :
    (disk : Disk) (names : List String) (h : EventHandler)
    → (length (init_events disk names h).0.threads ≡ length h.threads + length names)
unfolding init_events start_event
init-threads disk [] h = omega arith
init-threads disk (name ∷ names) h =
    let next = (start_event disk name h).1 in
    omega (arith, init-threads disk names next, length-append h.threads (length h.objects ∷ []))

-- What main has left when it accepts connections.
pub record IsLaunched (m : Machine) (p p' : Program) : Type 0 where
  pub valid : IsValid p'.queue
  pub live : (r : ℕ) × (find "live" p'.queue.thread_info ≡ some r)
  pub threads : length p'.events.threads ≡ length p.events.threads + length m.programs
  pub stream : (s : Multicast) × (p'.stream ≡ some s)
  pub config : (c : ProgramConfig) × (p'.config ≡ some c) × AreRead m c

launch-IsLaunched :
    (m : Machine) (p p' : Program) (code : Option ℕ)
    → IsValid p.queue
    → launch m p ≡ ok (code, p')
    → (code ≡ none) × IsLaunched m p p'
unfolding launch
launch-IsLaunched m p p' code v e =
    let (config, read, e₁) = >>=-eq-ok (read_configs m (get_singleton no_configs p.config).0) _ e in
    let (http, _, e₂) = >>=-eq-ok (start_http m config) _ e₁ in
    let (queue, r, e₃) = >>=-eq-ok (run m.before p.queue) _ e₂ in
    let ((stream, queue'), s, e₄) =
      >>=-eq-ok (start_video m.env m.env' m.during p.stream queue) _ e₃ in
    let (v', live) =
      start_video-live m.env m.env' m.during p.stream stream queue queue'
        (run-IsValid m.before p.queue queue v r) s in
    let same = ok-injective e₄ in
    (
      ap (λ x. x.0) (sym same),
      subst (λ x. IsLaunched m p x.1) same
          (record {
            valid = v';
            live = live;
            threads = init-threads m.disk m.programs p.events;
            stream = (stream, refl);
            config = (config, refl, read_configs-AreRead m m _ config read);
          }),
    )

-- main that returns 1 without a start was not called with one argument and changes nothing; called
-- with one argument, and getting that far, it accepts connections, with a valid video queue that
-- knows the event of the live stream, one more thread for each program in the directory, and
-- configurations whose getters answer objects, whatever the file holds.
pub main-cases :
    (m : Machine) (argv : List String) (p p' : Program) (code : Option ℕ)
    → IsValid p.queue
    → main m argv p ≡ ok (code, p')
    → ((length argv ≢ 2) × (code ≡ some 1) × (p' ≡ p))
      ⊎ ((length argv ≡ 2) × (code ≡ none) × IsLaunched m p p')
unfolding main
main-cases m argv p p' code v e = elim (Bool-cases (length argv == 2)) [
  | inl two ↦
      let (c, l) = launch-IsLaunched m p p' code v (rw two at e) in inr (ground (arith, two), c, l)
  | inr other ↦
      let same = ok-injective (rw other at e) in
      inl (ground (arith, other), ap (λ x. x.0) (sym same), ap (λ x. x.1) (sym same))
]

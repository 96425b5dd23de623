-- ===== src/Event/Served.antt =====
-- From the files of an upload to the frames of its event: EventProcessor.cpp over VideoQueue.cpp.
use rpi_cam.Base.{
  Option, ℕ, ◌<◌, ◌≤◌, ◌≡◌, ◌≢◌, refl, ap, ◌∙◌, arith, true, false, none, some, List, [], ◌∷◌, ◌++◌,
  String, str_eq, length, All,
}
use rpi_cam.Base.Int.{pos}
use rpi_cam.Base.Dict.{Dict, find, HasDistinctKeys}
use rpi_cam.Base.Text.{stoi, number}
use rpi_cam.Base.Outcome.{ok, deref, ◌>>=◌}
use rpi_cam.VideoQueue.{VideoQueue, VideoBuffer, ThreadInfo, update, insert_event}
use rpi_cam.VideoQueue.Registry.{insert_event-Inserted}
use rpi_cam.VideoQueue.Distribution.{IsWhole}
use rpi_cam.VideoQueue.Delivery.{distribute_turns}
use rpi_cam.VideoQueue.Service.{AreApart, event_rate}
use rpi_cam.Event.Processor.{
  EventProcessor, EventFunction, Loader, construct, event_init, open_program, link, so_path,
  read_directory, uploaded_files, is_positive, read_directory-uploaded_files,
}
use rpi_cam.Event.Loop.{event_start}

-- A write through a pointer that no entry holds.
apart_of :
    (d : Dict ℕ) (infos : ℕ → ThreadInfo) (p : ℕ) (info : ThreadInfo)
    → All (λ e. ((infos e.1).fps ≢ 0) × (p ≢ e.1)) d
    → All (λ e. ((update infos p info e.1).fps ≢ 0) × (p ≢ e.1)) d
apart_of [] infos p info a = tt
apart_of ((k, r) ∷ d) infos p info ((nz, ne), a) =
    ((λ z. nz (ground (arith, z, ne)), ne), apart_of d infos p info a)

-- The fields that the loader leaves alone.
open_program-fields :
    (symbols : Option (String → Option EventFunction)) (e : EventProcessor)
    → ((open_program symbols e).1.event_name ≡ e.event_name)
      × ((open_program symbols e).1.fps ≡ e.fps)
      × ((open_program symbols e).1.enable ≡ e.enable)
open_program-fields none e = (refl, refl, refl)
open_program-fields (some symbols) e = linked (symbols "event_main")
  where
    linked :
        (f : Option EventFunction)
        → ((link f e).1.event_name ≡ e.event_name)
          × ((link f e).1.fps ≡ e.fps)
          × ((link f e).1.enable ≡ e.enable)
    linked none = (refl, refl, refl)
    linked (some f) = (refl, refl, refl)

-- The object that `start_event` makes for an uploaded program, loaded or not.
construct-fields :
    (dlopen : Loader) (name fps : String) (n : ℕ)
    → str_eq name "enable" ≡ false
    → is_positive name ≡ false
    → str_eq fps "enable" ≡ false
    → stoi fps ≡ number (pos n)
    → let e = construct dlopen (uploaded_files name fps) name in
      (e.event_name ≡ name) × (e.fps ≡ some (pos n)) × (e.enable ≡ some true)
unfolding construct event_init
construct-fields dlopen name fps n ne np fe is_n =
    let blank : EventProcessor = record {
      event_name = name;
      fps = none;
      enable = none;
      event_program = none;
    } in
    let read = read_directory-uploaded_files name fps n blank ne np fe is_n in
    let e₀ = read_directory (uploaded_files name fps) blank in
    let (en, ef, ee) = open_program-fields (dlopen (so_path e₀.event_name)) e₀ in
    (en ∙ ap (λ e. e.event_name) read, ef ∙ ap (λ e. e.fps) read, ee ∙ ap (λ e. e.enable) read)

-- The thread of an object with a rate.
event_start-registers :
    (e : EventProcessor) (name : String) (f p : ℕ) (q q₁ : VideoQueue)
    → e.event_name ≡ name
    → e.fps ≡ some (pos f)
    → e.enable ≡ some true
    → insert_event name p
        (record q { infos = update q.infos p (record { is_run = true; fps = f }) })
      ≡ ok (0, q₁)
    → event_start e p q ≡ ok q₁
unfolding event_start
event_start-registers e name f p q q₁ en ef ee i = rw (ef, ee, deref, ◌>>=◌, en, i) refl

-- A program that was uploaded with a rate of f frames a second, at most that of the camera, under a
-- name that reads neither as a rate nor as enable: if the name is free, the thread that its start
-- creates registers it, whether the program loads or not, and of the next second of whole frames
-- its queue gets at least f, all turns succeeding.
pub construct-rate :
    (dlopen : Loader) (name fps : String) (f p : ℕ) (q : VideoQueue) (times : List ℕ)
    (bs rest : List VideoBuffer)
    → str_eq name "enable" ≡ false
    → is_positive name ≡ false
    → str_eq fps "enable" ≡ false
    → stoi fps ≡ number (pos f)
    → 0 < f
    → f ≤ q.device_fps
    → find name q.thread_info ≡ none
    → find name q.output ≡ none
    → HasDistinctKeys q.thread_info
    → AreApart q p
    → q.q_enable ≡ true
    → q.input ≡ bs ++ rest
    → length bs ≡ q.device_fps
    → length times ≡ q.device_fps
    → q.current_frame_no ≤ q.device_fps
    → All IsWhole bs
    → (q₁ q₂ : VideoQueue) × (frames : List VideoBuffer) × (event_start
          (construct dlopen (uploaded_files name fps) name)
          p
          q
        ≡ ok q₁)
      × (distribute_turns times q₁ ≡ ok q₂)
      × (find name q₂.output ≡ some frames)
      × (f ≤ length frames)
construct-rate dlopen name fps f p q times bs rest ne np fe is_f pos_f le hi ho dk apart on i lb lt
      cn w =
    let info : ThreadInfo = record { is_run = true; fps = f } in
    let q₀ : VideoQueue = record q { infos = update q.infos p info } in
    let rate : (q₀.infos p).fps ≡ f = ground arith in
    let (q₁, inserted, s) = insert_event-Inserted name p q₀ hi ho (omega (arith, rate)) in
    let (q₂, frames, run, found, count, enough) =
      event_rate name p q₀ q₁ times bs rest hi ho dk (apart_of q.thread_info q.infos p info apart)
        (omega (arith, rate)) (omega (arith, rate)) inserted on i lb lt cn w in
    let (en, ef, ee) = construct-fields dlopen name fps f ne np fe is_f in
    let e = construct dlopen (uploaded_files name fps) name in
    (
      q₁,
      q₂,
      frames,
      event_start-registers e name f p q q₁ en ef ee inserted,
      run,
      found,
      omega (arith, rate, enough),
    )

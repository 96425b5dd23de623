-- ===== src/Camera.antt =====
-- rpi_cam_app/src/camera_device/CameraInitializer.cpp: the set-up of the camera and the capture
-- loop. What the kernel answers to the calls is a parameter.
pub mod Frames
pub mod Tests
use rpi_cam.Base.{
  ◌==◌, ℕ, suc, zero, ◌+◌, Bool, true, false, Option, none, some, List, [], ◌∷◌, ◌++◌, String, ltb,
  if◌then◌else◌, length, leb,
}
use rpi_cam.Config.Camera.{VideoMeta}
use rpi_cam.Base.Outcome.{Outcome, ok, fault, uninitialised, out_of_bounds, ◌>>=◌}
use rpi_cam.VideoQueue.{VideoQueue, VideoBuffer, push}

-- What the kernel answers during `init`: each call of `ioctl` in turn, the number of buffers that
-- it grants, the queries of the buffers, and the size of each mapping, `none` if `mmap` fails.
pub record Device : Type 0 where
  pub opens : Bool
  pub queries : Bool
  pub sets_format : Bool
  pub sets_rate : Bool
  pub grants : Option ℕ
  pub buffer_queries : ℕ → Bool
  pub mmaps : ℕ → Option ℕ

abbrev pub n_cam_buf : ℕ
n_cam_buf = 8

-- An entry of `_camera_buffers`: never set, `MAP_FAILED`, or a mapping of so many bytes.
pub data CameraBuffer : Type 0 where
  unset map_failed : CameraBuffer
  mapped : ℕ → CameraBuffer

-- The state of the capture: the entries of `_camera_buffers`, the buffers that the driver holds,
-- whether it streams, and the queue that takes the frames.
pub record Capture : Type 0 where
  pub camera_buffers : ℕ → CameraBuffer
  pub queued : List ℕ
  pub streaming : Bool
  pub queue : VideoQueue

-- `CameraInitializer::set_v4l2_format`; missing capabilities are logged only.
unfoldable pub set_v4l2_format : Device → ℕ
set_v4l2_format d =
    if d.opens
    then if d.queries then if d.sets_format then if d.sets_rate then 0 else 5 else 4 else 2
    else 1

-- What `mmap` answers, which is not checked.
abbrev pub mapping : Option ℕ → CameraBuffer
mapping none = map_failed
mapping (some size) = mapped size

abbrev pub set_buffer : (ℕ → CameraBuffer) → ℕ → CameraBuffer → ℕ → CameraBuffer
set_buffer buffers i b j = if i == j then b else buffers j

abbrev pub map_buffer : Device → ℕ → Capture → Capture
map_buffer d i s = record s { camera_buffers = set_buffer s.camera_buffers i (mapping (d.mmaps i)) }

-- The loop over the buffers from `i` on, `n` of them.
unfoldable pub map_buffers : Device → ℕ → ℕ → Capture → ℕ × Capture
map_buffers d i zero s = (0, s)
map_buffers d i (suc n) s =
    let rest = map_buffers d (i + 1) n (map_buffer d i s) in
    if d.buffer_queries i then rest else (3, s)

abbrev pub map_granted : Device → Option ℕ → Capture → ℕ × Capture
map_granted d none s = (1, s)
map_granted d (some count) s = if ltb n_cam_buf count then (2, s) else map_buffers d 0 n_cam_buf s

-- `CameraInitializer::set_v4l2_buffer`: all buffers are mapped, also if fewer were granted.
unfoldable pub set_v4l2_buffer : Device → Capture → ℕ × Capture
unfolding map_buffers
set_v4l2_buffer d s = map_granted d d.grants s

-- `CameraInitializer::queue_v4l2_buffer`: the driver may refuse the buffer, which is logged only.
unfoldable pub queue_v4l2_buffer : Bool → ℕ → Capture → Capture
queue_v4l2_buffer accepted index s =
    if accepted then record s { queued = s.queued ++ index ∷ [] } else s

abbrev pub queue_all : (ℕ → Bool) → ℕ → ℕ → Capture → Capture
queue_all accepted i zero s = s
queue_all accepted i (suc n) s = queue_all accepted (i + 1) n (queue_v4l2_buffer (accepted i) i s)

abbrev pub queue_mapped : (ℕ → Bool) → ℕ × Capture → ℕ × Capture
queue_mapped accepted (zero, s) = (0, queue_all accepted 0 n_cam_buf s)
queue_mapped accepted (suc code, s) = (suc code, s)

-- `CameraInitializer::init`
unfoldable pub init : Device → (ℕ → Bool) → Capture → ℕ × Capture
unfolding set_v4l2_format set_v4l2_buffer queue_v4l2_buffer
init d accepted s = elim (set_v4l2_format d) [
  | zero ↦ queue_mapped accepted (set_v4l2_buffer d s)
  | suc code ↦ (suc code, s)
]

-- What one wait for a frame ends with.
pub data Readiness : Type 0 where
  failed timeout ready : Readiness

-- The kernel's answers in one round: the buffer taken from the driver with its bytes, the time, and
-- whether the driver takes the buffer back.
pub record Round : Type 0 where
  pub readiness : Readiness
  pub dequeued : Option (ℕ × List ℕ)
  pub now : ℕ
  pub accepted : Bool
  pub stops : Bool

abbrev pub without : ℕ → List ℕ → List ℕ
without i [] = []
without i (j ∷ js) = if i == j then js else j ∷ without i js

-- A read of so many bytes from an entry of `_camera_buffers`.
abbrev pub read_buffer : CameraBuffer → ℕ → Outcome (Unit {0})
read_buffer unset size = fault uninitialised
read_buffer map_failed size = fault out_of_bounds
read_buffer (mapped n) size = if leb size n then ok tt else fault out_of_bounds

-- The `memcpy` from the buffer of an index; the kernel may name any.
abbrev pub copy_mapped : (ℕ → CameraBuffer) → ℕ → ℕ → Outcome (Unit {0})
copy_mapped buffers index size =
    if ltb index n_cam_buf then read_buffer (buffers index) size else fault out_of_bounds

-- `CameraInitializer::deque_v4l2_buffer`: a copy of the bytes with the time and the metadata.
unfoldable pub deque_v4l2_buffer :
    VideoMeta → Round → Capture → Outcome (Option (ℕ × VideoBuffer) × Capture)
deque_v4l2_buffer metadata r s = elim r.dequeued [
  | none ↦ ok (none, s)
  | some (index, bytes) ↦
      (copy_mapped s.camera_buffers index (length bytes) >>= λ u. ok (
        some (
          index,
          record { metadata = metadata; timestamp = r.now; buffer = bytes; size = length bytes },
        ),
        record s { queued = without index s.queued },
      ))
]

-- `CameraInitializer::stop`
unfoldable pub stop : Bool → Capture → ℕ × Capture
stop stops s = if stops then (0, record s { streaming = false }) else (1, s)

-- The rest of a round, after the buffer was taken.
abbrev pub hand_over : Round → Option (ℕ × VideoBuffer) × Capture → Option ℕ × Capture
hand_over r (none, s) = (some 0, (stop r.stops s).1)
hand_over r (some (index, buffer), s) =
    (none, queue_v4l2_buffer r.accepted index (record s { queue = (push buffer s.queue).1 }))

-- One round of `loop`: the code that it returns, or `none` to go on. A failed wait goes on.
unfoldable pub capture_round : VideoMeta → Round → Capture → Outcome (Option ℕ × Capture)
unfolding deque_v4l2_buffer queue_v4l2_buffer stop push
capture_round metadata r s = elim r.readiness [
  | timeout ↦ ok (some 1, s)
  | failed ↦ (deque_v4l2_buffer metadata r s >>= λ d. ok (hand_over r d))
  | ready ↦ (deque_v4l2_buffer metadata r s >>= λ d. ok (hand_over r d))
]

-- `CameraInitializer::loop`, over the kernel's answers; `none` while it runs.
unfoldable pub loop : VideoMeta → List Round → Capture → Outcome (Option ℕ × Capture)
unfolding capture_round
loop metadata [] s = ok (none, s)
loop metadata (r ∷ rounds) s = capture_round metadata r s >>= λ t. elim t.0 [
  | none ↦ loop metadata rounds t.1
  | some n ↦ ok (some n, t.1)
]

-- `CameraInitializer::start`; the first argument says whether the stream is switched on.
unfoldable pub start : Bool → VideoMeta → List Round → Capture → Outcome (Option ℕ × Capture)
unfolding loop
start streams metadata rounds s =
    if streams then loop metadata rounds (record s { streaming = true }) else ok (some 1, s)

-- ===== src/Rtsp/Feed.antt =====
-- The callbacks that feed the frames of the queue to the pipelines of the multicast stream:
-- `sdp_need_data` of MulticastStreamV4L2MakeSdp.cpp and `play_need_data` of
-- MulticastStreamV4L2SetStream.cpp. A frame that was allocated is not the null pointer.
use rpi_cam.Base.{
  ◌&&◌, ℕ, ◌+◌, ◌*◌, ◌/◌, ◌%◌, ◌^◌, Bool, List, if◌then◌else◌, length, take, ltb, leb,
}
use rpi_cam.Base.Outcome.{Outcome, ok, fault, out_of_bounds, use_after_free, overflow, ◌>>=◌}
use rpi_cam.VideoQueue.{VideoQueue, VideoBuffer, Popped, null, waits, frame, pop}

-- The answers of GStreamer to one call.
pub record FeedEnv : Type 0 where
  pub is_app_src : Bool
  pub allocates : Bool
  pub maps : Bool
  pub pushes : Bool

-- `gst_util_uint64_scale(1, GST_SECOND, 30)`
unfoldable pub frame_duration : ℕ
frame_duration = 1000000000 / 30

-- `frame_duration * cnt` in 64 bits.
unfoldable pub timestamp_of : ℕ → ℕ
unfolding frame_duration
timestamp_of cnt = (frame_duration * cnt) % 2 ^ 64

-- What a callback does: it pushes a time and the bytes, it pushes nothing, or it waits in `pop`.
pub data Fed : Type 0 where
  nothing waiting : Fed
  pushed : ℕ → List ℕ → Fed

-- The `int` that counts the frames.
abbrev pub next_count : ℕ → Outcome ℕ
next_count cnt = if ltb (cnt + 1) (2 ^ 31) then ok (cnt + 1) else fault overflow

-- The bytes that are copied into the new buffer; the size is a `guint`.
abbrev pub copied_bytes : VideoBuffer → Outcome (List ℕ)
copied_bytes b =
    if leb (b.size % 2 ^ 32) (length b.buffer)
    then ok (take (b.size % 2 ^ 32) b.buffer)
    else fault out_of_bounds

-- A push that worked is counted.
abbrev pub count_push : ℕ → List ℕ → Outcome (Fed × ℕ)
count_push cnt bytes = next_count cnt >>= λ cnt'. ok (pushed (timestamp_of cnt) bytes, cnt')

-- `sdp_need_data` on what `pop` has answered.
unfoldable pub sdp_feed : FeedEnv → Popped → ℕ → Outcome (Fed × ℕ)
unfolding timestamp_of
sdp_feed env null cnt = ok (nothing, cnt)
sdp_feed env waits cnt = ok (waiting, cnt)
sdp_feed env (frame b) cnt =
    if env.allocates && env.maps
    then (copied_bytes b >>= λ bytes.
        if env.pushes then count_push cnt bytes else ok (nothing, cnt))
    else ok (nothing, cnt)

-- `play_need_data` on what `pop` has answered. A push that failed has released the buffer, which is
-- then released again.
unfoldable pub play_feed : FeedEnv → Popped → ℕ → Outcome (Fed × ℕ)
unfolding timestamp_of
play_feed env null cnt = ok (nothing, cnt)
play_feed env waits cnt = ok (waiting, cnt)
play_feed env (frame b) cnt =
    if env.allocates && env.maps
    then (copied_bytes b >>= λ bytes.
        if env.pushes then count_push cnt bytes else fault use_after_free)
    else ok (nothing, cnt)

-- The callbacks, which take no frame for an invalid element.
unfoldable pub sdp_need_data : FeedEnv → VideoQueue → ℕ → Outcome (Fed × ℕ × VideoQueue)
unfolding sdp_feed pop
sdp_need_data env q cnt =
    if env.is_app_src
    then (pop "sdp" q >>= λ r. sdp_feed env r.0 cnt >>= λ fed. ok (fed.0, fed.1, r.1))
    else ok (nothing, cnt, q)

unfoldable pub play_need_data : FeedEnv → VideoQueue → ℕ → Outcome (Fed × ℕ × VideoQueue)
unfolding play_feed pop
play_need_data env q cnt =
    if env.is_app_src
    then (pop "live" q >>= λ r. play_feed env r.0 cnt >>= λ fed. ok (fed.0, fed.1, r.1))
    else ok (nothing, cnt, q)

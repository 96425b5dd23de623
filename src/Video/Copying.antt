-- ===== src/Video/Copying.antt =====
-- GstreamerCallbacks.cpp: the thread of `need_data`, which copies the frames of a medium's queue to
-- its pipeline. A frame that was allocated is not the null pointer.
use rpi_cam.Base.{ℕ, ◌+◌, ◌%◌, ◌^◌, Bool, true, false, List, [], ◌∷◌, if◌then◌else◌, ◌&&◌}
use rpi_cam.Base.Outcome.{Outcome, ok, ◌>>=◌}
use rpi_cam.VideoQueue.{Popped, null, waits, frame}
use rpi_cam.Rtsp.Feed.{Fed, nothing, waiting, pushed, timestamp_of, copied_bytes}

-- The answers of GStreamer in one round; `plays` is the change of state before the push.
pub record CopyEnv : Type 0 where
  pub is_app_src : Bool
  pub allocates : Bool
  pub maps : Bool
  pub plays : Bool
  pub pushes : Bool

-- A round on what `pop` has answered.
unfoldable pub copy_popped : CopyEnv → Popped → ℕ → Outcome (Bool × Fed × ℕ)
unfolding timestamp_of
copy_popped env null cnt = ok (false, nothing, cnt)
copy_popped env waits cnt = ok (false, waiting, cnt)
copy_popped env (frame b) cnt =
    if env.allocates && env.maps
    then (copied_bytes b >>= λ bytes.
        if env.plays && env.pushes
        then ok (true, pushed (timestamp_of cnt) bytes, (cnt + 1) % 2 ^ 64)
        else ok (true, nothing, cnt))
    else ok (false, nothing, cnt)

-- One round: does the loop go on, what is pushed, and the count of 64 bits.
unfoldable pub copy_round : CopyEnv → Popped → ℕ → Outcome (Bool × Fed × ℕ)
unfolding copy_popped
copy_round env popped cnt =
    if env.is_app_src then copy_popped env popped cnt else ok (false, nothing, cnt)

-- The loop, over what `pop` answers; what it has pushed, and the count.
unfoldable pub copy_loop : List (CopyEnv × Popped) → ℕ → Outcome (List Fed × ℕ)
unfolding copy_round
copy_loop [] cnt = ok ([], cnt)
copy_loop ((env, popped) ∷ rounds) cnt = copy_round env popped cnt >>= λ r.
    if r.0
    then (copy_loop rounds r.2 >>= λ later. ok (r.1 ∷ later.0, later.1))
    else ok (r.1 ∷ [], r.2)

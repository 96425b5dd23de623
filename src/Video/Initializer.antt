-- ===== src/Video/Initializer.antt =====
-- VideoInitializer.cpp: the thread that removes old recordings. What the other part of `start`
-- does is `start_video` of the RTSP server.
use rpi_cam.Base.{
  if◌then◌else◌, Bool, true, false, Option, none, some, List, [], ◌∷◌, ◌++◌, String, ◌≡◌, refl,
}
use rpi_cam.Base.Int.{ℤ}
use rpi_cam.Base.Outcome.{Outcome, ok, fault, uninitialised, uncaught, deref, ◌>>=◌}
use rpi_cam.Video.Clips.{remove_video}

-- `_remove_enable`, and `_remove_thread`: `none` before it is made, else whether it can be joined.
pub record Initializer : Type 0 where
  pub remove_enable : Bool
  pub remove_thread : Option Bool

unfoldable pub construct : Initializer
construct = record { remove_enable = false; remove_thread = none }

-- `start`: the thread is detached at once.
unfoldable pub start_remove : Initializer → Initializer
start_remove i = record { remove_enable = true; remove_thread = some false }

-- The thread: for each round in which it is enabled, the time, what the removals answer and the
-- directory it finds. The paths removed.
unfoldable pub remove_loop :
    ℤ → String → List (ℤ × (String → Bool) × List (String × Bool)) → Outcome (List String)
unfolding remove_video
remove_loop maintain_time path [] = ok []
remove_loop maintain_time path ((now, removes, entries) ∷ rounds) = do
  (code, files) ← remove_video removes now maintain_time path entries
  later ← remove_loop maintain_time path rounds
  ok (files ++ later)

-- `stop`: the join of a detached thread throws.
unfoldable pub stop_remove : Initializer → Outcome Initializer
stop_remove i = do
  joinable ← deref uninitialised i.remove_thread
  if joinable then ok (record { remove_enable = false; remove_thread = none }) else fault uncaught

-- A `stop` after a `start` throws.
stop_remove-start_remove : (i : Initializer) → stop_remove (start_remove i) ≡ fault uncaught
unfolding stop_remove start_remove
stop_remove-start_remove i = refl

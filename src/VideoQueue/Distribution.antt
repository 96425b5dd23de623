-- ===== src/VideoQueue/Distribution.antt =====
-- The loop of `distribute_buffer` over the events: what one frame does to each queue.
use rpi_cam.Base.{
  ℕ, ◌%◌, ◌≤◌, ◌≡◌, refl, ◌≢◌, Bool, Option, none, some, List, [], ◌∷◌, ◌++◌, String, arith, str_eq,
  eq_iff, if◌then◌else◌, ◌==◌, length, take, Option-cases, inl, inr, All,
}
use rpi_cam.Base.Dict.{Dict, find, find-assign, HasDistinctKeys, assign-HasDistinctKeys}
use rpi_cam.Base.Outcome.{ok, fault, div_by_zero, >>=-eq-ok}
use rpi_cam.VideoQueue.{VideoBuffer, ThreadInfo, copy_buffer, enqueue, deliver, distribute_to}

-- A frame as the camera makes it: the allocation has the stated length.
abbrev pub IsWhole : VideoBuffer → Type 0
IsWhole b = b.size ≤ length b.buffer

-- The copy of a whole frame at time `now`.
abbrev pub copied : ℕ → VideoBuffer → VideoBuffer
copied now b = record b { buffer = take b.size b.buffer; timestamp = now }

-- Frame `n` is due for an event with this divisor.
abbrev pub is_due : ℕ → ThreadInfo → Bool
is_due n info = n % info.fps == 0

-- What a queue holds after frame `n`: its event, if there is one, gets a copy when it is due.
abbrev pub after_frame :
    (ℕ → ThreadInfo)
    → ℕ
    → VideoBuffer
    → Option ℕ
    → Option (List VideoBuffer)
    → Option (List VideoBuffer)
after_frame infos n copy none queue = queue
after_frame infos n copy (some p) none = none
after_frame infos n copy (some p) (some frames) =
    some (if is_due n (infos p) then frames ++ copy ∷ [] else frames)

find-enqueue :
    (name j : String) (b : VideoBuffer) (output : Dict (List VideoBuffer))
    → find j (enqueue name b output) ≡ (
        if str_eq name j
        then (elim (find name output) [ none ↦ none | some frames ↦ some (frames ++ b ∷ []) ])
        else find j output)
unfolding enqueue
find-enqueue name j b output = elim (Option-cases (find name output)) [
  | inl e ↦ rw (e, enqueue) (ground (arith, eq_iff name j))
  | inr (frames, e) ↦ rw (e, enqueue) (find-assign name j (frames ++ b ∷ []) frames output e)
]

pub enqueue-HasDistinctKeys :
    (name : String) (b : VideoBuffer) (output : Dict (List VideoBuffer))
    → HasDistinctKeys output
    → HasDistinctKeys (enqueue name b output)
unfolding enqueue
enqueue-HasDistinctKeys name b output h = elim (Option-cases (find name output)) [
  | inl e ↦ rw (e, enqueue) h
  | inr (frames, e) ↦ rw (e, enqueue) (assign-HasDistinctKeys name (frames ++ b ∷ []) output h)
]

module _ (infos : ℕ → ThreadInfo) (n now : ℕ) (b : VideoBuffer) where
  -- One round touches the queue of its event alone.
  find-deliver :
      (name : String) (p : ℕ) (output out : Dict (List VideoBuffer)) (j : String)
      → deliver infos n now b name p output ≡ ok out
      → find j out ≡ (
          if str_eq name j
          then after_frame infos n (copied now b) (some p) (find j output)
          else find j output)
  unfolding deliver copy_buffer
  find-deliver name p output out j h =
      ground (arith, eq_iff name j, find-enqueue name j (copied now b) output)

  deliver-HasDistinctKeys :
      (name : String) (p : ℕ) (output out : Dict (List VideoBuffer))
      → deliver infos n now b name p output ≡ ok out
      → HasDistinctKeys output
      → HasDistinctKeys out
  unfolding deliver copy_buffer
  deliver-HasDistinctKeys name p output out h d =
      ground (arith, enqueue-HasDistinctKeys name (copied now b) output d)

  pub distribute_to-HasDistinctKeys :
      (events : Dict ℕ) (output out : Dict (List VideoBuffer))
      → distribute_to infos n now b events output ≡ ok out
      → HasDistinctKeys output
      → HasDistinctKeys out
  unfolding distribute_to
  distribute_to-HasDistinctKeys [] output out h d = ground arith
  distribute_to-HasDistinctKeys ((name, p) ∷ events) output out h d =
      let (mid, e, f) = >>=-eq-ok _ _ h in
      distribute_to-HasDistinctKeys events mid out f (deliver-HasDistinctKeys name p output mid e d)

  -- A successful loop leaves every queue as `after_frame` says.
  pub find-distribute_to :
      (events : Dict ℕ) (output out : Dict (List VideoBuffer)) (j : String)
      → HasDistinctKeys events
      → distribute_to infos n now b events output ≡ ok out
      → find j out ≡ after_frame infos n (copied now b) (find j events) (find j output)
  unfolding distribute_to find
  find-distribute_to [] output out j d h = ground arith
  find-distribute_to ((name, p) ∷ events) output out j (fresh, d) h =
      let (mid, e, f) = >>=-eq-ok _ _ h in
      let later = find-distribute_to events mid out j d f in
      let here = find-deliver name p output mid j e in ground (arith, eq_iff name j)

  -- With a divisor for every event and a whole frame the loop does not fail.
  pub distribute_to_total :
      (events : Dict ℕ) (output : Dict (List VideoBuffer))
      → IsWhole b
      → All (λ e. (infos e.1).fps ≢ 0) events
      → (out : Dict (List VideoBuffer)) × (distribute_to infos n now b events output ≡ ok out)
  unfolding distribute_to deliver copy_buffer
  distribute_to_total [] output w h = (output, refl)
  distribute_to_total ((name, p) ∷ events) output w (nz, h) =
      let out = if n % (infos p).fps == 0 then enqueue name (copied now b) output else output in
      let (out', e) = distribute_to_total events out w h in (out', ground arith)

  -- A zero divisor anywhere in the map faults, whatever stands before it.
  pub distribute_to_zero :
      (events : Dict ℕ) (output : Dict (List VideoBuffer)) (j : String) (p : ℕ)
      → IsWhole b
      → find j events ≡ some p
      → (infos p).fps ≡ 0
      → distribute_to infos n now b events output ≡ fault div_by_zero
  unfolding distribute_to deliver copy_buffer find
  distribute_to_zero [] output j p w h z = cc
  distribute_to_zero ((name, r) ∷ events) output j p w h z = ground (
    arith,
    distribute_to_zero events (enqueue name (copied now b) output) j p w,
    distribute_to_zero events output j p w,
  )

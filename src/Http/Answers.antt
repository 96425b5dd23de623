-- ===== src/Http/Answers.antt =====
-- What an event request is answered.
use rpi_cam.Http.{Effect, MhdResult, Env, send_response, mhd_yes, responded, sent_video}
use rpi_cam.Base.{
  String, List, [], ◌∷◌, ◌≡◌, refl, ◌⊎◌, inl, inr, ◌≢◌, true, false, zero, suc, ap, ◌∙◌, ◌++◌,
  Option, arith, sym,
}
use rpi_cam.Base.Int.{ℤ, pos, negsuc}
use rpi_cam.Base.Text.{is_empty_text}
use rpi_cam.Video.Lookup.{get_video, get_video-total, clip_path}
use rpi_cam.Http.Event.{
  EventInfo, Clips, ran_pipeline, answer_video, handle_event, is_zero, event_accept, read_headers,
  no_event,
}
use rpi_cam.Http.Storage.{Serves}
use rpi_cam.Video.Clips.{process_video}
use rpi_cam.Base.Outcome.{Fault, Outcome, ok, fault, Outcome-cases, ◌>>=◌}

-- The answers to an event, each with its cause: no id, no time, an exception of `process_video`, a
-- result of it that is not 0, and the clip.
abbrev pub Answered : Clips → EventInfo → Outcome (MhdResult × List Effect) → Type 0
Answered clips event r =
    ((event.id ≡ "") × (r ≡ ok (mhd_yes, responded 400 "id is emtpy" ∷ [])))
    ⊎ ((event.id ≢ "")
        × (event.time_stamp ≡ pos 0)
        × (r ≡ ok (mhd_yes, responded 400 "time is empty" ∷ [])))
    ⊎ ((event.id ≢ "")
        × (event.time_stamp ≢ pos 0)
        × ((e : Fault) × (process_video clips.config clips.gst clips.entries event.time_stamp
                event.id
              ≡ fault e)
            × (r ≡ fault e)))
    ⊎ ((event.id ≢ "")
        × (event.time_stamp ≢ pos 0)
        × ((code : ℤ) × (made : Option String) × (code ≢ pos 0)
            × (process_video clips.config clips.gst clips.entries event.time_stamp event.id
                ≡ ok (code, made))
            × (r ≡ ok (mhd_yes, ran_pipeline made ++ responded 500 "Internal Server Error" ∷ []))))
    ⊎ ((event.id ≢ "")
        × (event.time_stamp ≢ pos 0)
        × ((made : Option String) × (process_video clips.config clips.gst clips.entries
                event.time_stamp event.id
              ≡ ok (pos 0, made))
            × (r
                ≡ ok (
                  mhd_yes,
                  ran_pipeline made
                      ++ sent_video (clip_path clips.config.vid_path event.id) event.id
                        ∷ responded 200 "success"
                        ∷ [],
                ))))

answer_video-some :
    (env : Env) (event : EventInfo) (save_path : String)
    → Serves env
    → answer_video env event (get_video save_path event.id)
      ≡ (mhd_yes, sent_video (clip_path save_path event.id) event.id ∷ responded 200 "success" ∷ [])
unfolding answer_video send_response
answer_video-some env event save_path (s, q) = rw (get_video-total save_path event.id, s, q) refl

is_empty_text-cases :
    (s : String) → ((s ≡ "") × (is_empty_text s ≡ true)) ⊎ ((s ≢ "") × (is_empty_text s ≡ false))
is_empty_text-cases String.[] = inl (refl, refl)
is_empty_text-cases (String.◌∷◌ c s) =
    inr (λ e. let n : false ≡ true = ap is_empty_text e in ground (arith, n), refl)

is_zero-cases : (z : ℤ) → ((z ≡ pos 0) × (is_zero z ≡ true)) ⊎ ((z ≢ pos 0) × (is_zero z ≡ false))
is_zero-cases (pos zero) = inl (refl, refl)
is_zero-cases (pos (suc n)) =
    let nz : is_zero (pos (suc n)) ≡ false = ground arith in
    inr (λ e. let n : false ≡ true = sym nz ∙ ap is_zero e in ground (arith, n), nz)
is_zero-cases (negsuc n) = inr (λ e. let n : false ≡ true = ap is_zero e in ground (arith, n), refl)

pub handle_event-Answered :
    (env : Env) (clips : Clips) (event : EventInfo)
    → Serves env
    → Answered clips event (handle_event env clips event)
unfolding handle_event send_response
handle_event-Answered env clips event (s, q) =
    let made = process_video clips.config clips.gst clips.entries event.time_stamp event.id in
    elim (is_empty_text-cases event.id) [
      | inl (empty, e) ↦ inl (empty, rw (e, s, q) refl)
      | inr (named, e) ↦ elim (is_zero-cases event.time_stamp) [
        | inl (zero_time, z) ↦ inr (inl (named, zero_time, rw (e, z, s, q) refl))
        | inr (timed, z) ↦ elim (Outcome-cases made) [
          | inr (f, p) ↦ inr (inr (inl (named, timed, (f, p, rw (e, z, p, ◌>>=◌) refl))))
          | inl ((code, text), p) ↦ elim (is_zero-cases code) [
            | inr (bad, k) ↦ inr (
                inr (
                  inr
                    (inl (named, timed, (code, text, bad, p, rw (e, z, p, ◌>>=◌, k, s, q) refl)))))
            | inl (good, k) ↦ inr (
                inr (
                  inr (
                    inr (
                      named,
                      timed,
                      (
                        text,
                        p ∙ ap (λ c. ok (c, text)) good,
                        rw
                            (
                              e,
                              z,
                              p,
                              ◌>>=◌,
                              k,
                              answer_video-some env event clips.config.vid_path (s, q),
                            )
                            refl,
                      ),
                    ))))
          ]
        ]
      ]
    ]

-- If libmicrohttpd makes and queues responses, an event request is answered 400 exactly without an
-- id, or with an id and no time; otherwise `process_video` is run: its exception is that of the
-- handler, a result other than 0 is answered 500, and after the result 0 the clip of the event is
-- sent and the answer is 200.
pub event_accept-Answered :
    (env : Env) (clips : Clips) (headers : List (String × String))
    → Serves env
    → Answered clips (read_headers headers no_event) (event_accept env clips headers)
unfolding event_accept
event_accept-Answered env clips headers serves =
    handle_event-Answered env clips (read_headers headers no_event) serves

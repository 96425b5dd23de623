-- ===== src/Video/Recording.antt =====
-- The files that the recorder writes and the chooser of clips reads, and the recorder's event.
use rpi_cam.Base.{
  ◌||◌, str_eq, ℕ, ◌^◌, ◌<◌, ◌≡◌, refl, ap, ◌∙◌, true, none, List, ◌∷◌, String, arith,
}
use rpi_cam.Base.Decimal.{
  leading_int-to_string, to_string-append, to_string, digits_before, digits_before-induction,
  before_char-digits_before,
}
use rpi_cam.Video.Recorder.{at_60, format_location_callback, on_media_configure}
use rpi_cam.VideoQueue.{update, VideoQueue, VideoBuffer, distribute_buffer}
use Prim.Native.String
use rpi_cam.Base.Int.{pos}
use rpi_cam.Base.Text.{before_char, stoi}
use rpi_cam.Base.Outcome.{ok, fault, div_by_zero}
use rpi_cam.Base.Dict.{find}
use rpi_cam.Video.Clips.{is_mp4, file_timestamp}
use rpi_cam.VideoQueue.Distribution.{IsWhole}
use rpi_cam.VideoQueue.Service.{event_rate_above}

is_mp4-to_string : (t : ℕ) → is_mp4 (String.◌++◌ (to_string t) ".mp4") ≡ true
is_mp4-to_string t = rw (to_string-append t ".mp4") (
    digits_before-induction (λ s. (str_eq s ".mp4" || is_mp4 s) ≡ true) (λ s. is_mp4 s ≡ true)
      (λ d rest p. p) (λ s q. ground arith) t ".mp4" refl)

file_timestamp-to_string :
    (t : ℕ) → t < 2 ^ 31 → file_timestamp (String.◌++◌ (to_string t) ".mp4") ≡ ok (pos t)
unfolding file_timestamp stoi to_string digits_before
file_timestamp-to_string t h =
    let name : before_char b'.' (String.◌++◌ (to_string t) ".mp4") ≡ to_string t =
      ap (before_char b'.') (to_string-append t ".mp4")
      ∙ before_char-digits_before b'.' t ".mp4" refl in
    rw (name, leading_int-to_string t) (ground arith)

-- The file that a recording starts at the time `t` goes to the directory "video", whatever is
-- configured; before 2038 the chooser of clips takes its name for a recording and reads the time
-- back from it.
pub file_timestamp-format_location_callback :
    (t : ℕ)
    → t < 2 ^ 31
    → (file : String) × (format_location_callback t ≡ String.◌++◌ "video/" file)
      × (is_mp4 file ≡ true)
      × (file_timestamp file ≡ ok (pos t))
unfolding format_location_callback
file_timestamp-format_location_callback t h =
    (String.◌++◌ (to_string t) ".mp4", refl, is_mp4-to_string t, file_timestamp-to_string t h)

-- A camera that makes fewer than 60 frames a second: once a medium is configured, the next frame
-- that is distributed divides by zero.
pub on_media_configure-slow :
    (uuid : String) (p now : ℕ) (q : VideoQueue) (b : VideoBuffer) (rest : List VideoBuffer)
    → find uuid q.thread_info ≡ none
    → find uuid q.output ≡ none
    → q.device_fps < 60
    → q.q_enable ≡ true
    → q.input ≡ b ∷ rest
    → IsWhole b
    → (q₁ : VideoQueue) × (on_media_configure uuid p q ≡ ok q₁)
      × (distribute_buffer now q₁ ≡ fault div_by_zero)
unfolding on_media_configure
on_media_configure-slow uuid p now q b rest t o slow on i w =
    let (q₁, e, d) =
      event_rate_above uuid p (record q { infos = update q.infos p at_60 }) now b rest t o
        (ground arith) on i w in
    (q₁, ground (arith, e), d)

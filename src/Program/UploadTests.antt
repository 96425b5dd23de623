-- ===== src/Program/UploadTests.antt =====
-- A program that was uploaded and started.
use rpi_cam.Base.{
  arith, subst, eq_iff, inl, inr, Bool-cases, false, str_eq, if◌then◌else◌, ◌≡◌, refl, true, none,
  some, [], ◌∷◌,
}
use rpi_cam.Http.Complete.{
  event_directory, store_program, make_directory, conclude, write_files, Completed,
  post_request_complete,
}
use rpi_cam.Program.Uploads.{has_file, post_request_complete-unloaded}
use Prim.Native.String.{String}
use rpi_cam.Event.Processor.{Loader, construct, uploaded_files}
use rpi_cam.Http.{send_response}
use rpi_cam.Base.Outcome.{ok, fault, null_pointer}
use rpi_cam.VideoQueue.{frame}
use rpi_cam.VideoQueue.Tests.{shot}
use rpi_cam.Event.Loop.{event_loop}
use rpi_cam.Http.Storage.{stored_files}
use rpi_cam.Http.Tests.{replied, disk, motion}
use text.Mathlib.TextLemmas.{append_cancel_left}
use Prim.Native.String
use rpi_cam.Event.Tests.{telling}

abbrev stored : Completed
stored = record { upload_client = 3; effects = stored_files true motion }

completes : post_request_complete replied disk (some motion) 2 ≡ ok stored
unfolding post_request_complete store_program make_directory conclude write_files send_response
completes = refl

-- A loader that opens the stored program under its own name.
abbrev loader : Loader
loader path = if str_eq path "./event/motion/motion" then some (λ symbol. none) else none

in_directory :
    (file : String)
    → String.◌++◌ "./event/" (String.◌++◌ "motion" (String.◌++◌ "/" file)) ≡ "./event/motion/motion"
    → file ≡ "motion"
in_directory file h = append_cancel_left "/" file "motion" (
    append_cancel_left "motion" (String.◌++◌ "/" file) "/motion" (
      append_cancel_left "./event/" (String.◌++◌ "motion" (String.◌++◌ "/" file)) "motion/motion"
        h))

-- What the upload has not left, the loader does not open.
loader-closed :
    (file : String)
    → has_file (String.◌++◌ (event_directory "motion") file) stored.effects ≡ false
    → loader (String.◌++◌ "./event/" (String.◌++◌ "motion" (String.◌++◌ "/" file))) ≡ none
loader-closed file h =
    let path = String.◌++◌ "./event/" (String.◌++◌ "motion" (String.◌++◌ "/" file)) in
    elim (Bool-cases (str_eq path "./event/motion/motion")) [
      | inr n ↦ rw n refl
      | inl e ↦
          let same = in_directory file ((eq_iff path "./event/motion/motion").0 e) in
          let found : true ≡ false =
            subst (λ f. has_file (String.◌++◌ (event_directory "motion") f) stored.effects ≡ false)
              same h in
          absurd (ground (arith, found))
    ]

post_request_complete-unloaded_example :
    event_loop telling
      (construct loader (uploaded_files "motion" "15") "motion")
      0
      (frame (shot 1) ∷ [])
    ≡ fault null_pointer
post_request_complete-unloaded_example =
    post_request_complete-unloaded replied disk telling loader (uploaded_files "motion" "15") motion
      2 stored (shot 1) [] refl (refl, refl, refl, refl, refl, refl) refl refl refl refl completes
      loader-closed

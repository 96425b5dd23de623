-- ===== src/Rtsp/Cached.antt =====
-- The descriptions of files that are kept on disk.
use rpi_cam.Base.{none, some, String, ◌≡◌, refl, inl, inr, arith, eq_refl, Option-cases}
use rpi_cam.Base.Int.{pos}
use rpi_cam.Base.Text.{before_char}
use rpi_cam.Base.Dict.{find, find-emplace_new}
use rpi_cam.Base.Outcome.{ok}
use rpi_cam.Rtsp.File.{GstFile, FileEnv, Files, describe_new, describe_request, sdp_path}

describe_new-saved :
    (env : FileEnv) (path sdp : String) (h h' : GstFile) (files files' : Files)
    → find (sdp_path path) files ≡ none
    → describe_new env path h files ≡ ok (pos 0, sdp, h', files')
    → find (sdp_path path) files' ≡ some sdp
unfolding describe_new
describe_new-saved env path sdp h h' files files' fresh e = ground (
  arith,
  find-emplace_new (sdp_path path) (sdp_path path) sdp files fresh,
  eq_refl (sdp_path path),
)

-- An answer 0 is the text that is on disk afterwards.
describe_request-saved :
    (env : FileEnv) (path sdp : String) (h h' : GstFile) (files files' : Files)
    → describe_request env path h files ≡ ok (pos 0, sdp, h', files')
    → find (sdp_path path) files' ≡ some sdp
unfolding describe_request
describe_request-saved env path sdp h h' files files' e =
    elim (Option-cases (find (sdp_path path) files)) [
      | inl fresh ↦
          describe_new-saved env path sdp h h' files files' fresh
            (rw (fresh, describe_request) at e)
      | inr (old, found) ↦ ground arith
    ]

-- After a DESCRIBE that is answered 0, every path that is the same up to its first dot is answered
-- with the same description, whatever its file holds, and nothing changes.
pub describe_request-cached :
    (env env' : FileEnv) (path other sdp : String) (h h' h₁ : GstFile) (files files' : Files)
    → describe_request env path h files ≡ ok (pos 0, sdp, h', files')
    → before_char b'.' other ≡ before_char b'.' path
    → describe_request env' other h₁ files' ≡ ok (pos 0, sdp, h₁, files')
unfolding describe_request
describe_request-cached env env' path other sdp h h' h₁ files files' e same =
    let saved = describe_request-saved env path sdp h h' files files' e in
    rw (same, saved, describe_request) refl

-- ===== src/Rtsp/Ownership.antt =====
-- Who owns the pipeline of a file's handler, over any row of requests.
use rpi_cam.Base.{
  Bool-cases, Bool, true, false, none, some, List, [], ◌∷◌, String, ◌≡◌, sym, ap, ◌∙◌, ◌⊎◌, inl,
  inr, arith, Option-cases, subst,
}
use rpi_cam.Base.Outcome.{
  use_after_free, fault, deref-eq-ok, Outcome, ok, ok-injective, >>=-eq-ok, ◌>>=◌, deref,
  null_pointer,
}
use rpi_cam.Base.Int.{pos, ℤ}
use rpi_cam.Rtsp.File.{
  RtpInfo, GstFile, FileEnv, Files, create_file, describe_new, describe_request, setup_request,
  delete_if_any, delete_rtp_info,
}
use rpi_cam.Rtsp.Playing.{
  wait_first, play_changed, play_request, pause_request, teardown_request, set_state,
}
use rpi_cam.Rtsp.First.{wait_first-seen}

-- A request to the handler of a file.
pub data FileRequest : Type 0 where
  describes : String → FileRequest
  sets_up : String → String → String → FileRequest
  plays : String → FileRequest
  pauses : String → FileRequest
  tears_down : FileRequest

unfoldable pub file_step : FileEnv → FileRequest → GstFile → Files → Outcome (GstFile × Files)
unfolding describe_request setup_request play_request pause_request teardown_request
file_step env (describes path) h files = describe_request env path h files >>= λ r. ok (r.2, r.3)
file_step env (sets_up path addr ports) h files =
    setup_request env path addr ports h files >>= λ r. ok (r.2, r.3)
file_step env (plays range) h files = play_request env range h files >>= λ r. ok (r.2, r.3)
file_step env (pauses range) h files = pause_request env range h files >>= λ r. ok (r.1, r.2)
file_step env tears_down h files = teardown_request env h files >>= λ r. ok (r.1, r.2)

-- A row of requests, each with what the outside answers to it.
unfoldable pub file_run : List (FileEnv × FileRequest) → GstFile → Files → Outcome (GstFile × Files)
unfolding file_step
file_run [] h files = ok (h, files)
file_run ((env, request) ∷ requests) h files =
    file_step env request h files >>= λ r. file_run requests r.0 r.1

-- The handler holds the only reference of its pipeline, and its sockets are open.
abbrev pub Owns : RtpInfo → Type 0
Owns info =
    ((info.pipeline ≡ none) ⊎ (info.pipeline ≡ some 1))
    × (info.rtp_socket ≡ some true)
    × (info.rtcp_socket ≡ some true)

abbrev pub IsOwner : GstFile → Type 0
IsOwner h = (info : RtpInfo) → h.rtp_info ≡ some info → Owns info

teardown-IsOwner :
    (env : FileEnv) (h h' : GstFile) (files files' : Files) (code : ℤ)
    → IsOwner h
    → teardown_request env h files ≡ ok (code, h', files')
    → (code ≡ pos 1) × (h' ≡ h) × (files' ≡ files)
unfolding teardown_request delete_rtp_info
teardown-IsOwner env h h' files files' code o r = elim (Option-cases h.rtp_info) [
  | inl e ↦ absurd (ground arith)
  | inr (info, e) ↦
      let (p, s, t) = o info e in elim p [ inl n ↦ ground arith | inr n ↦ ground arith ]
]

describe-keeps :
    (env : FileEnv) (path sdp : String) (h h' : GstFile) (files files' : Files) (code : ℤ)
    → describe_request env path h files ≡ ok (code, sdp, h', files')
    → h'.rtp_info ≡ h.rtp_info
unfolding describe_request describe_new
describe-keeps env path sdp h h' files files' code e = ground arith

setup-IsOwner :
    (env : FileEnv) (path addr ports text : String) (h h' : GstFile) (files files' : Files)
    (code : ℤ)
    → setup_request env path addr ports h files ≡ ok (code, text, h', files')
    → IsOwner h'
unfolding setup_request
setup-IsOwner env path addr ports text h h' files files' code e info i =
    let (gone, _, f) = >>=-eq-ok (delete_if_any h.rtp_info) _ e in ground arith

play_changed-IsOwner :
    (env : FileEnv) (changed : Bool) (info : RtpInfo) (text : String) (h h' : GstFile)
    (files files' : Files) (code : ℤ)
    → IsOwner h
    → h.rtp_info ≡ some info
    → play_changed env changed info h files ≡ ok (code, text, h', files')
    → IsOwner h'
unfolding play_changed
play_changed-IsOwner env false info text h h' files files' code o i e info' i' =
    o info' (ground arith)
play_changed-IsOwner env true info text h h' files files' code o i e info' i' =
    let (seen, w, f) = >>=-eq-ok (wait_first env info) _ e in
    let (p, s, t) = wait_first-seen env info seen w in ground (arith, o info i)

play-IsOwner :
    (env : FileEnv) (range text : String) (h h' : GstFile) (files files' : Files) (code : ℤ)
    → IsOwner h
    → play_request env range h files ≡ ok (code, text, h', files')
    → IsOwner h'
unfolding play_request
play-IsOwner env range text h h' files files' code o e =
    let (info, i, f) = >>=-eq-ok (deref null_pointer h.rtp_info) _ e in
    let (changed, s, g) = >>=-eq-ok (set_state env info.pipeline) _ f in
    play_changed-IsOwner env changed info text h h' files files' code o
      (deref-eq-ok null_pointer h.rtp_info i) g

pause-keeps :
    (env : FileEnv) (range : String) (h h' : GstFile) (files files' : Files) (code : ℤ)
    → pause_request env range h files ≡ ok (code, h', files')
    → h' ≡ h
unfolding pause_request
pause-keeps env range h h' files files' code e =
    let (info, i, f) = >>=-eq-ok (deref null_pointer h.rtp_info) _ e in
    let (changed, s, g) = >>=-eq-ok (set_state env info.pipeline) _ f in ground arith

file_step-IsOwner :
    (env : FileEnv) (request : FileRequest) (h h' : GstFile) (files files' : Files)
    → IsOwner h
    → file_step env request h files ≡ ok (h', files')
    → IsOwner h'
unfolding file_step
file_step-IsOwner env (describes path) h h' files files' o e =
    let (r, d, f) = >>=-eq-ok (describe_request env path h files) _ e in
    let k = describe-keeps env path r.1 h r.2 files r.3 r.0 d in
    λ info i. o info (sym k ∙ ap (λ x. x.0.rtp_info) (ok-injective f) ∙ i)
file_step-IsOwner env (sets_up path addr ports) h h' files files' o e =
    let (r, d, f) = >>=-eq-ok (setup_request env path addr ports h files) _ e in
    subst IsOwner (ap (λ x. x.0) (ok-injective f))
      (setup-IsOwner env path addr ports r.1 h r.2 files r.3 r.0 d)
file_step-IsOwner env (plays range) h h' files files' o e =
    let (r, d, f) = >>=-eq-ok (play_request env range h files) _ e in
    subst IsOwner (ap (λ x. x.0) (ok-injective f))
      (play-IsOwner env range r.1 h r.2 files r.3 r.0 o d)
file_step-IsOwner env (pauses range) h h' files files' o e =
    let (r, d, f) = >>=-eq-ok (pause_request env range h files) _ e in
    subst IsOwner
      (sym (pause-keeps env range h r.1 files r.2 r.0 d) ∙ ap (λ x. x.0) (ok-injective f)) o
file_step-IsOwner env tears_down h h' files files' o e =
    let (r, d, f) = >>=-eq-ok (teardown_request env h files) _ e in
    let (_, k, _) = teardown-IsOwner env h r.1 files r.2 r.0 o d in
    subst IsOwner (sym k ∙ ap (λ x. x.0) (ok-injective f)) o

-- A handler that no request has failed, from its creation on, owns its pipeline and has open
-- sockets.
pub file_run-IsOwner :
    (requests : List (FileEnv × FileRequest)) (h h' : GstFile) (files files' : Files)
    → IsOwner h
    → file_run requests h files ≡ ok (h', files')
    → IsOwner h'
unfolding file_run
file_run-IsOwner [] h h' files files' o e = subst IsOwner (ap (λ x. x.0) (ok-injective e)) o
file_run-IsOwner ((env, request) ∷ requests) h h' files files' o e =
    let ((h₁, files₁), d, f) = >>=-eq-ok (file_step env request h files) _ e in
    file_run-IsOwner requests h₁ h' files₁ files'
      (file_step-IsOwner env request h h₁ files files₁ o d) f

create_file-IsOwner : IsOwner create_file
unfolding create_file
create_file-IsOwner info i = cc

teardown-cases :
    (env : FileEnv) (h : GstFile) (files : Files)
    → IsOwner h
    → ((h.rtp_info ≡ none) × (teardown_request env h files ≡ fault null_pointer))
      ⊎ (teardown_request env h files ≡ ok (pos 1, h, files))
      ⊎ ((env.changes_state ≡ true) × (teardown_request env h files ≡ fault use_after_free))
unfolding teardown_request delete_rtp_info
teardown-cases env h files o = elim (Option-cases h.rtp_info) [
  | inl e ↦ inl (e, ground arith)
  | inr (info, e) ↦
      let (p, s, t) = o info e in
      elim p [
        | inl n ↦ inr (inl (ground arith))
        | inr n ↦ elim (Bool-cases env.changes_state) [
          | inl c ↦ inr (inr (c, ground arith))
          | inr c ↦ inr (inl (ground arith))
        ]
      ]
]

-- Whatever a client has asked of a new handler, a TEARDOWN never takes the stream down: without a
-- SETUP it reads through a null pointer, or it answers 1 and changes nothing, or, where the
-- pipeline can be stopped, it releases the pipeline twice.
pub teardown-file_run :
    (requests : List (FileEnv × FileRequest)) (env : FileEnv) (h : GstFile) (files files' : Files)
    → file_run requests create_file files ≡ ok (h, files')
    → ((h.rtp_info ≡ none) × (teardown_request env h files' ≡ fault null_pointer))
      ⊎ (teardown_request env h files' ≡ ok (pos 1, h, files'))
      ⊎ ((env.changes_state ≡ true) × (teardown_request env h files' ≡ fault use_after_free))
teardown-file_run requests env h files files' run =
    teardown-cases env h files'
      (file_run-IsOwner requests create_file h files files' create_file-IsOwner run)

-- ===== src/Http/Slots.antt =====
-- The upload slots over all requests of the server, in any interleaving.
use rpi_cam.Http.Complete.{
  write_files, event_directory, FileEnv, Completed, store_program, store_in, make_directory,
  conclude, give_back, complete_kind, post_request_complete,
}
use rpi_cam.Base.{
  ℕ, ◌+◌, Bool, true, false, ◌≡◌, refl, Option, none, some, List, [], ◌∷◌, ◌++◌, String, ◌==◌,
  if◌then◌else◌, arith, get_elem?, set, total, total-set, Bool-cases, inl, inr, ◌∙◌,
}
use rpi_cam.Base.Outcome.{Outcome, ok, fault}
use rpi_cam.Base.Text.{is_empty_text}
use rpi_cam.Http.{ConnectionInfo, get, post, HttpMethod, Env, Effect, Reply, Part}
use rpi_cam.Http.Upload.{
  store_part, post_process, program_accept, program_open, program_answer, close_upload,
}
use rpi_cam.Http.Control.{
  keep_name, post_process_name, program_start_accept, program_stop_accept, control_open,
}
use rpi_cam.Http.Event.{Clips}
use rpi_cam.Http.Dispatch.{Request, libmicrohttpd_handler}

-- The slots that a connection holds: one from the start of an upload to its completion.
abbrev pub kind_weight : HttpMethod → Bool → ℕ
kind_weight get p = 0
kind_weight post p = if p then 1 else 0

abbrev pub weight : Option ConnectionInfo → ℕ
weight none = 0
weight (some c) = kind_weight c.connection_type c.postprocessor

store_part-weight :
    (p : Part) (c : ConnectionInfo) → weight (some (store_part p c)) ≡ weight (some c)
unfolding store_part
store_part-weight p c = ground arith

post_process-weight :
    (parts : List Part) (c : ConnectionInfo)
    → weight (some (post_process parts c)) ≡ weight (some c)
unfolding post_process
post_process-weight [] c = refl
post_process-weight (p ∷ parts) c = elim (Bool-cases (is_empty_text p.text)) [
  | inl e ↦ rw e (store_part-weight p c)
  | inr e ↦ rw e (post_process-weight parts (store_part p c) ∙ store_part-weight p c)
]

keep_name-weight : (p : Part) (c : ConnectionInfo) → weight (some (keep_name p c)) ≡ weight (some c)
keep_name-weight p c = ground arith

post_process_name-weight :
    (parts : List Part) (c : ConnectionInfo)
    → weight (some (post_process_name parts c)) ≡ weight (some c)
unfolding post_process_name
post_process_name-weight [] c = refl
post_process_name-weight (p ∷ parts) c = elim (Bool-cases (is_empty_text p.text)) [
  | inl e ↦ rw e (keep_name-weight p c)
  | inr e ↦ rw e (post_process_name-weight parts (keep_name p c) ∙ keep_name-weight p c)
]

close_upload-weight :
    (env : Env) (c : ConnectionInfo) (slots : ℕ) (v : Outcome (String × ℕ)) (r : Reply)
    → close_upload env c slots v ≡ ok r
    → r.upload_client + weight r.con ≡ slots + weight (some c)
close_upload-weight env c slots (fault e) r h = cc
close_upload-weight env c slots (ok v) r h = ground arith

program_open-weight :
    (env : Env) (size slots : ℕ) (r : Reply)
    → program_open env size slots ≡ ok r
    → r.upload_client + weight r.con ≡ slots
unfolding program_open
program_open-weight env size slots r h = ground arith

program_accept-weight :
    (env : Env) (parts : List Part) (con : Option ConnectionInfo) (size slots : ℕ) (r : Reply)
    → program_accept env parts con size slots ≡ ok r
    → r.upload_client + weight r.con ≡ slots + weight con
unfolding program_accept
program_accept-weight env parts none size slots r h =
    omega (arith, program_open-weight env size slots r h)
program_accept-weight env parts (some c) size slots r h = elim (Bool-cases (size == 0)) [
  | inl e ↦ close_upload-weight env c slots (program_answer c) r (rw e at h)
  | inr e ↦ ground (arith, post_process-weight parts c)
]

control_open-weight :
    (env : Env) (size slots : ℕ)
    → (control_open env size slots).upload_client + weight (control_open env size slots).con ≡ slots
unfolding control_open
control_open-weight env size slots = ground arith

program_start_accept-weight :
    (env : Env) (parts : List Part) (con : Option ConnectionInfo) (size slots : ℕ)
    → let r = program_start_accept env parts con size slots in
      r.upload_client + weight r.con ≡ slots + weight con
unfolding program_start_accept
program_start_accept-weight env parts none size slots =
    omega (arith, control_open-weight env size slots)
program_start_accept-weight env parts (some c) size slots =
    ground (arith, post_process_name-weight parts c)

program_stop_accept-weight :
    (env : Env) (parts : List Part) (con : Option ConnectionInfo) (size slots : ℕ)
    → let r = program_stop_accept env parts con size slots in
      r.upload_client + weight r.con ≡ slots + weight con
unfolding program_stop_accept
program_stop_accept-weight env parts none size slots =
    omega (arith, control_open-weight env size slots)
program_stop_accept-weight env parts (some c) size slots =
    ground (arith, post_process_name-weight parts c)

-- A call of the handler that returns moves slots between the counter and its connection only.
pub libmicrohttpd_handler-weight :
    (env : Env) (clips : Clips) (q : Request) (con : Option ConnectionInfo) (slots : ℕ) (r : Reply)
    → libmicrohttpd_handler env clips q con slots ≡ ok r
    → r.upload_client + weight r.con ≡ slots + weight con
unfolding libmicrohttpd_handler
libmicrohttpd_handler-weight env clips q con slots r h = ground (
  arith,
  program_accept-weight env q.parts con q.size slots r,
  program_start_accept-weight env q.parts con q.size slots,
  program_stop_accept-weight env q.parts con q.size slots,
)

conclude-slots :
    (env : Env) (fs : FileEnv) (c : ConnectionInfo) (slots : ℕ) (dir : String)
    (before : List Effect) (done : Completed)
    → conclude env fs c slots dir before ≡ ok done
    → done.upload_client ≡ slots
unfolding conclude
conclude-slots env fs c slots dir before done h = ground arith

store_in-slots :
    (env : Env) (fs : FileEnv) (c : ConnectionInfo) (slots : ℕ) (made : Bool × List Effect)
    (done : Completed)
    → store_in env fs c slots made ≡ ok done
    → done.upload_client ≡ slots
store_in-slots env fs c slots (false, before) done h = ground arith
store_in-slots env fs c slots (true, before) done h =
    conclude-slots env fs c slots (event_directory c.file_name)
      (before ++ write_files fs (event_directory c.file_name) c) done h

store_program-slots :
    (env : Env) (fs : FileEnv) (c : ConnectionInfo) (slots : ℕ) (done : Completed)
    → store_program env fs c slots ≡ ok done
    → done.upload_client ≡ slots
unfolding store_program
store_program-slots env fs c slots done h =
    ground
      (arith, store_in-slots env fs c slots (make_directory fs (event_directory c.file_name)) done)

complete_kind-weight :
    (k : HttpMethod) (env : Env) (fs : FileEnv) (c : ConnectionInfo) (slots : ℕ) (done : Completed)
    → complete_kind k env fs c slots ≡ ok done
    → done.upload_client ≡ slots + kind_weight k c.postprocessor
complete_kind-weight get env fs c slots done h = ground arith
complete_kind-weight post env fs c slots done h =
    ground (arith, store_program-slots env fs c (give_back c slots) done h)

-- The completion gives back what its connection held, whatever is answered.
pub post_request_complete-weight :
    (env : Env) (fs : FileEnv) (con : Option ConnectionInfo) (slots : ℕ) (done : Completed)
    → post_request_complete env fs con slots ≡ ok done
    → done.upload_client ≡ slots + weight con
unfolding post_request_complete
post_request_complete-weight env fs none slots done h = ground arith
post_request_complete-weight env fs (some c) slots done h =
    complete_kind-weight c.connection_type env fs c slots done h

-- The server: the counter `_upload_client` and `*con_cls` of each open request.
pub record Server : Type 0 where
  pub upload_client : ℕ
  pub conns : List (Option ConnectionInfo)

-- The daemon's threads interleave the calls of different requests.
pub data Step : Server → Server → Type 0 where
  connects : (s : Server) → Step s (record s { conns = none ∷ s.conns })
  handles :
      (s : Server) (i : ℕ) (env : Env) (clips : Clips) (q : Request) (con : Option ConnectionInfo)
      (r : Reply)
      → get_elem? s.conns i ≡ some con
      → libmicrohttpd_handler env clips q con s.upload_client ≡ ok r
      → Step s (record { upload_client = r.upload_client; conns = set s.conns i r.con })
  completes :
      (s : Server) (i : ℕ) (env : Env) (fs : FileEnv) (con : Option ConnectionInfo)
      (done : Completed)
      → get_elem? s.conns i ≡ some con
      → post_request_complete env fs con s.upload_client ≡ ok done
      → Step s (record { upload_client = done.upload_client; conns = set s.conns i none })

pub data Reach (start : Server) : Server → Type 0 where
  unchanged : Reach start start
  after : {mid end : Server} → Reach start mid → Step mid end → Reach start end

-- The uploads under way, and the slots of the server.
abbrev pub uploads : Server → ℕ
uploads s = total weight s.conns

Step-slots : {s t : Server} → Step s t → t.upload_client + uploads t ≡ s.upload_client + uploads s
Step-slots (connects s) = omega arith
Step-slots (handles s i env clips q con r at_i h) = omega (
  arith,
  total-set weight s.conns i r.con con at_i,
  libmicrohttpd_handler-weight env clips q con s.upload_client r h,
)
Step-slots (completes s i env fs con done at_i h) = omega (
  arith,
  total-set weight s.conns i none con at_i,
  post_request_complete-weight env fs con s.upload_client done h,
)

-- In every interleaving of connections, handler calls that return and completions, the free slots
-- and the uploads under way add up to what they were at the start.
pub Reach-slots :
    {s t : Server} → Reach s t → t.upload_client + uploads t ≡ s.upload_client + uploads s
Reach-slots unchanged = refl
Reach-slots (after r st) = Step-slots st ∙ Reach-slots r

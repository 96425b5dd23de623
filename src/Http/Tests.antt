-- ===== src/Http/Tests.antt =====
-- The handlers at concrete requests.
use rpi_cam.Http.Sender.{send_request, camerainfo_send, posted, Curl, Printing, EventHandlerHttp}
use rpi_cam.Http.{
  appended, created_directory, removed_all, send_response, ConnectionInfo, Env, responded, going_on,
}
use rpi_cam.Http.Complete.{
  conclude, event_directory, write_files, make_directory, store_program, FileEnv,
  post_request_complete,
}
use rpi_cam.Base.{
  str_eq, not, suc, arith, ℕ, Bool, ◌+◌, ◌≡◌, refl, true, false, none, some, List, [], ◌∷◌, String,
}
use rpi_cam.Http.Storage.{stored_files}
use rpi_cam.Http.Refused.{Begins, refused_name-removed}
use Prim.Native.Nat.{zero, suc}
use rpi_cam.Http.Start.{Boot, HttpInitializer, init, init-unregistered, daemon_options, count_uuid}
use rpi_cam.Video.Tests.{config as video, gst, entries}
use rpi_cam.Config.Server.{HttpConfig}
use rpi_cam.Base.Int.{pos}
use rpi_cam.Base.Outcome.{ok}
use rpi_cam.Base.Text.{has_char, stoi, number}
use rpi_cam.Http.Upload.{program_accept, fresh_upload, finished, program_open}
use rpi_cam.Http.Event.{Clips, event_accept, read_headers, no_event}
use rpi_cam.Http.Dispatch.{Request, libmicrohttpd_handler}
use rpi_cam.Http.Pieces.{upload_form, uploaded, joined, upload-stored}
use rpi_cam.Http.Answers.{Answered, event_accept-Answered}
use rpi_cam.Http.Slots.{
  Server, Reach, unchanged, after, connects, handles, completes, uploads, Reach-slots,
}

abbrev pub serving : Env
serving = record {
  creates_response = true;
  queues_response = true;
  allocates = true;
  creates_processor = true;
}

abbrev pub disk : FileEnv
disk = record {
  probe_fails = false;
  directory_exists = true;
  remove_fails = false;
  create_fails = false;
  opens = λ path. true;
  cleanup_fails = false;
}

-- The answers to a completion.
abbrev pub replied : Env
replied = record serving { queues_response = false }

-- No file opens under the path of a directory.
abbrev closed : FileEnv
closed = record disk { opens = λ path. not (str_eq path "event/../motion/../motion") }

abbrev pub motion : ConnectionInfo
motion = uploaded "motion" "15" "ELF"

abbrev escaping : ConnectionInfo
escaping = uploaded "../motion" "15" "ELF"

stoi_15 : stoi "15" ≡ number (pos 15)
unfolding stoi
stoi_15 = refl

motion-no_slash : has_char b'/' "motion" ≡ false
unfolding has_char
motion-no_slash = refl

upload-stored_example :
    let c = uploaded "motion" "15" (joined "EL" ("F" ∷ [])) in
    (program_accept serving [] none 0 3 ≡ ok (going_on [] (some fresh_upload) 0 2))
    × (program_accept serving (upload_form "motion" "15" ("EL" ∷ "F" ∷ [])) (some fresh_upload) 9 2
        ≡ ok (going_on [] (some c) 0 2))
    × (program_accept serving [] (some c) 0 2
        ≡ ok (going_on (responded 200 "program file saved" ∷ []) (some (finished c)) 0 2))
    × (post_request_complete replied disk (some (finished c)) 2
        ≡ ok (record { upload_client = 3; effects = stored_files true c }))
upload-stored_example =
    upload-stored serving replied disk "motion" "15" "EL" ("F" ∷ []) (pos 15) 8 2 (refl, refl) refl
      (refl, refl, refl, refl, refl, refl) refl refl motion-no_slash stoi_15 refl refl
      (refl, (refl, tt))

escaping-slash : has_char b'/' "../motion" ≡ true
unfolding has_char
escaping-slash = refl

refused_name-removed_example :
    (program_accept serving [] (some escaping) 0 2
      ≡ ok (going_on (responded 400 "Invalid file name" ∷ []) (some (finished escaping)) 0 2))
    × Begins
        (removed_all (event_directory "../motion"))
        (post_request_complete replied closed (some (finished escaping)) 2)
refused_name-removed_example =
    refused_name-removed serving replied closed escaping 2 (refl, refl) refl refl escaping-slash
      refl refl refl

-- The directory is removed, made again and, since the program cannot be opened in it, removed.
escaping-completed :
    post_request_complete replied closed (some (finished escaping)) 2
    ≡ ok (record {
      upload_client = 3;
      effects =
          removed_all "event/../motion/"
          ∷ created_directory "event/../motion/"
          ∷ appended "event/../motion/15" ""
          ∷ appended "event/../motion/enable" ""
          ∷ removed_all "event/../motion/"
          ∷ [];
    })
unfolding post_request_complete store_program make_directory write_files conclude
escaping-completed = refl

abbrev clips : Clips
clips = record { config = video; gst = gst; entries = entries }

abbrev headers : List (String × String)
headers = ("Host", "cam") ∷ ("transactionid", "7") ∷ ("eventtime", "103") ∷ []

event_accept-Answered_example :
    Answered clips (read_headers headers no_event) (event_accept serving clips headers)
event_accept-Answered_example = event_accept-Answered serving clips headers (refl, refl)

abbrev opening : Request
opening = record { url = "/program"; method = "POST"; headers = []; parts = []; size = 0 }

abbrev idle : Server
idle = record { upload_client = 2; conns = [] }

opening-handled :
    libmicrohttpd_handler serving clips opening none 2 ≡ ok (going_on [] (some fresh_upload) 0 1)
unfolding libmicrohttpd_handler program_accept program_open
opening-handled = refl

opening-refused :
    post_request_complete replied disk (some fresh_upload) 1
    ≡ ok (record { upload_client = 2; effects = [] })
unfolding post_request_complete store_program send_response
opening-refused = refl

abbrev over : Server
over = record { upload_client = 2; conns = none ∷ [] }

-- A request that connects, opens an upload and is broken off.
broken_off : Reach idle over
broken_off =
    after
      (after (after unchanged (connects idle)) (
        handles (record { upload_client = 2; conns = none ∷ [] }) 0 serving clips opening none _
          refl opening-handled))
      (completes (record { upload_client = 1; conns = some fresh_upload ∷ [] }) 0 replied disk
        (some fresh_upload) _ refl opening-refused)

Reach-slots_example : over.upload_client + uploads over ≡ idle.upload_client + uploads idle
Reach-slots_example = Reach-slots broken_off

-- A body of 1024 zeros.
abbrev zeros : ℕ → List ℕ
zeros zero = []
zeros (suc n) = 0 ∷ zeros n

abbrev page : List ℕ
page = zeros 1024

abbrev pub link : Bool → Curl
link up = record {
  creates = true;
  pieces = record { size = 1024; readable = page } ∷ [];
  performs = up;
}

abbrev pub printing : Printing
printing = record { write_json = λ o. "{}"; local_time = λ t. "now"; show_time = λ t. "0" }

abbrev pub camera : EventHandlerHttp
camera = record { server_address = "cam"; uuid = ""; upload_client = 3 }

abbrev config : HttpConfig
config = record {
  crt_file = "crt";
  private_file = "key";
  thread_pool = pos 4;
  tls_enabled = pos 0;
  port = pos 9000;
  remote_server = "cam";
  upload_user = pos 3;
}

abbrev off : HttpInitializer
off = record { config = config; daemon = none; uuid = ""; written = []; sent = [] }

abbrev first_boot : Boot
first_boot = record {
  entries = [];
  uuid_line = "";
  uuid_opens = true;
  generated = "4711";
  daemon_starts = true;
}

abbrev pub second_boot : Boot
second_boot = record {
  entries = ("uuid", true) ∷ [];
  uuid_line = "4711";
  uuid_opens = true;
  generated = "0815";
  daemon_starts = true;
}

no_uuid : count_uuid [] ≡ 0
unfolding count_uuid
no_uuid = refl

down-fails :
    camerainfo_send (link false) printing camera "4711" ≡ ok (2, posted "cam/setup" "{}" ∷ [])
unfolding camerainfo_send send_request
down-fails = refl

boots_unregistered :
    (init (link false) printing camera first_boot off
      ≡ ok (3, record off { written = "4711" ∷ []; sent = posted "cam/setup" "{}" ∷ [] }))
    × (init (link false) printing camera second_boot off
        ≡ ok (0, record off { uuid = "4711"; daemon = some (daemon_options config) }))
boots_unregistered =
    init-unregistered (link false) printing camera first_boot second_boot off off 2
      (posted "cam/setup" "{}" ∷ []) [] no_uuid refl down-fails (λ e. omega (arith, e)) refl refl
      refl

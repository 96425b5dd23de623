-- ===== src/Http/Start.antt =====
-- HttpInitializer.cpp: the camera's identifier and the start of the daemon.
use rpi_cam.Base.{
  zero_test, ◌≢◌, ℕ, Bool, true, false, Option, none, some, List, [], ◌∷◌, ◌++◌, String, str_eq,
  ◌==◌, ◌≡◌, refl, if◌then◌else◌, arith,
}
use rpi_cam.Base.Int.{ℤ, pos, negsuc}
use rpi_cam.Base.Outcome.{Outcome, ok, ◌>>=◌}
use rpi_cam.Config.Server.{HttpConfig}
use rpi_cam.Http.Sender.{Curl, Printing, EventHandlerHttp, Sent, camerainfo_send}

-- What `init` is given from outside: the entries of the directory `system` (a name, and whether it
-- is a regular file), the first line of its file `uuid`, whether that file opens for writing, the
-- identifier that boost generates, and whether libmicrohttpd starts.
pub record Boot : Type 0 where
  pub entries : List (String × Bool)
  pub uuid_line : String
  pub uuid_opens : Bool
  pub generated : String
  pub daemon_starts : Bool

-- The options of `MHD_start_daemon`: the port, the threads, and the key and certificate under TLS.
pub record Daemon : Type 0 where
  pub port : ℤ
  pub thread_pool : ℤ
  pub tls : Option (String × String)

-- `class HttpInitializer`, what it wrote to `system/uuid`, and what it sent.
pub record HttpInitializer : Type 0 where
  pub config : HttpConfig
  pub daemon : Option Daemon
  pub uuid : String
  pub written : List String
  pub sent : List Sent

-- `cnt` after the loop over the directory, which ends at the first file called `uuid`.
unfoldable pub count_uuid : List (String × Bool) → ℕ
count_uuid [] = 0
count_uuid ((name, regular) ∷ entries) =
    let more = count_uuid entries in
    if regular then if str_eq name "uuid" then 1 else more else more

abbrev pub is_on : ℤ → Bool
is_on (pos n) = if n == 0 then false else true
is_on (negsuc n) = true

-- Without TLS the port is 8000, whatever is configured.
abbrev pub daemon_options : HttpConfig → Daemon
daemon_options c =
    if is_on c.tls_enabled
    then record {
      port = c.port;
      thread_pool = c.thread_pool;
      tls = some (c.private_file, c.crt_file);
    }
    else record { port = pos 8000; thread_pool = c.thread_pool; tls = none }

-- The end of `init`, the identifier being `uuid`.
unfoldable pub start_daemon : Boot → String → HttpInitializer → ℕ × HttpInitializer
start_daemon boot uuid s =
    if boot.daemon_starts
    then (0, record s { uuid = uuid; daemon = some (daemon_options s.config) })
    else (1, record s { uuid = uuid; daemon = none })

abbrev pub keep_uuid : Boot → HttpInitializer → HttpInitializer
keep_uuid boot s =
    if boot.uuid_opens then record s { written = s.written ++ boot.generated ∷ [] } else s

-- What follows the registration at the server, which answered `code`.
abbrev pub registered : Boot → HttpInitializer → ℕ × List Sent → Outcome (ℕ × HttpInitializer)
registered boot s (code, sent) =
    if code == 0
    then ok (start_daemon boot boot.generated (record s { sent = s.sent ++ sent }))
    else ok (3, record s { sent = s.sent ++ sent })

-- `HttpInitializer::init`
unfoldable pub init :
    Curl → Printing → EventHandlerHttp → Boot → HttpInitializer → Outcome (ℕ × HttpInitializer)
unfolding camerainfo_send count_uuid start_daemon
init curl print h boot s =
    if count_uuid boot.entries == 0
    then (camerainfo_send curl print h boot.generated >>= registered boot (keep_uuid boot s))
    else if count_uuid boot.entries == 1
    then ok (start_daemon boot boot.uuid_line s)
    else ok (2, s)

-- `HttpInitializer::start`: 1 without a daemon.
unfoldable pub start : HttpInitializer → ℕ
start s = elim s.daemon [ none ↦ 1 | some d ↦ 0 ]

-- `HttpInitializer::stop`: the daemon that it hands to `MHD_stop_daemon`, and the result.
unfoldable pub stop : HttpInitializer → ℕ × Option Daemon
stop s = (0, s.daemon)

-- The directory of a camera that has written its identifier.
count_uuid_found :
    (before after : List (String × Bool)) → count_uuid (before ++ ("uuid", true) ∷ after) ≡ 1
unfolding count_uuid
count_uuid_found [] after = refl
count_uuid_found ((name, regular) ∷ before) after =
    rw (count_uuid_found before after) (ground arith)

-- A first boot whose identifier file opens and whose registration answers an error answers 3; at a
-- second boot that finds the file and starts the daemon, `init` answers 0 under that identifier and
-- sends nothing.
pub init-unregistered :
    (curl : Curl) (print : Printing) (h : EventHandlerHttp) (first second : Boot)
    (s s' : HttpInitializer) (code : ℕ) (sent : List Sent) (rest : List (String × Bool))
    → count_uuid first.entries ≡ 0
    → first.uuid_opens ≡ true
    → camerainfo_send curl print h first.generated ≡ ok (code, sent)
    → code ≢ 0
    → second.entries ≡ first.entries ++ ("uuid", true) ∷ rest
    → second.uuid_line ≡ first.generated
    → second.daemon_starts ≡ true
    → (init curl print h first s
        ≡ ok (3, record s { written = s.written ++ first.generated ∷ []; sent = s.sent ++ sent }))
      × (init curl print h second s'
          ≡ ok (0, record s' { uuid = first.generated; daemon = some (daemon_options s'.config) }))
unfolding init start_daemon
init-unregistered curl print h first second s s' code sent rest none_yet opens failed nz again line
      starts =
    (
      rw (none_yet, failed, opens, zero_test code nz) refl,
      rw (again, count_uuid_found first.entries rest, line, starts) refl,
    )

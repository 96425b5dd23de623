-- ===== src/Event/Processor.antt =====
-- EventProcessor.cpp: the reading of an event's directory, the loading of its program and the call
-- of it.
use Prim.Native.String
use rpi_cam.Base.{
  ℕ, Bool, true, false, not, Option, none, some, List, [], ◌∷◌, String, str_eq, ◌==◌, if◌then◌else◌,
  ◌≡◌, refl,
}
use rpi_cam.Base.Int.{ℤ, pos, negsuc}
use rpi_cam.Base.Text.{Stoi, number, invalid_argument, out_of_range, stoi}
use rpi_cam.Base.Outcome.{Outcome, ok, fault, null_pointer, ◌>>=◌}
use rpi_cam.VideoQueue.{VideoBuffer}
use rpi_cam.Http.Sender.{Curl, Printing, EventHandlerHttp, Sent, event_send}

abbrev pub non_negative : Stoi → Bool
non_negative (number (pos n)) = true
non_negative (number (negsuc n)) = false
non_negative invalid_argument = false
non_negative out_of_range = false

-- `is_positive`: also true for 0.
unfoldable pub is_positive : String → Bool
unfolding stoi
is_positive str = non_negative (stoi str)

-- `int (*event_function)(buffer, size, timestamp, width, height)` of the loaded program, which may
-- keep state: what its call after `calls` earlier ones answers.
abbrev pub EventFunction : Type 0
EventFunction = (calls : ℕ) → VideoBuffer → ℤ

-- `class EventProcessor`; a member that the constructor does not set is `none`.
pub record EventProcessor : Type 0 where
  pub event_name : String
  pub fps : Option ℤ
  pub enable : Option Bool
  pub event_program : Option EventFunction

-- A file of the event's directory: its name, and the number that `>>` reads from it.
pub record DirectoryEntry : Type 0 where
  pub filename : String
  pub read_int : Option ℤ

abbrev pub to_bool : ℤ → Bool
to_bool (pos n) = not (n == 0)
to_bool (negsuc n) = true

abbrev pub set_enable : Option ℤ → EventProcessor → EventProcessor
set_enable none e = e
set_enable (some z) e = record e { enable = some (to_bool z) }

abbrev pub set_fps : Stoi → EventProcessor → EventProcessor
set_fps (number z) e = record e { fps = some z }
set_fps invalid_argument e = e
set_fps out_of_range e = e

-- One round of the loop over the directory.
unfoldable pub read_entry : DirectoryEntry → EventProcessor → EventProcessor
unfolding is_positive stoi
read_entry entry e =
    if str_eq entry.filename "enable"
    then set_enable entry.read_int e
    else if is_positive entry.filename
    then set_fps (stoi entry.filename) e
    else e

unfoldable pub read_directory : List DirectoryEntry → EventProcessor → EventProcessor
unfolding read_entry
read_directory [] e = e
read_directory (entry ∷ entries) e = read_directory entries (read_entry entry e)

-- The dynamic loader: `none` if `dlopen` fails, `some none` if the symbol is missing.
abbrev pub Loader : Type 0
Loader = String → Option (String → Option EventFunction)

abbrev pub so_path : String → String
so_path name = String.◌++◌ "./event/" (String.◌++◌ name (String.◌++◌ "/" (String.◌++◌ name ".so")))

abbrev pub link : Option EventFunction → EventProcessor → ℕ × EventProcessor
link none e = (2, record e { event_program = none })
link (some f) e = (0, record e { event_program = some f })

abbrev pub open_program :
    Option (String → Option EventFunction) → EventProcessor → ℕ × EventProcessor
open_program none e = (1, e)
open_program (some symbols) e = link (symbols "event_main") e

-- `EventProcessor::event_init`
unfoldable pub event_init : Loader → EventProcessor → ℕ × EventProcessor
event_init dlopen e = open_program (dlopen (so_path e.event_name)) e

-- The constructor ignores what `event_init` answers.
unfoldable pub construct : Loader → List DirectoryEntry → String → EventProcessor
unfolding event_init read_directory
construct dlopen entries name =
    (event_init dlopen (
      read_directory entries
        (record { event_name = name; fps = none; enable = none; event_program = none }))).1

-- What the reports of a thread use: libcurl's answers to the transfer that follows the call of the
-- program after `calls` earlier ones, the printing, and the handler's members.
pub record Reports : Type 0 where
  pub curl : (calls : ℕ) → Curl
  pub print : Printing
  pub handler : EventHandlerHttp

-- What follows from the result of the program: an error, an event to send, whose result is dropped,
-- or nothing.
abbrev pub verdict : Reports → ℕ → ℤ → VideoBuffer → Outcome (ℕ × List Sent)
verdict env calls (negsuc n) buffer = ok (1, [])
verdict env calls (pos n) buffer =
    let sending = event_send (env.curl calls) env.print env.handler (pos buffer.timestamp) in
    if n == 0 then ok (0, []) else (sending >>= λ r. ok (0, r.1))

-- `EventProcessor::event_exec`: the result, and the requests sent.
unfoldable pub event_exec : Reports → EventProcessor → ℕ → VideoBuffer → Outcome (ℕ × List Sent)
unfolding event_send
event_exec env e calls buffer = elim e.event_program [
  | none ↦ fault null_pointer
  | some f ↦ verdict env calls (f calls buffer) buffer
]

-- The files of an upload that was stored with the rate `fps`: the program, an empty file named by
-- the rate, and `enable`.
abbrev pub uploaded_files : String → String → List DirectoryEntry
uploaded_files name fps =
    record { filename = name; read_int = none }
    ∷ record { filename = fps; read_int = none }
    ∷ record { filename = "enable"; read_int = some (pos 1) }
    ∷ []

-- The directory of an upload gives back its rate, enabled, if the program's name is neither a
-- number nor `enable`.
pub read_directory-uploaded_files :
    (name fps : String) (n : ℕ) (e : EventProcessor)
    → str_eq name "enable" ≡ false
    → is_positive name ≡ false
    → str_eq fps "enable" ≡ false
    → stoi fps ≡ number (pos n)
    → read_directory (uploaded_files name fps) e
      ≡ record e { fps = some (pos n); enable = some true }
unfolding read_directory read_entry is_positive
read_directory-uploaded_files name fps n e ne np fe is_n = rw (ne, np, fe, is_n) refl

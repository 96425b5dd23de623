-- ===== src/Rtsp/Quiet.antt =====
-- RTSPListener.cpp: the sessions that a history of the listener leaves.
use rpi_cam.Base.{
  ℕ, zero, suc, ◌+◌, Option, none, some, List, [], ◌∷◌, ◌++◌, String, length, length-append,
  get_elem?, set, arith, ◌≡◌, refl, ap, subst, All, All-append,
}
use rpi_cam.Base.Dict.{Dict}
use rpi_cam.Rtsp.Session.{Session}
use rpi_cam.Rtsp.Lifecycle.{Reception, build}
use rpi_cam.Rtsp.Listener.{Event, accepted, received}
use rpi_cam.Rtsp.Ending.{Quits}

-- What a reception must be for the session that stands at its place.
abbrev pub MayRead : {H : Type 0} → Option (Option (Session H)) → Reception → Type 0
MayRead (some (some s)) r = Quits (r ∷ [])
MayRead _ r = Unit {0}

abbrev pub MayHappen : {H : Type 0} → Event → List (Option (Session H)) → Type 0
MayHappen (accepted uuid) sessions = Unit {0}
MayHappen (received i r) sessions = MayRead (get_elem? sessions i) r

abbrev pub ended_at :
    {H : Type 0}
    → ℕ
    → Option (Option (Session H))
    → List (Option (Session H))
    → List (Option (Session H))
ended_at i (some (some s)) sessions = set sessions i none
ended_at i _ sessions = sessions

-- The sessions after an event: one more, or one that has ended.
abbrev pub after_event :
    {H : Type 0} → Dict String → Event → List (Option (Session H)) → List (Option (Session H))
after_event path (accepted none) sessions = sessions
after_event path (accepted (some uuid)) sessions = sessions ++ some (build uuid path) ∷ []
after_event path (received i r) sessions = ended_at i (get_elem? sessions i) sessions

abbrev pub after_events :
    {H : Type 0} → Dict String → List Event → List (Option (Session H)) → List (Option (Session H))
after_events path [] sessions = sessions
after_events path (e ∷ events) sessions = after_events path events (after_event path e sessions)

-- No session that is still served reads a request, finds its socket closed by itself or has a
-- shutdown that throws.
abbrev pub IsQuiet : {H : Type 0} → Dict String → List Event → List (Option (Session H)) → Type 0
IsQuiet path [] sessions = Unit
IsQuiet path (e ∷ events) sessions =
    MayHappen e sessions × IsQuiet path events (after_event path e sessions)

-- The connections that were accepted.
abbrev pub connections : List Event → ℕ
connections [] = 0
connections (accepted none ∷ events) = connections events
connections (accepted (some uuid) ∷ events) = 1 + connections events
connections (received i r ∷ events) = connections events

-- A session that has not chosen a handler yet.
abbrev pub IsFresh : {H : Type 0} → Option (Session H) → Type 0
IsFresh none = Unit
IsFresh (some s) = s.handler ≡ none

pub All-get :
    {A : Type 0} (P : A → Type 0) (xs : List A) (i : ℕ) (x : A)
    → All P xs
    → get_elem? xs i ≡ some x
    → P x
All-get P [] i x a h = absurd cc
All-get P (y ∷ xs) zero x (p, a) h = let same : y ≡ x = cc in subst P same p
All-get P (y ∷ xs) (suc i) x (p, a) h = All-get P xs i x a h

All-set :
    {A : Type 0} (P : A → Type 0) (xs : List A) (i : ℕ) (x : A)
    → All P xs
    → P x
    → All P (set xs i x)
All-set P [] i x a p = tt
All-set P (y ∷ xs) zero x (q, a) p = (p, a)
All-set P (y ∷ xs) (suc i) x (q, a) p = (q, All-set P xs i x a p)

length-set : {A : Type 0} (xs : List A) (i : ℕ) (x : A) → length (set xs i x) ≡ length xs
length-set [] i x = refl
length-set (y ∷ xs) zero x = refl
length-set (y ∷ xs) (suc i) x = ap suc (length-set xs i x)

length-ended_at :
    {H : Type 0} (i : ℕ) (t : Option (Option (Session H))) (sessions : List (Option (Session H)))
    → length (ended_at i t sessions) ≡ length sessions
length-ended_at i none sessions = refl
length-ended_at i (some none) sessions = refl
length-ended_at i (some (some s)) sessions = length-set sessions i none

-- Each accepted connection has a session of its own.
pub length-after_events :
    {H : Type 0} (path : Dict String) (events : List Event) (sessions : List (Option (Session H)))
    → length (after_events path events sessions) ≡ length sessions + connections events
length-after_events path [] sessions = omega arith
length-after_events path (accepted none ∷ events) sessions =
    length-after_events path events sessions
length-after_events path (accepted (some uuid) ∷ events) sessions =
    let all = sessions ++ some (build uuid path) ∷ [] in
    omega (
      arith,
      length-after_events path events all,
      length-append sessions (some (build uuid path) ∷ []),
    )
length-after_events path (received i r ∷ events) sessions =
    let t = get_elem? sessions i in
    omega
      (arith, length-after_events path events (ended_at i t sessions), length-ended_at i t sessions)

ended_at-IsFresh :
    {H : Type 0} (i : ℕ) (t : Option (Option (Session H))) (sessions : List (Option (Session H)))
    → All IsFresh sessions
    → All IsFresh (ended_at i t sessions)
ended_at-IsFresh i none sessions a = a
ended_at-IsFresh i (some none) sessions a = a
ended_at-IsFresh i (some (some s)) sessions a = All-set IsFresh sessions i none a tt

pub after_event-IsFresh :
    {H : Type 0} (path : Dict String) (e : Event) (sessions : List (Option (Session H)))
    → All IsFresh sessions
    → All IsFresh (after_event path e sessions)
unfolding build
after_event-IsFresh path (accepted none) sessions a = a
after_event-IsFresh path (accepted (some uuid)) sessions a =
    All-append IsFresh sessions _ a (refl, tt)
after_event-IsFresh path (received i r) sessions a =
    ended_at-IsFresh i (get_elem? sessions i) sessions a

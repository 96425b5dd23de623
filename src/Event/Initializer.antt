-- ===== src/Event/Initializer.antt =====
-- EventInitializer.cpp: `init` over the directory of the programs, and `stop`.
use rpi_cam.Base.{
  ℕ, zero, suc, ◌+◌, ◌≤◌, ◌<◌, Option, none, some, String, str_eq, eq_iff, ◌≡◌, ◌≢◌, refl, sym, ap,
  ◌∙◌, List, length, length-append, get_elem?, set, get_elem?-append_last, get_elem?-append,
  get_elem?-set, arith, eq_refl, [], ◌∷◌, All, false, Bool-cases, ◌==◌, if◌then◌else◌, subst,
  Option-cases, inl, inr,
}
use rpi_cam.Base.Dict.{Dict, find, emplace, find-emplace_new, emplace_old}
use rpi_cam.Base.Outcome.{ok}
use rpi_cam.VideoQueue.{VideoQueue, remove_event}
use rpi_cam.VideoQueue.Registry.{remove_event-find}
use rpi_cam.Event.Processor.{EventProcessor, construct}
use rpi_cam.Event.Handler.{EventHandler, Disk, start_event, stop_event, init, stop}

-- Each of the names has its own live object, the next one after that of the name before.
abbrev AreRunning : ℕ → List String → EventHandler → Type 0
AreRunning n [] h = Unit
AreRunning n (name ∷ names) h =
    (find name h.event_thread ≡ some n)
    × ((e : EventProcessor) × (get_elem? h.objects n ≡ some (some e)))
    × AreRunning (n + 1) names h

-- No name twice.
abbrev pub AreDistinct : List String → Type 0
AreDistinct [] = Unit
AreDistinct (name ∷ names) = All (λ other. str_eq name other ≡ false) names × AreDistinct names

get_elem?-set_ne :
    {A : Type 0} (xs : List A) (i j : ℕ) (v : A) → i ≢ j → get_elem? (set xs i v) j ≡ get_elem? xs j
get_elem?-set_ne [] i j v ne = refl
get_elem?-set_ne (x ∷ xs) zero zero v ne = absurd (ne refl)
get_elem?-set_ne (x ∷ xs) zero (suc j) v ne = refl
get_elem?-set_ne (x ∷ xs) (suc i) zero v ne = refl
get_elem?-set_ne (x ∷ xs) (suc i) (suc j) v ne = get_elem?-set_ne xs i j v λ e. ne (ap suc e)

find-emplace_kept :
    (other name : String) (v p : ℕ) (d : Dict ℕ)
    → find name d ≡ some p
    → find name (emplace other v d) ≡ some p
find-emplace_kept other name v p d e = elim (Option-cases (find other d)) [
  | inl k ↦ find-emplace_new other name v d k ∙ ground (arith, e, k, eq_iff other name)
  | inr (w, k) ↦ ap (find name) (emplace_old other v w d k) ∙ e
]

fresh_after :
    (name : String) (v : ℕ) (names : List String) (d : Dict ℕ)
    → find name d ≡ none
    → All (λ other. str_eq name other ≡ false) names
    → All (λ other. find other d ≡ none) names
    → All (λ other. find other (emplace name v d) ≡ none) names
fresh_after name v [] d new apart fresh = tt
fresh_after name v (other ∷ names) d new (ne, apart) (e, fresh) = (
  find-emplace_new name other v d new ∙ ground (arith, ne, e),
  fresh_after name v names d new apart fresh,
)

AreRunning-set :
    (n m : ℕ) (names : List String) (h : EventHandler)
    → n < m
    → AreRunning m names h
    → AreRunning m names (record h { objects = set h.objects n none })
AreRunning-set n m [] h l r = tt
AreRunning-set n m (name ∷ names) h l (found, (e, there), r) = (
  found,
  (e, get_elem?-set_ne h.objects n m none (omega arith) ∙ there),
  AreRunning-set n (m + 1) names h (omega arith) r,
)

-- What later starts keep: the entry and the object of a name.
init-keeps :
    (disk : Disk) (names : List String) (h : EventHandler) (name : String) (p : ℕ)
    → find name h.event_thread ≡ some p
    → find name (init disk names h).0.event_thread ≡ some p
unfolding init start_event
init-keeps disk [] h name p e = e
init-keeps disk (other ∷ names) h name p e =
    init-keeps disk names (start_event disk other h).1 name p
      (find-emplace_kept other name (length h.objects) p h.event_thread e)

init-objects :
    (disk : Disk) (names : List String) (h : EventHandler) (p : ℕ) (o : Option EventProcessor)
    → get_elem? h.objects p ≡ some o
    → get_elem? (init disk names h).0.objects p ≡ some o
unfolding init start_event
init-objects disk [] h p o e = e
init-objects disk (other ∷ names) h p o e =
    init-objects disk names (start_event disk other h).1 p o (get_elem?-append h.objects _ p o e)

init-AreRunning :
    (disk : Disk) (names : List String) (h : EventHandler)
    → AreDistinct names
    → All (λ name. find name h.event_thread ≡ none) names
    → AreRunning (length h.objects) names (init disk names h).0
unfolding init start_event
init-AreRunning disk [] h d fresh = tt
init-AreRunning disk (name ∷ names) h (apart, d) (new, fresh) =
    let h₁ = (start_event disk name h).1 in
    let e = construct disk.dlopen (disk.files name) name in
    let next : length h₁.objects ≡ length h.objects + 1 = length-append h.objects (some e ∷ []) in
    (
      init-keeps disk names h₁ name (length h.objects) (
          find-emplace_new name name (length h.objects) h.event_thread new
          ∙ ground (arith, eq_refl name)),
      (
        e,
        init-objects disk names h₁ (length h.objects) (some e)
            (get_elem?-append_last h.objects (some e)),
      ),
      subst (λ n. AreRunning n names (init disk names h₁).0) next
          (init-AreRunning disk names h₁ d
            (fresh_after name (length h.objects) names h.event_thread new apart fresh)),
    )

stop-AreRunning :
    (names : List String) (n : ℕ) (h : EventHandler) (q : VideoQueue)
    → AreRunning n names h
    → (h' : EventHandler) × (q' : VideoQueue) × (stop names h q ≡ ok (0, h', q'))
      × ((i : ℕ) → i < n → get_elem? h'.objects i ≡ get_elem? h.objects i)
      × ((i : ℕ) → n ≤ i → i < n + length names → get_elem? h'.objects i ≡ some none)
      × All (λ name. find name q'.thread_info ≡ none) names
      × ((k : String) → find k q.thread_info ≡ none → find k q'.thread_info ≡ none)
unfolding stop stop_event
stop-AreRunning [] n h q r = (h, q, refl, λ i l. refl, λ i l k. absurd (omega arith), tt, λ k e. e)
stop-AreRunning (name ∷ names) n h q (found, (e, there), r) =
    let h₁ = record h { objects = set h.objects n none } in
    let q₁ = (remove_event name q).1 in
    let (h', q', e', kept, gone, out, stays) =
      stop-AreRunning names (n + 1) h₁ q₁ (AreRunning-set n (n + 1) names h (omega arith) r) in
    let removed : (k : String)
        → find k q₁.thread_info ≡ (if str_eq name k then none else find k q.thread_info) =
      λ k. (remove_event-find name k q).0 in
    (
      h',
      q',
      rw (found, there) e',
      λ i l. kept i (omega arith) ∙ get_elem?-set_ne h.objects n i none (omega arith),
      λ i l k. elim (Bool-cases (i == n)) [
        | inl same ↦
            subst (λ j. get_elem? h'.objects j ≡ some none) (ground (arith, same))
              (kept n (omega arith) ∙ get_elem?-set h.objects n none (some e) there)
        | inr other ↦ gone i (ground (arith, other)) (omega arith)
      ],
      (stays name (removed name ∙ ground (arith, eq_refl name)), out),
      λ k e. stays k (removed k ∙ ground (arith, e)),
    )

init-names : (disk : Disk) (names : List String) (h : EventHandler) → (init disk names h).1 ≡ names
unfolding init
init-names disk [] h = refl
init-names disk (name ∷ names) h =
    ap (λ rest. name ∷ rest) (init-names disk names (start_event disk name h).1)

get_elem?-within :
    {A : Type 0} (xs : List A) (i : ℕ) → i < length xs → (x : A) × (get_elem? xs i ≡ some x)
get_elem?-within [] i l = absurd (omega arith)
get_elem?-within (x ∷ xs) zero l = (x, refl)
get_elem?-within (x ∷ xs) (suc i) l = get_elem?-within xs i (omega (arith, l))

-- If the directory names each program once and none of them has an entry yet, then `stop` after
-- `init` answers 0, has deleted the object of each program and no older one, and none of the names
-- is left in the video queue.
pub stop-init :
    (disk : Disk) (names : List String) (h : EventHandler) (q : VideoQueue)
    → AreDistinct names
    → All (λ name. find name h.event_thread ≡ none) names
    → (h' : EventHandler) × (q' : VideoQueue) × (stop (init disk names h).1 (init disk names h).0 q
        ≡ ok (0, h', q'))
      × ((i : ℕ) → i < length h.objects → get_elem? h'.objects i ≡ get_elem? h.objects i)
      × ((i : ℕ)
          → length h.objects ≤ i
          → i < length h.objects + length names
          → get_elem? h'.objects i ≡ some none)
      × All (λ name. find name q'.thread_info ≡ none) names
stop-init disk names h q d fresh =
    let (h', q', e, kept, gone, out, _) =
      stop-AreRunning names (length h.objects) (init disk names h).0 q
        (init-AreRunning disk names h d fresh) in
    (
      h',
      q',
      rw (init-names disk names h) e,
      λ i l.
          let (o, there) = get_elem?-within h.objects i l in
          kept i l ∙ init-objects disk names h i o there ∙ sym there,
      gone,
      out,
    )

-- ===== src/Rtsp/First.antt =====
-- How long a PLAY waits for its first packet, and what it states of it.
use rpi_cam.Rtsp.Playing.{
  set_state, rtp_appsink_new_sample_callback, await_first, wait_first, play_changed, play_request,
  rtp_info_text, noted,
}
use rpi_cam.Base.Outcome.{null_pointer, deref, ok, fault, blocked, ok-injective, >>=-eq-ok}
use Prim.Native.Nat.{zero, suc}
use rpi_cam.Base.{
  ℕ, Bool, true, false, Option, none, some, List, [], ◌∷◌, String, ◌≡◌, refl, sym, ap, ◌∙◌, ◌⊎◌,
  inl, inr, arith, Option-cases, Bool-cases,
}
use rpi_cam.Base.Int.{pos}
use rpi_cam.Rtsp.File.{RtpInfo, GstFile, Packet, FileEnv, Files}

-- The first packet is pulled, and its header states `seq` and `time`.
abbrev pub Starts : List Packet → ℕ → ℕ → Type 0
Starts [] seq time = ⊥
Starts (p ∷ packets) seq time = (p.pulled ≡ true) × (p.header ≡ some (seq, time))

await_first-started :
    (packets : List Packet) (info : RtpInfo)
    → info.first ≡ false
    → await_first packets info ≡ ok info
unfolding await_first
await_first-started [] info h = ground arith
await_first-started (p ∷ packets) info h = ground arith

-- The wait ends with the first packet, or never.
await_first-cases :
    (packets : List Packet) (info : RtpInfo) (is_open : Bool)
    → info.first ≡ true
    → info.rtp_socket ≡ some is_open
    → ((seq time : ℕ) × Starts packets seq time
        × (await_first packets info ≡ ok (noted seq time info)))
      ⊎ (((seq time : ℕ) → Starts packets seq time → ⊥)
          × (await_first packets info ≡ fault blocked))
unfolding await_first rtp_appsink_new_sample_callback
await_first-cases [] info is_open f o = inr (λ seq time s. s, ground arith)
await_first-cases (p ∷ packets) info is_open f o = elim (Bool-cases p.pulled) [
  | inr lost ↦ inr (λ seq time s. ground arith, ground arith)
  | inl got ↦ elim (Option-cases p.header) [
    | inl plain ↦ inr (λ seq time s. ground arith, ground arith)
    | inr ((seq, time), stated) ↦ inl (
      seq,
      time,
      (got, stated),
      ground (arith, await_first-started packets (noted seq time info) refl),
    )
  ]
]

wait_first-await_first :
    (env : FileEnv) (info : RtpInfo)
    → env.rereads ≡ true
    → wait_first env info ≡ await_first env.packets info
unfolding wait_first
wait_first-await_first env info r = rw r refl

-- If the compiler leaves the wait in, a PLAY of a pipeline that can start returns exactly when the first packet is pulled and has a
-- readable header, and then it states that packet's sequence number and time; otherwise it waits
-- for ever.
pub play_request-cases :
    (env : FileEnv) (range : String) (h : GstFile) (files : Files) (info : RtpInfo) (n : ℕ)
    (is_open : Bool)
    → h.rtp_info ≡ some info
    → info.pipeline ≡ some (suc n)
    → info.first ≡ true
    → info.rtp_socket ≡ some is_open
    → env.changes_state ≡ true
    → env.rereads ≡ true
    → ((seq time : ℕ) × Starts env.packets seq time
        × (play_request env range h files
            ≡ ok (
              pos 0,
              rtp_info_text (noted seq time info),
              record h { rtp_info = some (noted seq time info) },
              files,
            )))
      ⊎ (((seq time : ℕ) → Starts env.packets seq time → ⊥)
          × (play_request env range h files ≡ fault blocked))
unfolding play_request play_changed
play_request-cases env range h files info n is_open i p f o c r =
    let w = wait_first-await_first env info r in
    elim (await_first-cases env.packets info is_open f o) [
      | inl (seq, time, s, e) ↦ inl (seq, time, s, ground (arith, e, w))
      | inr (never, e) ↦ inr (never, ground (arith, e, w))
    ]

pub await_first-seen :
    (packets : List Packet) (info seen : RtpInfo)
    → await_first packets info ≡ ok seen
    → (seen.first ≡ false)
      × (seen.pipeline ≡ info.pipeline)
      × (seen.rtp_socket ≡ info.rtp_socket)
      × (seen.rtcp_socket ≡ info.rtcp_socket)
unfolding await_first rtp_appsink_new_sample_callback
await_first-seen [] info seen e = ground arith
await_first-seen (p ∷ packets) info seen e = elim (Option-cases p.header) [
  | inl plain ↦ ground arith
  | inr ((seq, time), stated) ↦
      ground (arith, await_first-started packets (noted seq time info) refl)
]

-- Whether or not it waits, a PLAY keeps the pipeline and the sockets.
pub wait_first-seen :
    (env : FileEnv) (info seen : RtpInfo)
    → wait_first env info ≡ ok seen
    → (seen.pipeline ≡ info.pipeline)
      × (seen.rtp_socket ≡ info.rtp_socket)
      × (seen.rtcp_socket ≡ info.rtcp_socket)
unfolding wait_first
wait_first-seen env info seen e = elim (Bool-cases env.rereads) [
  | inl y ↦ let (_, p, s, t) = await_first-seen env.packets info seen (rw y at e) in (p, s, t)
  | inr n ↦
      let same : seen ≡ info = sym (ok-injective (rw n at e)) in
      (ap (λ x. x.pipeline) same, ap (λ x. x.rtp_socket) same, ap (λ x. x.rtcp_socket) same)
]

-- What a PLAY that is answered 0 has done.
record Played (env : FileEnv) (info : RtpInfo) (text : String) (h h' : GstFile) : Type 0 where
  seen : RtpInfo
  awaited : wait_first env info ≡ ok seen
  stated : text ≡ rtp_info_text seen
  kept : h' ≡ record h { rtp_info = some seen }

play_changed-Played :
    (env : FileEnv) (changed : Bool) (info : RtpInfo) (text : String) (h h' : GstFile)
    (files files' : Files)
    → play_changed env changed info h files ≡ ok (pos 0, text, h', files')
    → (changed ≡ true) × Played env info text h h'
unfolding play_changed
play_changed-Played env false info text h h' files files' e = absurd (ground arith)
play_changed-Played env true info text h h' files files' e =
    let (seen, w, f) = >>=-eq-ok (wait_first env info) _ e in
    let same = sym (ok-injective f) in
    (
      refl,
      record { seen = seen; awaited = w; stated = ap (λ x. x.1) same; kept = ap (λ x. x.2) same },
    )

set_state-again :
    (env env' : FileEnv) (pipeline : Option ℕ)
    → set_state env pipeline ≡ ok true
    → env'.changes_state ≡ true
    → set_state env' pipeline ≡ ok true
set_state-again env env' none s c = absurd (ground arith)
set_state-again env env' (some zero) s c = absurd (ground arith)
set_state-again env env' (some (suc n)) s c = ground arith

play_request-started :
    (env : FileEnv) (range : String) (h : GstFile) (files : Files) (seen : RtpInfo)
    → h.rtp_info ≡ some seen
    → set_state env seen.pipeline ≡ ok true
    → wait_first env seen ≡ ok seen
    → play_request env range h files ≡ ok (pos 0, rtp_info_text seen, h, files)
unfolding play_request play_changed
play_request-started env range h files seen i s w = ground (arith, w)

-- If the compiler leaves the wait in, a PLAY that has returned is answered the same again, with the numbers of the first packet of
-- all, however much has been played since.
pub play_request-again :
    (env env' : FileEnv) (range range' text : String) (h h' : GstFile) (files files' : Files)
    → play_request env range h files ≡ ok (pos 0, text, h', files')
    → env'.changes_state ≡ true
    → env.rereads ≡ true
    → env'.rereads ≡ true
    → play_request env' range' h' files' ≡ ok (pos 0, text, h', files')
unfolding play_request play_changed
play_request-again env env' range range' text h h' files files' e c l l' =
    let (info, i, f) = >>=-eq-ok (deref null_pointer h.rtp_info) _ e in
    let (changed, s, g) = >>=-eq-ok (set_state env info.pipeline) _ f in
    let (t, p) = play_changed-Played env changed info text h h' files files' g in
    let (started, kept, _, _) =
      await_first-seen env.packets info p.seen
        (sym (wait_first-await_first env info l) ∙ p.awaited) in
    let s' = set_state-again env env' info.pipeline (s ∙ ap ok t) c in
    let w =
      wait_first-await_first env' p.seen l' ∙ await_first-started env'.packets p.seen started in
    let s'' : set_state env' p.seen.pipeline ≡ ok true = rw kept s' in
    ap (λ x. play_request env' range' x files') p.kept
    ∙ play_request-started env' range' (record h { rtp_info = some p.seen }) files' p.seen refl s''
        w
    ∙ sym (λ j. ok (pos 0, p.stated j, p.kept j, files'))

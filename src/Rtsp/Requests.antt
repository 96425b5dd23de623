-- ===== src/Rtsp/Requests.antt =====
-- What a session answers, and how it goes on.
use rpi_cam.Base.{String, ◌∙◌, ◌↔◌, ℕ, ◌≡◌, refl, false, Option, none, some, arith, ap, sym}
use rpi_cam.Base.Text.{is_empty_text}
use rpi_cam.Base.Outcome.{ok, fault, uninitialised, null_pointer, deref, >>=-eq-ok, ok-injective}
use rpi_cam.Rtsp.Session.{
  client_ports, Verb, options, describe, setup, play, pause, teardown, other, Request, Response,
  Handler, Library, Session, open_session, respond_to, read, run_once, write_rtsp,
}

-- The verbs whose answer does not depend on what the handler returned.
abbrev pub IsIndifferent : Verb → Type 0
IsIndifferent options = Unit
IsIndifferent describe = ⊥
IsIndifferent setup = Unit
IsIndifferent play = Unit
IsIndifferent pause = Unit
IsIndifferent teardown = Unit
IsIndifferent other = ⊥

-- These requests are answered 200 whatever code the handler returned, if it returns, and the
-- connection is to be closed after a TEARDOWN only.
pub respond_to-IsIndifferent :
    {H W : Type 0} (handler : Handler H W) (library : Library) (v : Verb) (ports : String)
    (r : Request) (s : Session H) (h h' : H) (w w' : W) (res : Option Response)
    → IsIndifferent v
    → respond_to handler library v ports r s h w ≡ ok (res, h', w')
    → (answer : Response) × (res ≡ some answer)
      × (answer.result ≡ 200)
      × ((write_rtsp answer ≡ 1) ↔ (v ≡ teardown))
unfolding respond_to write_rtsp
respond_to-IsIndifferent handler library options ports r s h h' w w' res i e =
    let (t, _, f) = >>=-eq-ok (handler.option_request h w) _ e in
    (_, ap (λ x. x.0) (sym (ok-injective f)), refl, ground arith)
respond_to-IsIndifferent handler library describe ports r s h h' w w' res i e = absurd i
respond_to-IsIndifferent handler library setup ports r s h h' w w' res i e =
    let (t, _, f) =
      >>=-eq-ok (handler.setup_request s.file_path library.client_address ports h w) _ e in
    (_, ap (λ x. x.0) (sym (ok-injective f)), refl, ground arith)
respond_to-IsIndifferent handler library play ports r s h h' w w' res i e =
    let (t, _, f) = >>=-eq-ok (handler.play_request r.range h w) _ e in
    (_, ap (λ x. x.0) (sym (ok-injective f)), refl, ground arith)
respond_to-IsIndifferent handler library pause ports r s h h' w w' res i e =
    let (t, _, f) = >>=-eq-ok (handler.pause_request r.range h w) _ e in
    (_, ap (λ x. x.0) (sym (ok-injective f)), refl, ground arith)
respond_to-IsIndifferent handler library teardown ports r s h h' w w' res i e =
    let (t, _, f) = >>=-eq-ok (handler.teardown_request h w) _ e in
    (_, ap (λ x. x.0) (sym (ok-injective f)), refl, ground arith)
respond_to-IsIndifferent handler library other ports r s h h' w w' res i e = absurd i

-- A request that is read goes through the opened session, and leaves `ret` unwritten.
read-parts :
    {H W : Type 0} (handler : Handler H W) (library : Library) (r : Request) (s s' : Session H)
    (w w' : W) (res : Option Response) (ret : Option ℕ)
    → read handler library r s w ≡ ok (res, s', w', ret)
    → (ret ≡ none)
      × ((t : Session H × W) × (open_session handler library r s w ≡ ok t)
          × (s'.url_path ≡ t.0.url_path)
          × (s'.file_path ≡ t.0.file_path)
          × (s'.path ≡ t.0.path))
unfolding read
read-parts handler library r s s' w w' res ret e =
    let (t, o, f) = >>=-eq-ok (open_session handler library r s w) _ e in
    let (h, d, k) = >>=-eq-ok (deref null_pointer t.0.handler) _ f in
    let (ports, c, l) = >>=-eq-ok (client_ports r.method r.transport) _ k in
    let (u, m, g) = >>=-eq-ok (respond_to handler library r.method ports r t.0 h t.1) _ l in
    let same = sym (ok-injective g) in
    (
      ap (λ x. x.3) same,
      (t, o, ap (λ x. x.1.url_path) same, ap (λ x. x.1.file_path) same, ap (λ x. x.1.path) same),
    )

open_session-open :
    {H W : Type 0} (handler : Handler H W) (library : Library) (r : Request) (s : Session H) (w : W)
    → is_empty_text s.url_path ≡ false
    → open_session handler library r s w ≡ ok (s, w)
unfolding open_session
open_session-open handler library r s w filled = rw filled refl

-- An open session keeps its path and its file whatever the target of a request is.
pub read-open :
    {H W : Type 0} (handler : Handler H W) (library : Library) (r : Request) (s s' : Session H)
    (w w' : W) (res : Option Response) (ret : Option ℕ)
    → is_empty_text s.url_path ≡ false
    → read handler library r s w ≡ ok (res, s', w', ret)
    → (s'.url_path ≡ s.url_path) × (s'.file_path ≡ s.file_path) × (s'.path ≡ s.path)
read-open handler library r s s' w w' res ret filled e =
    let (_, (t, o, u, f, p)) = read-parts handler library r s s' w w' res ret e in
    let same = ok-injective (sym o ∙ open_session-open handler library r s w filled) in
    (u ∙ ap (λ x. x.0.url_path) same, f ∙ ap (λ x. x.0.file_path) same, p ∙ ap (λ x. x.0.path) same)

-- After any request that is read, whether the session goes on is decided by a variable that was
-- never written, so that the 1 of a TEARDOWN is lost.
pub run_once-read :
    {H W : Type 0} (handler : Handler H W) (library : Library) (r : Request) (s s' : Session H)
    (w w' : W) (res : Option Response) (ret : Option ℕ)
    → read handler library r s w ≡ ok (res, s', w', ret)
    → run_once handler library r s w ≡ fault uninitialised
unfolding run_once
run_once-read handler library r s s' w w' res ret e =
    let (unset, _) = read-parts handler library r s s' w w' res ret e in rw (e, unset) refl

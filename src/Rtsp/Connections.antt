-- ===== src/Rtsp/Connections.antt =====
-- The sessions over the handlers that the program has.
use rpi_cam.Base.{String, some, ◌≡◌, refl, false, arith}
use rpi_cam.Base.Int.{pos}
use rpi_cam.Base.Text.{is_empty_text}
use rpi_cam.Base.Outcome.{ok}
use rpi_cam.Rtsp.Session.{
  Request, Response, Session, Library, describe, respond_to, answer_describe,
}
use rpi_cam.Rtsp.File.{FileEnv}
use rpi_cam.VideoQueue.{VideoQueue}
use rpi_cam.Rtsp.Broadcast.{make_sdp-again}
use rpi_cam.Rtsp.Live.{Multicast, LiveEnv, make_sdp}
use rpi_cam.Rtsp.Streaming.{Streaming, live, Shared, streaming}

-- Once a description of the camera has been made, every DESCRIBE of it is answered 200 with that
-- text, whatever GStreamer would answer by then, and nothing that the sessions share changes.
pub respond_to-make_sdp :
    (file_env : FileEnv) (env live_env : LiveEnv) (library : Library) (ports : String) (r : Request)
    (s : Session Streaming) (w : Shared) (m m' : Multicast) (q q' : VideoQueue) (sdp : String)
    → make_sdp env m q ≡ ok (pos 0, sdp, m', q')
    → is_empty_text sdp ≡ false
    → w.instance ≡ some m'
    → (answer : Response) × (respond_to
          (streaming file_env live_env)
          library
          describe
          ports
          r
          s
          live
          w
        ≡ ok (some answer, live, w))
      × (answer.result ≡ 200)
      × (answer.body ≡ sdp)
unfolding respond_to answer_describe
respond_to-make_sdp file_env env live_env library ports r s w m m' q q' sdp made known i =
    let again = make_sdp-again env live_env m m' q q' w.queue sdp made known in
    (
      answer_describe (streaming file_env live_env) library r (pos 0) sdp,
      ground (arith, again),
      refl,
      refl,
    )

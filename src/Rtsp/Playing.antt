-- ===== src/Rtsp/Playing.antt =====
-- RTSPSessionHandlerGstFile: PLAY, PAUSE and TEARDOWN, and the callbacks that send the packets.
use rpi_cam.Base.{
  ◌&&◌, ℕ, Bool, true, false, Option, none, some, List, [], ◌∷◌, String, if◌then◌else◌,
}
use Prim.Native.String
use Prim.Native.Nat.{zero, suc}
use rpi_cam.Base.Int.{ℤ, pos}
use rpi_cam.Base.Decimal.{to_string}
use rpi_cam.Base.Outcome.{Outcome, ok, fault, null_pointer, use_after_free, blocked, deref, ◌>>=◌}
use rpi_cam.Rtsp.Sdp.{FlowReturn, flow_ok, flow_error}
use rpi_cam.Rtsp.Description.{goes_on}
use rpi_cam.Rtsp.File.{RtpInfo, GstFile, Packet, FileEnv, Files, unref, delete_rtp_info}

abbrev pub noted : ℕ → ℕ → RtpInfo → RtpInfo
noted seq time info = record info { init_seq = seq; init_rtptime = time; first = false }

-- The sequence number and the time of the first packet.
abbrev pub note_first : Packet → RtpInfo → Option RtpInfo
note_first p info =
    if info.first
    then (elim p.header [
      | none ↦ none
      | some (seq, time) ↦ some (record info { init_seq = seq; init_rtptime = time; first = false })
    ])
    else some info

-- `rtp_appsink_new_sample_callback`: the answer, the state, and whether the packet is sent.
unfoldable pub rtp_appsink_new_sample_callback :
    Packet → RtpInfo → Outcome (FlowReturn × RtpInfo × Bool)
rtp_appsink_new_sample_callback p info =
    if p.pulled
    then (elim (note_first p info) [
      | none ↦ ok (flow_error, info, false)
      | some info' ↦
          if p.maps
          then (deref null_pointer info'.rtp_socket >>= λ is_open. ok (flow_ok, info', is_open))
          else ok (flow_error, info', false)
    ])
    else ok (flow_error, info, false)

-- `rtcp_appsink_new_sample_callback`.
unfoldable pub rtcp_appsink_new_sample_callback :
    Packet → RtpInfo → Outcome (FlowReturn × RtpInfo × Bool)
rtcp_appsink_new_sample_callback p info =
    if p.pulled && p.maps
    then (deref null_pointer info.rtcp_socket >>= λ is_open. ok (flow_ok, info, is_open))
    else ok (flow_error, info, false)

-- `while(_rtp_info->first);` as it is written: the packets that come meanwhile, until one ends the
-- stream.
unfoldable pub await_first : List Packet → RtpInfo → Outcome RtpInfo
unfolding rtp_appsink_new_sample_callback
await_first [] info = if info.first then fault blocked else ok info
await_first (p ∷ packets) info =
    if info.first
    then (rtp_appsink_new_sample_callback p info >>= λ r.
        if goes_on r.0
        then await_first packets r.1
        else (if r.1.first then fault blocked else ok r.1))
    else ok info

-- The same in the compiled program. The flag is a plain bool that another thread writes, so that a
-- compiler may take the loop out; `rereads` says that it is left in.
unfoldable pub wait_first : FileEnv → RtpInfo → Outcome RtpInfo
unfolding await_first
wait_first env info = if env.rereads then await_first env.packets info else ok info

-- `gst_element_set_state`: does the change work. It refuses the null pointer.
abbrev pub set_state : FileEnv → Option ℕ → Outcome Bool
set_state env none = ok false
set_state env (some zero) = fault use_after_free
set_state env (some (suc n)) = ok env.changes_state

abbrev pub rtp_info_text : RtpInfo → String
rtp_info_text info =
    String.◌++◌ "seq=" (
      String.◌++◌ (to_string info.init_seq) (String.◌++◌ ";rtptime=" (to_string info.init_rtptime)))

unfoldable pub play_changed :
    FileEnv → Bool → RtpInfo → GstFile → Files → Outcome (ℤ × String × GstFile × Files)
unfolding wait_first to_string
play_changed env false info h files = ok (pos 1, "", h, files)
play_changed env true info h files = wait_first env info >>= λ seen.
    ok (pos 0, rtp_info_text seen, record h { rtp_info = some seen }, files)

unfoldable pub play_request :
    FileEnv → String → GstFile → Files → Outcome (ℤ × String × GstFile × Files)
unfolding play_changed
play_request env time h files = do
  info ← deref null_pointer h.rtp_info
  changed ← set_state env info.pipeline
  play_changed env changed info h files

unfoldable pub pause_request : FileEnv → String → GstFile → Files → Outcome (ℤ × GstFile × Files)
pause_request env time h files = do
  info ← deref null_pointer h.rtp_info
  changed ← set_state env info.pipeline
  ok (if changed then pos 0 else pos 1, h, files)

-- TEARDOWN from the sockets on: they are closed, the pipeline is released, and the structure is
-- deleted.
abbrev pub tear_down : RtpInfo → GstFile → Files → Outcome (ℤ × GstFile × Files)
tear_down info h files = do
  rtp ← deref null_pointer info.rtp_socket
  rtcp ← deref null_pointer info.rtcp_socket
  released ← unref info.pipeline
  gone ←
      delete_rtp_info
        (record info { rtp_socket = some false; rtcp_socket = some false; pipeline = released })
  ok (pos 0, record h { rtp_info = none }, files)

unfoldable pub teardown_request : FileEnv → GstFile → Files → Outcome (ℤ × GstFile × Files)
unfolding delete_rtp_info
teardown_request env h files = do
  info ← deref null_pointer h.rtp_info
  changed ← set_state env info.pipeline
  if changed then tear_down info h files else ok (pos 1, h, files)

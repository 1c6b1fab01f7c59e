-- ===== src/NtpCore/Sound/Requests.antt =====
-- `transmit_timeout` keeps the invariant, and meets no failed assertion.
use chrony.Common.{
  Bool, true, false, not, ◌&&◌, Option, none, some, ltb, ◌≡◌, ◌≢◌, ◌>>=◌, arith, refl,
}
use chrony.Common.Signed.{ℤ, pos, ltb_ℤ}
use chrony.NtpCore.{
  NcrInstance, Message, OperatingMode, md_offline, md_online, md_burst_was_offline,
  md_burst_was_online, is_offline,
}
use chrony.NtpCore.Timeouts.{requeue, close_client_socket, src_offline}
use chrony.NtpCore.Transmit.{TransmitIo, Transmission}
use chrony.NtpCore.Draws.{HasCandidates, transmit_packet-ends}
use chrony.NtpCore.Request.{
  RequestIo, change_opmode, burst_good_samples, auto_burst_samples, open_socket, wants_interleaved,
  is_initial, prepare_request, transmit_request, store_packet, count_request, back_off, count_burst,
  end_request, requeue_request, after_transmission, send_request, transmit_timeout,
}
use chrony.NtpCore.Sound.{
  IsSound, Returns, bind-Returns, if-Holds, if-Returns, adjust_poll-IsSound, process_sample-IsSound,
}
use chrony.NtpCore.Sound.Timers.{
  requeue-IsSound, take_offline-IsSound, initiate_sample_burst-IsSound, set_connectivity-IsSound,
}
use chrony.NtpCore.Sound.Responses.{Ready, process_saved_response-Ready}

change_opmode-IsSound :
    (inst : NcrInstance) (opmode : OperatingMode)
    → inst.opmode ≡ opmode
    → IsSound false inst
    → Returns (IsSound false) (change_opmode inst opmode)
change_opmode-IsSound inst md_offline e h = h
change_opmode-IsSound inst md_online e h =
    if-Returns (IsSound false) (inst.auto_burst && ltb_ℤ inst.minpoll inst.local_poll) _ _
      (λ _. initiate_sample_burst-IsSound false inst burst_good_samples (auto_burst_samples inst) h)
      (λ _. h)
change_opmode-IsSound inst md_burst_was_offline e h =
    if-Holds (IsSound false) (ltb_ℤ (pos 0) inst.burst_total_samples_to_go) inst _ (λ _. h)
      (λ _. take_offline-IsSound false inst h)
change_opmode-IsSound inst md_burst_was_online e h =
    if-Holds (IsSound false) (ltb_ℤ (pos 1) inst.burst_total_samples_to_go) inst _ (λ _. h)
      (λ _. ground arith)

open_socket-IsSound :
    (inst : NcrInstance) (fd : ℤ)
    → IsSound false inst
    → Returns (IsSound false) (open_socket inst fd)
unfolding open_socket close_client_socket
open_socket-IsSound inst fd h = ground arith

store_packet-IsSound :
    (inst : NcrInstance) (io : TransmitIo) (packet : Option Message)
    → IsSound false inst
    → IsSound false (store_packet inst io packet)
store_packet-IsSound inst io none h = h
store_packet-IsSound inst io (some message) h = h

back_off-IsSound :
    (inst : NcrInstance) (sent : Bool) (io : RequestIo)
    → IsSound false inst
    → IsSound false (back_off inst sent io)
unfolding back_off
back_off-IsSound inst sent io h =
    if-Holds (IsSound false) (ltb inst.tx_count 2) inst _ (λ _. h)
      (λ _. process_sample-IsSound false _ false io.update (
        if-Holds (IsSound false) sent _ inst (λ _. adjust_poll-IsSound false inst io.backoff h)
          (λ _. h)))

end_request-IsSound :
    (inst : NcrInstance) (opmode : OperatingMode) (sent reachable : Bool)
    → IsSound false inst
    → is_offline inst.opmode ≡ false
    → Returns (IsSound true) (requeue_request (end_request inst opmode sent reachable))
unfolding requeue_request count_burst
end_request-IsSound inst opmode sent reachable h online =
    bind-Returns (IsSound true) (IsSound true) _ _
      (requeue-IsSound _ (ended opmode).0 (ended opmode).1) (λ queued p. p)
  where
    ended :
        (o : OperatingMode)
        → IsSound false (end_request inst o sent reachable)
          × (is_offline (end_request inst o sent reachable).opmode ≡ false)
    ended md_offline = (h, online)
    ended md_online = (h, online)
    ended md_burst_was_offline = (h, online)
    ended md_burst_was_online =
        if-Holds (λ i. IsSound false i × (is_offline i.opmode ≡ false)) (not sent && not reachable)
          inst _ (λ _. (h, online)) (λ _. (h, online))

offline-IsSound :
    (inst : NcrInstance) → IsSound false inst → is_offline inst.opmode ≡ true → IsSound true inst
offline-IsSound inst h e = ground arith

after_transmission-IsSound :
    (inst : NcrInstance) (sent : Bool) (io : RequestIo)
    → IsSound false inst
    → Returns (IsSound true) (after_transmission inst sent io)
unfolding after_transmission count_request
after_transmission-IsSound inst sent io h =
    let counted = back_off (count_request inst sent) sent io in
    let sound = back_off-IsSound (count_request inst sent) sent io h in
    bind-Returns (IsSound false) (IsSound true) _ _
      (if-Returns (IsSound false) (not sent && inst.auto_offline) _ (some counted)
        (λ _. set_connectivity-IsSound false counted src_offline sound) (λ _. sound))
      (λ connected p.
        if-Returns (IsSound true) (is_offline connected.opmode) _ _
          (λ e. offline-IsSound connected p e)
          (λ e. end_request-IsSound connected connected.opmode sent io.reachable p e))

-- The transmission itself, of any result.
transmitted-IsSound :
    (o : Option Transmission) (f : Transmission → Option NcrInstance)
    → o ≢ none
    → ((tr : Transmission) → Returns (IsSound true) (f tr))
    → Returns (IsSound true) (o >>= f)
transmitted-IsSound none f h k = absurd (h refl)
transmitted-IsSound (some tr) f h k = k tr

send_request-IsSound :
    (inst : NcrInstance) (io : RequestIo)
    → HasCandidates io.transmit
    → IsSound false inst
    → Returns (IsSound true) (send_request inst io)
unfolding send_request prepare_request transmit_request
send_request-IsSound inst io draws h =
    bind-Returns (IsSound false) (IsSound true) (open_socket inst io.opened_fd) _
      (open_socket-IsSound inst io.opened_fd h)
      (λ opened p.
        let interleaved = wants_interleaved opened in
        let initial = is_initial opened in
        let ready = prepare_request opened interleaved initial in
        transmitted-IsSound (transmit_request ready interleaved initial io.version io.transmit) _
          (transmit_packet-ends _ _ _ _ _ _ _ _ _ _ _ _ io.transmit draws)
          (λ tr.
            after_transmission-IsSound (store_packet ready io.transmit tr.packet) tr.sent io
              (store_packet-IsSound ready io.transmit tr.packet p)))

running-IsSound :
    (inst : NcrInstance) → IsSound false inst → inst.tx_timeout ≡ true → IsSound true inst
running-IsSound inst h e = ground arith

pub transmit_timeout-IsSound :
    (inst : NcrInstance) (io : RequestIo)
    → HasCandidates io.transmit
    → IsSound true inst
    → Returns (IsSound true) (transmit_timeout inst io)
unfolding transmit_timeout
transmit_timeout-IsSound inst io draws h =
    let stopped = record inst { tx_timeout = false } in
    let sound : IsSound false stopped = ground arith in
    let P = IsSound true in
    bind-Returns (Ready true false) P _ _
      (process_saved_response-Ready true false stopped io.verdicts (sound, refl))
      (λ processed p.
        if-Returns P processed.tx_timeout _ _ (λ e. running-IsSound processed p.0 e)
          (λ _.
            bind-Returns (IsSound false) P _ _
              (change_opmode-IsSound processed processed.opmode refl p.0)
              (λ changed q.
                if-Returns P (is_offline changed.opmode) _ _ (λ e. offline-IsSound changed q e)
                  (λ online.
                    if-Returns P io.prepared _ _ (λ _. send_request-IsSound changed io draws q)
                      (λ _.
                        bind-Returns P P (requeue changed) _ (requeue-IsSound changed q online)
                          (λ queued r. process_sample-IsSound true queued false io.update r))))))

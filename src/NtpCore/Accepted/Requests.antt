-- ===== src/NtpCore/Accepted/Requests.antt =====
-- A request makes room for one more response.
use chrony.Common.{
  ℕ, suc, ◌≤◌, Bool, false, not, ◌&&◌, Option, none, some, ltb, ◌≡◌, ◌>>=◌, arith, refl,
}
use chrony.NtpCore.{
  NcrInstance, Message, is_offline, OperatingMode, md_offline, md_online, md_burst_was_offline,
  md_burst_was_online,
}
use chrony.NtpCore.Poll.{adjust_poll, process_sample}
use chrony.NtpCore.Timeouts.{requeue, close_client_socket, src_offline}
use chrony.NtpCore.Transmit.{TransmitIo, Transmission}
use chrony.NtpCore.Request.{
  RequestIo, open_socket, wants_interleaved, is_initial, prepare_request, transmit_request,
  store_packet, count_request, back_off, count_burst, end_request, requeue_request,
  after_transmission, send_request, transmit_timeout,
}
use chrony.NtpCore.Sound.{if-Holds}
use chrony.NtpCore.Accepted.{
  HasRoom, Room, room_stable, IfSome, bind-IfSome, if-IfSome, process_sample-Kept, requeue-Kept,
}
use chrony.NtpCore.Accepted.Responses.{process_saved_response-Room}
use chrony.NtpCore.Accepted.Timers.{set_connectivity-Room, change_opmode-Room}

module _ (n : ℕ) where
  back_off-Room :
      (inst : NcrInstance) (sent : Bool) (io : RequestIo)
      → Room n 0 inst
      → Room n 0 (back_off inst sent io)
  unfolding back_off adjust_poll
  back_off-Room inst sent io h =
      if-Holds (Room n 0) (ltb inst.tx_count 2) inst _ (λ _. h)
        (λ _.
          process_sample-Kept (HasRoom n 0) (room_stable n 0) _ false io.update
            (if-Holds (Room n 0) sent (adjust_poll inst io.backoff) inst (λ _. h) (λ _. h)))

  end_request-Room :
      (inst : NcrInstance) (opmode : OperatingMode) (sent reachable : Bool)
      → Room n 0 inst
      → Room n 0 (end_request inst opmode sent reachable)
  unfolding count_burst
  end_request-Room inst md_offline sent reachable h = h
  end_request-Room inst md_online sent reachable h = h
  end_request-Room inst md_burst_was_offline sent reachable h = h
  end_request-Room inst md_burst_was_online sent reachable h =
      if-Holds (Room n 0) (not sent && not reachable) inst (count_burst inst) (λ _. h) (λ _. h)

  after_transmission-Room :
      (inst : NcrInstance) (sent : Bool) (io : RequestIo)
      → Room n 0 inst
      → IfSome (Room n 0) (after_transmission inst sent io)
  unfolding after_transmission count_request requeue_request
  after_transmission-Room inst sent io h =
      let counted = back_off (count_request inst sent) sent io in
      let room = back_off-Room (count_request inst sent) sent io h in
      bind-IfSome (Room n 0) (Room n 0) _ _
        (if-IfSome (Room n 0) (not sent && inst.auto_offline) _ (some counted)
          (λ _. set_connectivity-Room n 0 counted src_offline room) (λ _. room))
        (λ connected p.
          if-IfSome (Room n 0) (is_offline connected.opmode) _ _ (λ _. p)
            (λ _.
              bind-IfSome (Room n 0) (Room n 0) _ _
                (requeue-Kept (HasRoom n 0) (room_stable n 0) _
                  (end_request-Room connected connected.opmode sent io.reachable p))
                (λ queued q. q)))

  transmitted-Room :
      (o : Option Transmission) (f : Transmission → Option NcrInstance)
      → ((tr : Transmission) → IfSome (Room n 0) (f tr))
      → IfSome (Room n 0) (o >>= f)
  transmitted-Room none f k = tt
  transmitted-Room (some tr) f k = k tr

store_packet-total :
    (inst : NcrInstance) (io : TransmitIo) (message : Option Message)
    → (store_packet inst io message).total_valid_count ≡ inst.total_valid_count
store_packet-total inst io none = refl
store_packet-total inst io (some message) = refl

-- Whatever is outstanding, it is one response.
outstanding_le_one : (n : ℕ) (inst : NcrInstance) → suc inst.total_valid_count ≤ n → Room n 0 inst
outstanding_le_one n inst h = ground arith

send_request-Room :
    (n : ℕ) (inst : NcrInstance) (io : RequestIo)
    → Room n 0 inst
    → IfSome (Room (suc n) 0) (send_request inst io)
unfolding send_request prepare_request open_socket close_client_socket
send_request-Room n inst io h =
    bind-IfSome (λ i. i.total_valid_count ≤ n) (Room (suc n) 0) (open_socket inst io.opened_fd) _
      (ground arith)
      (λ opened p.
        let interleaved = wants_interleaved opened in
        let initial = is_initial opened in
        let ready = prepare_request opened interleaved initial in
        transmitted-Room (suc n) (transmit_request ready interleaved initial io.version io.transmit)
          _
          (λ tr.
            after_transmission-Room (suc n) (store_packet ready io.transmit tr.packet) tr.sent io (
              outstanding_le_one (suc n) (store_packet ready io.transmit tr.packet)
                (omega (arith, store_packet-total ready io.transmit tr.packet, p)))))

more-Room : (n : ℕ) (inst : NcrInstance) → Room n 0 inst → Room (suc n) 0 inst
more-Room n inst h = omega (arith, h)

pub transmit_timeout-Room :
    (n : ℕ) (inst : NcrInstance) (io : RequestIo)
    → Room n 0 inst
    → IfSome (Room (suc n) 0) (transmit_timeout inst io)
unfolding transmit_timeout
transmit_timeout-Room n inst io h =
    let P = Room n 0 in
    let Q = Room (suc n) 0 in
    bind-IfSome P Q _ _
      (process_saved_response-Room n (record inst { tx_timeout = false }) io.verdicts h)
      (λ processed p.
        if-IfSome Q processed.tx_timeout _ _ (λ _. more-Room n processed p)
          (λ _.
            bind-IfSome P Q _ _ (change_opmode-Room n 0 processed processed.opmode p) (λ changed q.
              if-IfSome Q (is_offline changed.opmode) _ _ (λ _. more-Room n changed q)
                (λ _.
                  if-IfSome Q io.prepared _ _ (λ _. send_request-Room n changed io q)
                    (λ _.
                      bind-IfSome P Q (requeue changed) _
                        (requeue-Kept (HasRoom n 0) (room_stable n 0) changed q)
                        (λ queued r. more-Room n (process_sample queued false io.update) (
                          process_sample-Kept (HasRoom n 0) (room_stable n 0) queued false io.update
                            r)))))))

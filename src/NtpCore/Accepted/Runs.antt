-- ===== src/NtpCore/Accepted/Runs.antt =====
-- A source accepts at most one response for each request, over any sequence of events.
use chrony.Common.{
  ℕ, suc, ◌+◌, ◌≤◌, Bool, true, not, ◌&&◌, ◌||◌, Option, none, some, List, [], ◌∷◌, ◌==◌, ◌≡◌,
  ◌>>=◌, arith, refl, subst,
}
use native.Mathlib.Nat.{zero-add}
use chrony.Util.Ntp64.{is_zero_ntp64}
use chrony.NtpCore.{
  NcrInstance, Message, LocalTimestamp, is_offline, ntp_lvm_to_mode, mode_client, mode_active,
  is_hardware,
}
use chrony.Common.Signed.{ℤ}
use chrony.NtpCore.Timeouts.{close_client_socket, reset_instance, is_socket}
use chrony.NtpCore.Response.{Verdicts}
use chrony.NtpCore.Events.{
  is_response_mode, count_rx, process_packet, process_rx_known, receive_timeout, process_tx_known,
  slew_times, Event, packet, sent_packet, transmit_timer, receive_timer, saved_timer, connectivity,
  sample_burst, start, reset, poll_reset, new_minpoll, new_maxpoll, slewed, poll_fuel, step, run,
}
use chrony.NtpCore.Create.{SourceParameters, create_instance}
use chrony.NtpCore.Sound.{IsSound, Returns, if-Holds}
use chrony.NtpCore.Sound.Runs.{CanDraw, run-create_instance}
use chrony.NtpCore.Accepted.{
  HasRoom, Room, room_stable, IfSome, bind-IfSome, if-IfSome, reset_instance-Kept,
}
use chrony.NtpCore.Accepted.Responses.{
  SavesNothing, process_saved_response-Room, process_response-Room,
}
use chrony.NtpCore.Accepted.Requests.{transmit_timeout-Room}
use chrony.NtpCore.Accepted.Timers.{
  start_instance-Room, reset_poll-Room, initiate_sample_burst-Room, set_connectivity-Room,
  modify_poll-Room,
}

abbrev pub requests : Event → ℕ
requests (transmit_timer io) = 1
requests (packet fd rx_ts message v saved_v) = 0
requests (sent_packet tx_ts message acceptable v) = 0
requests receive_timer = 0
requests (saved_timer v) = 0
requests (connectivity c) = 0
requests (sample_burst good total) = 0
requests start = 0
requests reset = 0
requests poll_reset = 0
requests (new_minpoll poll) = 0
requests (new_maxpoll poll) = 0
requests (slewed adjust) = 0

-- How often the timer for transmission fires.
abbrev pub count_requests : List Event → ℕ
count_requests [] = 0
count_requests (e ∷ es) = requests e + count_requests es

abbrev pub EventSavesNothing : Event → Type 0
EventSavesNothing (packet fd rx_ts message v saved_v) = SavesNothing v
EventSavesNothing (transmit_timer io) = Unit {0}
EventSavesNothing (sent_packet tx_ts message acceptable v) = Unit {0}
EventSavesNothing receive_timer = Unit {0}
EventSavesNothing (saved_timer v) = Unit {0}
EventSavesNothing (connectivity c) = Unit {0}
EventSavesNothing (sample_burst good total) = Unit {0}
EventSavesNothing start = Unit {0}
EventSavesNothing reset = Unit {0}
EventSavesNothing poll_reset = Unit {0}
EventSavesNothing (new_minpoll poll) = Unit {0}
EventSavesNothing (new_maxpoll poll) = Unit {0}
EventSavesNothing (slewed adjust) = Unit {0}

-- No packet is saved in a run.
abbrev pub RunSavesNothing : List Event → Type 0
RunSavesNothing [] = Unit {0}
RunSavesNothing (e ∷ es) = EventSavesNothing e × RunSavesNothing es

process_packet-Room :
    (n : ℕ) (inst : NcrInstance) (fd : ℤ) (rx_ts : LocalTimestamp) (message : Message)
    (v saved_v : Verdicts)
    → SavesNothing v
    → Room n 0 inst
    → IfSome (Room n 0) (process_packet inst fd rx_ts message v saved_v)
unfolding process_packet
process_packet-Room n inst fd rx_ts message v saved_v s h =
    if-IfSome (Room n 0)
      (is_response_mode (ntp_lvm_to_mode message.lvm) inst.mode
        && is_socket inst.sock_fd fd
        && not (is_offline inst.opmode || inst.tx_suspended))
      _ _ (λ _. process_response-Room n inst rx_ts message v saved_v s h) (λ _. h)

process_rx_known-Room :
    (n : ℕ) (inst : NcrInstance) (fd : ℤ) (rx_ts : LocalTimestamp) (message : Message)
    (v saved_v : Verdicts)
    → SavesNothing v
    → Room n 0 inst
    → IfSome (Room n 0) (process_rx_known inst fd rx_ts message v saved_v)
unfolding process_rx_known
process_rx_known-Room n inst fd rx_ts message v saved_v s h =
    process_packet-Room n (count_rx inst rx_ts) fd rx_ts message v saved_v s h

process_tx_known-Room :
    (n : ℕ) (inst : NcrInstance) (tx_ts : LocalTimestamp) (message : Message) (acceptable : Bool)
    (v : Verdicts)
    → Room n 0 inst
    → IfSome (Room n 0) (process_tx_known inst tx_ts message acceptable v)
unfolding process_tx_known
process_tx_known-Room n inst tx_ts message acceptable v h =
    let mode = ntp_lvm_to_mode message.lvm in
    if-IfSome (Room n 0) (not (mode == mode_client || mode == mode_active)) _ _ (λ _. h)
      (λ _.
        if-IfSome (Room n 0) (is_hardware tx_ts.source) _ _
          (λ _. process_saved_response-Room n _ v h) (λ _. h))

step-Room :
    (n : ℕ) (inst : NcrInstance) (e : Event)
    → EventSavesNothing e
    → Room n 0 inst
    → IfSome (Room (requests e + n) 0) (step inst e)
unfolding step receive_timeout slew_times close_client_socket
step-Room n inst (packet fd rx_ts message v saved_v) s h =
    rw zero-add (process_rx_known-Room n inst fd rx_ts message v saved_v s h)
step-Room n inst (sent_packet tx_ts message acceptable v) s h =
    rw zero-add (process_tx_known-Room n inst tx_ts message acceptable v h)
step-Room n inst (transmit_timer io) s h =
    subst (λ m. IfSome (Room m 0) (step inst (transmit_timer io))) (omega arith)
      (if-IfSome (Room (suc n) 0) inst.tx_timeout _ (some inst)
        (λ _. transmit_timeout-Room n inst io h) (λ _. omega (arith, h)))
step-Room n inst receive_timer s h =
    rw zero-add (if-Holds (Room n 0) inst.rx_timeout _ inst (λ _. h) (λ _. h))
step-Room n inst (saved_timer v) s h = rw zero-add (process_saved_response-Room n inst v h)
step-Room n inst (connectivity c) s h = rw zero-add (set_connectivity-Room n 0 inst c h)
step-Room n inst (sample_burst good total) s h =
    rw zero-add (initiate_sample_burst-Room n 0 inst good total h)
step-Room n inst start s h = rw zero-add (start_instance-Room n 0 inst h)
step-Room n inst reset s h =
    rw zero-add (reset_instance-Kept (HasRoom n 0) (room_stable n 0) inst h)
step-Room n inst poll_reset s h = rw zero-add (reset_poll-Room n 0 inst h)
step-Room n inst (new_minpoll poll) s h =
    rw zero-add ((modify_poll-Room n 0 poll_fuel inst poll h).0)
step-Room n inst (new_maxpoll poll) s h =
    rw zero-add ((modify_poll-Room n 0 poll_fuel inst poll h).1)
step-Room n inst (slewed adjust) s h = rw zero-add h

run-Room :
    (n : ℕ) (inst : NcrInstance) (es : List Event)
    → RunSavesNothing es
    → Room n 0 inst
    → IfSome (Room (count_requests es + n) 0) (run inst es)
unfolding run
run-Room n inst [] s h = rw zero-add h
run-Room n inst (e ∷ es) s h =
    bind-IfSome (Room (requests e + n) 0) (Room (requests e + count_requests es + n) 0)
      (step inst e) _ (step-Room n inst e s.0 h)
      (λ next p.
        subst (λ m. IfSome (Room m 0) (run next es)) (omega arith)
          (run-Room (requests e + n) next es s.1 p))

reset_zero : (inst : NcrInstance) → inst.total_valid_count ≡ 0 → Room 0 0 (reset_instance inst)
unfolding reset_instance is_zero_ntp64
reset_zero inst e = ground arith

create_instance-Room : (params : SourceParameters) → IfSome (Room 0 0) (create_instance params)
unfolding create_instance
create_instance-Room params = set_connectivity-Room 0 0 _ params.connectivity (reset_zero _ refl)

both :
    (P Q : NcrInstance → Type 0) (o : Option NcrInstance)
    → Returns P o
    → IfSome Q o
    → Returns (λ inst. P inst × Q inst) o
both P Q none p q = p
both P Q (some inst) p q = (p, q)

accepted_le :
    (n : ℕ) (o : Option NcrInstance)
    → Returns (λ inst. IsSound true inst × Room n 0 inst) o
    → Returns (λ inst. inst.total_valid_count ≤ n) o
accepted_le n none h = h
accepted_le n (some inst) h = omega (arith, h.1)

-- Over any sequence of events from its creation on, a source returns and has accepted at most as
-- many responses as the timer for transmission has fired, if no packet is saved for a hardware
-- timestamp and the first four candidates of each loop of `transmit_packet` for a time that is
-- not zero are different.
pub run-count_requests :
    (params : SourceParameters) (es : List Event)
    → CanDraw es
    → RunSavesNothing es
    → Returns
        (λ inst. inst.total_valid_count ≤ count_requests es)
        (create_instance params >>= λ inst. run inst es)
run-count_requests params es d s = accepted_le (count_requests es) _ (
    both (IsSound true) (Room (count_requests es) 0) _ (run-create_instance params es d) (
      bind-IfSome (Room 0 0) (Room (count_requests es) 0) (create_instance params) _
        (create_instance-Room params)
        (λ inst h.
          subst (λ m. IfSome (Room m 0) (run inst es)) (omega arith) (run-Room 0 inst es s h))))

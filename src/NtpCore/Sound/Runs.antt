-- ===== src/NtpCore/Sound/Runs.antt =====
-- From its creation on, a source keeps the invariant and meets no failed assertion.
use chrony.Common.{
  Bool, true, false, not, ◌&&◌, ◌||◌, Option, none, some, List, [], ◌∷◌, ◌==◌, ◌≡◌, ◌>>=◌, arith,
  refl,
}
use chrony.Common.Signed.{ℤ, ltb_ℤ}
use chrony.NtpCore.{
  NcrInstance, Message, LocalTimestamp, is_offline, is_poll, ntp_lvm_to_mode, mode_client,
  mode_active, is_hardware, min_nonlan_poll,
}
use chrony.NtpCore.Poll.{modify_minpoll, modify_maxpoll}
use chrony.NtpCore.Timeouts.{reset_instance, close_client_socket, is_socket}
use chrony.NtpCore.Response.{Verdicts, process_saved_response}
use chrony.NtpCore.Create.{
  SourceParameters, configured_poll, max_ℤ, create_instance, src_default_minpoll,
  src_default_maxpoll,
}
use chrony.NtpCore.Draws.{HasCandidates}
use chrony.NtpCore.Events.{
  is_response_mode, count_rx, process_packet, process_rx_known, receive_timeout, process_tx_known,
  slew_times, Event, packet, sent_packet, transmit_timer, receive_timer, saved_timer, connectivity,
  sample_burst, start, reset, poll_reset, new_minpoll, new_maxpoll, slewed, poll_fuel, step, run,
}
use chrony.NtpCore.Sound.{IsSound, Returns, bind-Returns, if-Holds, if-Returns}
use chrony.NtpCore.Sound.Timers.{
  start_instance-IsSound, reset_poll-IsSound, initiate_sample_burst-IsSound,
  set_connectivity-IsSound,
}
use chrony.NtpCore.Sound.Responses.{Ready, process_saved_response-Ready, process_response-Ready}
use chrony.NtpCore.Sound.Requests.{transmit_timeout-IsSound}

ltb_ℤ_irrefl : (a : ℤ) → ltb_ℤ a a ≡ false
unfolding ltb_ℤ
ltb_ℤ_irrefl a = ground arith

-- Two calls are enough, as the limits are in order before.
modify_minpoll-IsSound :
    (inst : NcrInstance) (poll : ℤ)
    → IsSound true inst
    → Returns (IsSound true) (modify_minpoll poll_fuel inst poll)
unfolding modify_minpoll
modify_minpoll-IsSound inst poll h =
    let same = ltb_ℤ_irrefl poll in
    let P = IsSound true in
    let changed = record inst { minpoll = poll } in
    if-Returns P (is_poll poll) _ _
      (λ e.
        if-Returns P (ltb_ℤ inst.maxpoll poll) _ _
          (λ _.
            if-Returns P (is_poll poll) _ _
              (λ _. if-Returns P (ltb_ℤ poll poll) none _ (λ f. cc (f, same)) (λ f. ground arith))
              (λ f. cc (e, f)))
          (λ f. ground arith))
      (λ _. h)

modify_maxpoll-IsSound :
    (inst : NcrInstance) (poll : ℤ)
    → IsSound true inst
    → Returns (IsSound true) (modify_maxpoll poll_fuel inst poll)
unfolding modify_maxpoll
modify_maxpoll-IsSound inst poll h =
    let same = ltb_ℤ_irrefl poll in
    let P = IsSound true in
    if-Returns P (is_poll poll) _ _
      (λ e.
        if-Returns P (ltb_ℤ poll inst.minpoll) _ _
          (λ _.
            if-Returns P (is_poll poll) _ _
              (λ _. if-Returns P (ltb_ℤ poll poll) none _ (λ f. cc (f, same)) (λ f. ground arith))
              (λ f. cc (e, f)))
          (λ f. ground arith))
      (λ _. h)

Ready-IsSound :
    (lax : Bool) (o : Option NcrInstance) → Returns (Ready lax true) o → Returns (IsSound true) o
Ready-IsSound lax none r = r
Ready-IsSound lax (some inst) r = r.0

saved-IsSound :
    (inst : NcrInstance) (v : Verdicts)
    → IsSound true inst
    → Returns (IsSound true) (process_saved_response inst v)
saved-IsSound inst v h =
    Ready-IsSound true _ (process_saved_response-Ready true true inst v (h, refl))

process_packet-IsSound :
    (inst : NcrInstance) (fd : ℤ) (rx_ts : LocalTimestamp) (message : Message)
    (v saved_v : Verdicts)
    → IsSound true inst
    → Returns (IsSound true) (process_packet inst fd rx_ts message v saved_v)
unfolding process_packet
process_packet-IsSound inst fd rx_ts message v saved_v h =
    let P = IsSound true in
    if-Returns P
      (is_response_mode (ntp_lvm_to_mode message.lvm) inst.mode
        && is_socket inst.sock_fd fd
        && not (is_offline inst.opmode || inst.tx_suspended))
      _ _
      (λ e.
        Ready-IsSound false _
          (process_response-Ready true inst rx_ts message v saved_v (h, live e)))
      (λ _. h)
  where
    live :
        (is_response_mode (ntp_lvm_to_mode message.lvm) inst.mode
            && is_socket inst.sock_fd fd
            && not (is_offline inst.opmode || inst.tx_suspended))
          ≡ true
        → (is_offline inst.opmode || inst.tx_timeout) ≡ true
    live e = ground (arith, e, h.running)

pub process_rx_known-IsSound :
    (inst : NcrInstance) (fd : ℤ) (rx_ts : LocalTimestamp) (message : Message)
    (v saved_v : Verdicts)
    → IsSound true inst
    → Returns (IsSound true) (process_rx_known inst fd rx_ts message v saved_v)
unfolding process_rx_known
process_rx_known-IsSound inst fd rx_ts message v saved_v h =
    process_packet-IsSound (count_rx inst rx_ts) fd rx_ts message v saved_v h

process_tx_known-IsSound :
    (inst : NcrInstance) (tx_ts : LocalTimestamp) (message : Message) (acceptable : Bool)
    (v : Verdicts)
    → IsSound true inst
    → Returns (IsSound true) (process_tx_known inst tx_ts message acceptable v)
unfolding process_tx_known
process_tx_known-IsSound inst tx_ts message acceptable v h =
    let mode = ntp_lvm_to_mode message.lvm in
    if-Returns (IsSound true) (not (mode == mode_client || mode == mode_active)) _ _ (λ _. h)
      (λ _.
        if-Returns (IsSound true) (is_hardware tx_ts.source) _ _ (λ _. saved-IsSound _ v h)
          (λ _. h))

abbrev pub EventDraws : Event → Type 0
EventDraws (transmit_timer io) = HasCandidates io.transmit
EventDraws (packet fd rx_ts message v saved_v) = Unit {0}
EventDraws (sent_packet tx_ts message acceptable v) = Unit {0}
EventDraws receive_timer = Unit {0}
EventDraws (saved_timer v) = Unit {0}
EventDraws (connectivity c) = Unit {0}
EventDraws (sample_burst good total) = Unit {0}
EventDraws start = Unit {0}
EventDraws reset = Unit {0}
EventDraws poll_reset = Unit {0}
EventDraws (new_minpoll poll) = Unit {0}
EventDraws (new_maxpoll poll) = Unit {0}
EventDraws (slewed adjust) = Unit {0}

-- What a run asks of its transmissions: candidates enough for the times that are not zero.
abbrev pub CanDraw : List Event → Type 0
CanDraw [] = Unit {0}
CanDraw (e ∷ es) = EventDraws e × CanDraw es

step-IsSound :
    (inst : NcrInstance) (e : Event)
    → EventDraws e
    → IsSound true inst
    → Returns (IsSound true) (step inst e)
unfolding step receive_timeout slew_times reset_instance close_client_socket
step-IsSound inst (packet fd rx_ts message v saved_v) d h =
    process_rx_known-IsSound inst fd rx_ts message v saved_v h
step-IsSound inst (sent_packet tx_ts message acceptable v) d h =
    process_tx_known-IsSound inst tx_ts message acceptable v h
step-IsSound inst (transmit_timer io) d h =
    if-Returns (IsSound true) inst.tx_timeout _ _ (λ _. transmit_timeout-IsSound inst io d h)
      (λ _. h)
step-IsSound inst receive_timer d h =
    if-Holds (IsSound true) inst.rx_timeout _ inst (λ _. h) (λ _. h)
step-IsSound inst (saved_timer v) d h = saved-IsSound inst v h
step-IsSound inst (connectivity c) d h = set_connectivity-IsSound true inst c h
step-IsSound inst (sample_burst good total) d h =
    initiate_sample_burst-IsSound true inst good total h
step-IsSound inst start d h = start_instance-IsSound inst h
step-IsSound inst reset d h = h
step-IsSound inst poll_reset d h = reset_poll-IsSound inst h
step-IsSound inst (new_minpoll poll) d h = modify_minpoll-IsSound inst poll h
step-IsSound inst (new_maxpoll poll) d h = modify_maxpoll-IsSound inst poll h
step-IsSound inst (slewed adjust) d h = h

run-IsSound :
    (inst : NcrInstance) (es : List Event)
    → CanDraw es
    → IsSound true inst
    → Returns (IsSound true) (run inst es)
unfolding run
run-IsSound inst [] d h = h
run-IsSound inst (e ∷ es) d h =
    bind-Returns (IsSound true) (IsSound true) (step inst e) _ (step-IsSound inst e d.0 h)
      (λ next p. run-IsSound next es d.1 p)

configured_poll-is_poll :
    (poll default_poll : ℤ)
    → is_poll default_poll ≡ true
    → is_poll (configured_poll poll default_poll) ≡ true
unfolding configured_poll ltb_ℤ
configured_poll-is_poll poll default_poll h = ground arith

max_ℤ-is_poll : (a b : ℤ) → is_poll a ≡ true → is_poll b ≡ true → is_poll (max_ℤ a b) ≡ true
max_ℤ-is_poll a b h k = ground arith

ltb_max_ℤ : (a b : ℤ) → ltb_ℤ (max_ℤ a b) b ≡ false
unfolding ltb_ℤ
ltb_max_ℤ a b = ground arith

defaults_are_polls :
    (is_poll src_default_minpoll ≡ true)
    × (is_poll src_default_maxpoll ≡ true)
    × (is_poll min_nonlan_poll ≡ true)
unfolding ltb_ℤ
defaults_are_polls = (refl, refl, refl)

create_instance-IsSound :
    (params : SourceParameters) → Returns (IsSound true) (create_instance params)
unfolding create_instance reset_instance
create_instance-IsSound params =
    let low = configured_poll-is_poll params.minpoll src_default_minpoll defaults_are_polls.0 in
    let high = configured_poll-is_poll params.maxpoll src_default_maxpoll defaults_are_polls.1 in
    let local = max_ℤ-is_poll _ min_nonlan_poll low defaults_are_polls.2 in
    let top = max_ℤ-is_poll _ _ high low in
    set_connectivity-IsSound true _ params.connectivity (record {
      known_mode = ground arith;
      local_in_range = local;
      min_in_range = low;
      max_in_range = top;
      min_le_max = ltb_max_ℤ _ _;
      stopped_of_suspended = λ _. refl;
      stopped_of_offline = λ _. refl;
      running = λ _ e _. cc e;
    })

-- A source meets no failed assertion from its creation on, whatever packets, timeouts and commands
-- come and whatever the other parts answer, if the first four candidates of each loop of
-- `transmit_packet` for a time that is not zero are different. Its polling intervals stay between -7
-- and 24 and in order, and the timer for transmission runs exactly while the source is online and
-- not suspended.
pub run-create_instance :
    (params : SourceParameters) (es : List Event)
    → CanDraw es
    → Returns (IsSound true) (create_instance params >>= λ inst. run inst es)
run-create_instance params es d =
    bind-Returns (IsSound true) (IsSound true) (create_instance params) _
      (create_instance-IsSound params) (λ inst h. run-IsSound inst es d h)

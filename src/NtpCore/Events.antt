-- ===== src/NtpCore/Events.antt =====
-- ntp_core.c: what happens to a source: packets, timeouts and commands, and sequences of them.
use chrony.Common.{
  ℕ, ◌+◌, Bool, false, not, ◌&&◌, ◌||◌, Option, none, some, List, [], ◌∷◌, ◌>>=◌, if◌then◌else◌,
  ◌==◌,
}
use chrony.Common.Signed.{ℤ}
use chrony.Util.Time.{Timespec, is_zero_timespec}
use chrony.Util.Ntp64.{same}
use chrony.NtpCore.{
  NcrInstance, Message, LocalTimestamp, SavedResponse, is_offline, ntp_lvm_to_mode, mode_active,
  mode_passive, mode_client, mode_server, is_kernel, is_hardware,
}
use chrony.NtpCore.Poll.{modify_minpoll, modify_maxpoll}
use chrony.NtpCore.Timeouts.{
  reset_instance, close_client_socket, start_instance, reset_poll, initiate_sample_burst,
  set_connectivity, SrcConnectivity, is_socket,
}
use chrony.NtpCore.Response.{Verdicts, process_response, process_saved_response}
use chrony.NtpCore.Request.{RequestIo, transmit_timeout}

-- The packets that `NCR_ProcessRxKnown` takes for a response, by their mode and the source's.
unfoldable pub is_response_mode : ℕ → ℕ → Bool
is_response_mode packet_mode mode =
    (packet_mode == mode_active && mode == mode_active)
    || (packet_mode == mode_passive && mode == mode_active)
    || (packet_mode == mode_server && mode == mode_client)

-- The counts of received packets and of their timestamps.
abbrev pub count_rx : NcrInstance → LocalTimestamp → NcrInstance
count_rx inst rx_ts = record inst {
  total_rx_count = inst.total_rx_count + 1;
  total_kernel_rx_ts =
      if is_kernel rx_ts.source then inst.total_kernel_rx_ts + 1 else inst.total_kernel_rx_ts;
  total_hw_rx_ts =
      if is_hardware rx_ts.source then inst.total_hw_rx_ts + 1 else inst.total_hw_rx_ts;
}

-- A packet that is counted and that `parse_packet` has passed, on its socket. One for
-- `NCR_ProcessRxUnknown` leaves the source as it is.
unfoldable pub process_packet :
    NcrInstance → ℤ → LocalTimestamp → Message → Verdicts → Verdicts → Option NcrInstance
process_packet inst sock_fd rx_ts message v saved_v =
    if is_response_mode (ntp_lvm_to_mode message.lvm) inst.mode
      && is_socket inst.sock_fd sock_fd
      && not (is_offline inst.opmode || inst.tx_suspended)
    then process_response inst rx_ts message v saved_v
    else some inst

-- `NCR_ProcessRxKnown`
unfoldable pub process_rx_known :
    NcrInstance → ℤ → LocalTimestamp → Message → Verdicts → Verdicts → Option NcrInstance
process_rx_known inst sock_fd rx_ts message v saved_v =
    process_packet (count_rx inst rx_ts) sock_fd rx_ts message v saved_v

-- `receive_timeout`
unfoldable pub receive_timeout : NcrInstance → NcrInstance
receive_timeout inst = close_client_socket (record inst { rx_timeout = false })

-- `update_tx_timestamp`; the Boolean says that the delay of the transmission is acceptable.
unfoldable pub update_tx_timestamp :
    LocalTimestamp → LocalTimestamp → NcrInstance → Message → Bool → LocalTimestamp
update_tx_timestamp tx_ts new_tx_ts inst message acceptable =
    if is_zero_timespec tx_ts.ts
      || not (same message.receive_ts inst.local_ntp_rx)
      || not (same message.transmit_ts inst.local_ntp_tx)
      || not acceptable
    then tx_ts
    else new_tx_ts

-- `NCR_ProcessTxKnown` of a packet that `parse_packet` has passed.
unfoldable pub process_tx_known :
    NcrInstance → LocalTimestamp → Message → Bool → Verdicts → Option NcrInstance
process_tx_known inst tx_ts message acceptable saved_v =
    let mode = ntp_lvm_to_mode message.lvm in
    let updated = record inst {
      local_tx = update_tx_timestamp inst.local_tx tx_ts inst message acceptable;
    } in
    if not (mode == mode_client || mode == mode_active)
    then some inst
    else (if is_hardware tx_ts.source
        then process_saved_response (record updated { total_hw_tx_ts = inst.total_hw_tx_ts + 1 })
            saved_v
        else some (record updated {
          total_kernel_tx_ts =
              if is_kernel tx_ts.source
              then inst.total_kernel_tx_ts + 1
              else inst.total_kernel_tx_ts;
        }))

abbrev pub slew : (Timespec → Timespec) → LocalTimestamp → LocalTimestamp
slew adjust local_ts =
    if is_zero_timespec local_ts.ts then local_ts else record local_ts { ts = adjust local_ts.ts }

abbrev pub slew_saved : (Timespec → Timespec) → Option SavedResponse → Option SavedResponse
slew_saved adjust none = none
slew_saved adjust (some s) =
    let rx = s.rx_ts in some (record s { rx_ts = record rx { ts = adjust rx.ts } })

-- `NCR_SlewTimes`, with what `UTI_AdjustTimespec` does to a time.
unfoldable pub slew_times : NcrInstance → (Timespec → Timespec) → NcrInstance
slew_times inst adjust = record inst {
  local_rx = slew adjust inst.local_rx;
  local_tx = slew adjust inst.local_tx;
  prev_local_tx = slew adjust inst.prev_local_tx;
  init_local_rx = slew adjust inst.init_local_rx;
  saved_response = slew_saved adjust inst.saved_response;
}

pub data Event : Type 0 where
  packet : ℤ → LocalTimestamp → Message → Verdicts → Verdicts → Event
  sent_packet : LocalTimestamp → Message → Bool → Verdicts → Event
  transmit_timer : RequestIo → Event
  receive_timer : Event
  saved_timer : Verdicts → Event
  connectivity : SrcConnectivity → Event
  sample_burst : ℤ → ℤ → Event
  start : Event
  reset : Event
  poll_reset : Event
  new_minpoll : ℤ → Event
  new_maxpoll : ℤ → Event
  slewed : (Timespec → Timespec) → Event

-- Calls of `NCR_ModifyMinpoll` and `NCR_ModifyMaxpoll` that are enough.
abbrev pub poll_fuel : ℕ
poll_fuel = 2

-- One event. A timer that does not run does not fire.
unfoldable pub step : NcrInstance → Event → Option NcrInstance
step inst (packet fd rx_ts message v saved_v) = process_rx_known inst fd rx_ts message v saved_v
step inst (sent_packet tx_ts message acceptable saved_v) =
    process_tx_known inst tx_ts message acceptable saved_v
step inst (transmit_timer io) = if inst.tx_timeout then transmit_timeout inst io else some inst
step inst receive_timer = some (if inst.rx_timeout then receive_timeout inst else inst)
step inst (saved_timer v) = process_saved_response inst v
step inst (connectivity c) = set_connectivity inst c
step inst (sample_burst good total) = initiate_sample_burst inst good total
step inst start = start_instance inst
step inst reset = some (reset_instance inst)
step inst poll_reset = reset_poll inst
step inst (new_minpoll poll) = modify_minpoll poll_fuel inst poll
step inst (new_maxpoll poll) = modify_maxpoll poll_fuel inst poll
step inst (slewed adjust) = some (slew_times inst adjust)

unfoldable pub run : NcrInstance → List Event → Option NcrInstance
run inst [] = some inst
run inst (e ∷ es) = step inst e >>= λ next. run next es

-- ===== src/NtpCore/Request.antt =====
-- ntp_core.c: `transmit_timeout`, which sends a request to the source.
use chrony.Common.{
  ℕ, ◌+◌, ◌-◌, ◌^◌, Bool, true, false, not, ◌&&◌, ◌||◌, Option, none, some, ◌>>=◌, if◌then◌else◌,
  ltb, ◌==◌,
}
use chrony.Common.Signed.{ℤ, pos, negsuc, ◌-ℤ◌, ltb_ℤ, pos_part}
use chrony.Util.Time.{is_zero_int}
use chrony.Util.Ntp64.{is_zero_ntp64}
use chrony.NtpCore.{
  NcrInstance, Message, OperatingMode, md_offline, md_online, md_burst_was_offline,
  md_burst_was_online, is_offline, mode_client, mode_active, ntp_ts_daemon,
  max_client_interleaved_tx, invalid_sock_fd,
}
use chrony.NtpCore.Poll.{PollChange, SampleUpdate, adjust_poll, process_sample}
use chrony.NtpCore.Timeouts.{
  is_socket, requeue, close_client_socket, take_offline, initiate_sample_burst, set_connectivity,
  src_offline,
}
use chrony.NtpCore.Response.{Verdicts, process_saved_response}
use chrony.NtpCore.Transmit.{TransmitIo, Transmission, transmit_packet}

-- What `transmit_timeout` takes from elsewhere.
pub record RequestIo : Type 0 where
  -- For a saved response that it processes first.
  pub verdicts : Verdicts
  -- `NAU_PrepareRequestAuth`
  pub prepared : Bool
  -- `NIO_OpenClientSocket`, which is -1 when it fails
  pub opened_fd : ℤ
  pub version : ℕ
  pub transmit : TransmitIo
  pub backoff : PollChange
  pub reachable : Bool
  pub update : SampleUpdate

abbrev pub burst_good_samples : ℤ
burst_good_samples = pos 1

abbrev pub max_burst_total_samples : ℤ
max_burst_total_samples = pos 4

-- `1 << k` of a 32-bit `int`, whose sign bit is set when `k` is 31.
unfoldable pub shift_one : ℕ → ℤ
shift_one k = if ltb k 31 then pos (2 ^ k) else negsuc (2 ^ 31 - 1)

-- `MIN(1 << (local_poll - minpoll), MAX_BURST_TOTAL_SAMPLES)`
unfoldable pub auto_burst_samples : NcrInstance → ℤ
auto_burst_samples inst =
    let samples = shift_one (pos_part (inst.local_poll -ℤ inst.minpoll)) in
    if ltb_ℤ samples max_burst_total_samples then samples else max_burst_total_samples

-- How a transmission changes the operating mode before it.
abbrev pub change_opmode : NcrInstance → OperatingMode → Option NcrInstance
change_opmode inst md_offline = some inst
change_opmode inst md_online =
    if inst.auto_burst && ltb_ℤ inst.minpoll inst.local_poll
    then initiate_sample_burst inst burst_good_samples (auto_burst_samples inst)
    else some inst
change_opmode inst md_burst_was_offline =
    some (if ltb_ℤ (pos 0) inst.burst_total_samples_to_go then inst else take_offline inst)
change_opmode inst md_burst_was_online = some (
    if ltb_ℤ (pos 1) inst.burst_total_samples_to_go
    then inst
    else record inst { opmode = md_online })

-- The new socket of a client, with the assertion that there is none.
unfoldable pub open_socket : NcrInstance → ℤ → Option NcrInstance
open_socket inst fd =
    if inst.mode == mode_client
    then (let closed = close_client_socket inst in
        if is_socket closed.sock_fd invalid_sock_fd
        then some (record closed { sock_fd = fd })
        else none)
    else some inst

unfoldable pub wants_interleaved : NcrInstance → Bool
wants_interleaved inst =
    inst.interleaved
    && ((inst.mode == mode_client && ltb inst.tx_count max_client_interleaved_tx)
        || (inst.mode == mode_active && inst.prev_tx_count == 1 && inst.tx_count == 0))

unfoldable pub is_initial : NcrInstance → Bool
is_initial inst =
    inst.mode == mode_active && not inst.valid_rx && not (is_zero_ntp64 inst.init_remote_ntp_tx)

-- The flags are reset for the response, and the warm-up exchange is counted.
unfoldable pub prepare_request : NcrInstance → Bool → Bool → NcrInstance
prepare_request inst interleaved initial = record inst {
  valid_rx = false;
  updated_init_timestamps = false;
  valid_timestamps = inst.valid_timestamps && not initial;
  presend_done =
      if not (ltb_ℤ inst.local_poll inst.presend_minpoll)
        && inst.presend_done == 0
        && is_zero_int inst.burst_total_samples_to_go
      then (if interleaved then 2 else 1)
      else inst.presend_done - 1;
}

unfoldable pub transmit_request : NcrInstance → Bool → Bool → ℕ → TransmitIo → Option Transmission
transmit_request inst interleaved initial version io =
    transmit_packet inst.mode interleaved inst.local_poll version 0
      (if initial then none else some inst.remote_ntp_rx)
      (if initial then inst.init_remote_ntp_tx else inst.remote_ntp_tx)
      (if initial then inst.init_local_rx else inst.local_rx) (some inst.local_tx)
      (some inst.local_ntp_rx) (some inst.local_ntp_tx) none io

-- What `transmit_packet` writes through its pointers.
abbrev pub store_packet : NcrInstance → TransmitIo → Option Message → NcrInstance
store_packet inst io none = inst
store_packet inst io (some message) = record inst {
  local_tx = record { ts = io.sent_at; source = ntp_ts_daemon };
  local_ntp_rx = message.receive_ts;
  local_ntp_tx = message.transmit_ts;
}

unfoldable pub count_request : NcrInstance → Bool → NcrInstance
count_request inst sent = record inst {
  tx_count = inst.tx_count + 1;
  total_tx_count = if sent then inst.total_tx_count + 1 else inst.total_tx_count;
}

-- A response is missing: the sampling backs off.
unfoldable pub back_off : NcrInstance → Bool → RequestIo → NcrInstance
back_off inst sent io =
    if ltb inst.tx_count 2
    then inst
    else process_sample (if sent then adjust_poll inst io.backoff else inst) false io.update

unfoldable pub count_burst : NcrInstance → NcrInstance
count_burst inst = record inst {
  burst_total_samples_to_go = inst.burst_total_samples_to_go -ℤ pos 1;
}

-- A request in a burst counts, but for one that could not be sent to an unreachable source.
abbrev pub end_request : NcrInstance → OperatingMode → Bool → Bool → NcrInstance
end_request inst md_offline sent reachable = inst
end_request inst md_online sent reachable = inst
end_request inst md_burst_was_offline sent reachable = count_burst inst
end_request inst md_burst_was_online sent reachable =
    if not sent && not reachable then inst else count_burst inst

-- The timers are started again, the one for receiving only in a client.
unfoldable pub requeue_request : NcrInstance → Option NcrInstance
requeue_request inst = requeue inst >>= λ queued.
    some (record queued {
      rx_timeout = if queued.mode == mode_client then true else queued.rx_timeout;
    })

unfoldable pub after_transmission : NcrInstance → Bool → RequestIo → Option NcrInstance
after_transmission inst sent io =
    let counted = back_off (count_request inst sent) sent io in
    (if not sent && inst.auto_offline then set_connectivity counted src_offline else some counted)
    >>= λ connected.
        if is_offline connected.opmode
        then some connected
        else requeue_request (end_request connected connected.opmode sent io.reachable)

unfoldable pub send_request : NcrInstance → RequestIo → Option NcrInstance
send_request inst io = open_socket inst io.opened_fd >>= λ opened.
    let interleaved = wants_interleaved opened in
    let initial = is_initial opened in
    let ready = prepare_request opened interleaved initial in
    transmit_request ready interleaved initial io.version io.transmit >>= λ transmission.
    after_transmission (store_packet ready io.transmit transmission.packet) transmission.sent io

unfoldable pub transmit_timeout : NcrInstance → RequestIo → Option NcrInstance
transmit_timeout inst io =
    process_saved_response (record inst { tx_timeout = false }) io.verdicts >>= λ processed.
    if processed.tx_timeout
    then some processed
    else (change_opmode processed processed.opmode >>= λ changed.
        if is_offline changed.opmode
        then some changed
        else (if io.prepared
            then send_request changed io
            else (requeue changed >>= λ queued. some (process_sample queued false io.update))))

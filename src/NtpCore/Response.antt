-- ===== src/NtpCore/Response.antt =====
-- ntp_core.c: `process_response`, what it does after the tests of a response.
use chrony.Common.{
  ℕ, ◌+◌, ◌-◌, Bool, true, false, not, ◌&&◌, ◌||◌, Option, none, some, ◌>>=◌, if◌then◌else◌, ltb,
  ◌==◌,
}
use chrony.Common.Signed.{pos, ◌-ℤ◌, ltb_ℤ}
use chrony.Util.Ntp64.{zero_ntp64, is_zero_ntp64, compare_ntp64, is_negative}
use chrony.Clientlog.Timestamps.Runs.{NtpInt64}
use chrony.NtpCore.{
  NcrInstance, Message, LocalTimestamp, SavedResponse, OperatingMode, md_offline, md_online,
  md_burst_was_offline, md_burst_was_online, is_offline, mode_client, mode_active, is_hardware,
  ntp_max_stratum, ntp_invalid_stratum,
}
use chrony.NtpCore.Poll.{adjust_poll, process_sample}
use chrony.NtpCore.Timeouts.{
  zero_local_timestamp, has_saved_response, requeue, close_client_socket, take_offline, is_burst,
}
pub use chrony.NtpCore.PacketTests.{Verdicts, PacketTests}
unfoldable pub use chrony.NtpCore.PacketTests.{
  packet_tests, valid_packet, synced_packet, is_kod_rate, test_a, good_packet, has_sample,
  local_transmit, known_sources,
}

-- The first branch of the update: the response is valid, and the first one or, of a peer, newer.
unfoldable pub takes_timestamps : NcrInstance → PacketTests → Message → Bool
takes_timestamps inst t message =
    (inst.mode == mode_client && valid_packet t && not inst.valid_rx)
    || (inst.mode == mode_active
        && valid_packet t
        && (not inst.valid_rx
            || is_negative (compare_ntp64 inst.remote_ntp_tx message.transmit_ts)))

-- The second branch: what a peer needs to start the protocol.
unfoldable pub takes_init_timestamps : NcrInstance → PacketTests → Message → Bool
takes_init_timestamps inst t message =
    inst.mode == mode_active
    && t.test1
    && not (is_zero_ntp64 message.transmit_ts)
    && t.test5
    && (not inst.updated_init_timestamps
        || is_negative (compare_ntp64 inst.init_remote_ntp_tx message.transmit_ts))

abbrev pub mono_epoch : Option (ℕ × NtpInt64) → ℕ
mono_epoch none = 0
mono_epoch (some (epoch, receive_ts)) = if is_zero_ntp64 receive_ts then 0 else epoch

abbrev pub mono_receive : Option (ℕ × NtpInt64) → NtpInt64
mono_receive none = zero_ntp64
mono_receive (some (epoch, receive_ts)) = receive_ts

unfoldable pub update_timestamps :
    NcrInstance → PacketTests → LocalTimestamp → Message → Verdicts → Bool → NcrInstance
update_timestamps inst t rx_ts message v good =
    if takes_timestamps inst t message
    then (record inst {
      remote_ntp_rx = message.receive_ts;
      remote_ntp_tx = message.transmit_ts;
      local_rx = rx_ts;
      valid_timestamps = synced_packet t;
      init_remote_ntp_tx = zero_ntp64;
      init_local_rx = zero_local_timestamp;
      updated_init_timestamps = false;
      remote_mono_epoch = mono_epoch v.mono_root;
      remote_ntp_monorx = mono_receive v.mono_root;
      prev_local_tx =
          if t.interleaved_packet || not good then inst.local_tx else zero_local_timestamp;
    })
    else (if takes_init_timestamps inst t message
        then (record inst {
          init_remote_ntp_tx = message.transmit_ts;
          init_local_rx = rx_ts;
          updated_init_timestamps = true;
        })
        else inst)

-- The stratum of a valid response. With the `copy` option it becomes the server's own.
unfoldable pub response_stratum : NcrInstance → Message → Bool → ℕ
response_stratum inst message synced =
    let stratum =
      if message.stratum == ntp_invalid_stratum
      then ntp_max_stratum
      else (if ltb message.stratum ntp_max_stratum then message.stratum else ntp_max_stratum) in
    if inst.copy && synced && ltb 0 stratum then stratum - 1 else stratum

unfoldable pub record_response : NcrInstance → Message → Bool → NcrInstance
record_response inst message synced = record inst {
  remote_poll = message.poll;
  remote_stratum = response_stratum inst message synced;
  prev_local_poll = inst.local_poll;
  prev_tx_count = inst.tx_count;
  tx_count = 0;
}

-- A good response counts in a burst, and the last one ends it.
abbrev pub end_burst : NcrInstance → OperatingMode → NcrInstance
end_burst inst md_offline = inst
end_burst inst md_online = inst
end_burst inst md_burst_was_offline = take_offline inst
end_burst inst md_burst_was_online = record inst { opmode = md_online }

unfoldable pub count_good : NcrInstance → NcrInstance
count_good inst =
    if is_burst inst.opmode
    then (let counted = record inst {
      burst_good_samples_to_go = inst.burst_good_samples_to_go -ℤ pos 1;
    } in
        if ltb_ℤ (pos 0) counted.burst_good_samples_to_go
        then counted
        else end_burst counted counted.opmode)
    else inst

unfoldable pub accumulate : NcrInstance → Verdicts → Bool → NcrInstance
accumulate inst v good =
    if good
    then count_good (process_sample inst true v.update)
    else process_sample (adjust_poll inst v.miss) false v.update

-- The timer is queued again. A saved response may be processed while the timer does not run.
unfoldable pub requeue_response : NcrInstance → Bool → Bool → Option NcrInstance
requeue_response inst saved kod =
    if is_offline inst.opmode
    then some inst
    else (if saved || inst.tx_timeout
        then requeue (record inst {
          burst_good_samples_to_go =
              if kod && is_burst inst.opmode then pos 0 else inst.burst_good_samples_to_go;
        })
        else none)

unfoldable pub count_valid : NcrInstance → Bool → NcrInstance
count_valid inst good = record inst {
  total_valid_count = inst.total_valid_count + 1;
  total_good_count = if good then inst.total_good_count + 1 else inst.total_good_count;
}

-- The block of `process_response` for a valid packet.
unfoldable pub accept_response :
    NcrInstance → Bool → PacketTests → Message → Verdicts → Bool → Option NcrInstance
accept_response inst saved t message v good =
    requeue_response
      (close_client_socket (accumulate (record_response inst message (synced_packet t)) v good))
      saved (is_kod_rate t message)
    >>= λ queued. some (count_valid queued good)

-- `process_response` behind the saving of the response, with the tests made before.
unfoldable pub finish_response :
    NcrInstance → Bool → PacketTests → LocalTimestamp → Message → Verdicts → Option NcrInstance
finish_response inst saved t rx_ts message v =
    let good = good_packet inst t message v in
    let updated = update_timestamps inst t rx_ts message v good in
    if known_sources inst t rx_ts v
    then (if updated.valid_rx || not (valid_packet t)
        then some updated
        else accept_response (record updated { valid_rx = true }) saved t message v good)
    else none

abbrev pub process_saved : NcrInstance → Verdicts → Option SavedResponse → Option NcrInstance
process_saved inst v none = some inst
process_saved inst v (some s) =
    let resumed = record inst { saved_response = none } in
    finish_response resumed true (packet_tests resumed true s.message v) s.rx_ts s.message v

unfoldable pub process_saved_response : NcrInstance → Verdicts → Option NcrInstance
process_saved_response inst v = process_saved inst v inst.saved_response

-- The test in front of `save_response`, and its test of the timeout.
unfoldable pub can_save : NcrInstance → PacketTests → Verdicts → Bool
can_save inst t v =
    synced_packet t
    && not inst.valid_rx
    && v.hw_ts_enabled
    && not (is_hardware inst.local_tx.source)
    && ltb 0 inst.total_good_count
    && v.hw_ts_timeout

-- `process_response` of a response that is not a saved one. The last argument is for the saved
-- response that `save_response` processes.
unfoldable pub process_response :
    NcrInstance → LocalTimestamp → Message → Verdicts → Verdicts → Option NcrInstance
process_response inst rx_ts message v saved_v =
    let t = packet_tests inst false message v in
    if can_save inst t v
    then (if has_saved_response inst
        then (process_saved_response inst saved_v >>= λ processed.
            finish_response processed false t rx_ts message v)
        else some
            (record inst { saved_response = some (record { rx_ts = rx_ts; message = message }) }))
    else finish_response inst false t rx_ts message v

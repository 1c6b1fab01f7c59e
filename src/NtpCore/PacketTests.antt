-- ===== src/NtpCore/PacketTests.antt =====
-- ntp_core.c: the tests of a response in `process_response`.
use chrony.Common.{ℕ, Bool, true, ◌≡◌, refl, not, ◌&&◌, ◌||◌, Option, if◌then◌else◌, ltb, ◌==◌}
use chrony.Common.Signed.{ltb_ℤ}
use chrony.Util.Time.{is_zero_int, is_zero_timespec, compare_timespecs}
use chrony.Util.Ntp64.{is_zero_ntp64, compare_ntp64, is_negative, same}
use chrony.Clientlog.Timestamps.Runs.{NtpInt64}
use chrony.NtpCore.{
  NcrInstance, Message, LocalTimestamp, NtpTimestampSource, ntp_ts_daemon, ntp_ts_kernel,
  ntp_ts_hardware, source_index, ntp_lvm_to_leap, mode_client, mode_active, ntp_max_stratum,
  ntp_invalid_stratum, leap_unsynchronised, kod_rate,
}
use chrony.NtpCore.Poll.{PollChange, SampleUpdate}

-- What `process_response` takes from other parts and from floating point, in the order of use.
pub record Verdicts : Type 0 where
  -- The epoch and the receive timestamp of a monotonic root field that was asked for.
  pub mono_root : Option (ℕ × NtpInt64)
  -- `NAU_CheckResponseAuth`
  pub authentic : Bool
  -- The root distance is below the maximum.
  pub distance_ok : Bool
  pub hw_ts_enabled : Bool
  -- `CNF_GetHwTsTimeout() > 0`
  pub hw_ts_timeout : Bool
  -- The previous timestamps make the intervals much shorter.
  pub prefer_previous : Bool
  -- The estimate of the delay and the precision are below the maximum.
  pub delay_ok : Bool
  pub offset_sane : Bool
  -- The server took longer than `MAX_SERVER_INTERVAL`.
  pub slow_server : Bool
  -- The delay is over a half of the polling interval.
  pub delay_over_half : Bool
  -- The interval between the remote transmissions is over 1.5 of the polling interval.
  pub missed_response : Bool
  pub test_b : Bool
  pub test_c : Bool
  pub test_d : Bool
  -- `adjust_poll` after a response that is not good.
  pub miss : PollChange
  pub update : SampleUpdate

-- The tests whose results `process_response` keeps in its variables.
pub record PacketTests : Type 0 where
  pub test1 : Bool
  pub test2 : Bool
  pub test3 : Bool
  pub test5 : Bool
  pub test6 : Bool
  pub test7 : Bool
  pub interleaved_packet : Bool

unfoldable pub packet_tests : NcrInstance → Bool → Message → Verdicts → PacketTests
packet_tests inst saved message v =
    let test2n = same message.originate_ts inst.local_ntp_tx in
    let test2i = inst.interleaved && same message.originate_ts inst.local_ntp_rx in
    record {
      test1 =
          not (same message.receive_ts inst.remote_ntp_rx)
          || not (same message.transmit_ts inst.remote_ntp_tx);
      test2 = test2n || test2i;
      test3 =
          not (is_zero_ntp64 message.originate_ts)
          && not (is_zero_ntp64 message.receive_ts)
          && not (is_zero_ntp64 message.transmit_ts);
      test5 = saved || v.authentic;
      test6 =
          not (ntp_lvm_to_leap message.lvm == leap_unsynchronised)
          && ltb message.stratum ntp_max_stratum
          && not (message.stratum == ntp_invalid_stratum);
      test7 = v.distance_ok;
      interleaved_packet = not test2n && test2i;
    }

unfoldable pub valid_packet : PacketTests → Bool
valid_packet t = t.test1 && t.test2 && t.test3 && t.test5

unfoldable pub synced_packet : PacketTests → Bool
synced_packet t = valid_packet t && t.test6 && t.test7

unfoldable pub is_kod_rate : PacketTests → Message → Bool
is_kod_rate t message =
    t.test1
    && t.test2
    && t.test5
    && ntp_lvm_to_leap message.lvm == leap_unsynchronised
    && message.stratum == ntp_invalid_stratum
    && message.reference_id == kod_rate

-- The transmit time of the sample.
unfoldable pub local_transmit : NcrInstance → PacketTests → Verdicts → LocalTimestamp
local_transmit inst t v =
    if t.interleaved_packet && not (is_zero_timespec inst.prev_local_tx.ts) && v.prefer_previous
    then inst.prev_local_tx
    else inst.local_tx

unfoldable pub test_a : NcrInstance → PacketTests → Message → Verdicts → Bool
test_a inst t message v =
    let has_previous = not (is_zero_timespec inst.prev_local_tx.ts) in
    v.delay_ok
    && inst.presend_done == 0
    && v.offset_sane
    && not (inst.mode == mode_client && v.slow_server)
    && not (
        inst.mode == mode_client
        && t.interleaved_packet
        && not has_previous
        && is_zero_int (compare_timespecs (local_transmit inst t v).ts inst.local_tx.ts))
    && not (
        inst.mode == mode_active
        && t.interleaved_packet
        && (v.delay_over_half
            || (let order = compare_ntp64 message.receive_ts message.transmit_ts in
                is_negative order || is_zero_int order)
            || (not (ltb_ℤ inst.prev_local_poll inst.remote_poll) && v.missed_response)))

-- A measurement is made.
unfoldable pub has_sample : NcrInstance → PacketTests → Bool
has_sample inst t = synced_packet t && (not t.interleaved_packet || inst.valid_timestamps)

-- `sizeof (tss_chars)`
abbrev tss_chars_size : ℕ
tss_chars_size = 3

-- The assertion on the sources of `local_receive` and `local_transmit`.
unfoldable pub known_sources : NcrInstance → PacketTests → LocalTimestamp → Verdicts → Bool
known_sources inst t rx_ts v =
    let local_receive =
      if has_sample inst t && t.interleaved_packet then inst.local_rx else rx_ts in
    let transmit = if has_sample inst t then local_transmit inst t v else inst.local_tx in
    ltb (source_index local_receive.source) tss_chars_size
    && ltb (source_index transmit.source) tss_chars_size

source_index-bound : (source : NtpTimestampSource) → ltb (source_index source) tss_chars_size ≡ true
source_index-bound ntp_ts_daemon = refl
source_index-bound ntp_ts_kernel = refl
source_index-bound ntp_ts_hardware = refl

-- The assertion holds of every source of timestamps.
pub known_sources-holds :
    (inst : NcrInstance) (t : PacketTests) (rx_ts : LocalTimestamp) (v : Verdicts)
    → known_sources inst t rx_ts v ≡ true
unfolding known_sources
known_sources-holds inst t rx_ts v =
    let receive = if has_sample inst t && t.interleaved_packet then inst.local_rx else rx_ts in
    let transmit = if has_sample inst t then local_transmit inst t v else inst.local_tx in
    rw (source_index-bound receive.source, source_index-bound transmit.source) refl

unfoldable pub good_packet : NcrInstance → PacketTests → Message → Verdicts → Bool
good_packet inst t message v =
    has_sample inst t && test_a inst t message v && v.test_b && v.test_c && v.test_d

-- ===== src/NtpCore/Create.antt =====
-- ntp_core.c: `NCR_CreateInstance`.
use chrony.Common.{ℕ, Bool, true, false, not, ◌&&◌, Option, none, if◌then◌else◌, ltb}
use chrony.Common.Signed.{ℤ, pos, ◌+ℤ◌, ltb_ℤ}
use chrony.Util.Ntp64.{zero_ntp64}
use chrony.NtpCore.{
  NcrInstance, md_offline, mode_active, mode_client, min_poll, max_poll, min_nonlan_poll,
  invalid_sock_fd,
}
use chrony.NtpCore.Timeouts.{
  zero_local_timestamp, reset_instance, set_connectivity, SrcConnectivity,
}

-- The members of `SourceParameters` that the protocol machine keeps. `peer` is the type of the
-- source, and `server_fd` the socket of a peer.
pub record SourceParameters : Type 0 where
  pub peer : Bool
  pub server_fd : ℤ
  pub interleaved : Bool
  pub minpoll : ℤ
  pub maxpoll : ℤ
  pub presend_minpoll : ℤ
  pub iburst : Bool
  pub burst : Bool
  pub auto_offline : Bool
  pub copy : Bool
  pub filter_length : ℕ
  pub connectivity : SrcConnectivity

abbrev pub src_default_minpoll : ℤ
src_default_minpoll = pos 6

abbrev pub src_default_maxpoll : ℤ
src_default_maxpoll = pos 10

abbrev pub max_ℤ : ℤ → ℤ → ℤ
max_ℤ a b = if ltb_ℤ a b then b else a

-- A limit of the polling interval, or its default.
unfoldable pub configured_poll : ℤ → ℤ → ℤ
configured_poll poll default_poll =
    if ltb_ℤ poll min_poll then default_poll else (if ltb_ℤ max_poll poll then max_poll else poll)

unfoldable pub create_instance : SourceParameters → Option NcrInstance
create_instance params =
    let mode = if params.peer then mode_active else mode_client in
    let minpoll = configured_poll params.minpoll src_default_minpoll in
    let maxpoll = configured_poll params.maxpoll src_default_maxpoll in
    set_connectivity
      (reset_instance (record {
        mode = mode;
        interleaved = params.interleaved;
        opmode = md_offline;
        sock_fd = if params.peer then params.server_fd else invalid_sock_fd;
        rx_timeout = false;
        tx_timeout = false;
        tx_suspended = true;
        auto_iburst = params.iburst;
        auto_burst = params.burst;
        auto_offline = params.auto_offline;
        local_poll = max_ℤ minpoll min_nonlan_poll;
        remote_poll = pos 0;
        remote_stratum = 0;
        presend_minpoll =
            if not (ltb_ℤ max_poll params.presend_minpoll) && params.peer
            then max_poll +ℤ pos 1
            else params.presend_minpoll;
        presend_done = 0;
        minpoll = minpoll;
        maxpoll = max_ℤ maxpoll minpoll;
        copy = params.copy && not params.peer;
        tx_count = 0;
        valid_rx = false;
        valid_timestamps = false;
        remote_mono_epoch = 0;
        remote_ntp_monorx = zero_ntp64;
        remote_ntp_rx = zero_ntp64;
        remote_ntp_tx = zero_ntp64;
        local_ntp_rx = zero_ntp64;
        local_rx = zero_local_timestamp;
        local_ntp_tx = zero_ntp64;
        local_tx = zero_local_timestamp;
        prev_local_tx = zero_local_timestamp;
        prev_local_poll = pos 0;
        prev_tx_count = 0;
        updated_init_timestamps = false;
        init_remote_ntp_tx = zero_ntp64;
        init_local_rx = zero_local_timestamp;
        filter = ltb 0 params.filter_length;
        filter_count = 0;
        saved_response = none;
        burst_good_samples_to_go = pos 0;
        burst_total_samples_to_go = pos 0;
        total_tx_count = 0;
        total_rx_count = 0;
        total_valid_count = 0;
        total_good_count = 0;
        total_kernel_tx_ts = 0;
        total_kernel_rx_ts = 0;
        total_hw_tx_ts = 0;
        total_hw_rx_ts = 0;
      }))
      params.connectivity

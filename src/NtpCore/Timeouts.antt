-- ===== src/NtpCore/Timeouts.antt =====
-- ntp_core.c: the timeouts of a source, its bursts, and going online and offline.
use chrony.Common.{ℕ, Bool, true, false, not, ◌||◌, Option, none, some, ◌>>=◌, if◌then◌else◌, ◌==◌}
use chrony.Common.Signed.{ℤ, pos, negsuc, ◌-ℤ◌}
use chrony.Util.Time.{is_zero_int, is_zero_timespec, zero_timespec}
use chrony.Util.Ntp64.{zero_ntp64}
use chrony.NtpCore.{
  NcrInstance, LocalTimestamp, OperatingMode, md_offline, md_online, md_burst_was_offline,
  md_burst_was_online, is_offline, is_poll, mode_active, mode_client, ntp_ts_daemon,
  invalid_sock_fd,
}

abbrev pub iburst_good_samples : ℤ
iburst_good_samples = pos 4

-- `SOURCE_REACH_BITS`
abbrev pub iburst_total_samples : ℤ
iburst_total_samples = pos 8

-- `zero_local_timestamp`
abbrev pub zero_local_timestamp : LocalTimestamp
zero_local_timestamp = record { ts = zero_timespec; source = ntp_ts_daemon }

abbrev pub is_some {ℓ} : {A : Type ℓ} → Option A → Bool
is_some none = false
is_some (some a) = true

abbrev pub has_saved_response : NcrInstance → Bool
has_saved_response inst = is_some inst.saved_response

-- Equality of descriptors.
abbrev pub is_socket : ℤ → ℤ → Bool
is_socket (pos a) (pos b) = a == b
is_socket (pos a) (negsuc b) = false
is_socket (negsuc a) (pos b) = false
is_socket (negsuc a) (negsuc b) = a == b

-- `NCR_ResetInstance`
unfoldable pub reset_instance : NcrInstance → NcrInstance
reset_instance inst = record inst {
  tx_count = 0;
  presend_done = 0;
  remote_poll = pos 0;
  remote_stratum = 0;
  remote_mono_epoch = 0;
  valid_rx = false;
  valid_timestamps = false;
  remote_ntp_monorx = zero_ntp64;
  remote_ntp_rx = zero_ntp64;
  remote_ntp_tx = zero_ntp64;
  local_ntp_rx = zero_ntp64;
  local_ntp_tx = zero_ntp64;
  local_rx = zero_local_timestamp;
  prev_local_tx = zero_local_timestamp;
  prev_local_poll = pos 0;
  prev_tx_count = 0;
  updated_init_timestamps = false;
  init_remote_ntp_tx = zero_ntp64;
  init_local_rx = zero_local_timestamp;
  filter_count = 0;
}

-- With the assertion of `get_separation`.
unfoldable pub restart_timeout : NcrInstance → Option NcrInstance
restart_timeout inst =
    if inst.tx_suspended
    then (if inst.tx_timeout then none else some inst)
    else (if is_poll inst.local_poll
        then some (record inst { rx_timeout = false; tx_timeout = true })
        else none)

-- The assertions of `get_transmit_delay`.
abbrev pub has_transmit_delay : OperatingMode → ℕ → Bool
has_transmit_delay md_offline mode = false
has_transmit_delay md_online mode = mode == mode_client || mode == mode_active
has_transmit_delay md_burst_was_offline mode = true
has_transmit_delay md_burst_was_online mode = true

-- `restart_timeout` after the delay that `get_transmit_delay` gives.
unfoldable pub requeue : NcrInstance → Option NcrInstance
requeue inst = if has_transmit_delay inst.opmode inst.mode then restart_timeout inst else none

unfoldable pub start_initial_timeout : NcrInstance → Option NcrInstance
start_initial_timeout inst =
    if is_zero_timespec inst.local_tx.ts then restart_timeout inst else requeue inst

unfoldable pub close_client_socket : NcrInstance → NcrInstance
close_client_socket inst = record inst {
  sock_fd = if inst.mode == mode_client then invalid_sock_fd else inst.sock_fd;
  rx_timeout = false;
  saved_response = none;
}

unfoldable pub take_offline : NcrInstance → NcrInstance
take_offline inst =
    reset_instance (close_client_socket (record inst { opmode = md_offline; tx_timeout = false }))

-- `NCR_StartInstance`
unfoldable pub start_instance : NcrInstance → Option NcrInstance
start_instance inst =
    let started = record inst { tx_suspended = false } in
    if is_offline started.opmode then some started else start_initial_timeout started

-- `NCR_ResetPoll`
unfoldable pub reset_poll : NcrInstance → Option NcrInstance
reset_poll inst =
    if is_zero_int (inst.local_poll -ℤ inst.minpoll)
    then some inst
    else (let changed = record inst { local_poll = inst.minpoll } in
        if changed.tx_timeout then requeue changed else some changed)

abbrev pub burst_mode : OperatingMode → OperatingMode
burst_mode md_online = md_burst_was_online
burst_mode md_offline = md_burst_was_offline
burst_mode md_burst_was_offline = md_burst_was_offline
burst_mode md_burst_was_online = md_burst_was_online

abbrev pub is_burst : OperatingMode → Bool
is_burst md_offline = false
is_burst md_online = false
is_burst md_burst_was_offline = true
is_burst md_burst_was_online = true

-- `NCR_InitiateSampleBurst`
unfoldable pub initiate_sample_burst : NcrInstance → ℤ → ℤ → Option NcrInstance
initiate_sample_burst inst n_good_samples n_total_samples =
    if not (inst.mode == mode_client) || is_burst inst.opmode
    then some inst
    else start_initial_timeout (record inst {
      opmode = burst_mode inst.opmode;
      burst_good_samples_to_go = n_good_samples;
      burst_total_samples_to_go = n_total_samples;
    })

-- `SRC_Connectivity`; `src_maybe_online` with the answer of `NIO_IsServerConnectable`.
pub data SrcConnectivity : Type 0 where
  src_offline src_online : SrcConnectivity
  src_maybe_online : Bool → SrcConnectivity

abbrev pub go_online : NcrInstance → OperatingMode → Option NcrInstance
go_online inst md_online = some inst
go_online inst md_offline =
    start_initial_timeout (reset_instance (record inst { opmode = md_online })) >>= λ started.
    if started.auto_iburst
    then initiate_sample_burst started iburst_good_samples iburst_total_samples
    else some started
go_online inst md_burst_was_online = some inst
go_online inst md_burst_was_offline = some (record inst { opmode = md_burst_was_online })

abbrev pub go_offline : NcrInstance → OperatingMode → NcrInstance
go_offline inst md_online = take_offline inst
go_offline inst md_offline = inst
go_offline inst md_burst_was_online = record inst { opmode = md_burst_was_offline }
go_offline inst md_burst_was_offline = inst

unfoldable pub set_connectivity : NcrInstance → SrcConnectivity → Option NcrInstance
set_connectivity inst src_offline = some (go_offline inst inst.opmode)
set_connectivity inst src_online = go_online inst inst.opmode
set_connectivity inst (src_maybe_online connectable) =
    if connectable then go_online inst inst.opmode else some (go_offline inst inst.opmode)

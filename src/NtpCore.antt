-- ===== src/NtpCore.antt =====
-- ntp_core.c: the protocol machine of one source.
--
-- Of what is floating point (the delays, the root distance, the score of the polling interval) and
-- of what another part answers (authentication, reachability, the options of hardware
-- timestamping), an operation takes the outcome as an argument. A timeout is the flag that it runs.
-- A result of `none` is a failed assertion.
pub mod Poll
pub mod PacketTests
pub mod Response
pub mod Timeouts
pub mod Transmit
pub mod Request
pub mod Events
pub mod Create
pub mod Draws
pub mod Accepted
pub mod Conditions
pub mod Answers
pub mod Distinct
pub mod Limits
mod Tests
pub mod Server
pub mod Replies
pub mod Sound
use chrony.Common.{
  ℕ, ◌+◌, ◌-◌, ◌%◌, ◌/◌, Bool, true, false, not, ◌&&◌, ◌||◌, Option, none, some, if◌then◌else◌, ltb,
  leb, ◌==◌,
}
use chrony.Common.Signed.{ℤ, pos, negsuc, ltb_ℤ}
use chrony.Util.Time.{Timespec, zero_timespec}
use chrony.Clientlog.Timestamps.Runs.{NtpInt64}

abbrev pub mode_undefined : ℕ
mode_undefined = 0

abbrev pub mode_active : ℕ
mode_active = 1

abbrev pub mode_passive : ℕ
mode_passive = 2

abbrev pub mode_client : ℕ
mode_client = 3

abbrev pub mode_server : ℕ
mode_server = 4

abbrev pub mode_broadcast : ℕ
mode_broadcast = 5

-- `NTP_Timestamp_Source`
pub data NtpTimestampSource : Type 0 where
  ntp_ts_daemon ntp_ts_kernel ntp_ts_hardware : NtpTimestampSource

-- The value of a constant of the enumeration.
abbrev pub source_index : NtpTimestampSource → ℕ
source_index ntp_ts_daemon = 0
source_index ntp_ts_kernel = 1
source_index ntp_ts_hardware = 2

abbrev pub is_kernel : NtpTimestampSource → Bool
is_kernel source = source_index source == 1

abbrev pub is_hardware : NtpTimestampSource → Bool
is_hardware source = source_index source == 2

-- `INVALID_SOCK_FD`, -2
abbrev pub invalid_sock_fd : ℤ
invalid_sock_fd = negsuc 1

abbrev pub ntp_max_stratum : ℕ
ntp_max_stratum = 16

abbrev pub ntp_invalid_stratum : ℕ
ntp_invalid_stratum = 0

abbrev pub leap_unsynchronised : ℕ
leap_unsynchronised = 3

abbrev pub kod_rate : ℕ
kod_rate = 1380013125

abbrev pub min_poll : ℤ
min_poll = negsuc 6

abbrev pub max_poll : ℤ
max_poll = pos 24

abbrev pub min_nonlan_poll : ℤ
min_nonlan_poll = pos 0

abbrev pub max_client_interleaved_tx : ℕ
max_client_interleaved_tx = 4

pub data OperatingMode : Type 0 where
  md_offline md_online md_burst_was_offline md_burst_was_online : OperatingMode

abbrev pub is_offline : OperatingMode → Bool
is_offline md_offline = true
is_offline md_online = false
is_offline md_burst_was_offline = false
is_offline md_burst_was_online = false

-- `NTP_Local_Timestamp`
pub record LocalTimestamp : Type 0 where
  pub ts : Timespec
  pub source : NtpTimestampSource

-- The members of `NTP_Packet` that the protocol machine reads, in host order.
pub record Message : Type 0 where
  pub lvm : ℕ
  pub stratum : ℕ
  pub poll : ℤ
  pub reference_id : ℕ
  pub originate_ts : NtpInt64
  pub receive_ts : NtpInt64
  pub transmit_ts : NtpInt64

-- A response that waits for the transmit timestamp of its request. `Option SavedResponse` holds one
-- while its timeout runs.
pub record SavedResponse : Type 0 where
  pub rx_ts : LocalTimestamp
  pub message : Message

-- The members of `NCR_Instance_Record` that the protocol machine tests or changes, but those that are
-- floating point or other parts' instances. Of the report it has the counts, which are not reduced to
-- 32 bits, of the local address the socket.
pub record NcrInstance : Type 0 where
  pub mode : ℕ
  pub interleaved : Bool
  pub opmode : OperatingMode
  pub sock_fd : ℤ
  pub rx_timeout : Bool
  pub tx_timeout : Bool
  pub tx_suspended : Bool
  pub auto_iburst : Bool
  pub auto_burst : Bool
  pub auto_offline : Bool
  pub local_poll : ℤ
  pub remote_poll : ℤ
  pub remote_stratum : ℕ
  pub presend_minpoll : ℤ
  pub presend_done : ℕ
  pub minpoll : ℤ
  pub maxpoll : ℤ
  pub copy : Bool
  pub tx_count : ℕ
  pub valid_rx : Bool
  pub valid_timestamps : Bool
  pub remote_mono_epoch : ℕ
  pub remote_ntp_monorx : NtpInt64
  pub remote_ntp_rx : NtpInt64
  pub remote_ntp_tx : NtpInt64
  pub local_ntp_rx : NtpInt64
  pub local_rx : LocalTimestamp
  pub local_ntp_tx : NtpInt64
  pub local_tx : LocalTimestamp
  pub prev_local_tx : LocalTimestamp
  pub prev_local_poll : ℤ
  pub prev_tx_count : ℕ
  pub updated_init_timestamps : Bool
  pub init_remote_ntp_tx : NtpInt64
  pub init_local_rx : LocalTimestamp
  pub filter : Bool
  pub filter_count : ℕ
  pub saved_response : Option SavedResponse
  pub burst_good_samples_to_go : ℤ
  pub burst_total_samples_to_go : ℤ
  pub total_tx_count : ℕ
  pub total_rx_count : ℕ
  pub total_valid_count : ℕ
  pub total_good_count : ℕ
  pub total_kernel_tx_ts : ℕ
  pub total_kernel_rx_ts : ℕ
  pub total_hw_tx_ts : ℕ
  pub total_hw_rx_ts : ℕ

unfoldable pub ntp_lvm_to_leap : ℕ → ℕ
ntp_lvm_to_leap lvm = lvm / 64 % 4

unfoldable pub ntp_lvm_to_version : ℕ → ℕ
ntp_lvm_to_version lvm = lvm / 8 % 8

unfoldable pub ntp_lvm_to_mode : ℕ → ℕ
ntp_lvm_to_mode lvm = lvm % 8

-- The test of an interval in `NCR_ModifyMinpoll`, `NCR_ModifyMaxpoll` and `get_separation`.
abbrev pub is_poll : ℤ → Bool
is_poll poll = not (ltb_ℤ poll min_poll || ltb_ℤ max_poll poll)

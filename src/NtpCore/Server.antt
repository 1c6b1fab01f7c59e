-- ===== src/NtpCore/Server.antt =====
-- ntp_core.c: `NCR_ProcessRxUnknown`, the server's answer to a request, with the access table of
-- addrfilt.c and the map of timestamps of clientlog.c.
use chrony.Common.{
  ℕ, ◌%◌, Bool, true, false, not, ◌&&◌, ◌||◌, Option, none, some, ◌>>=◌, if◌then◌else◌, ◌==◌,
}
use chrony.Common.Signed.{ℤ, ltb_ℤ}
use chrony.Addressing.{IpAddr}
use chrony.AddrFilt.{AuthTable, is_allowed}
use chrony.Util.Time.{Timespec}
use chrony.Util.Ntp64.{same}
use chrony.Clientlog.Limits.{Limit, pass, drop, kod}
use chrony.Clientlog.Timestamps.{NtpTimestampMap}
use chrony.Clientlog.Timestamps.Store.{
  get_ntp_tx_timestamp, disable_ntp_timestamps, save_ntp_timestamps,
}
use chrony.Clientlog.Timestamps.Runs.{ntp64_to_int64}
use chrony.NtpCore.{
  Message, LocalTimestamp, mode_undefined, mode_active, mode_passive, mode_client, mode_server,
  NtpTimestampSource, ntp_ts_daemon, ntp_ts_kernel, ntp_ts_hardware, source_index, kod_rate,
  ntp_lvm_to_mode, ntp_lvm_to_version,
}
use chrony.NtpCore.Timeouts.{is_some, zero_local_timestamp}
use chrony.NtpCore.Transmit.{TransmitIo, transmit_packet}

-- What the server takes from elsewhere for one request.
pub record ServerIo : Type 0 where
  -- `NIO_IsServerSocket`
  pub server_socket : Bool
  -- `CLG_LogServiceAccess` gives an index, and `CLG_LimitServiceRate` the limit.
  pub logged : Bool
  pub limit : Limit
  -- `NAU_CheckRequestAuth`, with its code
  pub authentic : Bool
  pub auth_kod : ℕ
  -- `CLG_GetNtpMinPoll`
  pub ntp_min_poll : ℤ
  pub transmit : TransmitIo

abbrev pub ntp_port : ℕ
ntp_port = 123

-- The mode of the reply, of a request with the mode, the version and the port.
unfoldable pub reply_mode : ℕ → ℕ → ℕ → Option ℕ
reply_mode mode version port =
    if mode == mode_active
    then some mode_passive
    else (if mode == mode_client
          || (mode == mode_undefined && version == 1 && not (port == ntp_port))
        then some mode_server
        else none)

-- The kiss code of the reply, or `none` for no reply.
abbrev pub limit_kod : Limit → ℕ → Option ℕ
limit_kod pass auth_kod = some auth_kod
limit_kod drop auth_kod = none
limit_kod kod auth_kod = if auth_kod == 0 then some kod_rate else none

unfoldable pub reply_kod : ServerIo → Option ℕ
reply_kod io = if not io.authentic && io.auth_kod == 0 then none else limit_kod io.limit io.auth_kod

-- A request formed in the interleaved mode has one of our receive timestamps.
unfoldable pub asks_interleaved : Message → ℕ → Bool → Bool
asks_interleaved message code logged =
    code == 0
    && logged
    && ntp_lvm_to_version message.lvm == 4
    && message.originate_ts.lo % 2 == 1
    && not (same message.receive_ts message.transmit_ts)

-- The constant of a source as clientlog.c keeps it.
abbrev pub source_of : ℕ → NtpTimestampSource
source_of source =
    if source == 0 then ntp_ts_daemon else (if source == 1 then ntp_ts_kernel else ntp_ts_hardware)

abbrev pub found_tx : Option (Timespec × ℕ) → LocalTimestamp
found_tx none = zero_local_timestamp
found_tx (some (ts, source)) = record { ts = ts; source = source_of source }

-- The packet that is sent, if one is, and the map of timestamps after it.
abbrev pub Reply : Type 0
Reply = Option Message × NtpTimestampMap

module _ (ntp64_to_timespec : ℕ → Timespec) (active : Bool) where
  -- The timestamps of a reply to an interleaved request are saved when it was sent.
  unfoldable pub save_reply :
      Bool → Option Message → Timespec → Bool → NtpTimestampMap → Option Reply
  save_reply asked none sent_at sent m = some (none, m)
  save_reply asked (some reply) sent_at sent m =
      if sent
      then ((if asked
            then save_ntp_timestamps ntp64_to_timespec active m (ntp64_to_int64 reply.receive_ts)
                (some sent_at) (source_index ntp_ts_daemon)
            else some m)
          >>= λ saved. some (some reply, saved))
      else some (none, m)

  unfoldable pub send_reply :
      (asked : Bool)
      → (mode code : ℕ) → Option (Timespec × ℕ)
      → NtpTimestampMap
      → LocalTimestamp
      → Message
      → (length : ℕ) → ServerIo
      → Option Reply
  send_reply asked mode code found m rx_ts message length io =
      transmit_packet mode (is_some found)
        (if ltb_ℤ io.ntp_min_poll message.poll then message.poll else io.ntp_min_poll)
        (ntp_lvm_to_version message.lvm) code (some message.receive_ts) message.transmit_ts rx_ts
        (if asked then some (found_tx found) else none)
        (if asked then some message.originate_ts else none) none (some length) io.transmit
      >>= λ tr. save_reply asked tr.packet io.transmit.sent_at tr.sent m

  -- The request is answered: the transmit timestamp for the interleaved mode is looked up, and not
  -- used again.
  unfoldable pub answer_request :
      ℕ → ℕ → NtpTimestampMap → LocalTimestamp → Message → (length : ℕ) → ServerIo → Option Reply
  answer_request mode code m rx_ts message length io =
      if asks_interleaved message code io.logged
      then (let rx = ntp64_to_int64 message.originate_ts in
          get_ntp_tx_timestamp ntp64_to_timespec m rx >>= λ got.
          (if is_some got.0 then disable_ntp_timestamps got.1 rx else some got.1) >>= λ m'.
          send_reply true mode code got.0 m' rx_ts message length io)
      else send_reply false mode code none m rx_ts message length io

  abbrev pub reply_with :
      Option ℕ
      → Option ℕ
      → NtpTimestampMap
      → LocalTimestamp
      → Message
      → (length : ℕ) → ServerIo
      → Option Reply
  reply_with none code m rx_ts message length io = some (none, m)
  reply_with (some mode) none m rx_ts message length io = some (none, m)
  reply_with (some mode) (some code) m rx_ts message length io =
      answer_request mode code m rx_ts message length io

  -- `NCR_ProcessRxUnknown` of a packet that `parse_packet` has passed.
  unfoldable pub process_rx_unknown :
      AuthTable
      → NtpTimestampMap
      → IpAddr
      → (port : ℕ) → LocalTimestamp
      → Message
      → (length : ℕ) → ServerIo
      → Option Reply
  process_rx_unknown table m ip port rx_ts message length io =
      if io.server_socket
      then (is_allowed table ip >>= λ allowed.
          if allowed
          then reply_with
              (reply_mode (ntp_lvm_to_mode message.lvm) (ntp_lvm_to_version message.lvm) port)
              (reply_kod io) m rx_ts message length io
          else some (none, m))
      else some (none, m)

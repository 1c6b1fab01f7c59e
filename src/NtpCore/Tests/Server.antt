-- ===== src/NtpCore/Tests/Server.antt =====
-- The server on a concrete request.
use chrony.Common.{ℕ, true, false}
use chrony.Common.Signed.{pos}
use chrony.Addressing.{inet4}
use chrony.AddrFilt.{AuthTable, leaf, allow, deny}
use chrony.Util.Time.{Timespec, zero_timespec}
use chrony.Clientlog.Limits.{pass}
use chrony.Clientlog.Timestamps.{NtpTimestampMap}
use chrony.Clientlog.Timestamps.Runs.{initial_map}
use chrony.NtpCore.{Message}
use chrony.NtpCore.Server.{ServerIo, process_rx_unknown}
use chrony.NtpCore.Timeouts.{zero_local_timestamp}
use chrony.NtpCore.Replies.{AllReplies, IsServed, process_rx_unknown-IsServed}
use chrony.NtpCore.Tests.{ntp, tx_io}

abbrev table : AuthTable
table = record { base4 = leaf allow; base6 = leaf deny }

abbrev no_timestamps : NtpTimestampMap
no_timestamps =
    initial_map
      (λ _. record {
        rx_ts = 0;
        disabled = false;
        valid_tx = false;
        tx_ts_source = 0;
        slew_epoch = 0;
        tx_ts_offset = pos 0;
      })
      4

abbrev at_zero : ℕ → Timespec
at_zero n = zero_timespec

-- A request of a client, of version 4.
abbrev request : Message
request = record {
  lvm = 35;
  stratum = 0;
  poll = pos 6;
  reference_id = 0;
  originate_ts = ntp 0;
  receive_ts = ntp 0;
  transmit_ts = ntp 50;
}

abbrev io : ServerIo
io = record {
  server_socket = true;
  logged = true;
  limit = pass;
  authentic = true;
  auth_kod = 0;
  ntp_min_poll = pos 0;
  transmit = tx_io;
}

process_rx_unknown-IsServed_example : AllReplies (IsServed table (inet4 7) 4000 request 48 io) (
    process_rx_unknown at_zero true table no_timestamps
      (inet4 7)
      4000
      zero_local_timestamp
      request
      48
      io)
process_rx_unknown-IsServed_example =
    process_rx_unknown-IsServed at_zero true table no_timestamps (inet4 7) 4000 zero_local_timestamp
      request 48 io

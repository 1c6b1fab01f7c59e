-- ===== src/NtpCore/Transmit.antt =====
-- ntp_core.c: `transmit_packet`, and the timeout that sends a request.
use chrony.Common.{
  ℕ, ◌+◌, ◌-◌, ◌*◌, ◌%◌, Bool, false, not, ◌&&◌, ◌||◌, Option, none, some, List, [], ◌∷◌, ◌>>=◌,
  if◌then◌else◌, ltb, ◌==◌, map,
}
use chrony.Common.Signed.{ℤ}
use chrony.Util.Time.{Timespec, is_zero_timespec}
use chrony.Util.Ntp64.{zero_ntp64, is_zero_ntp64, is_equal_any_ntp64}
use chrony.Clientlog.Timestamps.{word32}
use chrony.Clientlog.Limits.{to_word32}
use chrony.Clientlog.Timestamps.Runs.{NtpInt64}
use chrony.NtpCore.{
  Message, LocalTimestamp, mode_client, mode_server, mode_broadcast, mode_passive, ntp_max_stratum,
  ntp_invalid_stratum, leap_unsynchronised,
}
use chrony.NtpCore.Timeouts.{is_some}

-- What `transmit_packet` takes from elsewhere. The candidates are what the turns of a loop form of a
-- time that is not zero, each with its random bits.
pub record TransmitIo : Type 0 where
  pub leap : ℕ
  pub stratum : ℕ
  pub reference_id : ℕ
  -- `UTI_AddDoubleToTimespec` with the smoothing offset, or the identity if there is no smoothing.
  pub smooth : Timespec → Timespec
  pub receive_candidates : List NtpInt64
  -- The new packet is parsed and its extension fields are added.
  pub fields_added : Bool
  pub transmit_candidates : List NtpInt64
  pub authenticated : Bool
  pub length : ℕ
  pub sent : Bool
  pub sent_at : Timespec

-- What `transmit_packet` returns, and the packet if it came to send it.
pub record Transmission : Type 0 where
  pub sent : Bool
  pub packet : Option Message

abbrev pub ntp_version : ℕ
ntp_version = 4

unfoldable pub ntp_lvm : ℕ → ℕ → ℕ → ℕ
ntp_lvm leap version mode = leap % 4 * 64 + version % 8 * 8 + mode % 8

-- A loop that draws a timestamp until it is zero or none of those it must differ from. `none` when
-- it runs through all candidates.
unfoldable pub draw :
    List NtpInt64 → Option NtpInt64 → Option NtpInt64 → Option NtpInt64 → Option NtpInt64
draw [] b1 b2 b3 = none
draw (c ∷ cs) b1 b2 b3 =
    if not (is_zero_ntp64 c) && is_equal_any_ntp64 c b1 b2 b3 then draw cs b1 b2 b3 else some c

-- `UTI_TimespecToNtp64` takes zero for an unknown time, without random bits.
unfoldable pub is_unknown : Timespec → Bool
is_unknown ts = to_word32 ts.tv_sec == 0 && ts.tv_nsec % word32 == 0

-- What the turns of a loop make of a time.
unfoldable pub turns : Timespec → List NtpInt64 → List NtpInt64
turns ts candidates = if is_unknown ts then map (λ c. zero_ntp64) candidates else candidates

-- `local_receive`
unfoldable pub receive_time : ℕ → LocalTimestamp → TransmitIo → Timespec
receive_time mode local_rx io =
    if (mode == mode_server || mode == mode_broadcast) && not (is_zero_timespec local_rx.ts)
    then io.smooth local_rx.ts
    else local_rx.ts

unfoldable pub receive_turns : ℕ → LocalTimestamp → TransmitIo → List NtpInt64
receive_turns mode local_rx io = turns (receive_time mode local_rx io) io.receive_candidates

-- In the basic mode each turn reads the clock.
unfoldable pub transmit_turns : Bool → Option LocalTimestamp → TransmitIo → List NtpInt64
transmit_turns interleaved none io = io.transmit_candidates
transmit_turns interleaved (some local_tx) io =
    if interleaved then turns local_tx.ts io.transmit_candidates else io.transmit_candidates

-- A packet is formed in the interleaved mode only with the timestamps for it.
unfoldable pub is_interleaved : Bool → Option NtpInt64 → Option LocalTimestamp → Bool
is_interleaved interleaved remote_ntp_rx none = false
is_interleaved interleaved remote_ntp_rx (some local_tx) =
    interleaved && is_some remote_ntp_rx && not (is_zero_timespec local_tx.ts)

abbrev pub or_zero : Option NtpInt64 → NtpInt64
or_zero none = zero_ntp64
or_zero (some ts) = ts

-- The originate and the receive timestamp.
unfoldable pub received_timestamps :
    ℕ
    → Bool
    → Option NtpInt64
    → NtpInt64
    → Option NtpInt64
    → List NtpInt64
    → Option (NtpInt64 × NtpInt64)
received_timestamps mode interleaved remote_ntp_rx remote_ntp_tx local_ntp_rx candidates =
    let originate = if interleaved then or_zero remote_ntp_rx else remote_ntp_tx in
    if mode == mode_client && not interleaved
    then some (zero_ntp64, zero_ntp64)
    else (draw candidates (some originate) local_ntp_rx none >>= λ receive.
        some (originate, receive))

-- The flag of a server's receive timestamp.
unfoldable pub mark_server : ℕ → Message → Message
mark_server mode message =
    if mode == mode_server || mode == mode_passive
    then (let receive = message.receive_ts in
        let transmit = message.transmit_ts in
        record message {
          receive_ts = record receive { lo = receive.lo + 1 - receive.lo % 2 };
          transmit_ts = record transmit { lo = transmit.lo - transmit.lo % 2 };
        })
    else message

-- The leap status, the stratum and the reference ID of a packet.
unfoldable pub reference : ℕ → ℕ → TransmitIo → ℕ × ℕ × ℕ
reference mode kod io =
    if kod == 0
    then (if mode == mode_client then (0, 0, 0) else (io.leap, io.stratum, io.reference_id))
    else (leap_unsynchronised, ntp_invalid_stratum, kod)

abbrev pub make_message : ℕ → ℕ → ℤ → ℕ × ℕ × ℕ → NtpInt64 → NtpInt64 → NtpInt64 → Message
make_message mode version poll (leap, stratum, ref_id) originate receive transmit =
    mark_server mode (record {
      lvm = ntp_lvm leap (if ltb ntp_version version then ntp_version else version) mode;
      stratum = if ltb stratum ntp_max_stratum then stratum else ntp_invalid_stratum;
      poll = poll;
      reference_id = ref_id;
      originate_ts = originate;
      receive_ts = receive;
      transmit_ts = transmit;
    })

abbrev pub is_shorter : Option ℕ → ℕ → Bool
is_shorter none length = false
is_shorter (some request_length) length = ltb request_length length

-- The pointers of `transmit_packet` are options. The caller stores the timestamps of the packet.
unfoldable pub transmit_packet :
    (mode : ℕ)
    → (interleaved : Bool) → (poll : ℤ) → (version kod : ℕ) → (remote_ntp_rx : Option NtpInt64)
    → (remote_ntp_tx : NtpInt64) → (local_rx : LocalTimestamp) → (local_tx : Option LocalTimestamp)
    → (local_ntp_rx local_ntp_tx : Option NtpInt64) → (request_length : Option ℕ) → TransmitIo
    → Option Transmission
transmit_packet mode interleaved poll version kod remote_ntp_rx remote_ntp_tx local_rx local_tx
      local_ntp_rx local_ntp_tx request_length io =
    received_timestamps mode (is_interleaved interleaved remote_ntp_rx local_tx) remote_ntp_rx
      remote_ntp_tx local_ntp_rx (receive_turns mode local_rx io)
    >>= λ received.
        if io.fields_added
        then (draw (transmit_turns (is_interleaved interleaved remote_ntp_rx local_tx) local_tx io)
              (some received.1) (some received.0) local_ntp_tx
            >>= λ transmit.
                if io.authenticated && not (is_shorter request_length io.length)
                then some (record {
                  sent = io.sent;
                  packet = some (
                      make_message mode version poll (reference mode kod io) received.0 received.1
                        transmit);
                })
                else some (record { sent = false; packet = none }))
        else some (record { sent = false; packet = none })

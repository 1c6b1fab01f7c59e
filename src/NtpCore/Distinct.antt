-- ===== src/NtpCore/Distinct.antt =====
-- The timestamps of the packets that `transmit_packet` sends.
use chrony.Common.{
  ℕ, ◌%◌, Bool, true, false, not, ◌&&◌, ◌||◌, Option, none, some, ◌>>=◌, if◌then◌else◌, ◌==◌, ◌≡◌,
  ◌⊎◌, inl, inr, arith, Bool-cases, refl, subst,
}
use chrony.Common.Signed.{ℤ}
use chrony.Util.Ntp64.{is_zero_ntp64, is_equal_any_ntp64}
use chrony.Clientlog.Timestamps.Runs.{NtpInt64}
use chrony.NtpCore.{Message, LocalTimestamp, mode_server, mode_passive}
use chrony.NtpCore.Draws.{draw-differs}
use chrony.NtpCore.Transmit.{
  TransmitIo, Transmission, draw, receive_turns, transmit_turns, received_timestamps,
  is_interleaved, is_shorter, transmit_packet, mark_server,
}

-- What holds of the packet of every result, if a packet is formed.
abbrev pub AllPackets : (Message → Type 0) → Option Transmission → Type 0
AllPackets P none = Unit {0}
AllPackets P (some tr) = (message : Message) → tr.packet ≡ some message → P message

pub bind-AllPackets :
    {A : Type 0} (P : Message → Type 0) (o : Option A) (f : A → Option Transmission)
    → ((a : A) → o ≡ some a → AllPackets P (f a))
    → AllPackets P (o >>= f)
bind-AllPackets P none f k = tt
bind-AllPackets P (some a) f k = k a refl

pub if-AllPackets :
    (P : Message → Type 0) (test : Bool) (a b : Option Transmission)
    → (test ≡ true → AllPackets P a)
    → (test ≡ false → AllPackets P b)
    → AllPackets P (if test then a else b)
if-AllPackets P true a b h k = h refl
if-AllPackets P false a b h k = k refl

-- Of a server's packet the receive timestamp is odd and the transmit one even. Of another packet
-- the transmit timestamp is zero, or none of its other two and not that of the packet before.
abbrev pub IsDistinct : ℕ → Option NtpInt64 → Message → Type 0
IsDistinct mode local_ntp_tx message =
    let receive = message.receive_ts in
    let transmit = message.transmit_ts in
    (((mode == mode_server || mode == mode_passive) ≡ true)
      × (receive.lo % 2 ≡ 1)
      × (transmit.lo % 2 ≡ 0))
    ⊎ (((mode == mode_server || mode == mode_passive) ≡ false)
        × ((is_zero_ntp64 transmit ≡ true)
            ⊎ (is_equal_any_ntp64 transmit (some receive) (some message.originate_ts) local_ntp_tx
                ≡ false)))

mark_server-IsDistinct :
    (mode : ℕ) (local_ntp_tx : Option NtpInt64) (message : Message)
    → (is_zero_ntp64 message.transmit_ts ≡ true)
      ⊎ (is_equal_any_ntp64 message.transmit_ts
            (some message.receive_ts)
            (some message.originate_ts)
            local_ntp_tx
          ≡ false)
    → IsDistinct mode local_ntp_tx (mark_server mode message)
unfolding mark_server
mark_server-IsDistinct mode local_ntp_tx message h =
    elim (Bool-cases (mode == mode_server || mode == mode_passive)) [
      | inl e ↦ inl (e, rw e (omega arith), rw e (omega arith))
      | inr e ↦ inr (e, rw e h)
    ]

packet_of : {a b : Message} → some a ≡ some b → a ≡ b
packet_of e = cc e

pub one_packet :
    (P : Message → Type 0) (sent : Bool) (message : Message)
    → P message
    → AllPackets P (some (record { sent = sent; packet = some message }))
one_packet P sent message h m e = subst P (packet_of e) h

pub no_packet :
    (P : Message → Type 0) → AllPackets P (some (record { sent = false; packet = none }))
no_packet P m e = cc e

-- The timestamps of every packet that `transmit_packet` sends are distinct: a server's receive
-- timestamp is odd and its transmit timestamp even, so that a later request shows which of the two
-- it holds; in another packet the transmit timestamp is zero, or differs from its receive and
-- originate timestamps and from the transmit timestamp of the packet before.
pub transmit_packet-IsDistinct :
    (mode : ℕ) (interleaved : Bool) (poll : ℤ) (version kod : ℕ) (remote_ntp_rx : Option NtpInt64)
    (remote_ntp_tx : NtpInt64) (local_ts : LocalTimestamp) (local_tx : Option LocalTimestamp)
    (local_ntp_rx local_ntp_tx : Option NtpInt64) (request_length : Option ℕ) (io : TransmitIo)
    → AllPackets (IsDistinct mode local_ntp_tx) (
        transmit_packet mode interleaved poll version kod remote_ntp_rx remote_ntp_tx local_ts
          local_tx local_ntp_rx local_ntp_tx request_length io)
unfolding transmit_packet
transmit_packet-IsDistinct mode interleaved poll version kod rx tx local_ts local_tx local_rx
      local_ntp_tx len io =
    let P = IsDistinct mode local_ntp_tx in
    bind-AllPackets P
      (received_timestamps mode (is_interleaved interleaved rx local_tx) rx tx local_rx
        (receive_turns mode local_ts io))
      _
      (λ received _.
        if-AllPackets P io.fields_added _ _
          (λ _.
            bind-AllPackets P
              (draw (transmit_turns (is_interleaved interleaved rx local_tx) local_tx io)
                (some received.1) (some received.0) local_ntp_tx)
              _
              (λ transmit drawn.
                if-AllPackets P (io.authenticated && not (is_shorter len io.length)) _ _
                  (λ _. one_packet P io.sent _ (
                    mark_server-IsDistinct mode local_ntp_tx _ (
                      draw-differs
                        (transmit_turns (is_interleaved interleaved rx local_tx) local_tx io) _ _
                        local_ntp_tx transmit drawn)))
                  (λ _. no_packet P)))
          (λ _. no_packet P))

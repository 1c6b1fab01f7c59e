-- ===== src/NtpCore/Replies.antt =====
-- To whom the server replies, and with what.
use chrony.Common.{
  ℕ, ◌%◌, ◌≤◌, Bool, true, false, not, ◌&&◌, ◌||◌, Option, none, some, ◌>>=◌, if◌then◌else◌, ◌==◌,
  ◌≡◌, ◌≢◌, ◌⊎◌, inl, inr, arith, Bool-cases, refl, sym, subst,
}
use chrony.Common.Signed.{ℤ}
use chrony.Addressing.{IpAddr}
use chrony.AddrFilt.{AuthTable, is_allowed}
use chrony.Util.Time.{Timespec}
use chrony.Clientlog.Limits.{drop}
use chrony.Clientlog.Timestamps.{NtpTimestampMap}
use chrony.Clientlog.Timestamps.Store.{
  save_ntp_timestamps, get_ntp_tx_timestamp, disable_ntp_timestamps,
}
use chrony.Clientlog.Timestamps.Runs.{NtpInt64, ntp64_to_int64}
use chrony.NtpCore.{
  Message, LocalTimestamp, mode_undefined, mode_active, mode_passive, mode_client, mode_server,
  ntp_lvm_to_mode, ntp_lvm_to_version, ntp_ts_daemon, source_index,
}
use chrony.NtpCore.Timeouts.{is_some}
use chrony.NtpCore.Transmit.{
  TransmitIo, Transmission, draw, receive_turns, transmit_turns, received_timestamps,
  is_interleaved, is_shorter, mark_server, make_message, reference, transmit_packet, ntp_lvm,
}
use chrony.NtpCore.Distinct.{AllPackets, bind-AllPackets, if-AllPackets, one_packet, no_packet}
use chrony.NtpCore.Server.{
  ServerIo, ntp_port, reply_mode, reply_kod, asks_interleaved, Reply, save_reply, send_reply,
  answer_request, reply_with, process_rx_unknown,
}

-- A packet of a mode, which is no longer than the request.
abbrev IsReply : ℕ → ℕ → TransmitIo → Message → Type 0
IsReply mode length io reply = (ntp_lvm_to_mode reply.lvm ≡ mode % 8) × (io.length ≤ length)

make_message-mode :
    (mode version : ℕ) (poll : ℤ) (r : ℕ × ℕ × ℕ) (originate receive transmit : NtpInt64)
    → ntp_lvm_to_mode (make_message mode version poll r originate receive transmit).lvm ≡ mode % 8
unfolding mark_server ntp_lvm ntp_lvm_to_mode
make_message-mode mode version poll r originate receive transmit =
    elim (Bool-cases (mode == mode_server || mode == mode_passive)) [
      | inl e ↦ rw e (omega arith)
      | inr e ↦ rw e (omega arith)
    ]

transmit_packet-IsReply :
    (mode : ℕ) (interleaved : Bool) (poll : ℤ) (version code : ℕ) (remote_ntp_rx : Option NtpInt64)
    (remote_ntp_tx : NtpInt64) (local_ts : LocalTimestamp) (local_tx : Option LocalTimestamp)
    (local_ntp_rx local_ntp_tx : Option NtpInt64) (length : ℕ) (io : TransmitIo)
    → AllPackets (IsReply mode length io) (
        transmit_packet mode interleaved poll version code remote_ntp_rx remote_ntp_tx local_ts
          local_tx local_ntp_rx local_ntp_tx
          (some length)
          io)
unfolding transmit_packet
transmit_packet-IsReply mode interleaved poll version code rx tx local_ts local_tx local_rx
      local_ntp_tx length io =
    let P = IsReply mode length io in
    bind-AllPackets P
      (received_timestamps mode (is_interleaved interleaved rx local_tx) rx tx local_rx
        (receive_turns mode local_ts io))
      _
      (λ received _.
        if-AllPackets P io.fields_added _ _
          (λ _.
            bind-AllPackets P
              (draw (transmit_turns (is_interleaved interleaved rx local_tx) local_tx io)
                (some received.1) (some received.0) local_ntp_tx)
              _
              (λ transmit _.
                if-AllPackets P (io.authenticated && not (is_shorter (some length) io.length)) _ _
                  (λ e. one_packet P io.sent _ (
                    make_message-mode mode version poll (reference mode code io) received.0
                        received.1 transmit,
                    ground (arith, e),
                  ))
                  (λ _. no_packet P)))
          (λ _. no_packet P))

-- What holds of every reply.
abbrev pub AllReplies : (Message → Type 0) → Option Reply → Type 0
AllReplies P none = Unit {0}
AllReplies P (some (none, m)) = Unit {0}
AllReplies P (some (some reply, m)) = P reply

bind-AllReplies :
    {A : Type 0} (P : Message → Type 0) (o : Option A) (f : A → Option Reply)
    → ((a : A) → o ≡ some a → AllReplies P (f a))
    → AllReplies P (o >>= f)
bind-AllReplies P none f k = tt
bind-AllReplies P (some a) f k = k a refl

if-AllReplies :
    (P : Message → Type 0) (test : Bool) (a b : Option Reply)
    → (test ≡ true → AllReplies P a)
    → (test ≡ false → AllReplies P b)
    → AllReplies P (if test then a else b)
if-AllReplies P true a b h k = h refl
if-AllReplies P false a b h k = k refl

packets_of :
    (P : Message → Type 0) (o : Option Transmission) (tr : Transmission)
    → AllPackets P o
    → o ≡ some tr
    → (reply : Message) → tr.packet ≡ some reply
    → P reply
packets_of P none tr h e = cc e
packets_of P (some other) tr h e =
    let same : other ≡ tr = cc e in
    subst (λ t. (reply : Message) → t.packet ≡ some reply → P reply) same h

module _ (ntp64_to_timespec : ℕ → Timespec) (active : Bool) where
  save_reply-AllReplies :
      (P : Message → Type 0) (asked : Bool) (packet : Option Message) (sent_at : Timespec)
      (sent : Bool) (m : NtpTimestampMap)
      → ((reply : Message) → packet ≡ some reply → P reply)
      → AllReplies P (save_reply ntp64_to_timespec active asked packet sent_at sent m)
  unfolding save_reply
  save_reply-AllReplies P asked none sent_at sent m h = tt
  save_reply-AllReplies P asked (some reply) sent_at sent m h =
      if-AllReplies P sent _ _
        (λ _.
          bind-AllReplies P
            (if asked
              then save_ntp_timestamps ntp64_to_timespec active m (ntp64_to_int64 reply.receive_ts)
                  (some sent_at) (source_index ntp_ts_daemon)
              else some m)
            (λ saved. some (some reply, saved)) (λ saved _. h reply refl))
        (λ _. tt)

  send_reply-AllReplies :
      (asked : Bool) (mode code : ℕ) (found : Option (Timespec × ℕ)) (m : NtpTimestampMap)
      (rx_ts : LocalTimestamp) (message : Message) (length : ℕ) (io : ServerIo)
      → AllReplies
          (IsReply mode length io.transmit)
          (send_reply ntp64_to_timespec active asked mode code found m rx_ts message length io)
  unfolding send_reply
  send_reply-AllReplies asked mode code found m rx_ts message length io =
      let P = IsReply mode length io.transmit in
      bind-AllReplies P _ _ (λ tr e.
        save_reply-AllReplies P asked tr.packet io.transmit.sent_at tr.sent m (
          packets_of P _ tr
            (transmit_packet-IsReply mode _ _ _ code _ _ _ _ _ none length io.transmit) e))

  answer_request-AllReplies :
      (mode code : ℕ) (m : NtpTimestampMap) (rx_ts : LocalTimestamp) (message : Message)
      (length : ℕ) (io : ServerIo)
      → AllReplies
          (IsReply mode length io.transmit)
          (answer_request ntp64_to_timespec active mode code m rx_ts message length io)
  unfolding answer_request
  answer_request-AllReplies mode code m rx_ts message length io =
      let P = IsReply mode length io.transmit in
      if-AllReplies P (asks_interleaved message code io.logged) _ _
        (λ _.
          bind-AllReplies P
            (get_ntp_tx_timestamp ntp64_to_timespec m (ntp64_to_int64 message.originate_ts)) _
            (λ got _.
              bind-AllReplies P
                (if is_some got.0
                  then disable_ntp_timestamps got.1 (ntp64_to_int64 message.originate_ts)
                  else some got.1)
                (λ m'.
                  send_reply ntp64_to_timespec active true mode code got.0 m' rx_ts message length
                    io)
                (λ m' _. send_reply-AllReplies true mode code got.0 m' rx_ts message length io)))
        (λ _. send_reply-AllReplies false mode code none m rx_ts message length io)

-- To whom and how the server replies.
pub record IsServed (table : AuthTable) (ip : IpAddr) (port : ℕ) (message : Message) (length : ℕ)
    (io : ServerIo) (reply : Message) : Type 0 where
  pub on_socket : io.server_socket ≡ true
  pub allowed : is_allowed table ip ≡ some true
  pub not_dropped : io.limit ≢ drop
  pub authorised : (io.authentic ≡ true) ⊎ (io.auth_kod ≢ 0)
  pub modes :
      ((ntp_lvm_to_mode reply.lvm ≡ mode_passive) × (ntp_lvm_to_mode message.lvm ≡ mode_active))
      ⊎ ((ntp_lvm_to_mode reply.lvm ≡ mode_server)
          × ((ntp_lvm_to_mode message.lvm ≡ mode_client)
              ⊎ ((ntp_lvm_to_mode message.lvm ≡ mode_undefined)
                  × (ntp_lvm_to_version message.lvm ≡ 1)
                  × (port ≢ ntp_port))))
  pub not_longer : io.transmit.length ≤ length
  pub not_answered :
      (version port' : ℕ) → reply_mode (ntp_lvm_to_mode reply.lvm) version port' ≡ none

reply_mode_cases :
    (mode version port my_mode : ℕ)
    → reply_mode mode version port ≡ some my_mode
    → ((my_mode ≡ mode_passive) × (mode ≡ mode_active))
      ⊎ ((my_mode ≡ mode_server)
          × ((mode ≡ mode_client) ⊎ ((mode ≡ mode_undefined) × (version ≡ 1) × (port ≢ ntp_port))))
unfolding reply_mode
reply_mode_cases mode version port my_mode h = ground arith

no_reply_mode :
    (mode : ℕ)
    → (mode ≡ mode_passive) ⊎ (mode ≡ mode_server)
    → (version port : ℕ) → reply_mode mode version port ≡ none
unfolding reply_mode
no_reply_mode mode h version port = ground arith

reply_kod_cases :
    (io : ServerIo) (code : ℕ)
    → reply_kod io ≡ some code
    → (io.limit ≢ drop) × ((io.authentic ≡ true) ⊎ (io.auth_kod ≢ 0))
unfolding reply_kod
reply_kod_cases io code h = (λ e. ground (arith, h, e), ground (arith, h))

module _ (ntp64_to_timespec : ℕ → Timespec) (active : Bool) where
  -- Every reply goes to an address that the access table allows, for a request on a server socket
  -- that the rate limiting does not drop and that is authentic or has a kiss code. It is a server's
  -- reply to a client's request, or to one of NTPv1 with mode 0 from another port than 123, or a passive
  -- peer's to an active one. It is not longer than the request, and is itself never answered.
  pub process_rx_unknown-IsServed :
      (table : AuthTable) (m : NtpTimestampMap) (ip : IpAddr) (port : ℕ) (rx_ts : LocalTimestamp)
      (message : Message) (length : ℕ) (io : ServerIo)
      → AllReplies
          (IsServed table ip port message length io)
          (process_rx_unknown ntp64_to_timespec active table m ip port rx_ts message length io)
  unfolding process_rx_unknown
  process_rx_unknown-IsServed table m ip port rx_ts message length io =
      let P = IsServed table ip port message length io in
      if-AllReplies P io.server_socket _ _
        (λ socket. bind-AllReplies P (is_allowed table ip) _ (λ allowed looked.
          if-AllReplies P allowed _ _
            (λ e.
              by_mode socket (rw (sym e) looked)
                (reply_mode (ntp_lvm_to_mode message.lvm) (ntp_lvm_to_version message.lvm) port)
                (reply_kod io) refl refl)
            (λ _. tt)))
        (λ _. tt)
    where
      served :
          io.server_socket ≡ true
          → is_allowed table ip ≡ some true
          → (mode code : ℕ)
          → reply_mode (ntp_lvm_to_mode message.lvm) (ntp_lvm_to_version message.lvm) port
            ≡ some mode
          → reply_kod io ≡ some code
          → (reply : Message) → IsReply mode length io.transmit reply
          → IsServed table ip port message length io reply
      served socket allowed mode code e f reply r =
          let modes =
            reply_mode_cases (ntp_lvm_to_mode message.lvm) (ntp_lvm_to_version message.lvm) port
              mode e in
          let codes = reply_kod_cases io code f in
          record {
            on_socket = socket;
            allowed = allowed;
            not_dropped = codes.0;
            authorised = codes.1;
            modes = ground (arith, modes, r.0);
            not_longer = r.1;
            not_answered = no_reply_mode (ntp_lvm_to_mode reply.lvm) (ground (arith, modes, r.0));
          }

      weaken :
          (Q R : Message → Type 0) (o : Option Reply)
          → ((reply : Message) → Q reply → R reply)
          → AllReplies Q o
          → AllReplies R o
      weaken Q R none k h = tt
      weaken Q R (some (none, m')) k h = tt
      weaken Q R (some (some reply, m')) k h = k reply h

      by_mode :
          io.server_socket ≡ true
          → is_allowed table ip ≡ some true
          → (mode code : Option ℕ)
          → reply_mode (ntp_lvm_to_mode message.lvm) (ntp_lvm_to_version message.lvm) port ≡ mode
          → reply_kod io ≡ code
          → AllReplies
              (IsServed table ip port message length io)
              (reply_with ntp64_to_timespec active mode code m rx_ts message length io)
      by_mode socket allowed none code e f = tt
      by_mode socket allowed (some mode) none e f = tt
      by_mode socket allowed (some mode) (some code) e f =
          weaken (IsReply mode length io.transmit) (IsServed table ip port message length io)
            (answer_request ntp64_to_timespec active mode code m rx_ts message length io)
            (served socket allowed mode code e f)
            (answer_request-AllReplies ntp64_to_timespec active mode code m rx_ts message length io)

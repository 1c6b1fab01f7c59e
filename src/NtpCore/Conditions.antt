-- ===== src/NtpCore/Conditions.antt =====
-- What it takes for a packet to be the response to the last request, and what the code tests.
use chrony.Common.{
  Bool, true, false, not, ◌&&◌, ◌||◌, ◌≡◌, ◌≢◌, ◌↔◌, ◌⊎◌, inl, inr, arith, Bool-cases, refl, subst,
  sym,
}
use chrony.Common.Signed.{ℤ, pos, negsuc}
use chrony.Util.Ntp64.{zero_ntp64, is_zero_ntp64, same, same_iff, zero_of_is_zero}
use chrony.Clientlog.Timestamps.Runs.{NtpInt64}
use chrony.NtpCore.{
  NcrInstance, Message, is_offline, ntp_lvm_to_mode, mode_client, mode_active, mode_passive,
  mode_server,
}
use chrony.NtpCore.Timeouts.{is_socket}
use chrony.NtpCore.Response.{Verdicts, packet_tests, valid_packet}
use chrony.NtpCore.Events.{is_response_mode}

-- The first authentic packet of the server, or of the peer, that answers the last request.
pub record IsAnswer (inst : NcrInstance) (fd : ℤ) (message : Message) (v : Verdicts) : Type 0 where
  pub of_mode :
      ((inst.mode ≡ mode_client) × (ntp_lvm_to_mode message.lvm ≡ mode_server))
      ⊎ ((inst.mode ≡ mode_active)
          × ((ntp_lvm_to_mode message.lvm ≡ mode_active)
              ⊎ (ntp_lvm_to_mode message.lvm ≡ mode_passive)))
  pub on_socket : inst.sock_fd ≡ fd
  pub online : is_offline inst.opmode ≡ false
  pub started : inst.tx_suspended ≡ false
  pub first : inst.valid_rx ≡ false
  pub fresh : (message.receive_ts ≢ inst.remote_ntp_rx) ⊎ (message.transmit_ts ≢ inst.remote_ntp_tx)
  pub answers :
      (message.originate_ts ≡ inst.local_ntp_tx)
      ⊎ ((inst.interleaved ≡ true) × (message.originate_ts ≡ inst.local_ntp_rx))
  pub originate_set : message.originate_ts ≢ zero_ntp64
  pub receive_set : message.receive_ts ≢ zero_ntp64
  pub transmit_set : message.transmit_ts ≢ zero_ntp64
  pub authentic : v.authentic ≡ true

abbrev pub is_processed : NcrInstance → ℤ → Message → Bool
is_processed inst fd message =
    is_response_mode (ntp_lvm_to_mode message.lvm) inst.mode
    && is_socket inst.sock_fd fd
    && not (is_offline inst.opmode || inst.tx_suspended)

-- What the code tests.
abbrev pub is_accepted : NcrInstance → ℤ → Message → Verdicts → Bool
is_accepted inst fd message v =
    is_processed inst fd message
    && not (inst.valid_rx || not (valid_packet (packet_tests inst false message v)))

is_zero_iff : (a : NtpInt64) → (is_zero_ntp64 a ≡ true) ↔ (a ≡ zero_ntp64)
unfolding is_zero_ntp64
is_zero_iff a = (λ h. zero_of_is_zero a h, λ e. subst (λ x. is_zero_ntp64 x ≡ true) (sym e) refl)

is_socket_iff : (a b : ℤ) → (is_socket a b ≡ true) ↔ (a ≡ b)
is_socket_iff (pos a) (pos b) = ground arith
is_socket_iff (pos a) (negsuc b) = (λ e. cc e, λ e. cc e)
is_socket_iff (negsuc a) (pos b) = (λ e. cc e, λ e. cc e)
is_socket_iff (negsuc a) (negsuc b) = ground arith

differ : (a b : NtpInt64) → same a b ≡ false → a ≢ b
differ a b h e = cc (h, (same_iff a b).1 e)

pub is_accepted-IsAnswer :
    (inst : NcrInstance) (fd : ℤ) (message : Message) (v : Verdicts)
    → is_accepted inst fd message v ≡ true
    → IsAnswer inst fd message v
unfolding is_response_mode valid_packet packet_tests
is_accepted-IsAnswer inst fd message v h = record {
  of_mode = ground (arith, h);
  on_socket = ground (arith, h, is_socket_iff inst.sock_fd fd);
  online = ground (arith, h);
  started = ground (arith, h);
  first = ground (arith, h);
  fresh = elim (Bool-cases (same message.receive_ts inst.remote_ntp_rx)) [
    | inl e ↦ inr (differ message.transmit_ts inst.remote_ntp_tx (ground (arith, h, e)))
    | inr e ↦ inl (differ message.receive_ts inst.remote_ntp_rx e)
  ];
  answers = ground (
    arith,
    h,
    same_iff message.originate_ts inst.local_ntp_tx,
    same_iff message.originate_ts inst.local_ntp_rx,
  );
  originate_set = ground (arith, h, is_zero_iff message.originate_ts);
  receive_set = ground (arith, h, is_zero_iff message.receive_ts);
  transmit_set = ground (arith, h, is_zero_iff message.transmit_ts);
  authentic = ground (arith, h);
}

pub IsAnswer-is_accepted :
    (inst : NcrInstance) (fd : ℤ) (message : Message) (v : Verdicts)
    → IsAnswer inst fd message v
    → is_accepted inst fd message v ≡ true
unfolding is_response_mode valid_packet packet_tests
IsAnswer-is_accepted inst fd message v h = ground (
  arith,
  h.of_mode,
  h.on_socket,
  h.online,
  h.started,
  h.first,
  h.fresh,
  h.answers,
  h.originate_set,
  h.receive_set,
  h.transmit_set,
  h.authentic,
  is_socket_iff inst.sock_fd fd,
  same_iff message.receive_ts inst.remote_ntp_rx,
  same_iff message.transmit_ts inst.remote_ntp_tx,
  same_iff message.originate_ts inst.local_ntp_tx,
  same_iff message.originate_ts inst.local_ntp_rx,
  is_zero_iff message.originate_ts,
  is_zero_iff message.receive_ts,
  is_zero_iff message.transmit_ts,
)

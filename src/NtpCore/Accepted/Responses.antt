-- ===== src/NtpCore/Accepted/Responses.antt =====
-- A response that is accepted uses up the outstanding request.
use chrony.Common.{
  ℕ, ◌+◌, ◌≤◌, Bool, true, false, not, ◌&&◌, ◌||◌, Option, none, some, if◌then◌else◌, ◌≡◌, inl, inr,
  arith, Bool-cases, subst,
}
use chrony.Util.Ntp64.{is_zero_ntp64, same, same_iff}
use chrony.Clientlog.Timestamps.Runs.{NtpInt64}
use chrony.NtpCore.{NcrInstance, Message, LocalTimestamp, SavedResponse}
use chrony.NtpCore.Timeouts.{close_client_socket}
use chrony.NtpCore.Response.{
  Verdicts, PacketTests, packet_tests, valid_packet, synced_packet, is_kod_rate, good_packet,
  update_timestamps, record_response, count_valid, accept_response, finish_response, known_sources,
  process_saved, process_saved_response, can_save, process_response,
}
use chrony.NtpCore.Accepted.{
  HasRoom, Room, room_stable, IfSome, bind-IfSome, if-IfSome, accumulate-Kept,
  requeue_response-Kept, update_timestamps-Kept,
}

-- The originate timestamp of a response is not zero, so what it matches is not.
nonzero_of_same :
    (a b : NtpInt64) → same a b ≡ true → is_zero_ntp64 a ≡ false → is_zero_ntp64 b ≡ false
nonzero_of_same a b e h = subst (λ x. is_zero_ntp64 x ≡ false) ((same_iff a b).0 e) h

-- A valid response needs an outstanding request.
valid_packet-outstanding :
    (inst : NcrInstance) (saved : Bool) (message : Message) (v : Verdicts)
    → valid_packet (packet_tests inst saved message v) ≡ true
    → (is_zero_ntp64 inst.local_ntp_tx && is_zero_ntp64 inst.local_ntp_rx) ≡ false
unfolding valid_packet packet_tests
valid_packet-outstanding inst saved message v h =
    elim (Bool-cases (same message.originate_ts inst.local_ntp_tx)) [
      | inl e ↦
          let nonzero = nonzero_of_same message.originate_ts inst.local_ntp_tx e (ground arith) in
          ground (arith, nonzero)
      | inr e ↦
          let nonzero =
            nonzero_of_same message.originate_ts inst.local_ntp_rx (ground arith) (ground arith) in
          ground (arith, nonzero)
    ]

-- A response that is accepted uses up the request: there was room for one more.
accept_response-Room :
    (n : ℕ) (inst : NcrInstance) (saved : Bool) (t : PacketTests) (message : Message) (v : Verdicts)
    (good : Bool)
    → Room n 1 inst
    → IfSome (Room n 0) (accept_response inst saved t message v good)
unfolding accept_response record_response count_valid close_client_socket
accept_response-Room n inst saved t message v good h =
    bind-IfSome (Room n 1) (Room n 0) _ _
      (requeue_response-Kept (HasRoom n 1) (room_stable n 1) _ saved (is_kod_rate t message) (
        accumulate-Kept (HasRoom n 1) (room_stable n 1)
          (record_response inst message (synced_packet t)) v good h))
      (λ queued p. omega (arith, p))

finish_response-Room :
    (n : ℕ) (inst : NcrInstance) (saved : Bool) (t : PacketTests) (rx_ts : LocalTimestamp)
    (message : Message) (v : Verdicts)
    → (valid_packet t ≡ true
        → (is_zero_ntp64 inst.local_ntp_tx && is_zero_ntp64 inst.local_ntp_rx) ≡ false)
    → Room n 0 inst
    → IfSome (Room n 0) (finish_response inst saved t rx_ts message v)
unfolding finish_response
finish_response-Room n inst saved t rx_ts message v fresh h =
    let good = good_packet inst t message v in
    let updated = update_timestamps inst t rx_ts message v good in
    let kept =
      update_timestamps-Kept
        (λ rx a b total.
          (total + (if rx || (is_zero_ntp64 a && is_zero_ntp64 b) then 0 else 1) + 0 ≤ n)
          × (valid_packet t ≡ true → (is_zero_ntp64 a && is_zero_ntp64 b) ≡ false))
        inst t rx_ts message v good (h, fresh) in
    if-IfSome (Room n 0) (known_sources inst t rx_ts v) _ none
      (λ _.
        if-IfSome (Room n 0) (updated.valid_rx || not (valid_packet t)) _ _ (λ _. kept.0)
          (λ e.
            accept_response-Room n (record updated { valid_rx = true }) saved t message v good
              (used updated e kept.0 (kept.1 (ground (arith, e))))))
      (λ _. tt)
  where
    used :
        (i : NcrInstance)
        → (i.valid_rx || not (valid_packet t)) ≡ false
        → Room n 0 i
        → (is_zero_ntp64 i.local_ntp_tx && is_zero_ntp64 i.local_ntp_rx) ≡ false
        → i.total_valid_count + 0 + 1 ≤ n
    used i e r z = ground (arith, e, r, z)

pub process_saved_response-Room :
    (n : ℕ) (inst : NcrInstance) (v : Verdicts)
    → Room n 0 inst
    → IfSome (Room n 0) (process_saved_response inst v)
unfolding process_saved_response
process_saved_response-Room n inst v h = by_response inst.saved_response
  where
    by_response : (o : Option SavedResponse) → IfSome (Room n 0) (process_saved inst v o)
    by_response none = h
    by_response (some s) =
        let resumed = record inst { saved_response = none } in
        finish_response-Room n resumed true (packet_tests resumed true s.message v) s.rx_ts
          s.message v (valid_packet-outstanding resumed true s.message v) h

-- No response is saved: hardware timestamping is off, or there is no time to wait for it.
abbrev pub SavesNothing : Verdicts → Type 0
SavesNothing v = (v.hw_ts_enabled && v.hw_ts_timeout) ≡ false

pub saves_nothing :
    (inst : NcrInstance) (t : PacketTests) (v : Verdicts)
    → SavesNothing v
    → can_save inst t v ≡ true
    → ⊥
unfolding can_save
saves_nothing inst t v s e = ground arith

pub process_response-Room :
    (n : ℕ) (inst : NcrInstance) (rx_ts : LocalTimestamp) (message : Message) (v saved_v : Verdicts)
    → SavesNothing v
    → Room n 0 inst
    → IfSome (Room n 0) (process_response inst rx_ts message v saved_v)
unfolding process_response
process_response-Room n inst rx_ts message v saved_v s h =
    let t = packet_tests inst false message v in
    if-IfSome (Room n 0) (can_save inst t v) _ _ (λ e. absurd (saves_nothing inst t v s e))
      (λ _.
        finish_response-Room n inst false t rx_ts message v
          (valid_packet-outstanding inst false message v) h)

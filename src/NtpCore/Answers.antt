-- ===== src/NtpCore/Answers.antt =====
-- Which packets a source accepts as the response to its request, and what the others do.
use chrony.Common.{
  ℕ, ◌+◌, Bool, true, false, not, ◌||◌, Option, none, some, if◌then◌else◌, ◌≡◌, ◌⊎◌, inl, inr,
  arith, Bool-cases, refl,
}
use chrony.Common.Signed.{ℤ}
use chrony.Clientlog.Timestamps.Runs.{NtpInt64}
use chrony.NtpCore.{NcrInstance, Message, LocalTimestamp, mode_client}
use chrony.NtpCore.Timeouts.{close_client_socket}
use chrony.NtpCore.Response.{
  Verdicts, PacketTests, packet_tests, valid_packet, synced_packet, is_kod_rate, good_packet,
  takes_timestamps, takes_init_timestamps, known_sources, update_timestamps, record_response,
  count_valid, accept_response, finish_response, can_save, process_response,
}
use chrony.NtpCore.PacketTests.{known_sources-holds}
use chrony.NtpCore.Events.{count_rx, process_packet, process_rx_known}
use chrony.NtpCore.Sound.{IsSound, Returns}
use chrony.NtpCore.Sound.Runs.{process_rx_known-IsSound}
use chrony.NtpCore.Accepted.{
  IfSome, bind-IfSome, if-IfSome, accumulate-Kept, requeue_response-Kept, update_timestamps-Kept,
}
use chrony.NtpCore.Accepted.Responses.{SavesNothing, saves_nothing}
use chrony.NtpCore.Conditions.{
  IsAnswer, is_processed, is_accepted, is_accepted-IsAnswer, IsAnswer-is_accepted,
}

-- The number of responses, without the rest.
abbrev Total : ℕ → NcrInstance → Type 0
Total n inst = inst.total_valid_count ≡ n

abbrev HasTotal : ℕ → Bool → NtpInt64 → NtpInt64 → ℕ → Type 0
HasTotal n valid_rx local_ntp_tx local_ntp_rx total = total ≡ n

accept_response-Total :
    (n : ℕ) (inst : NcrInstance) (saved : Bool) (t : PacketTests) (message : Message) (v : Verdicts)
    (good : Bool)
    → Total n inst
    → IfSome (Total (n + 1)) (accept_response inst saved t message v good)
unfolding accept_response record_response count_valid close_client_socket
accept_response-Total n inst saved t message v good h =
    let stable = λ (rx : Bool) (a b : NtpInt64) (total : ℕ) (e : total ≡ n). e in
    bind-IfSome (Total n) (Total (n + 1)) _ _
      (requeue_response-Kept (HasTotal n) stable _ saved (is_kod_rate t message) (
        accumulate-Kept (HasTotal n) stable (record_response inst message (synced_packet t)) v good
          h))
      (λ queued p. omega (arith, p))

-- One response more, if it is accepted.
abbrev Counted : Bool → ℕ → NcrInstance → Type 0
Counted accepted n inst = inst.total_valid_count ≡ (if accepted then n + 1 else n)

one_more_response :
    (accepted : Bool) (n : ℕ) (o : Option NcrInstance)
    → accepted ≡ true
    → IfSome (Total (n + 1)) o
    → IfSome (Counted accepted n) o
one_more_response accepted n none e h = tt
one_more_response accepted n (some inst) e h = ground arith

same_test :
    (accepted result before after invalid : Bool)
    → accepted ≡ not (before || invalid)
    → after ≡ before
    → (after || invalid) ≡ result
    → accepted ≡ not result
same_test accepted result before after invalid p q r = ground arith

finish_response-Total :
    (inst : NcrInstance) (t : PacketTests) (rx_ts : LocalTimestamp) (message : Message)
    (v : Verdicts) (accepted : Bool)
    → accepted ≡ not (inst.valid_rx || not (valid_packet t))
    → IfSome
        (Counted accepted inst.total_valid_count)
        (finish_response inst false t rx_ts message v)
unfolding finish_response
finish_response-Total inst t rx_ts message v accepted test =
    let n = inst.total_valid_count in
    let good = good_packet inst t message v in
    let updated = update_timestamps inst t rx_ts message v good in
    let kept =
      update_timestamps-Kept (λ rx a b total. (rx ≡ inst.valid_rx) × (total ≡ n)) inst t rx_ts
        message v good (refl, refl) in
    if-IfSome (Counted accepted n) (known_sources inst t rx_ts v) _ none
      (λ _.
        if-IfSome (Counted accepted n) (updated.valid_rx || not (valid_packet t)) _ _
          (λ e.
            let refused : accepted ≡ false = same_test accepted true _ _ _ test kept.0 e in
            rw refused kept.1)
          (λ e.
            let taken : accepted ≡ true = same_test accepted false _ _ _ test kept.0 e in
            one_more_response accepted n _ taken (
              accept_response-Total n (record updated { valid_rx = true }) false t message v good
                kept.1)))
      (λ _. tt)

process_packet-Total :
    (inst : NcrInstance) (fd : ℤ) (rx_ts : LocalTimestamp) (message : Message)
    (v saved_v : Verdicts)
    → SavesNothing v
    → IfSome
        (Counted (is_accepted inst fd message v) inst.total_valid_count)
        (process_packet inst fd rx_ts message v saved_v)
unfolding process_packet process_response
process_packet-Total inst fd rx_ts message v saved_v s =
    let n = inst.total_valid_count in
    let accepted = is_accepted inst fd message v in
    let t = packet_tests inst false message v in
    if-IfSome (Counted accepted n) (is_processed inst fd message) _ _
      (λ e.
        if-IfSome (Counted accepted n) (can_save inst t v) _ _
          (λ f. absurd (saves_nothing inst t v s f))
          (λ _. finish_response-Total inst t rx_ts message v accepted (rw e refl)))
      (λ e. rw e refl)

-- The counts of received packets play no part.
process_rx_known-Total :
    (inst : NcrInstance) (fd : ℤ) (rx_ts : LocalTimestamp) (message : Message)
    (v saved_v : Verdicts)
    → SavesNothing v
    → IfSome
        (Counted (is_accepted inst fd message v) inst.total_valid_count)
        (process_rx_known inst fd rx_ts message v saved_v)
unfolding process_rx_known packet_tests
process_rx_known-Total inst fd rx_ts message v saved_v s =
    process_packet-Total (count_rx inst rx_ts) fd rx_ts message v saved_v s

-- In a source that satisfies the invariant, exactly the first authentic packet that answers the last
-- request is counted as a valid response, when no packet is saved for a hardware timestamp. An answer is one on the open
-- socket of a source that is online and started, with new timestamps that are not zero, of which
-- the originate one is the transmit timestamp of the request or, in the interleaved mode, its
-- receive timestamp. The call returns, and keeps the invariant of the source.
pub process_rx_known-answers :
    (inst : NcrInstance) (fd : ℤ) (rx_ts : LocalTimestamp) (message : Message)
    (v saved_v : Verdicts)
    → IsSound true inst
    → SavesNothing v
    → Returns
        (λ next.
          IsSound true next
          × ((IsAnswer inst fd message v × (next.total_valid_count ≡ inst.total_valid_count + 1))
              ⊎ ((IsAnswer inst fd message v → ⊥)
                  × (next.total_valid_count ≡ inst.total_valid_count))))
        (process_rx_known inst fd rx_ts message v saved_v)
process_rx_known-answers inst fd rx_ts message v saved_v h s =
    by_result (process_rx_known inst fd rx_ts message v saved_v)
      (process_rx_known-IsSound inst fd rx_ts message v saved_v h)
      (process_rx_known-Total inst fd rx_ts message v saved_v s)
  where
    by_result :
        (o : Option NcrInstance)
        → Returns (IsSound true) o
        → IfSome (Counted (is_accepted inst fd message v) inst.total_valid_count) o
        → Returns
            (λ next.
              IsSound true next
              × ((IsAnswer inst fd message v
                    × (next.total_valid_count ≡ inst.total_valid_count + 1))
                  ⊎ ((IsAnswer inst fd message v → ⊥)
                      × (next.total_valid_count ≡ inst.total_valid_count))))
            o
    by_result none r k = r
    by_result (some next) r k = (
      r,
      elim (Bool-cases (is_accepted inst fd message v)) [
        | inl e ↦ inl (is_accepted-IsAnswer inst fd message v e, ground (arith, k, e))
        | inr e ↦ inr (λ a. cc (e, IsAnswer-is_accepted inst fd message v a), ground (arith, k, e))
      ],
    )

takes_nothing :
    (inst : NcrInstance) (t : PacketTests) (message : Message)
    → inst.mode ≡ mode_client
    → (inst.valid_rx || not (valid_packet t)) ≡ true
    → (takes_timestamps inst t message ≡ false) × (takes_init_timestamps inst t message ≡ false)
unfolding takes_timestamps takes_init_timestamps
takes_nothing inst t message client e = (ground arith, ground arith)

finish_response-unchanged :
    (inst : NcrInstance) (t : PacketTests) (rx_ts : LocalTimestamp) (message : Message)
    (v : Verdicts)
    → inst.mode ≡ mode_client
    → (inst.valid_rx || not (valid_packet t)) ≡ true
    → finish_response inst false t rx_ts message v ≡ some inst
unfolding finish_response update_timestamps
finish_response-unchanged inst t rx_ts message v client e =
    let nothing = takes_nothing inst t message client e in
    let same : update_timestamps inst t rx_ts message v (good_packet inst t message v) ≡ inst =
      rw (nothing.0, nothing.1, update_timestamps) refl in
    rw (known_sources-holds inst t rx_ts v, same) (rw e refl)

process_packet-unchanged :
    (inst : NcrInstance) (fd : ℤ) (rx_ts : LocalTimestamp) (message : Message)
    (v saved_v : Verdicts)
    → inst.mode ≡ mode_client
    → SavesNothing v
    → (IsAnswer inst fd message v → ⊥)
    → process_packet inst fd rx_ts message v saved_v ≡ some inst
unfolding process_packet process_response
process_packet-unchanged inst fd rx_ts message v saved_v client s no_answer =
    let t = packet_tests inst false message v in
    let saving : can_save inst t v ≡ false = ground (arith, saves_nothing inst t v s) in
    elim (Bool-cases (is_processed inst fd message)) [
      | inl e ↦ elim (Bool-cases (inst.valid_rx || not (valid_packet t))) [
        | inl f ↦ rw (e, saving) (finish_response-unchanged inst t rx_ts message v client f)
        | inr f ↦ absurd (no_answer (is_accepted-IsAnswer inst fd message v (ground (arith, e, f))))
      ]
      | inr e ↦ rw e refl
    ]

-- A packet that is no answer leaves a client's source as it is, but for the counts of received packets
-- and of their timestamps, when no packet is saved for a hardware timestamp.
pub process_rx_known-unchanged :
    (inst : NcrInstance) (fd : ℤ) (rx_ts : LocalTimestamp) (message : Message)
    (v saved_v : Verdicts)
    → inst.mode ≡ mode_client
    → SavesNothing v
    → (IsAnswer inst fd message v → ⊥)
    → process_rx_known inst fd rx_ts message v saved_v ≡ some (count_rx inst rx_ts)
unfolding process_rx_known
process_rx_known-unchanged inst fd rx_ts message v saved_v client s no_answer =
    process_packet-unchanged (count_rx inst rx_ts) fd rx_ts message v saved_v client s
      (λ a. no_answer (of_counted a))
  where
    of_counted : IsAnswer (count_rx inst rx_ts) fd message v → IsAnswer inst fd message v
    of_counted a = record {
      of_mode = a.of_mode;
      on_socket = a.on_socket;
      online = a.online;
      started = a.started;
      first = a.first;
      fresh = a.fresh;
      answers = a.answers;
      originate_set = a.originate_set;
      receive_set = a.receive_set;
      transmit_set = a.transmit_set;
      authentic = a.authentic;
    }

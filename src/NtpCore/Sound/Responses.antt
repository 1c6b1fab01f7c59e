-- ===== src/NtpCore/Sound/Responses.antt =====
-- `process_response` keeps the invariant, and meets no failed assertion.
use chrony.Common.{Bool, true, false, not, ◌||◌, Option, none, some, ◌≡◌, arith, refl}
use chrony.Common.Signed.{pos, ltb_ℤ, ◌-ℤ◌}
use chrony.NtpCore.{
  NcrInstance, Message, LocalTimestamp, SavedResponse, OperatingMode, md_offline, md_online,
  md_burst_was_offline, md_burst_was_online, is_offline,
}
use chrony.NtpCore.Poll.{adjust_poll, process_sample}
use chrony.NtpCore.Timeouts.{
  requeue, restart_timeout, has_transmit_delay, close_client_socket, take_offline, is_burst,
  has_saved_response, reset_instance,
}
use chrony.NtpCore.Response.{
  Verdicts, PacketTests, packet_tests, valid_packet, synced_packet, is_kod_rate, good_packet,
  takes_timestamps, takes_init_timestamps, update_timestamps, record_response, end_burst,
  count_good, accumulate, requeue_response, count_valid, accept_response, finish_response,
  known_sources, process_saved, process_saved_response, can_save, process_response,
}
use chrony.NtpCore.PacketTests.{known_sources-holds}
use chrony.NtpCore.Sound.{
  IsSound, Returns, bind-Returns, if-Holds, if-Returns, adjust_poll-IsSound, process_sample-IsSound,
  process_sample-Holds,
}
use chrony.NtpCore.Sound.Timers.{untimed, timed_anyway, has_delay, requeue-IsSound}

-- The assertion in front of the timer: it runs, unless the source went offline. A saved response
-- may do without.
abbrev pub Live : Bool → NcrInstance → Type 0
Live lax inst = (lax || is_offline inst.opmode || inst.tx_timeout) ≡ true

abbrev pub Ready : Bool → Bool → NcrInstance → Type 0
Ready lax timed inst = IsSound timed inst × Live lax inst

requeue-Live :
    (lax : Bool) (inst : NcrInstance)
    → IsSound false inst
    → Live lax inst
    → is_offline inst.opmode ≡ false
    → Returns (Live lax) (requeue inst)
unfolding requeue restart_timeout
requeue-Live lax inst h l online =
    if-Returns (Live lax) (has_transmit_delay inst.opmode inst.mode) _ none (λ _. ground arith)
      (λ e. cc (e, has_delay inst.opmode inst.mode h.known_mode online))

both :
    (P Q : NcrInstance → Type 0) (o : Option NcrInstance)
    → Returns P o
    → Returns Q o
    → Returns (λ i. P i × Q i) o
both P Q none p q = p
both P Q (some inst) p q = (p, q)

module _ (saved lax timed : Bool) (allowed : (not lax || saved) ≡ true) where
  update_timestamps-Ready :
      (inst : NcrInstance) (t : PacketTests) (rx_ts : LocalTimestamp) (message : Message)
      (v : Verdicts) (good : Bool)
      → Ready lax timed inst
      → Ready lax timed (update_timestamps inst t rx_ts message v good)
  unfolding update_timestamps
  update_timestamps-Ready inst t rx_ts message v good h =
      if-Holds (Ready lax timed) (takes_timestamps inst t message) _ _ (λ _. h)
        (λ _.
          if-Holds (Ready lax timed) (takes_init_timestamps inst t message) _ inst (λ _. h)
            (λ _. h))

  end_burst-Ready :
      (inst : NcrInstance) (opmode : OperatingMode)
      → inst.opmode ≡ opmode
      → Ready lax timed inst
      → Ready lax timed (end_burst inst opmode)
  unfolding take_offline reset_instance close_client_socket
  end_burst-Ready inst md_offline e h = h
  end_burst-Ready inst md_online e h = h
  end_burst-Ready inst md_burst_was_offline e h = ground arith
  end_burst-Ready inst md_burst_was_online e h = ground arith

  count_good-Ready : (inst : NcrInstance) → Ready lax timed inst → Ready lax timed (count_good inst)
  unfolding count_good
  count_good-Ready inst h =
      let left = inst.burst_good_samples_to_go -ℤ pos 1 in
      let counted = record inst { burst_good_samples_to_go = left } in
      if-Holds (Ready lax timed) (is_burst inst.opmode) _ inst
        (λ _.
          if-Holds (Ready lax timed) (ltb_ℤ (pos 0) left) counted _ (λ _. h)
            (λ _. end_burst-Ready counted inst.opmode refl h))
        (λ _. h)

  accumulate-Ready :
      (inst : NcrInstance) (v : Verdicts) (good : Bool)
      → Ready lax timed inst
      → Ready lax timed (accumulate inst v good)
  unfolding accumulate adjust_poll
  accumulate-Ready inst v good h =
      let missed = adjust_poll inst v.miss in
      let missed_sound = adjust_poll-IsSound timed inst v.miss h.0 in
      if-Holds (Ready lax timed) good _ _
        (λ _. count_good-Ready (process_sample inst true v.update) (
          process_sample-IsSound timed inst true v.update h.0,
          process_sample-Holds (Live lax) (λ i p l. l) (λ i n l. l) inst true v.update h.1,
        ))
        (λ _. (
          process_sample-IsSound timed missed false v.update missed_sound,
          process_sample-Holds (Live lax) (λ i p l. l) (λ i n l. l) missed false v.update h.1,
        ))

  requeue_response-Ready :
      (inst : NcrInstance) (kod : Bool)
      → Ready lax timed inst
      → Returns (Ready lax timed) (requeue_response inst saved kod)
  unfolding requeue_response
  requeue_response-Ready inst kod h =
      if-Returns (Ready lax timed) (is_offline inst.opmode) _ _ (λ _. h)
        (λ online.
          if-Returns (Ready lax timed) (saved || inst.tx_timeout) _ none
            (λ _.
              both (IsSound timed) (Live lax) _
                (timed_anyway timed _ (requeue-IsSound _ (untimed inst timed h.0) online))
                (requeue-Live lax _ (untimed inst timed h.0) h.1 online))
            (λ e. ground (arith, h.1)))

  accept_response-Ready :
      (inst : NcrInstance) (t : PacketTests) (message : Message) (v : Verdicts) (good : Bool)
      → Ready lax timed inst
      → Returns (Ready lax timed) (accept_response inst saved t message v good)
  unfolding accept_response record_response count_valid close_client_socket
  accept_response-Ready inst t message v good h =
      bind-Returns (Ready lax timed) (Ready lax timed) _ _
        (requeue_response-Ready _ (is_kod_rate t message)
          (accumulate-Ready (record_response inst message (synced_packet t)) v good h))
        (λ queued p. p)

  finish_response-Ready :
      (inst : NcrInstance) (t : PacketTests) (rx_ts : LocalTimestamp) (message : Message)
      (v : Verdicts)
      → Ready lax timed inst
      → Returns (Ready lax timed) (finish_response inst saved t rx_ts message v)
  unfolding finish_response
  finish_response-Ready inst t rx_ts message v h =
      let good = good_packet inst t message v in
      let updated = update_timestamps inst t rx_ts message v good in
      let ready = update_timestamps-Ready inst t rx_ts message v good h in
      if-Returns (Ready lax timed) (known_sources inst t rx_ts v) _ none
        (λ _.
          if-Returns (Ready lax timed) (updated.valid_rx || not (valid_packet t)) _ _ (λ _. ready)
            (λ _.
              accept_response-Ready (record updated { valid_rx = true }) t message v good ready))
        (λ e. cc (e, known_sources-holds inst t rx_ts v))

pub process_saved_response-Ready :
    (lax timed : Bool) (inst : NcrInstance) (v : Verdicts)
    → Ready lax timed inst
    → Returns (Ready lax timed) (process_saved_response inst v)
unfolding process_saved_response
process_saved_response-Ready lax timed inst v h = by_response inst.saved_response
  where
    by_response : (o : Option SavedResponse) → Returns (Ready lax timed) (process_saved inst v o)
    by_response none = h
    by_response (some s) =
        let resumed = record inst { saved_response = none } in
        finish_response-Ready true lax timed (ground arith) resumed
          (packet_tests resumed true s.message v) s.rx_ts s.message v h

pub process_response-Ready :
    (timed : Bool) (inst : NcrInstance) (rx_ts : LocalTimestamp) (message : Message)
    (v saved_v : Verdicts)
    → Ready false timed inst
    → Returns (Ready false timed) (process_response inst rx_ts message v saved_v)
unfolding process_response
process_response-Ready timed inst rx_ts message v saved_v h =
    let t = packet_tests inst false message v in
    let P = Ready false timed in
    let finish = λ (i : NcrInstance) (p : P i).
      finish_response-Ready false false timed refl i t rx_ts message v p in
    if-Returns P (can_save inst t v) _ _
      (λ _.
        if-Returns P (has_saved_response inst) _ _
          (λ _.
            bind-Returns P P _ _ (process_saved_response-Ready false timed inst saved_v h) finish)
          (λ _. h))
      (λ _. finish inst h)

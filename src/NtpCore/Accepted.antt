-- ===== src/NtpCore/Accepted.antt =====
-- How many responses a source accepts: each one uses up a request.
pub mod Responses
pub mod Timers
pub mod Requests
pub mod Runs
use chrony.Common.{
  ℕ, ◌+◌, ◌-◌, ◌≤◌, Bool, true, false, not, ◌&&◌, ◌||◌, Option, none, some, if◌then◌else◌, ltb,
  ◌==◌, ◌≡◌, ◌≢◌, ◌>>=◌, ◌⊎◌, inl, inr, arith, Bool-cases, refl,
}
use chrony.Common.Signed.{ℤ, pos, negsuc, ltb_ℤ, ◌-ℤ◌}
use chrony.Util.Ntp64.{zero_ntp64, is_zero_ntp64, same, same_iff}
use chrony.Clientlog.Timestamps.Runs.{NtpInt64}
use chrony.NtpCore.{
  NcrInstance, Message, LocalTimestamp, SavedResponse, OperatingMode, md_offline, md_online,
  md_burst_was_offline, md_burst_was_online, is_offline, is_poll,
}
use chrony.NtpCore.Poll.{SampleUpdate, adjust_poll, process_sample}
use chrony.NtpCore.Timeouts.{
  requeue, restart_timeout, has_transmit_delay, close_client_socket, take_offline, is_burst,
  has_saved_response, zero_local_timestamp, reset_instance,
}
use chrony.NtpCore.Response.{
  Verdicts, PacketTests, packet_tests, valid_packet, synced_packet, is_kod_rate, good_packet,
  takes_timestamps, takes_init_timestamps, update_timestamps, record_response, end_burst,
  count_good, accumulate, requeue_response, count_valid, accept_response, finish_response,
  process_saved, process_saved_response, can_save, process_response,
}
use chrony.NtpCore.Sound.{if-Holds, process_sample-Holds}

-- One, while the last request may still be answered.
abbrev pub open_requests : Bool → NtpInt64 → NtpInt64 → ℕ
open_requests valid_rx local_ntp_tx local_ntp_rx =
    if valid_rx || (is_zero_ntp64 local_ntp_tx && is_zero_ntp64 local_ntp_rx) then 0 else 1

abbrev pub outstanding : NcrInstance → ℕ
outstanding inst = open_requests inst.valid_rx inst.local_ntp_tx inst.local_ntp_rx

-- There is room for `k` more responses under the bound `n`.
abbrev pub HasRoom : ℕ → ℕ → Bool → NtpInt64 → NtpInt64 → ℕ → Type 0
HasRoom n k valid_rx local_ntp_tx local_ntp_rx total =
    total + open_requests valid_rx local_ntp_tx local_ntp_rx + k ≤ n

abbrev pub Room : ℕ → ℕ → NcrInstance → Type 0
Room n k inst = HasRoom n k inst.valid_rx inst.local_ntp_tx inst.local_ntp_rx inst.total_valid_count

zero_is_zero : is_zero_ntp64 zero_ntp64 ≡ true
unfolding is_zero_ntp64
zero_is_zero = refl

pub room_stable :
    (n k : ℕ) (valid_rx : Bool) (local_ntp_tx local_ntp_rx : NtpInt64) (total : ℕ)
    → HasRoom n k valid_rx local_ntp_tx local_ntp_rx total
    → HasRoom n k false zero_ntp64 zero_ntp64 total
room_stable n k valid_rx tx rx total h = ground (arith, zero_is_zero)

-- What a result has, if it meets no failed assertion.
abbrev pub IfSome : (NcrInstance → Type 0) → Option NcrInstance → Type 0
IfSome P none = Unit {0}
IfSome P (some inst) = P inst

pub bind-IfSome :
    (P Q : NcrInstance → Type 0) (o : Option NcrInstance) (f : NcrInstance → Option NcrInstance)
    → IfSome P o
    → ((inst : NcrInstance) → P inst → IfSome Q (f inst))
    → IfSome Q (o >>= f)
bind-IfSome P Q none f h k = tt
bind-IfSome P Q (some inst) f h k = k inst h

pub if-IfSome :
    (P : NcrInstance → Type 0) (test : Bool) (a b : Option NcrInstance)
    → (test ≡ true → IfSome P a)
    → (test ≡ false → IfSome P b)
    → IfSome P (if test then a else b)
if-IfSome P true a b h k = h refl
if-IfSome P false a b h k = k refl

abbrev pub HoldsOf : (Bool → NtpInt64 → NtpInt64 → ℕ → Type 0) → NcrInstance → Type 0
HoldsOf Q inst = Q inst.valid_rx inst.local_ntp_tx inst.local_ntp_rx inst.total_valid_count

-- A property of what decides on the next response, and of the number of responses so far. It is to
-- survive a reset.
module _ (Q : Bool → NtpInt64 → NtpInt64 → ℕ → Type 0)
    (reset_stable : (valid_rx : Bool) (local_ntp_tx local_ntp_rx : NtpInt64) (total : ℕ)
      → Q valid_rx local_ntp_tx local_ntp_rx total
      → Q false zero_ntp64 zero_ntp64 total) where
  abbrev Kept : NcrInstance → Type 0
  Kept inst = HoldsOf Q inst

  pub reset_instance-Kept : (inst : NcrInstance) → Kept inst → Kept (reset_instance inst)
  unfolding reset_instance
  reset_instance-Kept inst h =
      reset_stable inst.valid_rx inst.local_ntp_tx inst.local_ntp_rx inst.total_valid_count h

  pub take_offline-Kept : (inst : NcrInstance) → Kept inst → Kept (take_offline inst)
  unfolding take_offline close_client_socket
  take_offline-Kept inst h =
      reset_instance-Kept
        (close_client_socket (record inst { opmode = md_offline; tx_timeout = false })) h

  pub process_sample-Kept :
      (inst : NcrInstance) (sample : Bool) (update : SampleUpdate)
      → Kept inst
      → Kept (process_sample inst sample update)
  process_sample-Kept inst sample update h =
      process_sample-Holds Kept (λ i p l. l) (λ i c l. l) inst sample update h

  pub restart_timeout-Kept : (inst : NcrInstance) → Kept inst → IfSome Kept (restart_timeout inst)
  unfolding restart_timeout
  restart_timeout-Kept inst h =
      if-IfSome Kept inst.tx_suspended _ _
        (λ _. if-IfSome Kept inst.tx_timeout none (some inst) (λ _. tt) (λ _. h))
        (λ _. if-IfSome Kept (is_poll inst.local_poll) _ none (λ _. h) (λ _. tt))

  pub requeue-Kept : (inst : NcrInstance) → Kept inst → IfSome Kept (requeue inst)
  unfolding requeue
  requeue-Kept inst h =
      if-IfSome Kept (has_transmit_delay inst.opmode inst.mode) _ none
        (λ _. restart_timeout-Kept inst h) (λ _. tt)

  end_burst-Kept :
      (inst : NcrInstance) (opmode : OperatingMode) → Kept inst → Kept (end_burst inst opmode)
  end_burst-Kept inst md_offline h = h
  end_burst-Kept inst md_online h = h
  end_burst-Kept inst md_burst_was_offline h = take_offline-Kept inst h
  end_burst-Kept inst md_burst_was_online h = h

  count_good-Kept : (inst : NcrInstance) → Kept inst → Kept (count_good inst)
  unfolding count_good
  count_good-Kept inst h =
      let left = inst.burst_good_samples_to_go -ℤ pos 1 in
      let counted = record inst { burst_good_samples_to_go = left } in
      if-Holds Kept (is_burst inst.opmode) _ inst
        (λ _.
          if-Holds Kept (ltb_ℤ (pos 0) left) counted _ (λ _. h)
            (λ _. end_burst-Kept counted inst.opmode h))
        (λ _. h)

  pub accumulate-Kept :
      (inst : NcrInstance) (v : Verdicts) (good : Bool) → Kept inst → Kept (accumulate inst v good)
  unfolding accumulate adjust_poll
  accumulate-Kept inst v good h =
      if-Holds Kept good _ _
        (λ _.
          count_good-Kept (process_sample inst true v.update)
            (process_sample-Kept inst true v.update h))
        (λ _. process_sample-Kept (adjust_poll inst v.miss) false v.update h)

  pub requeue_response-Kept :
      (inst : NcrInstance) (saved kod : Bool)
      → Kept inst
      → IfSome Kept (requeue_response inst saved kod)
  unfolding requeue_response
  requeue_response-Kept inst saved kod h =
      if-IfSome Kept (is_offline inst.opmode) _ _ (λ _. h)
        (λ _. if-IfSome Kept (saved || inst.tx_timeout) _ none (λ _. requeue-Kept _ h) (λ _. tt))

-- `update_timestamps` leaves alone what decides on the next response.
pub update_timestamps-Kept :
    (Q : Bool → NtpInt64 → NtpInt64 → ℕ → Type 0) (inst : NcrInstance) (t : PacketTests)
    (rx_ts : LocalTimestamp) (message : Message) (v : Verdicts) (good : Bool)
    → HoldsOf Q inst
    → HoldsOf Q (update_timestamps inst t rx_ts message v good)
unfolding update_timestamps
update_timestamps-Kept Q inst t rx_ts message v good h =
    if-Holds (HoldsOf Q) (takes_timestamps inst t message) _ _ (λ _. h)
      (λ _. if-Holds (HoldsOf Q) (takes_init_timestamps inst t message) _ inst (λ _. h) (λ _. h))

-- ===== src/NtpCore/Sound.antt =====
-- The invariant of a source: its polling intervals are in range, and its timer runs as it should.
pub mod Timers
pub mod Responses
pub mod Requests
pub mod Runs
use chrony.Common.{
  ℕ, ◌+◌, ◌-◌, Bool, true, false, not, ◌&&◌, ◌||◌, Option, none, some, if◌then◌else◌, ltb, leb,
  ◌==◌, ◌≡◌, ◌>>=◌, ◌⊎◌, inl, inr, arith, Bool-cases, refl,
}
use chrony.Common.Signed.{ℤ, pos, negsuc, ltb_ℤ, ◌+ℤ◌}
use chrony.NtpCore.{
  NcrInstance, OperatingMode, md_offline, md_online, md_burst_was_offline, md_burst_was_online,
  is_offline, is_poll, min_nonlan_poll, mode_active, mode_client,
}
use chrony.NtpCore.Poll.{
  PollChange, SampleUpdate, clamp_poll, adjusted_poll, adjust_poll, process_sample, modify_minpoll,
  modify_maxpoll,
}

-- `timed` asks that the timer runs whenever the source is online and not suspended. Inside of a
-- transmission it does not.
pub record Core (timed : Bool) (mode : ℕ) (local_poll minpoll maxpoll : ℤ)
    (tx_timeout tx_suspended : Bool) (opmode : OperatingMode) : Type 0 where
  pub known_mode : (mode == mode_client || mode == mode_active) ≡ true
  pub local_in_range : is_poll local_poll ≡ true
  pub min_in_range : is_poll minpoll ≡ true
  pub max_in_range : is_poll maxpoll ≡ true
  pub min_le_max : ltb_ℤ maxpoll minpoll ≡ false
  pub stopped_of_suspended : tx_suspended ≡ true → tx_timeout ≡ false
  pub stopped_of_offline : is_offline opmode ≡ true → tx_timeout ≡ false
  pub running : timed ≡ true → tx_suspended ≡ false → is_offline opmode ≡ false → tx_timeout ≡ true

abbrev pub IsSound : Bool → NcrInstance → Type 0
IsSound timed inst =
    Core timed inst.mode inst.local_poll inst.minpoll inst.maxpoll inst.tx_timeout inst.tx_suspended
      inst.opmode

-- A result that meets no failed assertion and has the property.
abbrev pub Returns : (NcrInstance → Type 0) → Option NcrInstance → Type 0
Returns P none = ⊥
Returns P (some inst) = P inst

pub bind-Returns :
    (P Q : NcrInstance → Type 0) (o : Option NcrInstance) (f : NcrInstance → Option NcrInstance)
    → Returns P o
    → ((inst : NcrInstance) → P inst → Returns Q (f inst))
    → Returns Q (o >>= f)
bind-Returns P Q none f h k = absurd h
bind-Returns P Q (some inst) f h k = k inst h

pub if-Holds :
    (P : NcrInstance → Type 0) (test : Bool) (a b : NcrInstance)
    → (test ≡ true → P a)
    → (test ≡ false → P b)
    → P (if test then a else b)
if-Holds P true a b h k = h refl
if-Holds P false a b h k = k refl

pub if-Returns :
    (P : NcrInstance → Type 0) (test : Bool) (a b : Option NcrInstance)
    → (test ≡ true → Returns P a)
    → (test ≡ false → Returns P b)
    → Returns P (if test then a else b)
if-Returns P true a b h k = h refl
if-Returns P false a b h k = k refl

-- A clamped interval is between the limits.
clamp_poll-is_poll :
    (low high poll : ℤ)
    → is_poll low ≡ true
    → is_poll high ≡ true
    → ltb_ℤ high low ≡ false
    → is_poll (clamp_poll low high poll) ≡ true
unfolding ltb_ℤ
clamp_poll-is_poll low high poll a b c = ground arith

nonlan_is_poll : is_poll min_nonlan_poll ≡ true
unfolding ltb_ℤ
nonlan_is_poll = refl

adjusted_poll-is_poll :
    (low high poll : ℤ) (change : PollChange)
    → is_poll low ≡ true
    → is_poll high ≡ true
    → ltb_ℤ high low ≡ false
    → is_poll (adjusted_poll low high poll change) ≡ true
unfolding adjusted_poll
adjusted_poll-is_poll low high poll change a b c =
    let clamped = clamp_poll-is_poll low high (poll +ℤ change.steps) a b c in
    elim (Bool-cases (
      ltb_ℤ (clamp_poll low high (poll +ℤ change.steps)) min_nonlan_poll
      && not change.local_network)) [ inl e ↦ rw e nonlan_is_poll | inr e ↦ rw e clamped ]

pub adjust_poll-IsSound :
    (timed : Bool) (inst : NcrInstance) (change : PollChange)
    → IsSound timed inst
    → IsSound timed (adjust_poll inst change)
unfolding adjust_poll
adjust_poll-IsSound timed inst change h =
    let local =
      adjusted_poll-is_poll inst.minpoll inst.maxpoll inst.local_poll change h.min_in_range
        h.max_in_range h.min_le_max in
    ground arith

pub process_sample-IsSound :
    (timed : Bool) (inst : NcrInstance) (sample : Bool) (update : SampleUpdate)
    → IsSound timed inst
    → IsSound timed (process_sample inst sample update)
unfolding process_sample
process_sample-IsSound timed inst sample update h =
    let P = IsSound timed in
    let adjusted = adjust_poll-IsSound timed inst update.change h in
    let counted = record inst { filter_count = inst.filter_count + 1 } in
    let filtered = record inst { filter_count = 0 } in
    if-Holds P inst.filter _ _
      (λ _.
        if-Holds P (ltb counted.filter_count update.max_samples || not update.filtered) counted _
          (λ _. h) (λ _. adjust_poll-IsSound timed filtered update.change h))
      (λ _. if-Holds P sample _ inst (λ _. adjusted) (λ _. h))

-- What depends on neither the interval nor the count of the filter stays true over a sample.
module _ (P : NcrInstance → Type 0)
    (poll_stable : (inst : NcrInstance) (poll : ℤ) → P inst → P (record inst { local_poll = poll }))
    (count_stable : (inst : NcrInstance) (n : ℕ)
      → P inst
      → P (record inst { filter_count = n })) where
  adjust_poll-Holds :
      (inst : NcrInstance) (change : PollChange) → P inst → P (adjust_poll inst change)
  unfolding adjust_poll
  adjust_poll-Holds inst change h = poll_stable inst _ h

  pub process_sample-Holds :
      (inst : NcrInstance) (sample : Bool) (update : SampleUpdate)
      → P inst
      → P (process_sample inst sample update)
  unfolding process_sample
  process_sample-Holds inst sample update h =
      let counted = record inst { filter_count = inst.filter_count + 1 } in
      if-Holds P inst.filter _ _
        (λ _.
          if-Holds P (ltb counted.filter_count update.max_samples || not update.filtered) counted _
            (λ _. count_stable inst _ h)
            (λ _. adjust_poll-Holds _ update.change (count_stable inst 0 h)))
        (λ _. if-Holds P sample _ inst (λ _. adjust_poll-Holds inst update.change h) (λ _. h))

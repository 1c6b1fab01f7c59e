-- ===== src/NtpCore/Poll.antt =====
-- ntp_core.c: the polling interval, its adjustment and its limits.
use chrony.Common.{ℕ, zero, suc, ◌+◌, Bool, not, ◌&&◌, ◌||◌, Option, none, some, if◌then◌else◌, ltb}
use chrony.Common.Signed.{ℤ, ◌+ℤ◌, ltb_ℤ}
use chrony.NtpCore.{NcrInstance, is_poll, min_nonlan_poll}

-- What `adjust_poll` takes from elsewhere: by how much the score moves the interval, and whether
-- the source is reachable with the delay of a local network.
pub record PollChange : Type 0 where
  pub steps : ℤ
  pub local_network : Bool

-- What `process_sample` takes from elsewhere.
pub record SampleUpdate : Type 0 where
  pub max_samples : ℕ
  pub filtered : Bool
  pub change : PollChange

abbrev pub clamp_poll : ℤ → ℤ → ℤ → ℤ
clamp_poll low high poll = if ltb_ℤ poll low then low else (if ltb_ℤ high poll then high else poll)

unfoldable pub adjusted_poll : ℤ → ℤ → ℤ → PollChange → ℤ
adjusted_poll low high poll change =
    let clamped = clamp_poll low high (poll +ℤ change.steps) in
    if ltb_ℤ clamped min_nonlan_poll && not change.local_network then min_nonlan_poll else clamped

unfoldable pub adjust_poll : NcrInstance → PollChange → NcrInstance
adjust_poll inst change = record inst {
  local_poll = adjusted_poll inst.minpoll inst.maxpoll inst.local_poll change;
}

-- `process_sample`; the second argument says whether there is a sample.
unfoldable pub process_sample : NcrInstance → Bool → SampleUpdate → NcrInstance
process_sample inst sample update =
    if inst.filter
    then (let count = inst.filter_count + 1 in
        if ltb count update.max_samples || not update.filtered
        then (record inst { filter_count = count })
        else adjust_poll (record inst { filter_count = 0 }) update.change)
    else (if sample then adjust_poll inst update.change else inst)

-- `NCR_ModifyMinpoll` and `NCR_ModifyMaxpoll` call each other, on fuel here.
unfoldable mutual
  pub modify_minpoll : ℕ → NcrInstance → ℤ → Option NcrInstance
  modify_minpoll zero inst new_minpoll = none
  modify_minpoll (suc fuel) inst new_minpoll =
      if is_poll new_minpoll
      then (let changed = record inst { minpoll = new_minpoll } in
          if ltb_ℤ changed.maxpoll changed.minpoll
          then modify_maxpoll fuel changed changed.minpoll
          else some changed)
      else some inst

  pub modify_maxpoll : ℕ → NcrInstance → ℤ → Option NcrInstance
  modify_maxpoll zero inst new_maxpoll = none
  modify_maxpoll (suc fuel) inst new_maxpoll =
      if is_poll new_maxpoll
      then (let changed = record inst { maxpoll = new_maxpoll } in
          if ltb_ℤ changed.maxpoll changed.minpoll
          then modify_minpoll fuel changed changed.maxpoll
          else some changed)
      else some inst

-- ===== src/NtpCore/Accepted/Timers.antt =====
-- What works on the timers and bursts accepts nothing.
use chrony.Common.{ℕ, zero, suc, false, not, ◌&&◌, ◌||◌, some, ◌==◌}
use chrony.Common.Signed.{ℤ, pos, ltb_ℤ, ◌-ℤ◌}
use chrony.Util.Time.{is_zero_int, is_zero_timespec}
use chrony.NtpCore.{
  NcrInstance, OperatingMode, md_offline, md_online, md_burst_was_offline, md_burst_was_online,
  is_offline, is_poll, mode_client,
}
use chrony.NtpCore.Poll.{modify_minpoll, modify_maxpoll}
use chrony.NtpCore.Timeouts.{
  start_initial_timeout, start_instance, reset_poll, is_burst, initiate_sample_burst,
  SrcConnectivity, src_offline, src_online, src_maybe_online, go_online, go_offline,
  set_connectivity, iburst_good_samples, iburst_total_samples,
}
use chrony.NtpCore.Request.{change_opmode, burst_good_samples, auto_burst_samples}
use chrony.NtpCore.Sound.{if-Holds}
use chrony.NtpCore.Accepted.{
  HasRoom, Room, room_stable, IfSome, bind-IfSome, if-IfSome, reset_instance-Kept,
  take_offline-Kept, restart_timeout-Kept, requeue-Kept,
}

module _ (n k : ℕ) where
  start_initial_timeout-Room :
      (inst : NcrInstance) → Room n k inst → IfSome (Room n k) (start_initial_timeout inst)
  unfolding start_initial_timeout
  start_initial_timeout-Room inst h =
      if-IfSome (Room n k) (is_zero_timespec inst.local_tx.ts) _ _
        (λ _. restart_timeout-Kept (HasRoom n k) (room_stable n k) inst h)
        (λ _. requeue-Kept (HasRoom n k) (room_stable n k) inst h)

  pub start_instance-Room :
      (inst : NcrInstance) → Room n k inst → IfSome (Room n k) (start_instance inst)
  unfolding start_instance
  start_instance-Room inst h =
      if-IfSome (Room n k) (is_offline inst.opmode) _ _ (λ _. h)
        (λ _. start_initial_timeout-Room (record inst { tx_suspended = false }) h)

  pub reset_poll-Room : (inst : NcrInstance) → Room n k inst → IfSome (Room n k) (reset_poll inst)
  unfolding reset_poll
  reset_poll-Room inst h =
      if-IfSome (Room n k) (is_zero_int (inst.local_poll -ℤ inst.minpoll)) _ _ (λ _. h)
        (λ _.
          if-IfSome (Room n k) inst.tx_timeout _ _
            (λ _.
              requeue-Kept (HasRoom n k) (room_stable n k)
                (record inst { local_poll = inst.minpoll }) h)
            (λ _. h))

  pub initiate_sample_burst-Room :
      (inst : NcrInstance) (good total : ℤ)
      → Room n k inst
      → IfSome (Room n k) (initiate_sample_burst inst good total)
  unfolding initiate_sample_burst
  initiate_sample_burst-Room inst good total h =
      if-IfSome (Room n k) (not (inst.mode == mode_client) || is_burst inst.opmode) _ _ (λ _. h)
        (λ _. start_initial_timeout-Room _ h)

  go_online-Room :
      (inst : NcrInstance) (opmode : OperatingMode)
      → Room n k inst
      → IfSome (Room n k) (go_online inst opmode)
  go_online-Room inst md_online h = h
  go_online-Room inst md_offline h =
      bind-IfSome (Room n k) (Room n k) _ _
        (start_initial_timeout-Room _ (
          reset_instance-Kept (HasRoom n k) (room_stable n k) (record inst { opmode = md_online })
            h))
        (λ started p.
          if-IfSome (Room n k) started.auto_iburst _ (some started)
            (λ _. initiate_sample_burst-Room started iburst_good_samples iburst_total_samples p)
            (λ _. p))
  go_online-Room inst md_burst_was_online h = h
  go_online-Room inst md_burst_was_offline h = h

  go_offline-Room :
      (inst : NcrInstance) (opmode : OperatingMode)
      → Room n k inst
      → Room n k (go_offline inst opmode)
  go_offline-Room inst md_online h = take_offline-Kept (HasRoom n k) (room_stable n k) inst h
  go_offline-Room inst md_offline h = h
  go_offline-Room inst md_burst_was_online h = h
  go_offline-Room inst md_burst_was_offline h = h

  pub set_connectivity-Room :
      (inst : NcrInstance) (c : SrcConnectivity)
      → Room n k inst
      → IfSome (Room n k) (set_connectivity inst c)
  unfolding set_connectivity
  set_connectivity-Room inst src_offline h = go_offline-Room inst inst.opmode h
  set_connectivity-Room inst src_online h = go_online-Room inst inst.opmode h
  set_connectivity-Room inst (src_maybe_online connectable) h =
      if-IfSome (Room n k) connectable _ _ (λ _. go_online-Room inst inst.opmode h)
        (λ _. go_offline-Room inst inst.opmode h)

  pub change_opmode-Room :
      (inst : NcrInstance) (opmode : OperatingMode)
      → Room n k inst
      → IfSome (Room n k) (change_opmode inst opmode)
  change_opmode-Room inst md_offline h = h
  change_opmode-Room inst md_online h =
      if-IfSome (Room n k) (inst.auto_burst && ltb_ℤ inst.minpoll inst.local_poll) _ _
        (λ _. initiate_sample_burst-Room inst burst_good_samples (auto_burst_samples inst) h)
        (λ _. h)
  change_opmode-Room inst md_burst_was_offline h =
      if-Holds (Room n k) (ltb_ℤ (pos 0) inst.burst_total_samples_to_go) inst _ (λ _. h)
        (λ _. take_offline-Kept (HasRoom n k) (room_stable n k) inst h)
  change_opmode-Room inst md_burst_was_online h =
      if-Holds (Room n k) (ltb_ℤ (pos 1) inst.burst_total_samples_to_go) inst _ (λ _. h) (λ _. h)

  pub modify_poll-Room :
      (fuel : ℕ) (inst : NcrInstance) (poll : ℤ)
      → Room n k inst
      → IfSome (Room n k) (modify_minpoll fuel inst poll)
        × IfSome (Room n k) (modify_maxpoll fuel inst poll)
  unfolding modify_minpoll modify_maxpoll
  modify_poll-Room zero inst poll h = (tt, tt)
  modify_poll-Room (suc fuel) inst poll h = (
    if-IfSome (Room n k) (is_poll poll) _ _
        (λ _.
          if-IfSome (Room n k) (ltb_ℤ inst.maxpoll poll) _ _
            (λ _. (modify_poll-Room fuel (record inst { minpoll = poll }) poll h).1) (λ _. h))
        (λ _. h),
    if-IfSome (Room n k) (is_poll poll) _ _
        (λ _.
          if-IfSome (Room n k) (ltb_ℤ poll inst.minpoll) _ _
            (λ _. (modify_poll-Room fuel (record inst { maxpoll = poll }) poll h).0) (λ _. h))
        (λ _. h),
  )

-- ===== src/NtpCore/Sound/Timers.antt =====
-- What works on the timers of a source keeps the invariant.
use chrony.Common.{
  ℕ, Bool, true, false, not, ◌||◌, Option, none, some, if◌then◌else◌, ◌==◌, ◌≡◌, arith, refl,
}
use chrony.Common.Signed.{ℤ, ◌-ℤ◌}
use chrony.Util.Time.{is_zero_int, is_zero_timespec}
use chrony.NtpCore.{
  NcrInstance, OperatingMode, md_offline, md_online, md_burst_was_offline, md_burst_was_online,
  is_offline, mode_client, mode_active,
}
use chrony.NtpCore.Timeouts.{
  reset_instance, has_transmit_delay, restart_timeout, requeue, start_initial_timeout,
  close_client_socket, take_offline, start_instance, reset_poll, burst_mode, is_burst,
  initiate_sample_burst, SrcConnectivity, src_offline, src_online, src_maybe_online, go_online,
  go_offline, set_connectivity, iburst_good_samples, iburst_total_samples,
}
use chrony.NtpCore.Sound.{IsSound, Returns, bind-Returns, if-Returns}

-- Within an operation the timer may stand still.
pub untimed : (inst : NcrInstance) → (timed : Bool) → IsSound timed inst → IsSound false inst
untimed inst timed h = ground arith

pub timed_anyway :
    (timed : Bool) (o : Option NcrInstance) → Returns (IsSound true) o → Returns (IsSound timed) o
timed_anyway true o r = r
timed_anyway false none r = r
timed_anyway false (some inst) r = untimed inst true r

restart_timeout-IsSound :
    (inst : NcrInstance)
    → IsSound false inst
    → is_offline inst.opmode ≡ false
    → Returns (IsSound true) (restart_timeout inst)
unfolding restart_timeout
restart_timeout-IsSound inst h online = ground arith

pub has_delay :
    (opmode : OperatingMode) (mode : ℕ)
    → (mode == mode_client || mode == mode_active) ≡ true
    → is_offline opmode ≡ false
    → has_transmit_delay opmode mode ≡ true
has_delay md_offline mode h online = ground arith
has_delay md_online mode h online = h
has_delay md_burst_was_offline mode h online = refl
has_delay md_burst_was_online mode h online = refl

pub requeue-IsSound :
    (inst : NcrInstance)
    → IsSound false inst
    → is_offline inst.opmode ≡ false
    → Returns (IsSound true) (requeue inst)
unfolding requeue
requeue-IsSound inst h online =
    if-Returns (IsSound true) (has_transmit_delay inst.opmode inst.mode) _ none
      (λ _. restart_timeout-IsSound inst h online)
      (λ e. cc (e, has_delay inst.opmode inst.mode h.known_mode online))

start_initial_timeout-IsSound :
    (inst : NcrInstance)
    → IsSound false inst
    → is_offline inst.opmode ≡ false
    → Returns (IsSound true) (start_initial_timeout inst)
unfolding start_initial_timeout
start_initial_timeout-IsSound inst h online =
    if-Returns (IsSound true) (is_zero_timespec inst.local_tx.ts) _ _
      (λ _. restart_timeout-IsSound inst h online) (λ _. requeue-IsSound inst h online)

pub take_offline-IsSound :
    (timed : Bool) (inst : NcrInstance) → IsSound false inst → IsSound timed (take_offline inst)
unfolding take_offline reset_instance close_client_socket
take_offline-IsSound timed inst h = ground arith

pub start_instance-IsSound :
    (inst : NcrInstance) → IsSound true inst → Returns (IsSound true) (start_instance inst)
unfolding start_instance
start_instance-IsSound inst h =
    let started = record inst { tx_suspended = false } in
    let sound : IsSound false started = ground arith in
    if-Returns (IsSound true) (is_offline inst.opmode) _ _ (λ e. ground arith)
      (λ e. start_initial_timeout-IsSound started sound e)

pub reset_poll-IsSound :
    (inst : NcrInstance) → IsSound true inst → Returns (IsSound true) (reset_poll inst)
unfolding reset_poll
reset_poll-IsSound inst h =
    let changed = record inst { local_poll = inst.minpoll } in
    let sound : IsSound true changed = ground arith in
    if-Returns (IsSound true) (is_zero_int (inst.local_poll -ℤ inst.minpoll)) _ _ (λ _. h)
      (λ _.
        if-Returns (IsSound true) inst.tx_timeout _ _
          (λ running. requeue-IsSound changed (untimed changed true sound) (ground arith))
          (λ _. sound))

pub initiate_sample_burst-IsSound :
    (timed : Bool) (inst : NcrInstance) (good total : ℤ)
    → IsSound timed inst
    → Returns (IsSound timed) (initiate_sample_burst inst good total)
unfolding initiate_sample_burst
initiate_sample_burst-IsSound timed inst good total h =
    let burst = record inst {
      opmode = burst_mode inst.opmode;
      burst_good_samples_to_go = good;
      burst_total_samples_to_go = total;
    } in
    let started = start_initial_timeout-IsSound burst (ground arith) (ground arith) in
    if-Returns (IsSound timed) (not (inst.mode == mode_client) || is_burst inst.opmode) _ _ (λ _. h)
      (λ _. timed_anyway timed (start_initial_timeout burst) started)

go_online-IsSound :
    (timed : Bool) (inst : NcrInstance) (opmode : OperatingMode)
    → inst.opmode ≡ opmode
    → IsSound timed inst
    → Returns (IsSound timed) (go_online inst opmode)
unfolding reset_instance
go_online-IsSound timed inst md_online e h = h
go_online-IsSound timed inst md_offline e h =
    let reset = reset_instance (record inst { opmode = md_online }) in
    let sound : IsSound false reset = ground arith in
    timed_anyway timed _ (
      bind-Returns (IsSound true) (IsSound true) (start_initial_timeout reset)
        (λ (started : NcrInstance).
          if started.auto_iburst
          then initiate_sample_burst started iburst_good_samples iburst_total_samples
          else some started)
        (start_initial_timeout-IsSound reset sound refl)
        (λ started p.
          if-Returns (IsSound true) started.auto_iburst _ (some started)
            (λ _. initiate_sample_burst-IsSound true started _ _ p) (λ _. p)))
go_online-IsSound timed inst md_burst_was_online e h = h
go_online-IsSound timed inst md_burst_was_offline e h = ground arith

go_offline-IsSound :
    (timed : Bool) (inst : NcrInstance) (opmode : OperatingMode)
    → inst.opmode ≡ opmode
    → IsSound timed inst
    → IsSound timed (go_offline inst opmode)
go_offline-IsSound timed inst md_online e h = take_offline-IsSound timed inst (untimed inst timed h)
go_offline-IsSound timed inst md_offline e h = h
go_offline-IsSound timed inst md_burst_was_online e h = ground arith
go_offline-IsSound timed inst md_burst_was_offline e h = h

pub set_connectivity-IsSound :
    (timed : Bool) (inst : NcrInstance) (c : SrcConnectivity)
    → IsSound timed inst
    → Returns (IsSound timed) (set_connectivity inst c)
unfolding set_connectivity
set_connectivity-IsSound timed inst src_offline h = go_offline-IsSound timed inst inst.opmode refl h
set_connectivity-IsSound timed inst src_online h = go_online-IsSound timed inst inst.opmode refl h
set_connectivity-IsSound timed inst (src_maybe_online connectable) h =
    if-Returns (IsSound timed) connectable _ _
      (λ _. go_online-IsSound timed inst inst.opmode refl h)
      (λ _. go_offline-IsSound timed inst inst.opmode refl h)

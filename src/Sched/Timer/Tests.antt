-- ===== src/Sched/Timer/Tests.antt =====
-- sched.c: the queue of timeouts at concrete values.
use chrony.Common.{
  ℕ, ◌>>=◌, ◌-◌, ◌^◌, none, some, [], ◌∷◌, ◌≡◌, ◌<◌, ◌⊎◌, true, false, refl, arith, if◌then◌else◌,
  ◌==◌,
}
use chrony.Common.Signed.{ltb_ℤ, pos, negsuc}
use chrony.Sched.Timer.{
  Timespec, TimerQueueEntry, State, initialise, add_timeout, remove_timeout, take_due,
  get_new_tqe_id, allocate_tqe, try_ids, is_used, insert_before, zero_timespec, compare_timespecs,
}
use chrony.Sched.Timer.Order.{IsSorted, AllFrom, before}
use chrony.Sched.Timer.Queue.{find_id, IsDistinct, IsValid, add_timeout-find_id}
use chrony.Sched.Timer.Remove.{remove_timeout-find_id, take_due-earliest}

abbrev at_sec : ℕ → Timespec
at_sec n = record { tv_sec = pos n; tv_nsec = 5 }

abbrev early : TimerQueueEntry
early = record { ts = at_sec 10; id = 2; class = 0; handler = 7; arg = 0 }

abbrev late : TimerQueueEntry
late = record { ts = at_sec 20; id = 1; class = 0; handler = 8; arg = 0 }

abbrev two_timeouts : State
two_timeouts = record {
  timer_queue = early ∷ late ∷ [];
  n_timer_queue_entries = 2;
  next_tqe_id = 2;
  n_free = 30;
  n_tqe_blocks = 1;
  last_class_dispatch =
      zero_timespec ∷ zero_timespec ∷ zero_timespec ∷ zero_timespec ∷ zero_timespec ∷ [];
  need_to_exit = false;
}

-- The numbers start again behind the largest one, without 0 and those in use.
try_ids_lem : try_ids 4 (2 ^ 32 - 1) (early ∷ late ∷ []) ≡ some 3
unfolding try_ids is_used
try_ids_lem = refl

-- Times before the epoch are ordered too.
compare_timespecs_lem :
    before (record { tv_sec = negsuc 4; tv_nsec = 0 }) (record { tv_sec = negsuc 4; tv_nsec = 1 })
    ≡ true
unfolding compare_timespecs ltb_ℤ
compare_timespecs_lem = refl

two_timeouts-IsValid : IsValid two_timeouts
unfolding IsValid IsSorted AllFrom IsDistinct find_id compare_timespecs ltb_ℤ
two_timeouts-IsValid = (
  ((refl, tt), (tt, tt)),
  (refl, omega arith, (refl, omega arith, tt)),
  refl,
  omega arith,
  omega arith,
)

add_timeout-find_id_example :
    (id : ℕ) × (s' : State) × (add_timeout two_timeouts (at_sec 15) 9 0 ≡ some (id, s'))
    × IsValid s'
    × (0 < id)
    × (find_id id two_timeouts.timer_queue ≡ none)
    × (find_id 1 s'.timer_queue ≡ (
        if id == 1
        then some (record { ts = at_sec 15; id = id; class = 0; handler = 9; arg = 0 })
        else find_id 1 two_timeouts.timer_queue))
add_timeout-find_id_example =
    add_timeout-find_id two_timeouts (at_sec 15) 9 0 1 two_timeouts-IsValid (omega arith)

find_id_lem : find_id 1 two_timeouts.timer_queue ≡ some late
unfolding find_id
find_id_lem = refl

remove_timeout-find_id_example :
    (s' : State) × (remove_timeout two_timeouts 1 ≡ some s')
    × IsValid s'
    × (find_id 2 s'.timer_queue ≡ (if 1 == 2 then none else find_id 2 two_timeouts.timer_queue))
remove_timeout-find_id_example =
    remove_timeout-find_id two_timeouts 1 2 late two_timeouts-IsValid (omega arith) (omega arith)
      find_id_lem

take_due-earliest_example :
    (take_due two_timeouts (at_sec 12) ≡ some (none, two_timeouts))
      × (before (at_sec 12) late.ts ≡ true)
    ⊎ ((f : TimerQueueEntry) × (s' : State) × (take_due two_timeouts (at_sec 12)
          ≡ some (some f, s'))
        × IsValid s'
        × (before (at_sec 12) f.ts ≡ false)
        × (before late.ts f.ts ≡ false)
        × (find_id 1 s'.timer_queue ≡ (if f.id == 1 then none else some late)))
take_due-earliest_example =
    take_due-earliest two_timeouts (at_sec 12) 1 late two_timeouts-IsValid (omega arith) find_id_lem

initialise-add_timeout_lem :
    (add_timeout initialise (at_sec 20) 8 0 >>= λ (i, s). add_timeout s (at_sec 10) 7 0)
    ≡ some (2, two_timeouts)
unfolding initialise add_timeout get_new_tqe_id allocate_tqe try_ids is_used insert_before
    compare_timespecs ltb_ℤ
initialise-add_timeout_lem = refl

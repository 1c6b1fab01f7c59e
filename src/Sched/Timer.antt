-- ===== src/Sched/Timer.antt =====
-- sched.c: the queue of timeouts.
--
-- The circular list of `timer_queue` is the list of its entries. Of the free list the state has the
-- length, and of the blocks their number. `none` is a failed assertion.
pub mod Order
pub mod Id
pub mod Queue
pub mod Remove
mod Tests
use chrony.Common.{
  ℕ, zero, suc, ◌+◌, ◌-◌, ◌*◌, ◌%◌, ◌^◌, Bool, true, false, not, ◌&&◌, ◌||◌, Option, none, some,
  List, [], ◌∷◌, ◌>>=◌, if◌then◌else◌, ltb, leb, ◌==◌, length, set, replicate,
}
use chrony.Common.Signed.{ℤ, pos, negsuc}
pub use chrony.Util.Time.{Timespec, zero_timespec}
unfoldable pub use chrony.Util.Time.{compare_timespecs}

-- `== -1` of a result of the comparison.
abbrev pub is_before : ℤ → Bool
is_before (pos n) = false
is_before (negsuc n) = true

pub record TimerQueueEntry : Type 0 where
  pub ts : Timespec
  pub id : ℕ
  pub class : ℕ
  pub handler : ℕ
  pub arg : ℕ

pub record State : Type 0 where
  pub timer_queue : List TimerQueueEntry
  pub n_timer_queue_entries : ℕ
  pub next_tqe_id : ℕ
  pub n_free : ℕ
  pub n_tqe_blocks : ℕ
  pub last_class_dispatch : List Timespec
  pub need_to_exit : Bool

abbrev pub number_of_classes : ℕ
number_of_classes = 5

pub initialise : State
initialise = record {
  timer_queue = [];
  n_timer_queue_entries = 0;
  next_tqe_id = 0;
  n_free = 0;
  n_tqe_blocks = 0;
  last_class_dispatch = replicate number_of_classes zero_timespec;
  need_to_exit = false;
}

abbrev pub tqe_alloc_quantum : ℕ
tqe_alloc_quantum = 32

pub allocate_tqe : State → State
allocate_tqe s =
    if s.n_free == 0
    then record s { n_free = tqe_alloc_quantum - 1; n_tqe_blocks = s.n_tqe_blocks + 1 }
    else record s { n_free = s.n_free - 1 }

pub release_tqe : State → State
release_tqe s = record s { n_free = s.n_free + 1 }

-- `SCH_TimeoutID` is an `unsigned int`.
abbrev pub id_max : ℕ
id_max = 2 ^ 32

-- The `for` of `get_new_tqe_id`.
unfoldable pub is_used : ℕ → List TimerQueueEntry → Bool
is_used id [] = false
is_used id (e ∷ es) = if e.id == id then true else is_used id es

-- The rounds of `try_again`, by a bound on their number.
unfoldable pub try_ids : ℕ → ℕ → List TimerQueueEntry → Option ℕ
try_ids zero id queue = none
try_ids (suc fuel) id queue =
    let next = (id + 1) % id_max in
    let rest = try_ids fuel next queue in
    if next == 0 || is_used next queue then rest else some next

pub get_new_tqe_id : State → Option (ℕ × State)
get_new_tqe_id s = do
  id ← try_ids (length s.timer_queue + 2) s.next_tqe_id s.timer_queue
  some (id, record s { next_tqe_id = id })

-- The new entry goes before the first one that it comes before.
pub insert_before : TimerQueueEntry → List TimerQueueEntry → List TimerQueueEntry
insert_before new_tqe [] = new_tqe ∷ []
insert_before new_tqe (ptr ∷ rest) =
    if is_before (compare_timespecs new_tqe.ts ptr.ts)
    then new_tqe ∷ ptr ∷ rest
    else ptr ∷ insert_before new_tqe rest

-- `n_timer_queue_entries` is an `unsigned long` of 64 bits.
abbrev pub ulong_max : ℕ
ulong_max = 2 ^ 64

pub add_timeout : State → Timespec → ℕ → ℕ → Option (ℕ × State)
add_timeout s ts handler arg = do
  (id, s') ← get_new_tqe_id (allocate_tqe s)
  let new_tqe : TimerQueueEntry = record {
    ts = ts;
    id = id;
    class = 0;
    handler = handler;
    arg = arg;
  }
  some (
    id,
    record s' {
      timer_queue = insert_before new_tqe s'.timer_queue;
      n_timer_queue_entries = (s'.n_timer_queue_entries + 1) % ulong_max;
    },
  )

-- The loop of `SCH_RemoveTimeout`; `none` if no entry has the number.
pub unlink : ℕ → List TimerQueueEntry → Option (List TimerQueueEntry)
unlink id [] = none
unlink id (ptr ∷ rest) =
    if ptr.id == id then some rest else (unlink id rest >>= λ rest'. some (ptr ∷ rest'))

pub remove_timeout : State → ℕ → Option State
remove_timeout s id = if id == 0 then some s else do
  timer_queue ← unlink id s.timer_queue
  some (
      release_tqe (record s {
        timer_queue = timer_queue;
        n_timer_queue_entries = (s.n_timer_queue_entries + (ulong_max - 1)) % ulong_max;
      }))

pub first_due : List TimerQueueEntry → Timespec → Option TimerQueueEntry
first_due [] now = none
first_due (ptr ∷ rest) now = if is_before (compare_timespecs now ptr.ts) then none else some ptr

-- The first entry of the queue if it is due at `now`.
pub due : State → Timespec → Option TimerQueueEntry
due s now = if ltb 0 s.n_timer_queue_entries then first_due s.timer_queue now else none

-- One round of the loop of `dispatch_timeouts` before the call of the handler: the entry to
-- dispatch, if there is one, and the state in which its handler is called.
pub take_due : State → Timespec → Option (Option TimerQueueEntry × State)
take_due s now = elim (due s now) [
  | none ↦ some (none, s)
  | some ptr ↦ do
    s' ←
        remove_timeout (record s { last_class_dispatch = set s.last_class_dispatch ptr.class now })
          ptr.id
    some (some ptr, s')
]

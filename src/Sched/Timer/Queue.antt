-- ===== src/Sched/Timer/Queue.antt =====
-- sched.c: the queue as a map of the timeouts by their numbers.
use chrony.Common.{
  ℕ, ◌+◌, ◌-◌, ◌*◌, ◌%◌, ◌≤◌, ◌<◌, false, Option, none, some, List, [], ◌∷◌, if◌then◌else◌, ◌==◌,
  ◌≡◌, ◌≢◌, inl, inr, length, arith, refl, Bool-cases, sym, ◌∙◌,
}
use chrony.Sched.Timer.{
  Timespec, TimerQueueEntry, State, is_used, get_new_tqe_id, allocate_tqe, insert_before,
  add_timeout, id_max, ulong_max, tqe_alloc_quantum,
}
use chrony.Sched.Timer.Order.{IsSorted, insert_before-IsSorted, before}
use chrony.Sched.Timer.Id.{try_ids-fresh, try_ids-enough}

-- The entry with a number.
unfoldable pub find_id : ℕ → List TimerQueueEntry → Option TimerQueueEntry
find_id id [] = none
find_id id (e ∷ es) = if e.id == id then some e else find_id id es

unfoldable pub IsDistinct : List TimerQueueEntry → Type 0
IsDistinct [] = Unit
IsDistinct (e ∷ es) = (find_id e.id es ≡ none) × (0 < e.id) × IsDistinct es

-- The queue is sorted, its numbers are distinct and not 0, its count is right, and every entry of a
-- block is in the queue or on the free list.
unfoldable pub IsValid : State → Type 0
IsValid s =
    IsSorted s.timer_queue
    × IsDistinct s.timer_queue
    × (s.n_timer_queue_entries ≡ length s.timer_queue)
    × (s.next_tqe_id < id_max)
    × (s.n_free + length s.timer_queue ≡ tqe_alloc_quantum * s.n_tqe_blocks)

find_id-unused : (id : ℕ) (es : List TimerQueueEntry) → is_used id es ≡ false → find_id id es ≡ none
unfolding find_id is_used
find_id-unused id [] h = refl
find_id-unused id (e ∷ es) h = ground (arith, find_id-unused id es)

find_id-tail :
    (id : ℕ) (e : TimerQueueEntry) (es : List TimerQueueEntry)
    → find_id id (e ∷ es) ≡ none
    → find_id id es ≡ none
unfolding find_id
find_id-tail id e es h = elim (Bool-cases (e.id == id)) [
  | inl t ↦ ground (arith, h)
  | inr f ↦ ground (arith, h)
]

find_id-head :
    (id : ℕ) (e : TimerQueueEntry) (es : List TimerQueueEntry)
    → find_id id (e ∷ es) ≡ none
    → (e.id == id) ≡ false
unfolding find_id
find_id-head id e es h = elim (Bool-cases (e.id == id)) [ inl t ↦ ground (arith, h) | inr f ↦ f ]

find_id-insert :
    (k : ℕ) (new : TimerQueueEntry) (es : List TimerQueueEntry)
    → find_id new.id es ≡ none
    → find_id k (insert_before new es) ≡ (if new.id == k then some new else find_id k es)
unfolding find_id insert_before
find_id-insert k new [] h = refl
find_id-insert k new (e ∷ es) h =
    let h' : find_id new.id es ≡ none = find_id-tail new.id e es h in
    elim (Bool-cases (before new.ts e.ts)) [
      | inl t ↦ rw t
      | inr f ↦ rw f (ground (arith, h, find_id-insert k new es h'))
    ]

IsDistinct-insert :
    (new : TimerQueueEntry) (es : List TimerQueueEntry)
    → find_id new.id es ≡ none
    → 0 < new.id
    → IsDistinct es
    → IsDistinct (insert_before new es)
unfolding IsDistinct find_id insert_before
IsDistinct-insert new [] h p k = (refl, p, tt)
IsDistinct-insert new (e ∷ es) h p (n, q, k) =
    let h' : find_id new.id es ≡ none = find_id-tail new.id e es h in
    elim (Bool-cases (before new.ts e.ts)) [
      | inl t ↦ rw t (h, p, (n, q, k))
      | inr f ↦
          let apart : (e.id == new.id) ≡ false = find_id-head new.id e es h in
          let kept : find_id e.id (insert_before new es) ≡ none =
            ground (arith, apart, n, find_id-insert e.id new es h') in
          rw f (kept, q, IsDistinct-insert new es h' p k)
    ]

length-insert :
    (new : TimerQueueEntry) (es : List TimerQueueEntry)
    → length (insert_before new es) ≡ length es + 1
unfolding insert_before
length-insert new [] = refl
length-insert new (e ∷ es) = ground (arith, length-insert new es)

-- An allocation takes one entry of the free list or of a new block.
allocate_tqe-balance :
    (s : State)
    → (a : ℕ) × (b : ℕ) × (allocate_tqe s ≡ record s { n_free = a; n_tqe_blocks = b })
      × (a + 1 + tqe_alloc_quantum * s.n_tqe_blocks ≡ s.n_free + tqe_alloc_quantum * b)
unfolding allocate_tqe
allocate_tqe-balance s = elim (Bool-cases (s.n_free == 0)) [
  | inl t ↦
      let empty : s.n_free ≡ 0 = ground arith in
      (tqe_alloc_quantum - 1, s.n_tqe_blocks + 1, rw t, omega arith)
  | inr f ↦
      let some_free : s.n_free ≢ 0 = ground arith in
      (s.n_free - 1, s.n_tqe_blocks, rw f, omega arith)
]

-- With room for another number, adding a timeout to a valid queue succeeds and keeps it valid. The
-- new number was not in use, and the queue has the timeout under it and all others as before.
pub add_timeout-find_id :
    (s : State) (ts : Timespec) (handler arg k : ℕ)
    → IsValid s
    → length s.timer_queue + 2 ≤ id_max
    → (id : ℕ) × (s' : State) × (add_timeout s ts handler arg ≡ some (id, s'))
      × IsValid s'
      × (0 < id)
      × (find_id id s.timer_queue ≡ none)
      × (find_id k s'.timer_queue ≡ (
          if id == k
          then some (record { ts = ts; id = id; class = 0; handler = handler; arg = arg })
          else find_id k s.timer_queue))
unfolding add_timeout get_new_tqe_id IsValid
add_timeout-find_id s ts handler arg k (sorted, distinct, count, below, blocks) h =
    let (a, b, alloc, balance) = allocate_tqe-balance s in
    let (id, e) = try_ids-enough s.next_tqe_id s.timer_queue below h in
    let (less, positive, unused) =
      try_ids-fresh (length s.timer_queue + 2) s.next_tqe_id s.timer_queue id e in
    let fresh = find_id-unused id s.timer_queue unused in
    let new : TimerQueueEntry = record {
      ts = ts;
      id = id;
      class = 0;
      handler = handler;
      arg = arg;
    } in
    let counted : (s.n_timer_queue_entries + 1) % ulong_max ≡ length s.timer_queue + 1 =
      omega arith in
    let longer = length-insert new s.timer_queue in
    (
      id,
      record s {
        timer_queue = insert_before new s.timer_queue;
        n_timer_queue_entries = (s.n_timer_queue_entries + 1) % ulong_max;
        next_tqe_id = id;
        n_free = a;
        n_tqe_blocks = b;
      },
      rw (alloc, e),
      (
        insert_before-IsSorted new s.timer_queue sorted,
        IsDistinct-insert new s.timer_queue fresh positive distinct,
        counted ∙ sym longer,
        less,
        omega (arith, longer, balance),
      ),
      positive,
      fresh,
      find_id-insert k new s.timer_queue fresh,
    )

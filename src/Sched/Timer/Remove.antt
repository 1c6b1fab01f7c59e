-- ===== src/Sched/Timer/Remove.antt =====
-- sched.c: the removal and the dispatch of timeouts.
use chrony.Common.{
  ℕ, ◌+◌, ◌-◌, ◌%◌, ◌<◌, true, false, none, some, List, [], ◌∷◌, if◌then◌else◌, ltb, ◌==◌, ◌≡◌, ◌⊎◌,
  inl, inr, length, arith, refl, ap, subst, Bool-cases, ◌∙◌, set,
}
use chrony.Sched.Timer.{
  Timespec, TimerQueueEntry, State, unlink, remove_timeout, release_tqe, due, first_due, take_due,
  ulong_max,
}
use chrony.Sched.Timer.Order.{IsSorted, AllFrom, before}
use chrony.Sched.Timer.Order.{before_trans, before_asym}
use chrony.Sched.Timer.Queue.{find_id, IsDistinct, IsValid}

-- What unlinking a number that is in use does.
record Unlinks (id : ℕ) (es : List TimerQueueEntry) : Type 0 where
  es' : List TimerQueueEntry
  returns : unlink id es ≡ some es'
  count : length es ≡ length es' + 1
  from : (ts : Timespec) → AllFrom ts es → AllFrom ts es'
  sorted : IsSorted es'
  distinct : IsDistinct es'
  finds : (k : ℕ) → find_id k es' ≡ (if id == k then none else find_id k es)

unlink-Unlinks :
    (id : ℕ) (es : List TimerQueueEntry) (e : TimerQueueEntry)
    → IsSorted es
    → IsDistinct es
    → find_id id es ≡ some e
    → Unlinks id es
unfolding unlink find_id IsSorted IsDistinct AllFrom
unlink-Unlinks id [] e s d h = absurd (ground (arith, h))
unlink-Unlinks id (f ∷ fs) e (a, s) (n, p, d) h = elim (Bool-cases (f.id == id)) [
  | inl t ↦
      let same : f.id ≡ id = ground arith in
      record {
        es' = fs;
        returns = rw t;
        count = omega arith;
        from = λ ts l. l.1;
        sorted = s;
        distinct = d;
        finds = λ k. elim (Bool-cases (id == k)) [
          | inl u ↦
              let gone : find_id k fs ≡ none = subst (λ i. find_id i fs ≡ none) (ground arith) n in
              rw (u, gone)
          | inr v ↦ ground arith
        ];
      }
  | inr u ↦
      let r = unlink-Unlinks id fs e s d (ground (arith, h)) in
      record {
        es' = f ∷ r.es';
        returns = rw (u, r.returns);
        count = omega (arith, r.count);
        from = λ ts l. (l.0, r.from ts l.1);
        sorted = (r.from f.ts a, r.sorted);
        distinct = (ground (arith, n, r.finds f.id), p, r.distinct);
        finds = λ k. ground (arith, r.finds k);
      }
]

-- In a valid queue of fewer than 2^64 entries, removing a number in use succeeds and keeps the queue
-- valid; the number is not in the queue then, and all others are as before.
pub remove_timeout-find_id :
    (s : State) (id k : ℕ) (e : TimerQueueEntry)
    → IsValid s
    → length s.timer_queue < ulong_max
    → 0 < id
    → find_id id s.timer_queue ≡ some e
    → (s' : State) × (remove_timeout s id ≡ some s')
      × IsValid s'
      × (find_id k s'.timer_queue ≡ (if id == k then none else find_id k s.timer_queue))
unfolding remove_timeout release_tqe IsValid
remove_timeout-find_id s id k e (sorted, distinct, count, below, blocks) l p h =
    let r = unlink-Unlinks id s.timer_queue e sorted distinct h in
    let set_id : (id == 0) ≡ false = ground arith in
    let counted : (s.n_timer_queue_entries + (ulong_max - 1)) % ulong_max ≡ length r.es' =
      omega (arith, r.count) in
    (
      record s {
        timer_queue = r.es';
        n_timer_queue_entries = (s.n_timer_queue_entries + (ulong_max - 1)) % ulong_max;
        n_free = s.n_free + 1;
      },
      rw (set_id, r.returns),
      (r.sorted, r.distinct, counted, below, omega (arith, r.count)),
      r.finds k,
    )

find_id-AllFrom :
    (ts : Timespec) (k : ℕ) (es : List TimerQueueEntry) (e : TimerQueueEntry)
    → AllFrom ts es
    → find_id k es ≡ some e
    → before e.ts ts ≡ false
unfolding AllFrom find_id
find_id-AllFrom ts k [] e a h = absurd (ground (arith, h))
find_id-AllFrom ts k (f ∷ fs) e (b, a) h = elim (Bool-cases (f.id == k)) [
  | inl t ↦ let here : f ≡ e = ground (arith, h) in subst (λ x. before x.ts ts ≡ false) here b
  | inr u ↦ find_id-AllFrom ts k fs e a (ground (arith, h))
]

before_irrefl : (a : Timespec) → before a a ≡ false
before_irrefl a = elim (Bool-cases (before a a)) [ inl t ↦ before_asym a a t | inr f ↦ f ]

-- No entry comes before the first one.
first_earliest :
    (f : TimerQueueEntry) (fs : List TimerQueueEntry) (k : ℕ) (e : TimerQueueEntry)
    → IsSorted (f ∷ fs)
    → find_id k (f ∷ fs) ≡ some e
    → before e.ts f.ts ≡ false
unfolding IsSorted AllFrom
first_earliest f fs k e (a, s) h = find_id-AllFrom f.ts k (f ∷ fs) e (before_irrefl f.ts, a) h

find_id-first : (f : TimerQueueEntry) (fs : List TimerQueueEntry) → find_id f.id (f ∷ fs) ≡ some f
unfolding find_id
find_id-first f fs = ground arith

-- The queue `f ∷ fs` with its first entry due.
due_first :
    (s : State) (now : Timespec) (f : TimerQueueEntry) (fs : List TimerQueueEntry)
    → s.timer_queue ≡ f ∷ fs
    → 0 < s.n_timer_queue_entries
    → due s now ≡ (if before now f.ts then none else some f)
unfolding due first_due
due_first s now f fs q p =
    let counted : ltb 0 s.n_timer_queue_entries ≡ true = ground arith in rw (counted, q)

-- What `take_due` does with an entry `e` in the queue.
Taken : State → Timespec → ℕ → TimerQueueEntry → Type 0
Taken s now k e =
    (take_due s now ≡ some (none, s)) × (before now e.ts ≡ true)
    ⊎ ((f : TimerQueueEntry) × (s' : State) × (take_due s now ≡ some (some f, s'))
        × IsValid s'
        × (before now f.ts ≡ false)
        × (before e.ts f.ts ≡ false)
        × (find_id k s'.timer_queue ≡ (if f.id == k then none else some e)))

take_due-Taken :
    (s : State) (now : Timespec) (k : ℕ) (e f : TimerQueueEntry) (fs : List TimerQueueEntry)
    → IsValid s
    → length s.timer_queue < ulong_max
    → find_id k s.timer_queue ≡ some e
    → s.timer_queue ≡ f ∷ fs
    → Taken s now k e
unfolding Taken take_due IsValid IsDistinct find_id
take_due-Taken s now k e f fs v l h q =
    let (sorted, distinct, count, below, blocks) = v in
    let some_entries : 0 < s.n_timer_queue_entries = omega (arith, count, ap length q) in
    let first = due_first s now f fs q some_entries in
    let least =
      first_earliest f fs k e (subst IsSorted q sorted) (subst (λ q. find_id k q ≡ some e) q h) in
    elim (Bool-cases (before now f.ts)) [
      | inl t ↦
          let none_due : due s now ≡ none = first ∙ rw t in
          inl (rw (none_due, take_due), before_trans f.ts e.ts now t least)
      | inr u ↦
          let is_due : due s now ≡ some f = first ∙ rw u in
          let in_use : find_id f.id s.timer_queue ≡ some f = rw q (find_id-first f fs) in
          let (s', returns, valid, finds) =
            remove_timeout-find_id
              (record s { last_class_dispatch = set s.last_class_dispatch f.class now }) f.id k f v
              l ((subst IsDistinct q distinct).1) in_use in
          inr (f, s', rw (is_due, take_due, returns), valid, u, least, finds ∙ rw h)
    ]

-- In a valid queue of fewer than 2^64 entries, either no entry is due, and `dispatch_timeouts`
-- leaves the state alone; or it takes an entry that is due and that no entry comes before, the queue
-- stays valid, and all other entries stay.
pub take_due-earliest :
    (s : State) (now : Timespec) (k : ℕ) (e : TimerQueueEntry)
    → IsValid s
    → length s.timer_queue < ulong_max
    → find_id k s.timer_queue ≡ some e
    → (take_due s now ≡ some (none, s)) × (before now e.ts ≡ true)
      ⊎ ((f : TimerQueueEntry) × (s' : State) × (take_due s now ≡ some (some f, s'))
          × IsValid s'
          × (before now f.ts ≡ false)
          × (before e.ts f.ts ≡ false)
          × (find_id k s'.timer_queue ≡ (if f.id == k then none else some e)))
unfolding Taken find_id
take_due-earliest s now k e v l h = by_queue s.timer_queue refl
  where
    by_queue : (q : List TimerQueueEntry) → s.timer_queue ≡ q → Taken s now k e
    by_queue [] q = absurd (ground (arith, h, ap (find_id k) q))
    by_queue (f ∷ fs) q = take_due-Taken s now k e f fs v l h q

-- ===== src/Sched/Timer/Id.antt =====
-- sched.c: the numbers of the timeouts.
use chrony.Common.{
  ℕ, zero, suc, ◌+◌, ◌-◌, ◌%◌, ◌≤◌, ◌<◌, Bool, true, false, ◌||◌, none, some, List, [], ◌∷◌, ltb,
  ◌==◌, ◌≡◌, inl, inr, length, arith, refl, ap, subst, Bool-cases, Option-cases,
}
use chrony.Sched.Timer.{TimerQueueEntry, id_max, is_used, try_ids}

-- How many rounds after `c` a number is tried first, less one.
abbrev distance : ℕ → ℕ → ℕ
distance c id = (id + (id_max - 1 - c)) % id_max

abbrev one_if : Bool → ℕ
one_if true = 1
one_if false = 0

-- How many of the numbers are tried in the first rounds after `c`.
abbrev count_within : ℕ → ℕ → List ℕ → ℕ
count_within fuel c [] = 0
count_within fuel c (x ∷ xs) = one_if (ltb (distance c x) fuel) + count_within fuel c xs

abbrev occurrences : ℕ → List ℕ → ℕ
occurrences c [] = 0
occurrences c (x ∷ xs) = one_if (x == c) + occurrences c xs

abbrev ids : List TimerQueueEntry → List ℕ
ids [] = []
ids (e ∷ es) = e.id ∷ ids es

count_within-length : (fuel c : ℕ) (xs : List ℕ) → count_within fuel c xs ≤ length xs
count_within-length fuel c [] = omega arith
count_within-length fuel c (x ∷ xs) = ground (arith, count_within-length fuel c xs)

distance_next : (c x : ℕ) → c < id_max → x ≡ (c + 1) % id_max → distance c x ≡ 0
distance_next c x h e = omega arith

distance_self : (c x : ℕ) → c < id_max → x ≡ c → distance c x ≡ id_max - 1
distance_self c x h e = omega arith

distance_step : (c x : ℕ) → c < id_max → distance c x ≤ distance ((c + 1) % id_max) x + 1
distance_step c x h = omega arith

one_step :
    (fuel c x : ℕ)
    → c < id_max
    → fuel < id_max
    → one_if (x == (c + 1) % id_max) + one_if (ltb (distance ((c + 1) % id_max) x) fuel)
      ≤ one_if (ltb (distance c x) (suc fuel))
one_step fuel c x h k = elim (Bool-cases (x == (c + 1) % id_max)) [
  | inl same ↦
      let e : x ≡ (c + 1) % id_max = ground arith in
      let first : distance c x ≡ 0 = distance_next c x h e in
      let last : distance ((c + 1) % id_max) x ≡ id_max - 1 =
        distance_self ((c + 1) % id_max) x (omega arith) e in
      ground (arith, first, last)
  | inr other ↦ ground (arith, distance_step c x h)
]

count_within-step :
    (fuel c : ℕ) (xs : List ℕ)
    → c < id_max
    → fuel < id_max
    → occurrences ((c + 1) % id_max) xs + count_within fuel ((c + 1) % id_max) xs
      ≤ count_within (suc fuel) c xs
count_within-step fuel c [] h k = omega arith
count_within-step fuel c (x ∷ xs) h k =
    omega (arith, one_step fuel c x h k, count_within-step fuel c xs h k)

occurrences-used :
    (c : ℕ) (es : List TimerQueueEntry) → is_used c es ≡ true → 1 ≤ occurrences c (ids es)
unfolding is_used
occurrences-used c [] h = ground arith
occurrences-used c (e ∷ es) h = elim (Bool-cases (e.id == c)) [
  | inl t ↦ ground arith
  | inr f ↦ ground (arith, occurrences-used c es)
]

occurrences-taken :
    (c : ℕ) (es : List TimerQueueEntry)
    → (c == 0 || is_used c es) ≡ true
    → 1 ≤ occurrences c (0 ∷ ids es)
occurrences-taken c es h = elim (Bool-cases (c == 0)) [
  | inl t ↦ ground arith
  | inr f ↦ ground (arith, occurrences-used c es)
]

-- If all rounds fail, each has hit 0 or the number of an entry.
try_ids-none :
    (fuel c : ℕ) (es : List TimerQueueEntry)
    → c < id_max
    → fuel ≤ id_max
    → try_ids fuel c es ≡ none
    → fuel ≤ count_within fuel c (0 ∷ ids es)
unfolding try_ids
try_ids-none zero c es h k e = omega arith
try_ids-none (suc fuel) c es h k e =
    let next = (c + 1) % id_max in
    elim (Bool-cases (next == 0 || is_used next es)) [
      | inl taken ↦
          let failed : try_ids fuel next es ≡ none = ground (arith, e) in
          let rest = try_ids-none fuel next es (omega arith) (omega arith) failed in
          omega (
            arith,
            rest,
            count_within-step fuel c (0 ∷ ids es) h k,
            occurrences-taken next es taken,
          )
      | inr unused ↦ ground (arith, e)
    ]

-- A number that is tried with success is in range, not 0, and not the number of an entry.
pub try_ids-fresh :
    (fuel c : ℕ) (es : List TimerQueueEntry) (id : ℕ)
    → try_ids fuel c es ≡ some id
    → (id < id_max) × (0 < id) × (is_used id es ≡ false)
unfolding try_ids
try_ids-fresh zero c es id e = ground arith
try_ids-fresh (suc fuel) c es id e =
    let next = (c + 1) % id_max in
    elim (Bool-cases (next == 0 || is_used next es)) [
      | inl taken ↦
          let later : try_ids fuel next es ≡ some id = ground (arith, e) in
          try_ids-fresh fuel next es id later
      | inr unused ↦
          let found : next ≡ id = ground (arith, e) in
          subst (λ i. (i < id_max) × (0 < i) × (is_used i es ≡ false)) found
            (omega arith, ground arith, ground arith)
    ]

length-ids : (es : List TimerQueueEntry) → length (ids es) ≡ length es
length-ids [] = refl
length-ids (e ∷ es) = ap suc (length-ids es)

-- The fuel of `get_new_tqe_id` is enough: one round more than the entries and 0.
pub try_ids-enough :
    (c : ℕ) (es : List TimerQueueEntry)
    → c < id_max
    → length es + 2 ≤ id_max
    → (id : ℕ) × (try_ids (length es + 2) c es ≡ some id)
try_ids-enough c es h k = elim (Option-cases (try_ids (length es + 2) c es)) [
  | inr found ↦ found
  | inl e ↦ absurd (
      omega (
        arith,
        try_ids-none (length es + 2) c es h k e,
        count_within-length (length es + 2) c (0 ∷ ids es),
        length-ids es,
      ))
]

-- ===== src/Sched/Timer/Order.antt =====
-- sched.c: the order of the timeouts in the queue.
use chrony.Common.{
  Bool, true, false, List, [], ◌∷◌, ltb, ◌≡◌, arith, refl, ap, inl, inr, Bool-cases,
}
use chrony.Common.Signed.{ℤ, pos, negsuc, ltb_ℤ}
use chrony.Sched.Timer.{Timespec, compare_timespecs, is_before, TimerQueueEntry, insert_before}

abbrev pub before : Timespec → Timespec → Bool
before a b = is_before (compare_timespecs a b)

ltb_ℤ_asym : (a b : ℤ) → ltb_ℤ a b ≡ true → ltb_ℤ b a ≡ false
unfolding ltb_ℤ
ltb_ℤ_asym (pos m) (pos n) h = ground arith
ltb_ℤ_asym (pos m) (negsuc n) h = ground arith
ltb_ℤ_asym (negsuc m) (pos n) h = refl
ltb_ℤ_asym (negsuc m) (negsuc n) h = ground arith

ltb_ℤ_antisym : (a b : ℤ) → ltb_ℤ a b ≡ false → ltb_ℤ b a ≡ false → a ≡ b
unfolding ltb_ℤ
ltb_ℤ_antisym (pos m) (pos n) h k = let e : m ≡ n = ground arith in ap pos e
ltb_ℤ_antisym (pos m) (negsuc n) h k = ground arith
ltb_ℤ_antisym (negsuc m) (pos n) h k = ground arith
ltb_ℤ_antisym (negsuc m) (negsuc n) h k = let e : m ≡ n = ground arith in ap negsuc e

ltb_ℤ_trans : (a b c : ℤ) → ltb_ℤ a b ≡ true → ltb_ℤ c b ≡ false → ltb_ℤ a c ≡ true
unfolding ltb_ℤ
ltb_ℤ_trans (pos l) (pos m) (pos n) h k = ground arith
ltb_ℤ_trans (pos l) (pos m) (negsuc n) h k = ground arith
ltb_ℤ_trans (pos l) (negsuc m) c h k = ground arith
ltb_ℤ_trans (negsuc l) b (pos n) h k = refl
ltb_ℤ_trans (negsuc l) (pos m) (negsuc n) h k = ground arith
ltb_ℤ_trans (negsuc l) (negsuc m) (negsuc n) h k = ground arith

pub before_asym : (a b : Timespec) → before a b ≡ true → before b a ≡ false
unfolding compare_timespecs
before_asym a b h = ground (arith, ltb_ℤ_asym a.tv_sec b.tv_sec)

-- What comes before a time comes before every time that is not before it.
pub before_trans : (a b c : Timespec) → before c a ≡ true → before b a ≡ false → before c b ≡ true
unfolding compare_timespecs
before_trans a b c h k = elim (Bool-cases (ltb_ℤ c.tv_sec a.tv_sec)) [
  | inl less ↦
      let below : ltb_ℤ b.tv_sec a.tv_sec ≡ false = ground arith in
      ground (arith, ltb_ℤ_trans c.tv_sec a.tv_sec b.tv_sec less below)
  | inr ge ↦
      let le : ltb_ℤ a.tv_sec c.tv_sec ≡ false = ground arith in
      let nsec : ltb c.tv_nsec a.tv_nsec ≡ true = ground arith in
      let e : c.tv_sec ≡ a.tv_sec = ltb_ℤ_antisym c.tv_sec a.tv_sec ge le in
      let left : ltb_ℤ c.tv_sec b.tv_sec ≡ ltb_ℤ a.tv_sec b.tv_sec = ap (λ t. ltb_ℤ t b.tv_sec) e in
      let right : ltb_ℤ b.tv_sec c.tv_sec ≡ ltb_ℤ b.tv_sec a.tv_sec = ap (ltb_ℤ b.tv_sec) e in
      elim (Bool-cases (ltb_ℤ a.tv_sec b.tv_sec)) [
        | inl less ↦ ground (arith, left, right)
        | inr same ↦
            let above : ltb_ℤ b.tv_sec a.tv_sec ≡ false = ground arith in
            let nsec' : ltb b.tv_nsec a.tv_nsec ≡ false = ground arith in
            ground (arith, left, right)
      ]
]

-- No entry is before the time.
unfoldable pub AllFrom : Timespec → List TimerQueueEntry → Type 0
AllFrom ts [] = Unit
AllFrom ts (e ∷ es) = (before e.ts ts ≡ false) × AllFrom ts es

-- No entry is before one that stands in front of it.
unfoldable pub IsSorted : List TimerQueueEntry → Type 0
IsSorted [] = Unit
IsSorted (e ∷ es) = AllFrom e.ts es × IsSorted es

not_before_trans : (a b c : Timespec) → before b a ≡ false → before c b ≡ false → before c a ≡ false
not_before_trans a b c h k = elim (Bool-cases (before c a)) [
  | inl t ↦ ground (arith, before_trans a b c t h)
  | inr f ↦ f
]

AllFrom-trans :
    (a b : Timespec) (es : List TimerQueueEntry) → before b a ≡ false → AllFrom b es → AllFrom a es
unfolding AllFrom
AllFrom-trans a b [] h k = k
AllFrom-trans a b (e ∷ es) h (k, l) = (not_before_trans a b e.ts h k, AllFrom-trans a b es h l)

AllFrom-insert :
    (ts : Timespec) (new : TimerQueueEntry) (es : List TimerQueueEntry)
    → before new.ts ts ≡ false
    → AllFrom ts es
    → AllFrom ts (insert_before new es)
unfolding AllFrom insert_before
AllFrom-insert ts new [] h k = (h, tt)
AllFrom-insert ts new (e ∷ es) h (k, l) = elim (Bool-cases (before new.ts e.ts)) [
  | inl t ↦ rw t (h, (k, l))
  | inr f ↦ rw f (k, AllFrom-insert ts new es h l)
]

pub insert_before-IsSorted :
    (new : TimerQueueEntry) (es : List TimerQueueEntry)
    → IsSorted es
    → IsSorted (insert_before new es)
unfolding AllFrom insert_before IsSorted
insert_before-IsSorted new [] h = (tt, tt)
insert_before-IsSorted new (e ∷ es) (h, k) = elim (Bool-cases (before new.ts e.ts)) [
  | inl t ↦
      let after : before e.ts new.ts ≡ false = before_asym new.ts e.ts t in
      rw t ((after, AllFrom-trans new.ts e.ts es after h), (h, k))
  | inr f ↦ rw f (AllFrom-insert e.ts new es f h, insert_before-IsSorted new es k)
]

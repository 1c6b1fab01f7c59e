-- ===== src/Clientlog/Timestamps/Slots.antt =====
-- clientlog.c: reads and writes of the circular buffer.
use native.Mathlib.Nat.{mod-eq_of_lt, mod-eq-sub-mod, mod-lt}
use chrony.Common.{
  ℕ, zero, suc, ◌+◌, ◌-◌, ◌%◌, ◌^◌, ◌≤◌, ◌<◌, true, false, ◌&&◌, if◌then◌else◌, ltb, leb, ◌==◌, ◌≡◌,
  inl, inr, arith, refl, Bool-cases, ◌∙◌, ap,
}
use chrony.Clientlog.Timestamps.{
  NtpTimestamps, NtpTimestampMap, get_ntp_tss, set_ntp_tss, slot, word32,
}
use chrony.Clientlog.Timestamps.Store.{move_up}

-- The numbers of a buffer.
pub record HasBuffer (m : NtpTimestampMap) : Type 0 where
  pub room : 0 < m.max_size
  pub small : m.max_size ≤ 2 ^ 24
  pub inside : m.first < m.max_size

-- The remainder of a number below twice the modulus.
pub mod_once : (a n : ℕ) → a < n + n → a % n ≡ (if ltb a n then a else a - n)
mod_once a n h = elim (Bool-cases (ltb a n)) [
  | inl t ↦ rw t (mod-eq_of_lt (ground arith))
  | inr f ↦ let le : n ≤ a = ground arith in rw f (mod-eq-sub-mod le ∙ mod-eq_of_lt (omega arith))
]

slot-cases :
    (m : NtpTimestampMap) (i : ℕ)
    → HasBuffer m
    → i < m.max_size
    → slot m i ≡ (if ltb (m.first + i) m.max_size then m.first + i else m.first + i - m.max_size)
unfolding slot
slot-cases m i b h =
    let whole : (m.first + i) % word32 ≡ m.first + i = mod-eq_of_lt (omega arith) in
    rw whole (mod_once (m.first + i) m.max_size (omega arith))

slot_inj :
    (m : NtpTimestampMap) (i j : ℕ)
    → HasBuffer m
    → i < m.max_size
    → j < m.max_size
    → slot m i ≡ slot m j
    → i ≡ j
slot_inj m i j b h k e = ground (arith, e, slot-cases m i b h, slot-cases m j b k)

-- A read after a write.
pub get-set :
    (m : NtpTimestampMap) (i j : ℕ) (tss : NtpTimestamps)
    → HasBuffer m
    → i < m.max_size
    → j < m.max_size
    → get_ntp_tss (set_ntp_tss m i tss) j ≡ (if j == i then tss else get_ntp_tss m j)
unfolding get_ntp_tss set_ntp_tss slot
get-set m i j tss b h k = elim (Bool-cases (j == i)) [
  | inl t ↦
      let same : j ≡ i = ground arith in
      let slots : (slot m j == slot m i) ≡ true = ground (arith, ap (slot m) same) in rw (slots, t)
  | inr f ↦
      let slots : (slot m j == slot m i) ≡ false = elim (Bool-cases (slot m j == slot m i)) [
        | inl u ↦
            let same : slot m j ≡ slot m i = ground arith in
            ground (arith, slot_inj m j i b k h same)
        | inr u ↦ u
      ] in
      rw (slots, f)
]

set-HasBuffer :
    (m : NtpTimestampMap) (i : ℕ) (tss : NtpTimestamps)
    → HasBuffer m
    → HasBuffer (set_ntp_tss m i tss)
unfolding set_ntp_tss
set-HasBuffer m i tss b = record { room = b.room; small = b.small; inside = b.inside }

-- What `move_up` leaves in the buffer.
pub get-move_up :
    (n k : ℕ) (m : NtpTimestampMap) (j : ℕ)
    → HasBuffer m
    → n < m.max_size
    → j < m.max_size
    → get_ntp_tss (move_up n k m) j
      ≡ (if ltb k j && leb j n then get_ntp_tss m (j - 1) else get_ntp_tss m j)
unfolding move_up set_ntp_tss
get-move_up zero k m j b h l = ground arith
get-move_up (suc i) k m j b h l = elim (Bool-cases (ltb k (suc i))) [
  | inr f ↦ let none : (ltb k j && leb j (suc i)) ≡ false = ground arith in rw (f, none)
  | inl t ↦
      let moved = set_ntp_tss m (suc i) (get_ntp_tss m i) in
      let less : i < m.max_size = omega arith in
      let rest = get-move_up i k moved j (set-HasBuffer m (suc i) (get_ntp_tss m i) b) less l in
      let here = get-set m (suc i) j (get_ntp_tss m i) b h l in
      let below = get-set m (suc i) (j - 1) (get_ntp_tss m i) b h (omega arith) in
      rw t (
        rest ∙ elim (Bool-cases (j == suc i)) [
          | inl u ↦
              let last : j - 1 ≡ i = ground arith in
              let same = ap (get_ntp_tss m) last in ground (arith, here, below, same)
          | inr v ↦ ground (arith, here, below)
        ])
]

pub move_up-kept :
    (n k : ℕ) (m : NtpTimestampMap)
    → move_up n k m ≡ record m { timestamps = (move_up n k m).timestamps }
unfolding move_up set_ntp_tss
move_up-kept zero k m = refl
move_up-kept (suc i) k m = elim (Bool-cases (ltb k (suc i))) [
  | inr f ↦ rw f
  | inl t ↦ rw t (move_up-kept i k (set_ntp_tss m (suc i) (get_ntp_tss m i)))
]

-- The map after the oldest timestamp is dropped from a full buffer.
abbrev pub drop_first : NtpTimestampMap → NtpTimestampMap
drop_first m = record m { first = (m.first + 1) % m.max_size }

pub drop_first-HasBuffer : (m : NtpTimestampMap) → HasBuffer m → HasBuffer (drop_first m)
drop_first-HasBuffer m b = record {
  room = b.room;
  small = b.small;
  inside = mod-lt (m.first + 1) b.room;
}

pub get-drop_first :
    (m : NtpTimestampMap) (i : ℕ)
    → HasBuffer m
    → i + 1 < m.max_size
    → get_ntp_tss (drop_first m) i ≡ get_ntp_tss m (i + 1)
unfolding get_ntp_tss
get-drop_first m i b h = ap m.timestamps (
    ground (
      arith,
      slot-cases (drop_first m) i (drop_first-HasBuffer m b) (omega arith),
      slot-cases m (i + 1) b h,
      mod_once (m.first + 1) m.max_size (omega (arith, b.inside, b.room)),
    ))

-- ===== src/Util/Time.antt =====
-- util.c: the arithmetic of `struct timespec`.
use chrony.Common.{
  ℕ, suc, Bool, false, ◌&&◌, ◌+◌, ◌-◌, ◌*◌, ◌/◌, ◌%◌, ◌<◌, if◌then◌else◌, ltb, leb, ◌==◌, ◌≡◌, ◌≢◌,
  arith, Bool-cases, inl, inr, ap₂,
}
use chrony.Common.Signed.{
  ℤ, pos, negsuc, ltb_ℤ, ◌+ℤ◌, ◌-ℤ◌, pos_part, neg_part, int_laws, eq_of_parts,
}

pub record Timespec : Type 0 where
  pub tv_sec : ℤ
  pub tv_nsec : ℕ

abbrev pub nsec_per_sec : ℕ
nsec_per_sec = 1000000000

-- `UTI_CompareTimespecs`
unfoldable pub compare_timespecs : Timespec → Timespec → ℤ
compare_timespecs a b =
    if ltb_ℤ a.tv_sec b.tv_sec
    then negsuc 0
    else (if ltb_ℤ b.tv_sec a.tv_sec
        then pos 1
        else (if ltb a.tv_nsec b.tv_nsec
            then negsuc 0
            else (if ltb b.tv_nsec a.tv_nsec then pos 1 else pos 0)))

-- `UTI_NormaliseTimespec`, of nanoseconds that may be negative. `/` and `%` of C round to zero.
unfoldable pub normalise_timespec : ℤ → ℤ → Timespec
normalise_timespec sec (pos n) =
    if leb nsec_per_sec n
    then (record { tv_sec = sec +ℤ pos (n / nsec_per_sec); tv_nsec = n % nsec_per_sec })
    else (record { tv_sec = sec; tv_nsec = n })
normalise_timespec sec (negsuc n) =
    let quotient = suc n / nsec_per_sec in
    let remainder = suc n % nsec_per_sec in
    if remainder == 0
    then (record { tv_sec = sec -ℤ pos quotient; tv_nsec = 0 })
    else (record { tv_sec = sec -ℤ pos quotient -ℤ pos 1; tv_nsec = nsec_per_sec - remainder })

-- `UTI_DiffTimespecs`
unfoldable pub diff_timespecs : Timespec → Timespec → Timespec
diff_timespecs a b = normalise_timespec (a.tv_sec -ℤ b.tv_sec) (pos a.tv_nsec -ℤ pos b.tv_nsec)

abbrev pub is_zero_int : ℤ → Bool
is_zero_int (pos n) = n == 0
is_zero_int (negsuc n) = false

abbrev pub zero_timespec : Timespec
zero_timespec = record { tv_sec = pos 0; tv_nsec = 0 }

abbrev pub is_zero_timespec : Timespec → Bool
is_zero_timespec ts = is_zero_int ts.tv_sec && ts.tv_nsec == 0

-- Normalising keeps the time, and leaves less than a second of nanoseconds.
pub normalise_timespec-total :
    (sec nsec : ℤ)
    → ((normalise_timespec sec nsec).tv_nsec < nsec_per_sec)
      × (pos_part (normalise_timespec sec nsec).tv_sec * nsec_per_sec
            + (normalise_timespec sec nsec).tv_nsec
            + neg_part sec * nsec_per_sec
            + neg_part nsec
          ≡ neg_part (normalise_timespec sec nsec).tv_sec * nsec_per_sec
            + pos_part sec * nsec_per_sec
            + pos_part nsec)
unfolding normalise_timespec
normalise_timespec-total sec (pos n) = elim (Bool-cases (leb nsec_per_sec n)) [
  | inl t ↦ rw t (omega arith, omega int_laws)
  | inr f ↦ rw f (ground arith, omega int_laws)
]
normalise_timespec-total sec (negsuc n) = elim (Bool-cases (suc n % nsec_per_sec == 0)) [
  | inl t ↦ let even : suc n % nsec_per_sec ≡ 0 = ground arith in rw t (omega arith, omega int_laws)
  | inr f ↦ let odd : suc n % nsec_per_sec ≢ 0 = ground arith in rw f (omega arith, omega int_laws)
]

-- A time has one form with less than a second of nanoseconds.
pub eq_of_total :
    (a b : Timespec)
    → a.tv_nsec < nsec_per_sec
    → b.tv_nsec < nsec_per_sec
    → pos_part a.tv_sec * nsec_per_sec + a.tv_nsec + neg_part b.tv_sec * nsec_per_sec
      ≡ pos_part b.tv_sec * nsec_per_sec + b.tv_nsec + neg_part a.tv_sec * nsec_per_sec
    → a ≡ b
eq_of_total a b h k e =
    let nsec : a.tv_nsec ≡ b.tv_nsec = omega arith in
    let sec : a.tv_sec ≡ b.tv_sec = eq_of_parts a.tv_sec b.tv_sec (omega arith) in
    ap₂ (λ s n. record { tv_sec = s; tv_nsec = n }) sec nsec

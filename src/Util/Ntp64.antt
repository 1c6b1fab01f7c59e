-- ===== src/Util/Ntp64.antt =====
-- util.c: 64-bit NTP timestamps.
use chrony.Common.{
  ◌+◌, ◌-◌, ◌%◌, Bool, true, false, ◌&&◌, ◌||◌, Option, none, some, if◌then◌else◌, ltb, leb, ◌==◌,
  ◌≡◌, ◌↔◌, arith, ap₂,
}
use chrony.Common.Signed.{ℤ, pos, negsuc}
use chrony.Util.Time.{is_zero_int}
use chrony.Clientlog.Timestamps.Runs.{NtpInt64}

abbrev pub zero_ntp64 : NtpInt64
zero_ntp64 = record { hi = 0; lo = 0 }

unfoldable pub is_zero_ntp64 : NtpInt64 → Bool
is_zero_ntp64 ts = ts.hi == 0 && ts.lo == 0

unfoldable pub compare_ntp64 : NtpInt64 → NtpInt64 → ℤ
compare_ntp64 a b =
    if a.hi == b.hi && a.lo == b.lo
    then pos 0
    else (let diff = (a.hi + 4294967296 - b.hi) % 4294967296 in
        if leb 2147483648 diff
        then negsuc 0
        else (if ltb 0 diff then pos 1 else (if ltb a.lo b.lo then negsuc 0 else pos 1)))

abbrev pub is_negative : ℤ → Bool
is_negative (pos n) = false
is_negative (negsuc n) = true

-- `!UTI_CompareNtp64(a, b)`
abbrev pub same : NtpInt64 → NtpInt64 → Bool
same a b = is_zero_int (compare_ntp64 a b)

-- `UTI_IsEqualAnyNtp64`. `none` is a null pointer.
abbrev pub is_equal : NtpInt64 → Option NtpInt64 → Bool
is_equal a none = false
is_equal a (some b) = a.lo == b.lo && a.hi == b.hi

unfoldable pub is_equal_any_ntp64 :
    NtpInt64 → Option NtpInt64 → Option NtpInt64 → Option NtpInt64 → Bool
is_equal_any_ntp64 a b1 b2 b3 = is_equal a b1 || is_equal a b2 || is_equal a b3

pub eq_of_parts64 : (a b : NtpInt64) → a.hi ≡ b.hi → a.lo ≡ b.lo → a ≡ b
eq_of_parts64 a b h l = ap₂ (λ x y. record { hi = x; lo = y }) h l

-- Two timestamps compare as zero exactly when they are one.
pub same_iff : (a b : NtpInt64) → (same a b ≡ true) ↔ (a ≡ b)
unfolding compare_ntp64
same_iff a b = (λ h. eq_of_parts64 a b (ground arith) (ground arith), λ e. ground arith)

pub zero_of_is_zero : (a : NtpInt64) → is_zero_ntp64 a ≡ true → a ≡ zero_ntp64
unfolding is_zero_ntp64
zero_of_is_zero a h = eq_of_parts64 a zero_ntp64 (ground arith) (ground arith)

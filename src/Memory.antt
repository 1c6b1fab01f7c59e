-- ===== src/Memory.antt =====
-- memory.c: the size of an array, checked for overflow.
mod Tests
use native.Mathlib.Nat.{
  mod-eq_of_lt, mul-div_cancel_left, mod-lt, div-mul-le_self, mul_comm, zero-mul,
}
use chrony.Common.{
  ℕ, zero, suc, ◌+◌, ◌*◌, ◌/◌, ◌%◌, ◌^◌, ◌<◌, ◌≤◌, Bool, true, false, not, ◌&&◌, Option, none, some,
  if◌then◌else◌, ltb, ◌==◌, ◌≡◌, ◌≢◌, ◌⊎◌, inl, inr, arith, refl, Bool-cases, ==_iff, subst,
}

-- `size_t` of 64 bits.
abbrev pub size_max : ℕ
size_max = 2 ^ 64

-- `none` is LOG_FATAL, which ends the program.
unfoldable pub get_array_size : ℕ → ℕ → Option ℕ
get_array_size nmemb size =
    let array_size = nmemb * size % size_max in
    if ltb 0 nmemb && not (array_size / nmemb == size) then none else some array_size

-- A product that does not fit `size_t` fails the test: the wrapped product is too small.
wrapped_ne : (n s : ℕ) → size_max ≤ n * s → n * s % size_max / n ≢ s
wrapped_ne n s k e =
    let below : s * n ≤ n * s % size_max =
      subst (λ q. q * n ≤ n * s % size_max) e (div-mul-le_self (n * s % size_max) n) in
    absurd (omega (arith, below, mod-lt (n * s) {m = size_max} (omega arith), mul_comm n s))

whole_eq : (n s : ℕ) → 0 < n → n * s < size_max → n * s % size_max / n ≡ s
whole_eq n s h k = rw (mod-eq_of_lt k) (mul-div_cancel_left s h)

-- The check for overflow is exact: a size that fits `size_t` is returned as it is, and for any
-- other the program ends.
pub get_array_size_exact :
    (nmemb size : ℕ)
    → get_array_size nmemb size
      ≡ (if ltb (nmemb * size) size_max then some (nmemb * size) else none)
unfolding get_array_size
get_array_size_exact zero size = ground (arith, zero-mul size)
get_array_size_exact (suc n) size = elim (Bool-cases (ltb (suc n * size) size_max)) [
  | inl fits ↦
      let k : suc n * size < size_max = ground arith in
      rw fits (ground (arith, whole_eq (suc n) size (omega arith) k, mod-eq_of_lt k))
  | inr over ↦
      let k : size_max ≤ suc n * size = ground arith in
      rw over (ground (arith, wrapped_ne (suc n) size k))
]

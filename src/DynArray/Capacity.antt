-- ===== src/DynArray/Capacity.antt =====
-- array.c: how much memory an array holds.
use native.Mathlib.Nat.{mod-eq_of_lt, pow-succ', mul_comm, mul_assoc}
use chrony.Memory.{get_array_size, get_array_size_exact, size_max}
use native.Mathlib.Nat.{mul-le-mul, sub_self}
use chrony.Common.{
  true, false, Option, List, leb, length, subst, append-nil, take-length, ◌%◌, ℕ, zero, suc, ◌*◌,
  ◌%◌, ◌^◌, ◌≤◌, ◌<◌, some, ltb, ◌≡◌, arith, sym, ◌∙◌, inl, inr, Bool-cases,
}
use chrony.DynArray.{Instance, resize, reallocate, realloc_array, grow_rounds, grow, uint_max}

grow_step :
    (fuel allocated min_size : ℕ)
    → 0 < allocated
    → allocated < min_size
    → min_size < 2 ^ 31
    → grow (suc fuel) allocated min_size ≡ grow fuel (2 * allocated) min_size
unfolding grow
grow_step fuel allocated min_size p l m =
    let doubled : 2 * allocated % uint_max ≡ 2 * allocated = mod-eq_of_lt (omega arith) in
    ground (arith, doubled)

grow_from_zero :
    (fuel min_size : ℕ) → 0 < min_size → grow (suc fuel) 0 min_size ≡ grow fuel 1 min_size
unfolding grow
grow_from_zero fuel min_size p = ground arith

grow_stop :
    (fuel allocated min_size : ℕ)
    → min_size ≤ allocated
    → grow (suc fuel) allocated min_size ≡ some allocated
unfolding grow
grow_stop fuel allocated min_size l = ground arith

-- From a size that is not 0, `fuel` doublings reach the minimum.
grow_pos :
    (fuel allocated min_size : ℕ)
    → 0 < allocated
    → allocated < 2 * min_size
    → min_size < 2 ^ 31
    → min_size ≤ allocated * 2 ^ fuel
    → (n : ℕ) × (grow (suc fuel) allocated min_size ≡ some n) × (min_size ≤ n) × (n < 2 * min_size)
grow_pos zero allocated min_size p u m h =
    (allocated, grow_stop 0 allocated min_size (omega arith), omega arith, u)
grow_pos (suc fuel) allocated min_size p u m h = elim (Bool-cases (ltb allocated min_size)) [
  | inr enough ↦
      let k : min_size ≤ allocated = ground arith in
      (allocated, grow_stop (suc fuel) allocated min_size k, k, u)
  | inl less ↦
      let k : allocated < min_size = ground arith in
      let (n, e, l, g) =
        grow_pos fuel (2 * allocated) min_size (omega arith) (omega arith) m
          (rw (mul_comm 2 allocated, mul_assoc allocated 2 (2 ^ fuel), sym (pow-succ' 2 fuel)) h) in
      (n, grow_step (suc fuel) allocated min_size p k m ∙ e, l, g)
]

-- The rounds are enough for every minimum that passes the assertion.
grow_enough :
    (allocated min_size : ℕ)
    → allocated < min_size
    → min_size < 2 ^ 31
    → (n : ℕ) × (grow grow_rounds allocated min_size ≡ some n) × (min_size ≤ n) × (n < 2 * min_size)
grow_enough zero min_size l m =
    let (n, e, l', h) = grow_pos 31 1 min_size (omega arith) (omega arith) m (omega arith) in
    (n, grow_from_zero 32 min_size l ∙ e, l', h)
grow_enough (suc k) min_size l m =
    grow_pos 32 (suc k) min_size (omega arith) (omega arith) m (omega arith)

-- The bytes of fewer than 2^32 elements of fewer than 2^32 bytes fit `size_t`.
get_array_size_of_fits :
    (n size : ℕ) → size < uint_max → n < uint_max → get_array_size n size ≡ some (n * size)
get_array_size_of_fits n size h k =
    let fits : n * size < size_max = omega (
      arith,
      mul-le-mul {n₁ = n} {m₁ = size} {n₂ = 0xffffffff} {m₂ = 0xffffffff} (omega arith)
          (omega arith),
    ) in
    get_array_size_exact n size ∙ ground (arith, fits)

module _ {ℓ} {A : Type ℓ} where
  -- The elements within the length of the memory, which holds them; their size as one of the
  -- operands of `sizeof`.
  unfoldable pub HasMemory : Instance A → Type 0
  HasMemory array = (length array.cells ≡ array.allocated) × (array.elem_size < uint_max)

  resize-length : (xs : List (Option A)) → resize (length xs) xs ≡ xs
  unfolding resize
  resize-length xs = rw (sub_self (length xs), append-nil) (take-length xs)

  reallocate_lem :
      (array : Instance A) (n : ℕ)
      → array.elem_size < uint_max
      → n < uint_max
      → reallocate array n ≡ some (record array { cells = resize n array.cells; allocated = n })
  unfolding reallocate
  reallocate_lem array n h k =
      let size : get_array_size n array.elem_size ≡ some (n * array.elem_size) =
        get_array_size_of_fits n array.elem_size h k in
      rw size

  -- For an array that has its memory and a minimum below 2^31, `realloc_array` succeeds: the memory
  -- is resized to between the minimum and twice the minimum.
  pub realloc_array-bounds :
      (array : Instance A) (min_size : ℕ)
      → HasMemory array
      → min_size < 2 ^ 31
      → (n : ℕ) × (realloc_array array min_size
          ≡ some (record array { cells = resize n array.cells; allocated = n }))
        × (min_size ≤ n)
        × (n ≤ 2 * min_size)
  unfolding realloc_array HasMemory
  realloc_array-bounds array min_size (h, k) m =
      let fits : 2 * min_size % uint_max ≡ 2 * min_size = mod-eq_of_lt (omega arith) in
      let asserted : leb min_size (2 * min_size % uint_max) ≡ true = ground (arith, fits) in
      elim (Bool-cases (ltb array.allocated min_size)) [
        | inl less ↦
            let (n, e, l, u) = grow_enough array.allocated min_size (ground arith) m in
            let below : leb min_size array.allocated ≡ false = ground arith in
            (
              n,
              rw (asserted, below, less, e) (reallocate_lem array n k (omega arith)),
              l,
              omega arith,
            )
        | inr more ↦
            let above : leb min_size array.allocated ≡ true = ground arith in
            elim (Bool-cases (leb array.allocated (2 * min_size % uint_max))) [
              | inl within ↦
                  let kept : resize array.allocated array.cells ≡ array.cells =
                    subst (λ n. resize n array.cells ≡ array.cells) h (resize-length array.cells) in
                  (
                    array.allocated,
                    rw (asserted, above, within, kept),
                    ground arith,
                    ground (arith, fits),
                  )
              | inr over ↦ (
                min_size,
                rw (asserted, above, over, more) (reallocate_lem array min_size k (omega arith)),
                omega arith,
                omega arith,
              )
            ]
      ]

-- ===== src/DynArray.antt =====
-- array.c: arrays that grow, with their memory.
--
-- `cells` is `data`, the allocated memory as a list of elements: `none` is an element that nothing has
-- written. A pointer to an element is its index. `none` as a result is the end of the program, by
-- an assertion or LOG_FATAL. The memory itself is granted: Realloc ends the program otherwise.
pub mod Capacity
pub mod Elements
mod Tests
use chrony.Common.{
  ℕ, zero, suc, ◌+◌, ◌-◌, ◌*◌, ◌%◌, ◌^◌, Bool, true, false, not, ◌&&◌, Option, none, some, List, [],
  ◌∷◌, ◌++◌, ◌>>=◌, if◌then◌else◌, ltb, leb, ◌==◌, length, take, drop, set, replicate,
}
use chrony.Memory.{get_array_size}

-- `unsigned int` of 32 bits.
abbrev pub uint_max : ℕ
uint_max = 2 ^ 32

pub record Instance {ℓ} (A : Type ℓ) : Type ℓ where
  pub cells : List (Option A)
  pub elem_size : ℕ
  pub used : ℕ
  pub allocated : ℕ

-- The loop of `realloc_array`, by a bound on the number of its rounds.
unfoldable pub grow : ℕ → ℕ → ℕ → Option ℕ
grow zero allocated min_size = none
grow (suc fuel) allocated min_size =
    let rest = grow fuel (if allocated == 0 then 1 else 2 * allocated % uint_max) min_size in
    if ltb allocated min_size then rest else some allocated

-- The number of rounds that is always enough: one sets the size to 1 and 31 double it.
abbrev pub grow_rounds : ℕ
grow_rounds = 33

module _ {ℓ} {A : Type ℓ} where
  pub create_instance : ℕ → Option (Instance A)
  create_instance elem_size =
      if ltb 0 elem_size
      then some (record { cells = []; elem_size = elem_size; used = 0; allocated = 0 })
      else none

  -- The memory after `realloc`: what is kept of the old one, and new elements.
  pub resize : ℕ → List (Option A) → List (Option A)
  resize n cells = take n cells ++ replicate (n - length cells) none

  -- `Realloc2` of the data to the new number of elements.
  pub reallocate : Instance A → ℕ → Option (Instance A)
  reallocate array allocated = do
    size ← get_array_size allocated array.elem_size
    some (record array { cells = resize allocated array.cells; allocated = allocated })

  -- The new size is the minimum, or the first one in doubling that is not less.
  pub realloc_array : Instance A → ℕ → Option (Instance A)
  realloc_array array min_size =
      if leb min_size (2 * min_size % uint_max)
      then (if leb min_size array.allocated && leb array.allocated (2 * min_size % uint_max)
          then some array
          else (if ltb array.allocated min_size
              then (do
                allocated ← grow grow_rounds array.allocated min_size
                reallocate array allocated)
              else reallocate array min_size))
      else none

  -- The result is the new element's index.
  pub get_element : Instance A → ℕ → Option ℕ
  get_element array index = if ltb index array.used then some index else none

  -- `array->used - 1` of an `unsigned int`.
  abbrev pub last_index : Instance A → ℕ
  last_index array = (array.used + (uint_max - 1)) % uint_max

  pub get_new_element : Instance A → Option (Instance A × ℕ)
  get_new_element array = do
    let used = (array.used + 1) % uint_max
    array' ← realloc_array (record array { used = used }) used
    e ← get_element array' (last_index array')
    some (array', e)

  pub append_element : Instance A → A → Option (Instance A)
  append_element array element = do
    (array', e) ← get_new_element array
    some (record array' { cells = set array'.cells e (some element) })

  -- `memmove` of the elements behind `e` up to `l` by one place. `l` itself stays.
  pub move_down : ℕ → ℕ → List (Option A) → List (Option A)
  move_down e l cells =
      if ltb e l then take e cells ++ (take (l - e) (drop (e + 1) cells) ++ drop l cells) else cells

  pub remove_element : Instance A → ℕ → Option (Instance A)
  remove_element array index = do
    e ← get_element array index
    l ← get_element array (last_index array)
    let used = (array.used + (uint_max - 1)) % uint_max
    realloc_array (record array { cells = move_down e l array.cells; used = used }) used

  pub set_size : Instance A → ℕ → Option (Instance A)
  set_size array size = do array' ← realloc_array array size; some (record array' { used = size })

  abbrev pub get_size : Instance A → ℕ
  get_size array = array.used

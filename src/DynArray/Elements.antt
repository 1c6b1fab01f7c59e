-- ===== src/DynArray/Elements.antt =====
-- array.c: the elements of an array, as a list.
use native.Mathlib.Nat.{mod-eq_of_lt}
use native.Mathlib.Numerals.{add-one}
use chrony.Common.{
  ℕ, ◌+◌, ◌-◌, ◌*◌, ◌%◌, ◌^◌, ◌≤◌, ◌<◌, true, Option, none, some, List, [], ◌∷◌, ◌++◌, ltb, leb,
  ◌≡◌, length, take, drop, set, replicate, arith, refl, inl, inr, Bool-cases, length-append,
  length-replicate, length-take_of_le, sym, ap, length-drop, length-take-add, take-all, take-append,
  take-append_of_le, take-set, length-set, drop-take, ◌∙◌, append-nil, append_assoc,
  take-take_of_le, subst,
}
use chrony.DynArray.{
  Instance, resize, realloc_array, get_element, get_new_element, append_element, move_down,
  remove_element, set_size, uint_max,
}
use chrony.DynArray.Capacity.{realloc_array-bounds, HasMemory}

module _ {ℓ} {A : Type ℓ} where
  pub elements : Instance A → List (Option A)
  elements array = take array.used array.cells

  -- The memory has room for the elements in use and at most for twice as many.
  unfoldable pub IsValid : Instance A → Type 0
  IsValid array =
      HasMemory array
      × (array.used ≤ array.allocated)
      × (array.allocated ≤ 2 * array.used)
      × (0 < array.elem_size)

  length-resize : (n : ℕ) (xs : List (Option A)) → length (resize n xs) ≡ n
  unfolding resize
  length-resize n xs =
      rw
        (
          length-append (take n xs) (replicate (n - length xs) none),
          length-replicate (n - length xs) (let m : Option A = none in m),
        )
        (length-take-add n xs)

  take-resize :
      (k n : ℕ) (xs : List (Option A)) → k ≤ n → k ≤ length xs → take k (resize n xs) ≡ take k xs
  unfolding resize
  take-resize k n xs h l = elim (Bool-cases (leb n (length xs))) [
    | inl le ↦
        let room : k ≤ length (take n xs) = rw (length-take_of_le n xs (ground arith)) h in
        take-append_of_le k (take n xs) (replicate (n - length xs) none) room
        ∙ take-take_of_le k n xs h
    | inr gt ↦
        rw (take-all n xs (ground arith))
          (take-append_of_le k xs (replicate (n - length xs) none) l)
  ]

  -- Appending to a valid array of fewer than 2^31 - 1 elements succeeds and keeps it valid; the
  -- appended element comes behind the elements that it had.
  pub append_element-elements :
      (array : Instance A) (x : A)
      → IsValid array
      → array.used + 1 < 2 ^ 31
      → (array' : Instance A) × (append_element array x ≡ some array')
        × IsValid array'
        × (elements array' ≡ elements array ++ (some x ∷ []))
  unfolding append_element get_new_element get_element elements IsValid HasMemory
  append_element-elements array x ((memory, size), fits, twice, positive) h =
      let next : (array.used + 1) % uint_max ≡ array.used + 1 = mod-eq_of_lt (omega arith) in
      let last : (array.used + 1 + (uint_max - 1)) % uint_max ≡ array.used = omega arith in
      let grown : (n : ℕ)
          → array.used < n
          → take (array.used + 1) (set (resize n array.cells) array.used (some x))
            ≡ take array.used array.cells ++ (some x ∷ []) =
        λ n l. rw (
          add-one array.used,
          take-set (resize n array.cells) array.used (some x) (rw (length-resize n array.cells) l),
          take-resize array.used n array.cells (omega arith) (omega arith),
        ) in
      let (n, e, l, u) =
        realloc_array-bounds (record array { used = array.used + 1 }) (array.used + 1)
          (memory, size) h in
      let inside : ltb array.used (array.used + 1) ≡ true = ground arith in
      (
        record array {
          cells = set (resize n array.cells) array.used (some x);
          used = array.used + 1;
          allocated = n;
        },
        rw (next, e, last, inside),
        (
          (
            length-set (resize n array.cells) array.used (some x) ∙ length-resize n array.cells,
            size,
          ),
          l,
          u,
          positive,
        ),
        grown n (omega arith),
      )

  length-kept :
      (e l : ℕ) (xs : List (Option A))
      → e ≤ l
      → l < length xs
      → length (take e xs ++ take (l - e) (drop (e + 1) xs)) ≡ l
  length-kept e l xs h k =
      let room : l - e ≤ length (drop (e + 1) xs) = omega (arith, length-drop (e + 1) xs) in
      rw
        (
          length-append (take e xs) (take (l - e) (drop (e + 1) xs)),
          length-take_of_le e xs (omega arith),
          length-take_of_le (l - e) (drop (e + 1) xs) room,
        )
        (omega arith)

  take-move_down :
      (e l : ℕ) (xs : List (Option A))
      → e ≤ l
      → l < length xs
      → take l (move_down e l xs) ≡ take e xs ++ take (l - e) (drop (e + 1) xs)
  unfolding move_down
  take-move_down e l xs h k = elim (Bool-cases (ltb e l)) [
    | inl less ↦
        let middle = take (l - e) (drop (e + 1) xs) in
        let kept = take e xs ++ middle in
        rw less (
          ap (take l) (sym (append_assoc (take e xs) middle (drop l xs)))
          ∙ subst (λ n. take n (kept ++ drop l xs) ≡ kept) (length-kept e l xs h k)
              (take-append kept (drop l xs)))
    | inr same ↦
        let equal : e ≡ l = ground arith in
        let nothing : l - e ≡ 0 = omega arith in
        rw (same, nothing, append-nil) (ap (λ i. take i xs) (sym equal))
  ]

  length-move_down :
      (e l : ℕ) (xs : List (Option A))
      → e ≤ l
      → l < length xs
      → length (move_down e l xs) ≡ length xs
  unfolding move_down
  length-move_down e l xs h k = elim (Bool-cases (ltb e l)) [
    | inl less ↦
        rw
          (
            less,
            sym (append_assoc (take e xs) (take (l - e) (drop (e + 1) xs)) (drop l xs)),
            length-append (take e xs ++ take (l - e) (drop (e + 1) xs)) (drop l xs),
            length-kept e l xs h k,
            length-drop l xs,
          )
          (omega arith)
    | inr same ↦ rw same
  ]

  -- The list without the element at an index, by the elements around it.
  abbrev pub without : ℕ → List (Option A) → List (Option A)
  without index xs = take index xs ++ drop (index + 1) xs

  without-take :
      (i u : ℕ) (xs : List (Option A))
      → i < u
      → without i (take u xs) ≡ take i xs ++ take (u - 1 - i) (drop (i + 1) xs)
  without-take i u xs h =
      let parts : u ≡ i + 1 + (u - 1 - i) = omega arith in
      let behind : drop (i + 1) (take u xs) ≡ take (u - 1 - i) (drop (i + 1) xs) =
        ap (λ n. drop (i + 1) (take n xs)) parts ∙ drop-take (i + 1) (u - 1 - i) xs in
      rw (take-take_of_le i u xs (omega arith), behind)

  remove_element_lem :
      (array : Instance A) (index l : ℕ) {array' : Instance A}
      → ltb index array.used ≡ true
      → (array.used + (uint_max - 1)) % uint_max ≡ l
      → ltb l array.used ≡ true
      → realloc_array (record array { cells = move_down index l array.cells; used = l }) l
        ≡ some array'
      → remove_element array index ≡ some array'
  unfolding remove_element get_element
  remove_element_lem array index l inside last last_inside e = rw (inside, last, last_inside) e

  -- On a valid array of fewer than 2^31 elements, removing an element in use succeeds, keeps it
  -- valid, and leaves the other elements in their order.
  pub remove_element-elements :
      (array : Instance A) (index : ℕ)
      → IsValid array
      → array.used < 2 ^ 31
      → index < array.used
      → (array' : Instance A) × (remove_element array index ≡ some array')
        × IsValid array'
        × (elements array' ≡ without index (elements array))
  unfolding elements IsValid HasMemory
  remove_element-elements array index ((memory, size), fits, twice, positive) h k =
      let l = array.used - 1 in
      let last : (array.used + (uint_max - 1)) % uint_max ≡ l = omega arith in
      let inside : ltb index array.used ≡ true = ground arith in
      let last_inside : ltb l array.used ≡ true = ground arith in
      let moved = move_down index l array.cells in
      let size_moved : length moved ≡ length array.cells =
        length-move_down index l array.cells (omega arith) (omega arith) in
      let (n, e, at_least, at_most) =
        realloc_array-bounds (record array { cells = moved; used = l }) l
          (size_moved ∙ memory, size) (omega arith) in
      (
        record array { cells = resize n moved; used = l; allocated = n },
        remove_element_lem array index l inside last last_inside e,
        ((length-resize n moved, size), at_least, at_most, positive),
        take-resize l n moved at_least (omega (arith, size_moved))
            ∙ take-move_down index l array.cells (omega arith) (omega arith)
            ∙ sym (without-take index array.used array.cells k),
      )

  -- On a valid array, `ARR_SetSize` to a size below 2^31 succeeds and keeps it valid. The array has
  -- the size then, and the elements below both sizes are kept.
  set_size-elements :
      (array : Instance A) (size k : ℕ)
      → IsValid array
      → size < 2 ^ 31
      → k ≤ size
      → k ≤ array.used
      → (array' : Instance A) × (set_size array size ≡ some array')
        × IsValid array'
        × (array'.used ≡ size)
        × (take k (elements array') ≡ take k (elements array))
  unfolding set_size elements IsValid HasMemory
  set_size-elements array size k ((memory, bytes), fits, twice, positive) h i j =
      let (n, e, l, u) = realloc_array-bounds array size (memory, bytes) h in
      (
        record array { cells = resize n array.cells; used = size; allocated = n },
        rw e,
        ((length-resize n array.cells, bytes), l, u, positive),
        refl,
        take-take_of_le k size (resize n array.cells) i
            ∙ take-resize k n array.cells (omega arith) (omega arith)
            ∙ sym (take-take_of_le k array.used array.cells j),
      )

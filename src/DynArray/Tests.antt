-- ===== src/DynArray/Tests.antt =====
-- array.c: arrays at concrete values.
use chrony.Common.{ℕ, none, some, [], ◌∷◌, ◌++◌, ◌≡◌, ◌≤◌, ◌*◌, ◌^◌, refl, arith}
use chrony.DynArray.{
  Instance, create_instance, append_element, remove_element, set_size, get_element, grow,
  realloc_array, resize, grow_rounds,
}
use chrony.DynArray.Capacity.{HasMemory, realloc_array-bounds}
use chrony.DynArray.Elements.{
  elements, IsValid, append_element-elements, remove_element-elements, without,
}

abbrev three : Instance ℕ
three = record {
  cells = some 5 ∷ some 6 ∷ some 7 ∷ none ∷ [];
  elem_size = 8;
  used = 3;
  allocated = 4;
}

create_instance_lem : create_instance {A = ℕ} 0 ≡ none
unfolding create_instance
create_instance_lem = refl

-- A size above 2^31 fails the assertion of `realloc_array`.
set_size_lem :
    (set_size three (2 ^ 31) ≡ none)
    × (set_size three 2 ≡ some (record three { used = 2 }))
    × (get_element three 3 ≡ none)
unfolding set_size realloc_array get_element
set_size_lem = (refl, refl, refl)

grow_lem : grow grow_rounds 4 5 ≡ some 8
unfolding grow
grow_lem = refl

three-IsValid : IsValid three
unfolding IsValid HasMemory
three-IsValid = ((refl, omega arith), omega arith, omega arith, omega arith)

realloc_array-bounds_example :
    (n : ℕ) × (realloc_array three 9
      ≡ some (record three { cells = resize n three.cells; allocated = n }))
    × (9 ≤ n)
    × (n ≤ 2 * 9)
unfolding IsValid
realloc_array-bounds_example = realloc_array-bounds three 9 three-IsValid.0 (omega arith)

append_element-elements_example :
    (array' : Instance ℕ) × (append_element three 8 ≡ some array')
    × IsValid array'
    × (elements array' ≡ elements three ++ (some 8 ∷ []))
append_element-elements_example = append_element-elements three 8 three-IsValid (omega arith)

remove_element-elements_example :
    (array' : Instance ℕ) × (remove_element three 1 ≡ some array')
    × IsValid array'
    × (elements array' ≡ without 1 (elements three))
remove_element-elements_example =
    remove_element-elements three 1 three-IsValid (omega arith) (omega arith)

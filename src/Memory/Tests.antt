-- ===== src/Memory/Tests.antt =====
-- memory.c: the check at concrete sizes.
use chrony.Common.{none, some, ◌≡◌, ◌^◌, refl}
use chrony.Memory.{get_array_size}

get_array_size_lem : (get_array_size 3 8 ≡ some 24) × (get_array_size (2 ^ 33) (2 ^ 31) ≡ none)
unfolding get_array_size
get_array_size_lem = (refl, refl)

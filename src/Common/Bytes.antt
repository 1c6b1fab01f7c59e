-- ===== src/Common/Bytes.antt =====
-- Buffers of bytes: 16-bit fields in network order, and writes and reads of a range.
use Prim.Native.Nat.{ℕ, zero, suc, ◌+◌, ◌*◌, ◌/◌, ◌%◌, ◌<◌, ◌≤◌}
use mathlib.Core.Path.{◌≡◌, refl, ap}
use mathlib.Core.List.{List, [], ◌∷◌, ◌++◌}
use native.Mathlib.Nat.{zero-add, suc-add}
use native.Mathlib.Omega.{arith}
use chrony.Common.Lists.{length, take, drop}

-- A byte out of range reads as 0.
abbrev pub byte_at : List ℕ → ℕ → ℕ
byte_at [] i = 0
byte_at (b ∷ bs) zero = b
byte_at (b ∷ bs) (suc i) = byte_at bs i

-- The 16-bit value of two bytes in network order, and the bytes of a value (`htons` keeps the low
-- 16 bits).
abbrev pub get_u16 : List ℕ → ℕ → ℕ
get_u16 buf i = byte_at buf i * 256 + byte_at buf (i + 1)

abbrev pub u16_bytes : ℕ → List ℕ
u16_bytes n = (n / 256 % 256) ∷ (n % 256) ∷ []

-- `memcpy` to the start of a buffer; bytes past its end are dropped.
abbrev pub overwrite : List ℕ → List ℕ → List ℕ
overwrite [] bytes = []
overwrite (x ∷ buf) [] = x ∷ buf
overwrite (x ∷ buf) (b ∷ bytes) = b ∷ overwrite buf bytes

-- `memcpy` to the index `i` of a buffer.
abbrev pub write_at : List ℕ → ℕ → List ℕ → List ℕ
write_at buf zero bytes = overwrite buf bytes
write_at [] (suc i) bytes = []
write_at (x ∷ buf) (suc i) bytes = x ∷ write_at buf i bytes

-- The `n` bytes from the index `i` on.
abbrev pub slice : List ℕ → ℕ → ℕ → List ℕ
slice buf i n = take n (drop i buf)

length-overwrite : (buf bytes : List ℕ) → length (overwrite buf bytes) ≡ length buf
length-overwrite [] bytes = refl
length-overwrite (x ∷ buf) [] = refl
length-overwrite (x ∷ buf) (b ∷ bytes) = ap suc (length-overwrite buf bytes)

pub length-write_at :
    (buf : List ℕ) (i : ℕ) (bytes : List ℕ) → length (write_at buf i bytes) ≡ length buf
length-write_at buf zero bytes = length-overwrite buf bytes
length-write_at [] (suc i) bytes = refl
length-write_at (x ∷ buf) (suc i) bytes = ap suc (length-write_at buf i bytes)

take-overwrite :
    (buf bytes : List ℕ)
    → length bytes ≤ length buf
    → take (length bytes) (overwrite buf bytes) ≡ bytes
take-overwrite buf [] h = refl
take-overwrite [] (b ∷ bytes) h = absurd (omega arith)
take-overwrite (x ∷ buf) (b ∷ bytes) h = ap (λ l. b ∷ l) (take-overwrite buf bytes (omega arith))

-- What is written is read back.
pub slice-write_at :
    (buf : List ℕ) (i : ℕ) (bytes : List ℕ)
    → i + length bytes ≤ length buf
    → slice (write_at buf i bytes) i (length bytes) ≡ bytes
slice-write_at buf zero bytes h = take-overwrite buf bytes (omega arith)
slice-write_at [] (suc i) [] h = absurd (omega arith)
slice-write_at [] (suc i) (b ∷ bytes) h = absurd (omega arith)
slice-write_at (x ∷ buf) (suc i) bytes h = slice-write_at buf i bytes (omega arith)

byte_at-overwrite_before :
    (buf bytes : List ℕ) (j : ℕ)
    → j < length bytes
    → length bytes ≤ length buf
    → byte_at (overwrite buf bytes) j ≡ byte_at bytes j
byte_at-overwrite_before buf [] j h k = absurd (omega arith)
byte_at-overwrite_before [] (b ∷ bytes) j h k = absurd (omega arith)
byte_at-overwrite_before (x ∷ buf) (b ∷ bytes) zero h k = refl
byte_at-overwrite_before (x ∷ buf) (b ∷ bytes) (suc j) h k =
    byte_at-overwrite_before buf bytes j (omega arith) (omega arith)

byte_at-overwrite_after :
    (buf bytes : List ℕ) (j : ℕ)
    → length bytes ≤ j
    → byte_at (overwrite buf bytes) j ≡ byte_at buf j
byte_at-overwrite_after [] bytes j h = refl
byte_at-overwrite_after (x ∷ buf) [] j h = refl
byte_at-overwrite_after (x ∷ buf) (b ∷ bytes) zero h = absurd (omega arith)
byte_at-overwrite_after (x ∷ buf) (b ∷ bytes) (suc j) h =
    byte_at-overwrite_after buf bytes j (omega arith)

-- A byte inside the written range.
pub byte_at-write_at :
    (buf : List ℕ) (i : ℕ) (bytes : List ℕ) (j : ℕ)
    → j < length bytes
    → i + length bytes ≤ length buf
    → byte_at (write_at buf i bytes) (i + j) ≡ byte_at bytes j
byte_at-write_at buf zero bytes j h k =
    rw zero-add (byte_at-overwrite_before buf bytes j h (omega arith))
byte_at-write_at [] (suc i) bytes j h k = absurd (omega arith)
byte_at-write_at (x ∷ buf) (suc i) bytes j h k =
    rw suc-add (byte_at-write_at buf i bytes j h (omega arith))

-- A byte before or after it.
pub byte_at-write_at_before :
    (buf : List ℕ) (i : ℕ) (bytes : List ℕ) (j : ℕ)
    → j < i
    → byte_at (write_at buf i bytes) j ≡ byte_at buf j
byte_at-write_at_before buf zero bytes j h = absurd (omega arith)
byte_at-write_at_before [] (suc i) bytes j h = refl
byte_at-write_at_before (x ∷ buf) (suc i) bytes zero h = refl
byte_at-write_at_before (x ∷ buf) (suc i) bytes (suc j) h =
    byte_at-write_at_before buf i bytes j (omega arith)

pub byte_at-write_at_after :
    (buf : List ℕ) (i : ℕ) (bytes : List ℕ) (j : ℕ)
    → i + length bytes ≤ j
    → byte_at (write_at buf i bytes) j ≡ byte_at buf j
byte_at-write_at_after buf zero bytes j h = byte_at-overwrite_after buf bytes j (omega arith)
byte_at-write_at_after [] (suc i) bytes j h = refl
byte_at-write_at_after (x ∷ buf) (suc i) bytes zero h = absurd (omega arith)
byte_at-write_at_after (x ∷ buf) (suc i) bytes (suc j) h =
    byte_at-write_at_after buf i bytes j (omega arith)

pub take-write_at :
    (buf : List ℕ) (i : ℕ) (bytes : List ℕ)
    → i + length bytes ≤ length buf
    → take (i + length bytes) (write_at buf i bytes) ≡ take i buf ++ bytes
take-write_at buf zero bytes h = rw zero-add (take-overwrite buf bytes (omega arith))
take-write_at [] (suc i) bytes h = absurd (omega arith)
take-write_at (x ∷ buf) (suc i) bytes h =
    rw suc-add (ap (λ l. x ∷ l) (take-write_at buf i bytes (omega arith)))

pub byte_at-drop : (n : ℕ) (xs : List ℕ) (j : ℕ) → byte_at (drop n xs) j ≡ byte_at xs (n + j)
byte_at-drop zero xs j = rw zero-add
byte_at-drop (suc n) [] j = refl
byte_at-drop (suc n) (x ∷ xs) j = rw suc-add (byte_at-drop n xs j)

pub byte_at-take : (n : ℕ) (xs : List ℕ) (j : ℕ) → j < n → byte_at (take n xs) j ≡ byte_at xs j
byte_at-take zero xs j h = absurd (omega arith)
byte_at-take (suc n) [] j h = refl
byte_at-take (suc n) (x ∷ xs) zero h = refl
byte_at-take (suc n) (x ∷ xs) (suc j) h = byte_at-take n xs j (omega arith)

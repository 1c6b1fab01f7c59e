-- ===== src/NtsAuth/Written.antt =====
-- nts_ntp_auth.c: the body of the field that `NNA_GenerateAuthEF` writes.
use native.Mathlib.Nat.{zero-add, suc-add}
use chrony.Common.{
  ℕ, zero, suc, ◌+◌, ◌≤◌, List, [], ◌∷◌, ◌++◌, length, take, drop, take-drop-take, drop-drop, ◌≡◌,
  refl, arith, ap, sym, ◌∙◌,
}
use chrony.Common.Bytes.{overwrite, write_at, slice}

overwrite-append :
    (buf xs ys : List ℕ) → write_at (overwrite buf xs) (length xs) ys ≡ overwrite buf (xs ++ ys)
overwrite-append [] [] ys = refl
overwrite-append (b ∷ buf) [] ys = refl
overwrite-append [] (x ∷ xs) ys = refl
overwrite-append (b ∷ buf) (x ∷ xs) ys = ap (λ l. x ∷ l) (overwrite-append buf xs ys)

-- Two writes behind each other.
write_at-append :
    (buf : List ℕ) (i : ℕ) (xs ys : List ℕ)
    → write_at (write_at buf i xs) (i + length xs) ys ≡ write_at buf i (xs ++ ys)
write_at-append buf zero xs ys = rw zero-add (overwrite-append buf xs ys)
write_at-append [] (suc i) xs ys = rw suc-add
write_at-append (b ∷ buf) (suc i) xs ys = rw suc-add (ap (λ l. b ∷ l) (write_at-append buf i xs ys))

-- A write leaves what is in front of it.
pub take-write_at_before :
    (buf : List ℕ) (n i : ℕ) (xs : List ℕ) → n ≤ i → take n (write_at buf i xs) ≡ take n buf
take-write_at_before buf zero i xs h = refl
take-write_at_before [] (suc n) zero xs h = refl
take-write_at_before [] (suc n) (suc i) xs h = refl
take-write_at_before (b ∷ buf) (suc n) zero xs h = absurd (omega arith)
take-write_at_before (b ∷ buf) (suc n) (suc i) xs h =
    ap (λ l. b ∷ l) (take-write_at_before buf n i xs (omega arith))

-- A slice of a slice.
pub slice-slice :
    (buf : List ℕ) (i n j k : ℕ) → j + k ≤ n → slice (slice buf i n) j k ≡ slice buf (i + j) k
slice-slice buf i n j k h =
    take-drop-take k j n (drop i buf) h ∙ ap (take k) (sym (drop-drop i j buf))

-- The five writes of a body, each at the end of the one before.
pub write_at-five :
    (buf : List ℕ) (i j k l n : ℕ) (a b c d e : List ℕ)
    → j ≡ i + length a
    → k ≡ j + length b
    → l ≡ k + length c
    → n ≡ l + length d
    → write_at (write_at (write_at (write_at (write_at buf i a) j b) k c) l d) n e
      ≡ write_at buf i (a ++ (b ++ (c ++ (d ++ e))))
write_at-five buf i j k l n a b c d e ja kb lc nd =
    let one = write_at buf i a in
    let two = write_at one j b in
    let three = write_at two k c in
    ap (λ n. write_at (write_at three l d) n e) nd
    ∙ write_at-append three l d e
    ∙ ap (λ l. write_at three l (d ++ e)) lc
    ∙ write_at-append two k c (d ++ e)
    ∙ ap (λ k. write_at two k (c ++ (d ++ e))) kb
    ∙ write_at-append one j b (c ++ (d ++ e))
    ∙ ap (λ j. write_at one j (b ++ (c ++ (d ++ e)))) ja
    ∙ write_at-append buf i a (b ++ (c ++ (d ++ e)))

-- ===== src/NtpExt/Fields.antt =====
-- ntp_ext.c: one field in a buffer, written by `NEF_SetField` and read by `NEF_ParseSingleField`.
use native.Mathlib.Nat.{add-zero}
use chrony.Common.{
  ℕ, zero, suc, ◌+◌, ◌%◌, ◌^◌, ◌<◌, ◌≤◌, some, List, [], ◌∷◌, ◌++◌, length, take, ◌≡◌, ◌⊎◌, inl,
  inr, arith, refl, ◌∙◌, ap, subst, ◌↔◌, Option-cases,
}
use chrony.Common.Signed.{ℤ, pos, negsuc}
use chrony.Common.Bytes.{
  byte_at, get_u16, u16_bytes, write_at, slice, length-write_at, slice-write_at, byte_at-write_at,
  byte_at-write_at_before, byte_at-write_at_after,
}
use chrony.NtpExt.{Field, Formatted, format_field, set_field, parse_single_field, start_fits}

-- A field with a body of `b` bytes can stand at `start` in a buffer of `n` bytes.
pub record FitsAt (n start b : ℕ) : Type 0 where
  pub room : start + 4 + b ≤ n
  pub aligned : start % 4 ≡ 0
  pub whole : b % 4 ≡ 0
  pub short : 4 + b ≤ 0xffff

-- The header of the field.
abbrev pub header_of : ℕ → ℕ → List ℕ
header_of type b = u16_bytes type ++ u16_bytes (4 + b)

abbrev pub formatted : List ℕ → ℕ → ℕ → ℕ → Formatted
formatted buffer start type b = record {
  buffer = write_at buffer start (header_of type b);
  ef_length = 4 + b;
  body = start + 4;
}

format_field-FitsAt :
    (buffer : List ℕ) (n start type b : ℕ)
    → FitsAt n start b
    → format_field buffer (pos n) (pos start) type (pos b) ≡ some (formatted buffer start type b)
unfolding format_field start_fits
format_field-FitsAt buffer n start type b h = ground arith

pub FitsAt-format_field :
    (buffer : List ℕ) (n start type b : ℕ) {f : Formatted}
    → format_field buffer (pos n) (pos start) type (pos b) ≡ some f
    → FitsAt n start b × (f ≡ formatted buffer start type b)
unfolding format_field start_fits
FitsAt-format_field buffer n start type b h = ground arith

-- What is parsed from a field of the type `type` with a body of `b` bytes.
abbrev pub field_of : ℕ → ℕ → ℕ → Field
field_of start type b = record {
  ef_length = 4 + b;
  type = type % 2 ^ 16;
  body = start + 4;
  body_length = b;
}

-- Reading the header that stands at `start`.
pub parse_single_field-header :
    (buffer : List ℕ) (n start type b : ℕ)
    → FitsAt n start b
    → get_u16 buffer start ≡ type % 2 ^ 16
    → get_u16 buffer (start + 2) ≡ 4 + b
    → parse_single_field buffer (pos n) (pos start) ≡ some (field_of start type b)
unfolding parse_single_field start_fits
parse_single_field-header buffer n start type b h t l = ground arith

-- The header that was written at `start` is read back, whatever is written behind it.
pub header-write_at :
    (buffer : List ℕ) (start type b : ℕ) (body : List ℕ)
    → start + 4 ≤ length buffer
    → 4 + b ≤ 0xffff
    → let buffer' = write_at (write_at buffer start (header_of type b)) (start + 4) body in
      (get_u16 buffer' start ≡ type % 2 ^ 16) × (get_u16 buffer' (start + 2) ≡ 4 + b)
header-write_at buffer start type b body h k =
    let at0 = rw add-zero at (byte_at-write_at buffer start (header_of type b) 0 (omega arith) h) in
    let at1 = byte_at-write_at buffer start (header_of type b) 1 (omega arith) h in
    let at2 = byte_at-write_at buffer start (header_of type b) 2 (omega arith) h in
    let at3 = byte_at-write_at buffer start (header_of type b) 3 (omega arith) h in
    let keep = λ (j : ℕ) (l : j < start + 4).
      byte_at-write_at_before (write_at buffer start (header_of type b)) (start + 4) body j l in
    let s3 : start + 2 + 1 ≡ start + 3 = omega arith in
    (
      rw (keep start (omega arith), keep (start + 1) (omega arith), at0, at1) (omega arith),
      rw (s3, keep (start + 2) (omega arith), keep (start + 3) (omega arith), at2, at3)
          (omega arith),
    )

length-take_of_le : (n : ℕ) (xs : List ℕ) → n ≤ length xs → length (take n xs) ≡ n
length-take_of_le zero xs h = refl
length-take_of_le (suc n) [] h = absurd (omega arith)
length-take_of_le (suc n) (x ∷ xs) h = ap suc (length-take_of_le n xs (omega arith))

-- The body that was written behind a header is read back.
pub slice-body :
    (buffer : List ℕ) (start b : ℕ) (body : List ℕ)
    → start + b ≤ length buffer
    → b ≤ length body
    → slice (write_at buffer start (take b body)) start b ≡ take b body
slice-body buffer start b body h k =
    let e = length-take_of_le b body k in
    subst (λ n. slice (write_at buffer start (take b body)) start n ≡ take b body) e
      (slice-write_at buffer start (take b body) (rw e h))

-- The buffer that `NEF_SetField` leaves.
abbrev pub with_field : List ℕ → ℕ → ℕ → ℕ → List ℕ → List ℕ
with_field buffer start type b body =
    write_at (write_at buffer start (header_of type b)) (start + 4) (take b body)

set_field-eq-some :
    (buffer body buffer' : List ℕ) (n start type b len : ℕ)
    → set_field buffer (pos n) (pos start) type body (pos b) ≡ some (buffer', len)
    → FitsAt n start b × (buffer' ≡ with_field buffer start type b body) × (len ≡ 4 + b)
unfolding set_field
set_field-eq-some buffer body buffer' n start type b len e =
    elim (Option-cases (format_field buffer (pos n) (pos start) type (pos b))) [
      | inl h ↦ cc (h, e)
      | inr (f, h) ↦
          let (fits, eq) = FitsAt-format_field buffer n start type b h in
          (fits, ground arith, ground arith)
    ]

-- If `NEF_SetField` succeeds in a buffer of `n` bytes, with a body of at least `b` bytes, then
-- `NEF_ParseSingleField` at the same place returns the length that was set, the low 16 bits of the
-- type, and the place and length of a body that holds the bytes given. The buffer keeps its length
-- and every byte outside the field.
pub parse_single_field-set_field :
    (buffer body buffer' : List ℕ) (n start type b len j : ℕ)
    → set_field buffer (pos n) (pos start) type body (pos b) ≡ some (buffer', len)
    → n ≤ length buffer
    → b ≤ length body
    → (j < start) ⊎ (start + 4 + b ≤ j)
    → (parse_single_field buffer' (pos n) (pos start) ≡ some (field_of start type b))
      × (len ≡ 4 + b)
      × (slice buffer' (start + 4) b ≡ take b body)
      × (length buffer' ≡ length buffer)
      × (byte_at buffer' j ≡ byte_at buffer j)
parse_single_field-set_field buffer body buffer' n start type b len j e hn hb hj =
    let (fits, eq, l) = set_field-eq-some buffer body buffer' n start type b len e in
    let (t, k) =
      header-write_at buffer start type b (take b body) (omega (arith, fits.room)) fits.short in
    let inner = length-write_at buffer start (header_of type b) in
    rw (eq, l)
      (
        parse_single_field-header (with_field buffer start type b body) n start type b fits t k,
        refl,
        slice-body (write_at buffer start (header_of type b)) (start + 4) b body
            (omega (arith, fits.room, inner)) hb,
        length-write_at (write_at buffer start (header_of type b)) (start + 4) (take b body)
            ∙ inner,
        outside hj,
      )
  where
    outside :
        (j < start) ⊎ (start + 4 + b ≤ j)
        → byte_at (with_field buffer start type b body) j ≡ byte_at buffer j
    outside (inl h) =
        byte_at-write_at_before (write_at buffer start (header_of type b)) (start + 4) (take b body)
          j (omega arith)
        ∙ byte_at-write_at_before buffer start (header_of type b) j h
    outside (inr h) =
        byte_at-write_at_after (write_at buffer start (header_of type b)) (start + 4) (take b body)
          j (omega (arith, length-take_of_le b body hb))
        ∙ byte_at-write_at_after buffer start (header_of type b) j (omega arith)

-- A field that `NEF_ParseSingleField` returns lies within the buffer: it is at least as long as its
-- header, its length is a multiple of 4, and the body fills the rest of it.
pub parse_single_field_bounds :
    (buffer : List ℕ) (n start : ℤ) {f : Field}
    → parse_single_field buffer n start ≡ some f
    → (n' : ℕ) × (s : ℕ) × (n ≡ pos n')
      × (start ≡ pos s)
      × (s + f.ef_length ≤ n')
      × (4 ≤ f.ef_length)
      × (f.ef_length % 4 ≡ 0)
      × (f.body ≡ s + 4)
      × (f.body + f.body_length ≡ s + f.ef_length)
unfolding parse_single_field start_fits
parse_single_field_bounds buffer (pos n) (pos s) h =
    (n, s, refl, refl, ground arith, ground arith, ground arith, ground arith, ground arith)
parse_single_field_bounds buffer (pos n) (negsuc s) h = cc h
parse_single_field_bounds buffer (negsuc n) s h = cc h

-- `NEF_SetField` succeeds exactly when the field fits: it starts inside the buffer at a multiple of
-- 4, ends inside it, and its body has a length that is a multiple of 4 and fits the 16-bit length.
set_field-FitsAt :
    (buffer body : List ℕ) (n start type b : ℕ)
    → ((r : List ℕ × ℕ) × (set_field buffer (pos n) (pos start) type body (pos b) ≡ some r))
      ↔ FitsAt n start b
unfolding set_field
set_field-FitsAt buffer body n start type b = (
  λ r. (set_field-eq-some buffer body r.0.0 n start type b r.0.1 (unfold set_field in r.1)).0,
  λ h. (
    (with_field buffer start type b body, 4 + b),
    rw (format_field-FitsAt buffer n start type b h) refl,
  ),
)

-- ===== src/NtsAuth/Body.antt =====
-- nts_ntp_auth.c: the body of the field, and its parts in a packet.
use chrony.Common.{
  ℕ, ◌+◌, ◌^◌, ◌<◌, List, ◌++◌, length, take, drop, replicate, ◌≡◌, arith, ap, sym, ◌∙◌,
  length-append, length-replicate, take-append, drop-append, drop-drop,
}
use chrony.Common.Bytes.{byte_at, get_u16, u16_bytes, slice, byte_at-drop, byte_at-take}
use chrony.NtsAuth.{get_padding_length, get_padded_length}
use chrony.NtsAuth.Written.{slice-slice}

-- The body of the field.
abbrev pub auth_body : ℕ → ℕ → List ℕ → List ℕ → ℕ → List ℕ
auth_body nl cl nonce cipher padding =
    (u16_bytes nl ++ u16_bytes cl)
    ++ (nonce ++ (replicate (get_padding_length nl) 0 ++ (cipher ++ replicate padding 0)))

pub length-auth_body :
    (nl cl : ℕ) (nonce cipher : List ℕ) (padding : ℕ)
    → length nonce ≡ nl
    → length cipher ≡ cl
    → length (auth_body nl cl nonce cipher padding) ≡ 4 + nl + get_padding_length nl + cl + padding
length-auth_body nl cl nonce cipher padding h k =
    let zeros : List ℕ = replicate (get_padding_length nl) 0 in
    let rest : List ℕ = replicate padding 0 in
    let zeros_size : length zeros ≡ get_padding_length nl =
      length-replicate (get_padding_length nl) 0 in
    let rest_size : length rest ≡ padding = length-replicate padding 0 in
    omega (
      arith,
      length-append nonce (zeros ++ (cipher ++ rest)),
      length-append zeros (cipher ++ rest),
      length-append cipher rest,
      zeros_size,
      rest_size,
    )

take-size-append : (n : ℕ) (xs ys : List ℕ) → length xs ≡ n → take n (xs ++ ys) ≡ xs
take-size-append n xs ys h = ap (λ n. take n (xs ++ ys)) (sym h) ∙ take-append xs ys

drop-size-append : (n : ℕ) (xs ys : List ℕ) → length xs ≡ n → drop n (xs ++ ys) ≡ ys
drop-size-append n xs ys h = ap (λ n. drop n (xs ++ ys)) (sym h) ∙ drop-append xs ys

byte_at-slice : (buf : List ℕ) (i n j : ℕ) → j < n → byte_at (slice buf i n) j ≡ byte_at buf (i + j)
byte_at-slice buf i n j h = byte_at-take n (drop i buf) j h ∙ byte_at-drop i buf j

-- The parts of a body that stands in a packet.
module _ (packet : List ℕ) (at nl cl : ℕ) (nonce cipher : List ℕ) (padding : ℕ)
    (nonce_size : length nonce ≡ nl) (cipher_size : length cipher ≡ cl)
    (stands : slice packet at (4 + nl + get_padding_length nl + cl + padding)
      ≡ auth_body nl cl nonce cipher padding) where
  get_byte :
      (j : ℕ) → j < 4 → byte_at packet (at + j) ≡ byte_at (auth_body nl cl nonce cipher padding) j
  get_byte j h =
      sym (byte_at-slice packet at (4 + nl + get_padding_length nl + cl + padding) j (omega arith))
      ∙ ap (λ l. byte_at l j) stands

  pub get_lengths :
      nl < 2 ^ 16 → cl < 2 ^ 16 → (get_u16 packet at ≡ nl) × (get_u16 packet (at + 2) ≡ cl)
  get_lengths h k =
      let zero_at : at + 0 ≡ at = omega arith in
      let three_at : at + 3 ≡ at + 2 + 1 = omega arith in
      let b0 = sym (ap (byte_at packet) zero_at) ∙ get_byte 0 (omega arith) in
      let b1 = get_byte 1 (omega arith) in
      let b2 = get_byte 2 (omega arith) in
      let b3 = sym (ap (byte_at packet) three_at) ∙ get_byte 3 (omega arith) in
      (omega (arith, b0, b1), omega (arith, b2, b3))

  pub slice-nonce : slice packet (at + 4) nl ≡ nonce
  slice-nonce =
      let total = 4 + nl + get_padding_length nl + cl + padding in
      sym (slice-slice packet at total 4 nl (omega arith))
      ∙ ap (λ l. slice l 4 nl) stands
      ∙ take-size-append nl nonce _ nonce_size

  pub slice-cipher : slice packet (at + 4 + get_padded_length nl) cl ≡ cipher
  unfolding get_padded_length
  slice-cipher =
      let total = 4 + nl + get_padding_length nl + cl + padding in
      let zeros : List ℕ = replicate (get_padding_length nl) 0 in
      let body = auth_body nl cl nonce cipher padding in
      let rest : List ℕ = replicate padding 0 in
      let place : at + 4 + (nl + get_padding_length nl) ≡ at + (4 + (nl + get_padding_length nl)) =
        omega arith in
      let behind : drop (4 + (nl + get_padding_length nl)) body ≡ cipher ++ rest =
        drop-drop 4 (nl + get_padding_length nl) body
        ∙ drop-drop nl (get_padding_length nl) (nonce ++ (zeros ++ (cipher ++ rest)))
        ∙ ap (drop (get_padding_length nl))
            (drop-size-append nl nonce (zeros ++ (cipher ++ rest)) nonce_size)
        ∙ drop-size-append (get_padding_length nl) zeros (cipher ++ rest)
            (length-replicate (get_padding_length nl) 0) in
      ap (λ i. slice packet i cl) place
      ∙ sym (slice-slice packet at total (4 + (nl + get_padding_length nl)) cl (omega arith))
      ∙ ap (λ l. slice l (4 + (nl + get_padding_length nl)) cl) stands
      ∙ ap (take cl) behind
      ∙ take-size-append cl cipher rest cipher_size

-- ===== src/NtsAuth.antt =====
-- nts_ntp_auth.c: the extension field that authenticates an NTP packet and encrypts other fields.
--
-- The AEAD behind siv.h is a library and an argument: its lengths and its two operations on lists of
-- bytes. `min_ef_length`, which the callers give as a constant, is a natural number. A write past the
-- packet is dropped.
pub mod Written
pub mod Body
pub mod Generate
pub mod Roundtrip
mod Tests
use chrony.Common.{
  ℕ, ◌+◌, ◌-◌, ◌%◌, min, max, Bool, true, false, not, ◌||◌, Option, none, some, List, ◌++◌, ◌>>=◌,
  if◌then◌else◌, ltb, leb, ◌==◌, take, replicate,
}
use chrony.Common.Signed.{ℤ, pos, negsuc}
use chrony.Common.Bytes.{get_u16, u16_bytes, write_at, slice}
use chrony.NtpExt.{PacketInfo, Field, add_blank_field, parse_field}

-- SIV_GetMaxNonceLength, SIV_GetTagLength, and SIV_Encrypt and SIV_Decrypt of a nonce, associated data
-- and a text, where `none` is a returned 0.
pub record Siv : Type 0 where
  pub max_nonce_length : ℕ
  pub tag_length : ℕ
  pub encrypt : List ℕ → List ℕ → List ℕ → Option (List ℕ)
  pub decrypt : List ℕ → List ℕ → List ℕ → Option (List ℕ)

-- `sizeof (struct AuthHeader)`
abbrev pub auth_header_size : ℕ
auth_header_size = 4

abbrev pub ntp_ef_nts_auth_and_eef : ℕ
ntp_ef_nts_auth_and_eef = 0x0404

abbrev pub nts_min_unpadded_nonce_length : ℕ
nts_min_unpadded_nonce_length = 16

unfoldable pub get_padding_length : ℕ → ℕ
get_padding_length length = if length % 4 == 0 then 0 else 4 - length % 4

unfoldable pub get_padded_length : ℕ → ℕ
get_padded_length length = length + get_padding_length length

-- `additional_padding`
unfoldable pub additional_padding_of : Siv → ℕ → ℕ → ℕ → ℕ
additional_padding_of siv nonce_length auth_length min_ef_length =
    max
      (min nts_min_unpadded_nonce_length siv.max_nonce_length
        - nonce_length
        - get_padding_length nonce_length)
      (get_padded_length min_ef_length - auth_length - 4)

-- `NNA_GenerateAuthEF` after the blank field, with whether it returns 1.
unfoldable pub write_auth :
    Siv
    → List ℕ
    → List ℕ
    → ℕ
    → ℕ
    → ℕ
    → ℕ
    → List ℕ × PacketInfo × Option ℕ
    → List ℕ × PacketInfo × Bool
write_auth siv nonce plaintext nonce_length plaintext_length assoc_length additional_padding
      (blank, info', none) =
    (blank, info', false)
write_auth siv nonce plaintext nonce_length plaintext_length assoc_length additional_padding
      (blank, info', some header) =
    let ciphertext_length = siv.tag_length + plaintext_length in
    let nonce_padding = get_padding_length nonce_length in
    let ciphertext_padding = get_padding_length ciphertext_length in
    let headed = write_at blank header (u16_bytes nonce_length ++ u16_bytes ciphertext_length) in
    let body = header + auth_header_size in
    let with_nonce = write_at headed body (take nonce_length nonce) in
    let padded = write_at with_nonce (body + nonce_length) (replicate nonce_padding 0) in
    let ciphertext = body + nonce_length + nonce_padding in
    elim (siv.encrypt (take nonce_length nonce) (take assoc_length padded)
      (take plaintext_length plaintext)) [
        | none ↦ (
          padded,
          record info' { length = assoc_length; ext_fields = info'.ext_fields - 1 },
          false,
        )
        | some text ↦ (
          write_at (write_at padded ciphertext text) (ciphertext + ciphertext_length)
              (replicate (ciphertext_padding + additional_padding) 0),
          info',
          true,
        )
      ]

-- `auth_length` without the additional padding.
abbrev pub unpadded_length : Siv → ℕ → ℕ → ℕ
unpadded_length siv nonce_length plaintext_length =
    auth_header_size
    + nonce_length
    + get_padding_length nonce_length
    + (siv.tag_length + plaintext_length)
    + get_padding_length (siv.tag_length + plaintext_length)

-- `NNA_GenerateAuthEF` behind its first test.
unfoldable pub generate :
    List ℕ → PacketInfo → Siv → List ℕ → ℕ → List ℕ → ℕ → ℕ → List ℕ × PacketInfo × Bool
generate packet info siv nonce max_nonce_length plaintext plaintext_length min_ef_length =
    let nonce_length = min max_nonce_length siv.max_nonce_length in
    let unpadded = unpadded_length siv nonce_length plaintext_length in
    let additional_padding = additional_padding_of siv nonce_length unpadded min_ef_length in
    write_auth siv nonce plaintext nonce_length plaintext_length info.length additional_padding
      (add_blank_field packet info ntp_ef_nts_auth_and_eef (pos (unpadded + additional_padding)))

-- `NNA_GenerateAuthEF`
unfoldable pub generate_auth_ef :
    List ℕ → PacketInfo → Siv → List ℕ → ℤ → List ℕ → ℤ → ℕ → List ℕ × PacketInfo × Bool
generate_auth_ef packet info siv nonce (pos max_nonce_length) plaintext (pos plaintext_length)
      min_ef_length =
    if max_nonce_length == 0
    then (packet, info, false)
    else generate packet info siv nonce max_nonce_length plaintext plaintext_length min_ef_length
generate_auth_ef packet info siv nonce _ plaintext _ min_ef_length = (packet, info, false)

-- `NNA_DecryptAuthEF` on a field, with the plaintext.
unfoldable pub decrypt_field : List ℕ → Siv → ℕ → ℕ → Field → Option (List ℕ)
decrypt_field packet siv ef_start buffer_length field =
    let nonce_length = get_u16 packet field.body in
    let ciphertext_length = get_u16 packet (field.body + 2) in
    let nonce = field.body + auth_header_size in
    let ciphertext = nonce + get_padded_length nonce_length in
    if not (field.type == ntp_ef_nts_auth_and_eef) || ltb field.body_length auth_header_size
    then none
    else (if ltb field.body_length
          (get_padded_length nonce_length + get_padded_length ciphertext_length)
        then none
        else (if ltb nonce_length 1
              || ltb ciphertext_length siv.tag_length
              || ltb buffer_length (ciphertext_length - siv.tag_length)
            then none
            else (if ltb field.body_length (
                  auth_header_size
                  + min nts_min_unpadded_nonce_length siv.max_nonce_length
                  + get_padded_length ciphertext_length)
                then none
                else siv.decrypt (slice packet nonce nonce_length) (take ef_start packet)
                    (slice packet ciphertext ciphertext_length))))

-- `NNA_DecryptAuthEF`
unfoldable pub decrypt_auth_ef : List ℕ → PacketInfo → Siv → ℕ → ℤ → Option (List ℕ)
decrypt_auth_ef packet info siv ef_start (pos buffer_length) =
    parse_field packet info.length ef_start >>= decrypt_field packet siv ef_start buffer_length
decrypt_auth_ef packet info siv ef_start (negsuc n) = none

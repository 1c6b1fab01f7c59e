-- ===== src/NtsAuth/Roundtrip.antt =====
-- nts_ntp_auth.c: `NNA_DecryptAuthEF` of what `NNA_GenerateAuthEF` writes.
use chrony.Common.{
  ℕ, ◌+◌, ◌-◌, ◌%◌, ◌^◌, ◌≤◌, ◌<◌, min, true, false, some, List, length, take, ltb, ◌==◌,
  if◌then◌else◌, ◌≡◌, inl, inr, refl, arith, ap, subst, ◌∙◌, Bool-cases, length-take_of_le,
  take-all, ◌||◌, not,
}
use chrony.Common.Signed.{pos}
use chrony.Common.Bytes.{byte_at, get_u16, slice}
use chrony.NtpExt.{PacketInfo, packet_size, lvm_to_version}
use chrony.NtpExt.Fields.{field_of}
use chrony.NtpExt.Packets.{parse_field-add_field}
use chrony.NtsAuth.{
  Siv, generate, generate_auth_ef, decrypt_field, decrypt_auth_ef, unpadded_length,
  additional_padding_of, get_padding_length, get_padded_length, ntp_ef_nts_auth_and_eef,
}
use chrony.NtsAuth.Body.{auth_body, length-auth_body, get_lengths, slice-nonce, slice-cipher}
use chrony.NtsAuth.Generate.{IsAead, generate-add_field}

decrypt_field-parts :
    (packet : List ℕ) (siv : Siv) (start size nl cl b type : ℕ) (nonce cipher : List ℕ)
    → get_u16 packet (start + 4) ≡ nl
    → get_u16 packet (start + 4 + 2) ≡ cl
    → slice packet (start + 4 + 4) nl ≡ nonce
    → slice packet (start + 4 + 4 + get_padded_length nl) cl ≡ cipher
    → type % 2 ^ 16 ≡ ntp_ef_nts_auth_and_eef
    → 4 + get_padded_length nl + get_padded_length cl ≤ b
    → 0 < nl
    → siv.tag_length ≤ cl
    → cl ≤ siv.tag_length + size
    → 4 + min 16 siv.max_nonce_length + get_padded_length cl ≤ b
    → decrypt_field packet siv start size (field_of start type b)
      ≡ siv.decrypt nonce (take start packet) cipher
unfolding decrypt_field
decrypt_field-parts packet siv start size nl cl b type nonce cipher gn gc sn sc t pad one tag room
      least =
    let first : (not (type % 2 ^ 16 == ntp_ef_nts_auth_and_eef) || ltb b 4) ≡ false =
      ground arith in
    let second : ltb b (get_padded_length nl + get_padded_length cl) ≡ false = ground arith in
    let third : (ltb nl 1 || ltb cl siv.tag_length || ltb size (cl - siv.tag_length)) ≡ false =
      ground arith in
    let fourth : ltb b (4 + min 16 siv.max_nonce_length + get_padded_length cl) ≡ false =
      ground arith in
    rw (gn, gc, first, second, third, fourth, sn, sc)

padded-least : (n : ℕ) → 0 < n → 4 ≤ n + get_padding_length n
unfolding get_padding_length
padded-least n h = ground arith

generate_auth_ef-generate :
    (packet packet' : List ℕ) (info info' : PacketInfo) (siv : Siv) (nonce plaintext : List ℕ)
    (max_nonce_length plaintext_length min_ef_length : ℕ)
    → generate_auth_ef packet info siv nonce
        (pos max_nonce_length)
        plaintext
        (pos plaintext_length)
        min_ef_length
      ≡ (packet', info', true)
    → (0 < max_nonce_length)
      × (generate packet info siv nonce max_nonce_length plaintext plaintext_length min_ef_length
          ≡ (packet', info', true))
unfolding generate_auth_ef
generate_auth_ef-generate packet packet' info info' siv nonce plaintext max_nonce_length
      plaintext_length min_ef_length h =
    elim (Bool-cases (max_nonce_length == 0)) [
      | inl t ↦
          let out : (generate_auth_ef packet info siv nonce (pos max_nonce_length) plaintext
                (pos plaintext_length) min_ef_length).2
              ≡ false =
            rw t in
          cc (out, ap (λ r. r.2) h)
      | inr f ↦ (
        ground arith,
        subst
            (λ b.
              (if b
                then (packet, info, false)
                else generate packet info siv nonce max_nonce_length plaintext plaintext_length
                    min_ef_length)
              ≡ (packet', info', true))
            f h,
      )
    ]

-- With an AEAD that takes nonces, a packet buffer of the full size with the version 4 in its first
-- byte, a nonce and a text that are as long as the lengths given say, and a buffer that the text fits:
-- if `NNA_GenerateAuthEF` adds a field, `NNA_DecryptAuthEF` decrypts it to the text.
pub decrypt_auth_ef-generate_auth_ef :
    (siv : Siv)
    → IsAead siv
    → 0 < siv.max_nonce_length
    → (packet packet' : List ℕ) (info info' : PacketInfo) (nonce plaintext : List ℕ)
      (max_nonce_length plaintext_length min_ef_length buffer_length : ℕ)
    → generate_auth_ef packet info siv nonce
        (pos max_nonce_length)
        plaintext
        (pos plaintext_length)
        min_ef_length
      ≡ (packet', info', true)
    → length packet ≡ packet_size
    → lvm_to_version (byte_at packet 0) ≡ 4
    → min max_nonce_length siv.max_nonce_length ≤ length nonce
    → plaintext_length ≤ length plaintext
    → plaintext_length ≤ buffer_length
    → decrypt_auth_ef packet' info' siv info.length (pos buffer_length)
      ≡ some (take plaintext_length plaintext)
unfolding generate decrypt_auth_ef additional_padding_of get_padded_length
decrypt_auth_ef-generate_auth_ef siv aead some_nonce packet packet' info info' nonce plaintext mnl
      pl min_ef size h full version long whole room =
    let (positive, h') =
      generate_auth_ef-generate packet packet' info info' siv nonce plaintext mnl pl min_ef h in
    let nl = min mnl siv.max_nonce_length in
    let cl = siv.tag_length + pl in
    let padding = additional_padding_of siv nl (unpadded_length siv nl pl) min_ef in
    let b = unpadded_length siv nl pl + padding in
    let L = info.length in
    let type = ntp_ef_nts_auth_and_eef in
    let nonce' = take nl nonce in
    let text = take pl plaintext in
    let (cipher, encrypted, cipher_size, fits, header, kept, grown, added) =
      generate-add_field siv aead nonce plaintext nl pl L long whole packet packet' info info'
        padding refl h' in
    let rest = get_padding_length cl + padding in
    let body = auth_body nl cl nonce' cipher rest in
    let nonce_size = length-take_of_le nl nonce long in
    let body_size = length-auth_body nl cl nonce' cipher rest nonce_size cipher_size in
    let one : 0 < nl = ground arith in
    let tag = aead.tag in
    let padded = padded-least nl one in
    let (parsed, stands) =
      parse_field-add_field packet info type b body packet' info' info'.length added full
        (omega arith) version (omega arith) (omega (arith, fits.room))
        (omega (arith, fits.aligned, fits.whole)) (omega arith) in
    let sizes : 4 + nl + get_padding_length nl + cl + rest ≡ b = omega arith in
    let body_at : slice packet' (L + 4) (4 + nl + get_padding_length nl + cl + rest) ≡ body =
      ap (slice packet' (L + 4)) sizes ∙ stands ∙ take-all b body (omega arith) in
    let short = fits.short in
    let (gn, gc) =
      get_lengths packet' (L + 4) nl cl nonce' cipher rest nonce_size cipher_size body_at
        (omega arith) (omega arith) in
    let sn = slice-nonce packet' (L + 4) nl cl nonce' cipher rest nonce_size cipher_size body_at in
    let sc = slice-cipher packet' (L + 4) nl cl nonce' cipher rest nonce_size cipher_size body_at in
    let field =
      decrypt_field-parts packet' siv L size nl cl b type nonce' cipher gn gc sn sc refl
        (omega arith) one (omega arith) (omega arith) (ground arith) in
    rw parsed (
      field
      ∙ ap (λ a. siv.decrypt nonce' a cipher) kept
      ∙ aead.inverse nonce' (take L packet) text cipher encrypted)

-- ===== src/NtsAuth/Tests.antt =====
-- nts_ntp_auth.c: a run with a stand-in for the AEAD.
use chrony.Common.{
  ℕ, true, some, List, [], ◌∷◌, ◌++◌, length, drop, replicate, ◌≡◌, refl, arith, ap,
}
use chrony.Common.Signed.{pos}
use chrony.NtpExt.{PacketInfo, add_blank_field, format_field, start_fits}
use chrony.NtsAuth.{
  Siv, generate_auth_ef, generate, write_auth, additional_padding_of, get_padding_length,
  get_padded_length, decrypt_auth_ef,
}
use chrony.NtsAuth.Roundtrip.{decrypt_auth_ef-generate_auth_ef}
use chrony.NtsAuth.Generate.{IsAead}

-- A tag of 16 bytes in front of the text.
abbrev tagged : Siv
tagged = record {
  max_nonce_length = 16;
  tag_length = 16;
  encrypt = λ nonce assoc text. some (replicate 16 1 ++ text);
  decrypt = λ nonce assoc cipher. some (drop 16 cipher);
}

tagged-IsAead : IsAead tagged
tagged-IsAead = record {
  tag = refl;
  grows = λ nonce assoc text cipher e.
      let same : replicate 16 1 ++ text ≡ cipher = cc e in omega (arith, ap length same);
  inverse = λ nonce assoc text cipher e.
      let same : cipher ≡ replicate 16 1 ++ text = cc e in ap (λ c. some (drop 16 c)) same;
}

-- The header of an NTPv4 packet.
abbrev header_packet : List ℕ
header_packet = 0x23 ∷ replicate 1139 0

abbrev header_info : PacketInfo
header_info = record { length = 48; version = 4; ext_fields = 0 }

abbrev nonce : List ℕ
nonce = replicate 16 7

abbrev text : List ℕ
text = 1 ∷ 2 ∷ 3 ∷ []

-- The field takes 4 bytes of its header, 4 of lengths, 16 of nonce, 19 of ciphertext and 1 of padding.
abbrev generated : List ℕ
generated =
    (0x23 ∷ replicate 47 0)
    ++ (4 ∷ 4 ∷ 0 ∷ 44 ∷ 0 ∷ 16 ∷ 0 ∷ 19 ∷ [])
    ++ nonce
    ++ replicate 16 1
    ++ text
    ++ replicate 1049 0

abbrev generated_info : PacketInfo
generated_info = record { length = 92; version = 4; ext_fields = 1 }

generate_auth_ef_lem :
    generate_auth_ef header_packet header_info tagged nonce (pos 16) text (pos 3) 0
    ≡ (generated, generated_info, true)
unfolding generate_auth_ef generate write_auth additional_padding_of get_padding_length
    get_padded_length add_blank_field format_field start_fits
generate_auth_ef_lem = refl

decrypt_auth_ef-generate_auth_ef_example :
    decrypt_auth_ef generated generated_info tagged 48 (pos 100) ≡ some text
decrypt_auth_ef-generate_auth_ef_example =
    decrypt_auth_ef-generate_auth_ef tagged tagged-IsAead (omega arith) header_packet generated
      header_info generated_info nonce text 16 3 0 100 generate_auth_ef_lem refl refl (omega arith)
      (omega arith) (omega arith)

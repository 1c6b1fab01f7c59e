-- ===== src/NtsAuth/Generate.antt =====
-- nts_ntp_auth.c: what `NNA_GenerateAuthEF` adds to a packet.
use chrony.Common.{
  ℕ, ◌+◌, ◌≤◌, true, false, some, List, ◌++◌, length, take, replicate, ◌≡◌, inl, inr, arith, ap,
  ap₂, sym, subst, ◌∙◌, Option-cases, length-replicate, length-take_of_le, take-all,
}
use chrony.Common.Signed.{pos}
use chrony.Common.Bytes.{u16_bytes, write_at}
use chrony.NtpExt.{PacketInfo, add_blank_field, add_field, packet_size}
use chrony.NtpExt.Fields.{FitsAt, header_of}
use chrony.NtpExt.Packets.{add_blank_field-cases, add_field-add_blank_field}
use chrony.NtsAuth.{Siv, write_auth, unpadded_length, get_padding_length, ntp_ef_nts_auth_and_eef}
use chrony.NtsAuth.Written.{write_at-five, take-write_at_before}
use chrony.NtsAuth.Body.{auth_body, length-auth_body}

-- An AEAD with a tag of 16 bytes: a text grows by the tag, and what is encrypted is decrypted with the
-- same nonce and associated data.
pub record IsAead (siv : Siv) : Type 0 where
  pub tag : siv.tag_length ≡ 16
  pub grows :
      (nonce assoc text cipher : List ℕ)
      → siv.encrypt nonce assoc text ≡ some cipher
      → length cipher ≡ siv.tag_length + length text
  pub inverse :
      (nonce assoc text cipher : List ℕ)
      → siv.encrypt nonce assoc text ≡ some cipher
      → siv.decrypt nonce assoc cipher ≡ some text

module _ (siv : Siv) (aead : IsAead siv) (nonce plaintext : List ℕ) (nl pl al : ℕ)
    (long : nl ≤ length nonce) (whole : pl ≤ length plaintext) where
  -- What is written when the encryption succeeds.
  write_auth-some :
      (packet blank packet' : List ℕ) (info' info'' : PacketInfo) (extra type : ℕ)
      → blank ≡ write_at packet al (header_of type extra)
      → (padding : ℕ)
      → write_auth siv nonce plaintext nl pl al padding (blank, info', some (al + 4))
        ≡ (packet', info'', true)
      → (cipher : List ℕ) × (siv.encrypt (take nl nonce) (take al packet) (take pl plaintext)
          ≡ some cipher)
        × (info'' ≡ info')
        × (packet'
            ≡ write_at blank (al + 4) (
                auth_body nl
                  (siv.tag_length + pl)
                  (take nl nonce)
                  cipher
                  (get_padding_length (siv.tag_length + pl) + padding)))
  unfolding write_auth
  write_auth-some packet blank packet' info' info'' extra type made padding h =
      let nonce' = take nl nonce in
      let text = take pl plaintext in
      let head = u16_bytes nl ++ u16_bytes (siv.tag_length + pl) in
      let zeros : List ℕ = replicate (get_padding_length nl) 0 in
      let one = write_at blank (al + 4) head in
      let two = write_at one (al + 4 + 4) nonce' in
      let padded = write_at two (al + 4 + 4 + nl) zeros in
      let nonce_size = length-take_of_le nl nonce long in
      let text_size = length-take_of_le pl plaintext whole in
      let same : take al padded ≡ take al packet =
        take-write_at_before two al (al + 4 + 4 + nl) zeros (omega arith)
        ∙ take-write_at_before one al (al + 4 + 4) nonce' (omega arith)
        ∙ take-write_at_before blank al (al + 4) head (omega arith)
        ∙ ap (take al) made
        ∙ take-write_at_before packet al al (header_of type extra) (omega arith) in
      elim (Option-cases (siv.encrypt nonce' (take al padded) text)) [
        | inl e ↦
            let out : (write_auth siv nonce plaintext nl pl al padding
                  (blank, info', some (al + 4))).2
                ≡ false =
              rw (e, write_auth) in
            cc (out, ap (λ r. r.2) h)
        | inr (cipher, e) ↦
            let e' : siv.encrypt nonce' (take al packet) text ≡ some cipher =
              subst (λ a. siv.encrypt nonce' a text ≡ some cipher) same e in
            let cipher_size = aead.grows nonce' (take al packet) text cipher e' in
            let out : write_auth siv nonce plaintext nl pl al padding (blank, info', some (al + 4))
                ≡ (
                  write_at (write_at padded (al + 4 + 4 + nl + get_padding_length nl) cipher)
                      (al + 4 + 4 + nl + get_padding_length nl + (siv.tag_length + pl))
                      (replicate (get_padding_length (siv.tag_length + pl) + padding) 0),
                  info',
                  true,
                ) =
              rw (e, write_auth) in
            let zeros_size : length zeros ≡ get_padding_length nl =
              length-replicate (get_padding_length nl) 0 in
            let cipher_length : length cipher ≡ siv.tag_length + pl = omega arith in
            let five =
              write_at-five blank (al + 4) (al + 4 + 4) (al + 4 + 4 + nl)
                (al + 4 + 4 + nl + get_padding_length nl)
                (al + 4 + 4 + nl + get_padding_length nl + (siv.tag_length + pl)) head nonce' zeros
                cipher (replicate (get_padding_length (siv.tag_length + pl) + padding) 0)
                (omega arith) (omega arith) (omega arith) (omega arith) in
            (
              cipher,
              e',
              sym (ap (λ r. r.1) (sym out ∙ h)),
              sym (ap (λ r. r.0) (sym out ∙ h)) ∙ five,
            )
      ]

  -- A field that is generated is one that `NEF_AddField` adds.
  pub generate-add_field :
      (packet packet' : List ℕ) (info info' : PacketInfo) (padding : ℕ)
      → al ≡ info.length
      → write_auth siv nonce plaintext nl pl al padding (
          add_blank_field packet info ntp_ef_nts_auth_and_eef
            (pos (unpadded_length siv nl pl + padding)))
        ≡ (packet', info', true)
      → (cipher : List ℕ) × (siv.encrypt (take nl nonce) (take al packet) (take pl plaintext)
          ≡ some cipher)
        × (length cipher ≡ siv.tag_length + pl)
        × FitsAt packet_size info.length (unpadded_length siv nl pl + padding)
        × (48 ≤ info.length)
        × (take al packet' ≡ take al packet)
        × (info'.length ≡ info.length + (4 + (unpadded_length siv nl pl + padding)))
        × (add_field packet info ntp_ef_nts_auth_and_eef
              (auth_body nl
                (siv.tag_length + pl)
                (take nl nonce)
                cipher
                (get_padding_length (siv.tag_length + pl) + padding))
              (unpadded_length siv nl pl + padding)
            ≡ (packet', info', true))
  unfolding write_auth
  generate-add_field packet packet' info info' padding start h =
      let type = ntp_ef_nts_auth_and_eef in
      let b = unpadded_length siv nl pl + padding in
      let trip = add_blank_field packet info type (pos b) in
      elim (add_blank_field-cases packet info type b) [
        | inl (e, i) ↦
            let out : write_auth siv nonce plaintext nl pl al padding trip
                ≡ (trip.0, trip.1, false) =
              ap (λ r. write_auth siv nonce plaintext nl pl al padding (trip.0, trip.1, r)) e in
            cc (ap (λ r. r.2) out, ap (λ r. r.2) h)
        | inr (fits, header, version, long', p, i, e) ↦
            let at : trip.2 ≡ some (al + 4) = e ∙ ap (λ l. some (l + 4)) (sym start) in
            let out =
              ap (λ r. write_auth siv nonce plaintext nl pl al padding (trip.0, trip.1, r)) at in
            let made : trip.0 ≡ write_at packet al (header_of type b) =
              p ∙ ap (λ l. write_at packet l (header_of type b)) (sym start) in
            let (cipher, encrypted, info_eq, packet_eq) =
              write_auth-some packet trip.0 packet' trip.1 info' b type made padding
                (sym out ∙ h) in
            let body =
              auth_body nl (siv.tag_length + pl) (take nl nonce) cipher
                (get_padding_length (siv.tag_length + pl) + padding) in
            let size : length cipher ≡ siv.tag_length + pl = omega (
              arith,
              aead.grows (take nl nonce) (take al packet) (take pl plaintext) cipher encrypted,
              length-take_of_le pl plaintext whole,
            ) in
            let whole_body : take b body ≡ body = take-all b body (
              omega (
                arith,
                length-auth_body nl (siv.tag_length + pl) (take nl nonce) cipher
                    (get_padding_length (siv.tag_length + pl) + padding)
                    (length-take_of_le nl nonce long) size,
              )) in
            let added = add_field-add_blank_field packet info type b (al + 4) body at in
            (
              cipher,
              encrypted,
              size,
              fits,
              header,
              ap (take al) packet_eq
                  ∙ take-write_at_before trip.0 al (al + 4) body (omega arith)
                  ∙ ap (take al) made
                  ∙ take-write_at_before packet al al (header_of type b) (omega arith),
              ap (λ i. i.length) (info_eq ∙ i),
              added
                  ∙ ap₂ (λ p i. (p, i, true))
                      (ap (write_at trip.0 (al + 4)) whole_body ∙ sym packet_eq) (sym info_eq),
            )
      ]

-- ===== src/NtpExt/Tests.antt =====
-- ntp_ext.c: runs on small buffers, and the properties at concrete inputs.
use chrony.Common.{
  ℕ, ◌+◌, ◌%◌, ◌≤◌, Bool, true, none, some, List, [], ◌∷◌, ◌++◌, length, ◌≡◌, inl, arith, refl,
  replicate,
}
use chrony.Common.Signed.{pos, negsuc}
use chrony.Common.Bytes.{byte_at, slice}
use chrony.NtpExt
use chrony.NtpExt.{
  Field, PacketInfo, set_field, parse_single_field, add_field, parse_field, packet_size,
}
use chrony.NtpExt.Fields.{
  field_of, parse_single_field-set_field, parse_single_field_bounds, with_field,
}
use chrony.NtpExt.Packets.{parse_field-add_field}

abbrev buffer : List ℕ
buffer = replicate 16 7

abbrev body : List ℕ
body = 1 ∷ 2 ∷ 3 ∷ 4 ∷ []

abbrev filled : List ℕ
filled = replicate 4 7 ++ (0x23 ∷ 0x45 ∷ 0 ∷ 8 ∷ 1 ∷ 2 ∷ 3 ∷ 4 ∷ []) ++ replicate 4 7

set_field_lem : set_field buffer (pos 16) (pos 4) 0x12345 body (pos 4) ≡ some (filled, 8)
unfolding set_field NtpExt.format_field NtpExt.start_fits
set_field_lem = refl

parse_single_field_lem : parse_single_field filled (pos 16) (pos 4) ≡ some (field_of 4 0x12345 4)
unfolding parse_single_field NtpExt.start_fits
parse_single_field_lem = refl

parse_single_field_negative : parse_single_field filled (pos 16) (negsuc 3) ≡ none
unfolding parse_single_field
parse_single_field_negative = refl

parse_single_field-set_field_example :
    (parse_single_field filled (pos 16) (pos 4) ≡ some (field_of 4 0x12345 4))
    × (◌≡◌ {A = ℕ} 8 8)
    × (slice filled 8 4 ≡ body)
    × (length filled ≡ length buffer)
    × (byte_at filled 3 ≡ byte_at buffer 3)
parse_single_field-set_field_example =
    parse_single_field-set_field buffer body filled 16 4 0x12345 4 8 3 set_field_lem (omega arith)
      (omega arith) (inl (omega arith))

parse_single_field_bounds_example :
    (n' : ℕ) × (s : ℕ) × (pos 16 ≡ pos n')
    × (pos 4 ≡ pos s)
    × (s + 8 ≤ n')
    × (4 ≤ 8)
    × (8 % 4 ≡ 0)
    × (8 ≡ s + 4)
    × (8 + 4 ≡ s + 8)
parse_single_field_bounds_example =
    parse_single_field_bounds filled (pos 16) (pos 4) parse_single_field_lem

-- An NTPv4 packet that is empty behind its header.
abbrev packet : List ℕ
packet = 0x23 ∷ replicate 1139 0

abbrev info : PacketInfo
info = record { length = 48; version = 4; ext_fields = 0 }

abbrev long_body : List ℕ
long_body = replicate 28 9

abbrev added : List ℕ × PacketInfo × Bool
added = (
  with_field packet 48 0x104 28 long_body,
  record { length = 80; version = 4; ext_fields = 1 },
  true,
)

add_field_lem : add_field packet info 0x104 long_body 28 ≡ added
unfolding add_field NtpExt.add_blank_field NtpExt.format_field NtpExt.start_fits
add_field_lem = refl

parse_field-add_field_example :
    (parse_field added.0 80 48 ≡ some (field_of 48 0x104 28)) × (slice added.0 52 28 ≡ long_body)
parse_field-add_field_example =
    parse_field-add_field packet info 0x104 28 long_body added.0 added.1 80 add_field_lem refl
      (omega arith) refl (omega arith) (omega arith) refl (omega arith)

-- ===== src/NtpExt.antt =====
-- ntp_ext.c: formatting and parsing of the extension fields of NTP packets.
--
-- A buffer is the list of its bytes. A function that returns 0 gives `none`; one that writes gives
-- the new buffer. A pointer to a body is its index in the buffer.
pub mod Fields
pub mod Packets
mod Tests
use chrony.Common.{
  ℕ, zero, suc, ◌+◌, ◌-◌, ◌*◌, ◌/◌, ◌%◌, ◌^◌, Bool, true, false, not, ◌&&◌, ◌||◌, Option, none,
  some, List, [], ◌∷◌, ◌++◌, ◌>>=◌, if◌then◌else◌, ltb, leb, ◌==◌, length, take,
}
use chrony.Common.Signed.{ℤ, pos, negsuc}
use chrony.Common.Bytes.{byte_at, get_u16, u16_bytes, write_at}

-- `sizeof (struct ExtFieldHeader)`
abbrev pub header_size : ℕ
header_size = 4

abbrev pub ntp_header_length : ℕ
ntp_header_length = 48

abbrev pub ntp_min_ef_length : ℕ
ntp_min_ef_length = 16

abbrev pub ntp_max_v4_mac_length : ℕ
ntp_max_v4_mac_length = 4 + 20

-- `sizeof (NTP_Packet)`: the header and NTP_MAX_EXTENSIONS_LENGTH.
abbrev pub packet_size : ℕ
packet_size = 48 + (1024 + (4 + 64))

-- The members of `NTP_PacketInfo` that the functions use.
pub record PacketInfo : Type 0 where
  pub length : ℕ
  pub version : ℕ
  pub ext_fields : ℕ

-- The result of `format_field`: the buffer, `*length` and `*body`.
pub record Formatted : Type 0 where
  pub buffer : List ℕ
  pub ef_length : ℕ
  pub body : ℕ

-- The first guard of `format_field`, after the tests for negative values.
unfoldable pub start_fits : ℕ → ℕ → Bool
start_fits buffer_length start =
    not (leb buffer_length start) && not (ltb (buffer_length - start) header_size)

unfoldable pub format_field : List ℕ → ℤ → ℤ → ℕ → ℤ → Option Formatted
format_field buffer (pos buffer_length) (pos start) type (pos body_length) =
    if not (start_fits buffer_length start) || not (start % 4 == 0)
    then none
    else (if ltb 0xffff (header_size + body_length)
          || ltb buffer_length (start + header_size + body_length)
          || not (body_length % 4 == 0)
        then none
        else some (record {
          buffer = write_at buffer start (u16_bytes type ++ u16_bytes (header_size + body_length));
          ef_length = header_size + body_length;
          body = start + header_size;
        }))
format_field buffer _ _ type _ = none

-- The size of the `memcpy`, which is reached with a length that is not negative.
abbrev pub body_size : ℤ → ℕ
body_size (pos n) = n
body_size (negsuc n) = 0

-- `NEF_SetField`, with the new buffer and `*length`.
pub set_field : List ℕ → ℤ → ℤ → ℕ → List ℕ → ℤ → Option (List ℕ × ℕ)
set_field buffer buffer_length start type body body_length = do
  f ← format_field buffer buffer_length start type body_length
  some (write_at f.buffer f.body (take (body_size body_length) body), f.ef_length)

-- The result of `NEF_ParseSingleField` and `NEF_ParseField`.
pub record Field : Type 0 where
  pub ef_length : ℕ
  pub type : ℕ
  pub body : ℕ
  pub body_length : ℕ

pub parse_single_field : List ℕ → ℤ → ℤ → Option Field
parse_single_field buffer (pos buffer_length) (pos start) =
    if not (start_fits buffer_length start)
    then none
    else (let ef_length = get_u16 buffer (start + 2) in
        if ltb ef_length header_size
          || ltb buffer_length (start + ef_length)
          || not (ef_length % 4 == 0)
        then none
        else some (record {
          ef_length = ef_length;
          type = get_u16 buffer start;
          body = start + header_size;
          body_length = ef_length - header_size;
        }))
parse_single_field buffer _ _ = none

-- `NEF_AddBlankField`: the packet, its information, and `*body` if it returns 1. The field is
-- already written when its length is found to be too short.
unfoldable pub add_blank_field : List ℕ → PacketInfo → ℕ → ℤ → List ℕ × PacketInfo × Option ℕ
add_blank_field packet info type body_length =
    if ltb info.length ntp_header_length
      || leb packet_size info.length
      || not (info.length % 4 == 0)
    then (packet, info, none)
    else (if not (info.version == 4)
        then (packet, info, none)
        else elim (format_field packet (pos packet_size) (pos info.length) type body_length) [
          | none ↦ (packet, info, none)
          | some f ↦ if ltb f.ef_length ntp_min_ef_length then (f.buffer, info, none) else (
            f.buffer,
            record info { length = info.length + f.ef_length; ext_fields = info.ext_fields + 1 },
            some f.body,
          )
        ])

-- `NEF_AddField`, with whether it returns 1.
pub add_field : List ℕ → PacketInfo → ℕ → List ℕ → ℕ → List ℕ × PacketInfo × Bool
add_field packet info type body body_length =
    let (packet', info', result) = add_blank_field packet info type (pos body_length) in
    elim result [
      | none ↦ (packet', info', false)
      | some at ↦ (write_at packet' at (take body_length body), info', true)
    ]

-- `NTP_LVM_TO_VERSION` of the first byte.
abbrev pub lvm_to_version : ℕ → ℕ
lvm_to_version lvm = lvm / 2 ^ 3 % 2 ^ 3

-- `NEF_ParseField`
pub parse_field : List ℕ → ℕ → ℕ → Option Field
parse_field packet packet_length start =
    if leb packet_length ntp_header_length
      || ltb packet_size packet_length
      || leb packet_length start
      || not (packet_length % 4 == 0)
      || ltb start ntp_header_length
      || not (start % 4 == 0)
    then none
    else (if not (lvm_to_version (byte_at packet 0) == 4)
        then none
        else (if leb (packet_length - start) ntp_max_v4_mac_length then none else do
          f ← parse_single_field packet (pos packet_length) (pos start)
          if ltb f.ef_length ntp_min_ef_length then none else some f))

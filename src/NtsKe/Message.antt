-- ===== src/NtsKe/Message.antt =====
-- nts_ke_session.c: the messages of NTS-KE, sequences of records in a buffer of fixed size.
--
-- A result of `none` is a failed assertion (or a loop whose fuel has run out).
pub mod Wire
pub mod Scanned
pub mod Check
pub mod Total
mod Tests
use chrony.Common.{
  ℕ, zero, suc, ◌+◌, ◌-◌, ◌*◌, ◌/◌, ◌%◌, ◌^◌, min, Bool, true, false, not, ◌&&◌, ◌||◌, Option, none,
  some, List, [], ◌∷◌, ◌++◌, ◌>>=◌, if◌then◌else◌, ltb, leb, ◌==◌, length, take,
}
use chrony.Common.Signed.{ℤ, pos, negsuc}
use chrony.Common.Bytes.{byte_at, get_u16, u16_bytes, write_at, slice}

-- `sizeof (struct RecordHeader)`
abbrev pub header_size : ℕ
header_size = 4

abbrev pub nke_max_message_length : ℕ
nke_max_message_length = 16384

abbrev pub nke_record_critical_bit : ℕ
nke_record_critical_bit = 2 ^ 15

abbrev pub nke_record_end_of_message : ℕ
nke_record_end_of_message = 0

-- `struct Message`
pub record Message : Type 0 where
  pub length : ℕ
  pub sent : ℕ
  pub parsed : ℕ
  pub complete : Bool
  pub bytes : List ℕ

pub reset_message : Message → Message
reset_message m = record m { length = 0; sent = 0; parsed = 0; complete = false }

-- The type is at most 0x7fff, so the source's `|` is a sum.
abbrev pub header_type : Bool → ℕ → ℕ
header_type critical type = (if critical then nke_record_critical_bit else 0) + type

abbrev pub header_bytes : Bool → ℕ → ℕ → List ℕ
header_bytes critical type body_length =
    u16_bytes (header_type critical type) ++ u16_bytes body_length

-- The two `memcpy`; that of an empty body changes nothing.
pub append_record : Message → Bool → ℕ → List ℕ → ℕ → Message
append_record m critical type body body_length = record m {
  length = m.length + header_size + body_length;
  bytes =
      write_at (write_at m.bytes m.length (header_bytes critical type body_length))
        (m.length + header_size) (take body_length body);
}

pub add_record : Message → Bool → ℤ → List ℕ → ℤ → Option (Bool × Message)
add_record m critical (pos type) body (pos body_length) =
    if ltb nke_max_message_length m.length
    then none
    else (if ltb 0xffff body_length
          || ltb 0x7fff type
          || ltb nke_max_message_length (m.length + header_size + body_length)
        then some (false, m)
        else some (true, append_record m critical type body body_length))
add_record m critical _ body _ =
    if ltb nke_max_message_length m.length then none else some (false, m)

pub reset_message_parsing : Message → Message
reset_message_parsing m = record m { parsed = 0 }

-- What `get_record` stores: `*critical`, `*type`, `*body_length`, and the bytes copied to `body`.
pub record Record : Type 0 where
  pub critical : Bool
  pub type : ℕ
  pub body_length : ℕ
  pub body : List ℕ

-- `ntohs(header.type) & ~NKE_RECORD_CRITICAL_BIT` is the remainder by the bit.
pub get_record : Message → ℤ → Option (Record × Message)
get_record m (negsuc n) = none
get_record m (pos buffer_length) =
    if ltb m.length (m.parsed + header_size)
    then none
    else (let header_type' = get_u16 m.bytes m.parsed in
        let blen = get_u16 m.bytes (m.parsed + 2) in
        let rlen = header_size + blen in
        if ltb m.length (m.parsed + rlen)
        then none
        else some (
          record {
            critical = leb nke_record_critical_bit header_type';
            type = header_type' % nke_record_critical_bit;
            body_length = blen;
            body = slice m.bytes (m.parsed + header_size) (min buffer_length blen);
          },
          record m { parsed = m.parsed + rlen },
        ))

-- What the loop of `check_message_format` leaves: `bad` for its `return 0`, or the last type
-- (-1 before the first record) and the message.
pub data Scan : Type 0 where
  bad : Message → Scan
  scanned : ℤ → Message → Scan

pub scan_records : ℕ → Message → ℤ → ℕ → Option Scan
scan_records zero m type ends = none
scan_records (suc fuel) m type ends = elim (get_record m (pos 0)) [
  | none ↦ some (scanned type m)
  | some (r, m') ↦
      let is_end = r.type == nke_record_end_of_message in
      let rest = scan_records fuel m' (pos r.type) (if is_end then ends + 1 else ends) in
      if is_end && (not r.critical || not (r.body_length == 0) || ltb 0 ends)
      then some (bad m')
      else rest
]

-- What follows the loop.
pub judge : Bool → Scan → Bool × Message
judge eof (bad m) = (false, m)
judge eof (scanned type m) =
    if m.length == 0 || ltb m.parsed m.length then (not eof, m) else elim type [
      | pos t ↦
          if t == nke_record_end_of_message
          then (true, record m { complete = true })
          else (not eof, m)
      | negsuc n ↦ (not eof, m)
    ]

-- Every record takes at least the bytes of its header, so the fuel is enough.
pub check_message_format : Message → Bool → Option (Bool × Message)
check_message_format m eof = do
  s ←
      scan_records (m.length + 1) (record (reset_message_parsing m) { complete = false }) (negsuc 0)
        0
  some (judge eof s)

-- ===== src/NtsKe/Message/Tests.antt =====
-- nts_ke_session.c: runs on small messages, and the properties at concrete inputs.
use chrony.Common.{
  ℕ, ◌+◌, ◌-◌, ◌≤◌, Bool, true, false, some, List, [], ◌∷◌, ◌++◌, length, length-append, ◌≡◌, inl,
  arith, refl, replicate, length-replicate,
}
use chrony.Common.Signed.{pos}
use chrony.NtsKe.Message.{Message, Record, get_record, check_message_format}
use chrony.NtsKe.Message.Wire.{
  ValidRecord, ValidMessage, stored, unparsed, encode_record, received, get_record-encode_record,
}
use chrony.NtsKe.Message.Check.{check_message_format-format_of}
use chrony.NtsKe.Message.Scanned.{encode}
use chrony.NtsKe.Message.Total.{check_message_format-total}

abbrev filled : List ℕ → Message
filled bytes = record {
  length = length bytes;
  sent = 0;
  parsed = 0;
  complete = false;
  bytes = bytes ++ replicate (16384 - length bytes) 0;
}

filled-ValidMessage : (bytes : List ℕ) → length bytes ≤ 16384 → ValidMessage (filled bytes)
filled-ValidMessage bytes h = record {
  size = omega (
    arith,
    length-append bytes (replicate (16384 - length bytes) 0),
    length-replicate {A = ℕ} (16384 - length bytes) 0,
  );
  length_in = h;
  parsed_in = omega arith;
}

-- A critical record of the type 1 with a body of 2 bytes, and the end of the message.
abbrev next_protocol : Record
next_protocol = record { critical = true; type = 1; body_length = 2; body = 7 ∷ 9 ∷ [] }

abbrev end_record : Record
end_record = record { critical = true; type = 0; body_length = 0; body = [] }

next_protocol-ValidRecord : ValidRecord next_protocol
next_protocol-ValidRecord = omega arith

abbrev request : List ℕ
request = 0x80 ∷ 1 ∷ 0 ∷ 2 ∷ 7 ∷ 9 ∷ 0x80 ∷ 0 ∷ 0 ∷ 0 ∷ []

encode_lem : encode (next_protocol ∷ end_record ∷ []) ≡ request
encode_lem = refl

get_record-encode_record_example :
    (m' : Message) × (get_record (filled request) (pos 1) ≡ some (received next_protocol 1, m'))
    × ValidMessage m'
    × (unparsed m' ≡ encode_record end_record ++ [])
    × (stored m' ≡ stored (filled request))
    × (m'.parsed ≡ 0 + (4 + 2))
get_record-encode_record_example =
    get_record-encode_record (filled request) next_protocol (encode_record end_record ++ []) 1
      (filled-ValidMessage request (omega arith)) next_protocol-ValidRecord refl

check_message_format-format_of_example :
    (m' : Message) × (check_message_format (filled request) false ≡ some (true, m'))
    × (m'.complete ≡ true)
check_message_format-format_of_example =
    check_message_format-format_of (filled request) (next_protocol ∷ end_record ∷ []) [] false
      (filled-ValidMessage request (omega arith)) (next_protocol-ValidRecord, (omega arith, tt))
      refl (inl (omega arith))

check_message_format-total_example :
    (r : Bool × Message) × (check_message_format (filled request) true ≡ some r)
check_message_format-total_example = check_message_format-total (filled request) true

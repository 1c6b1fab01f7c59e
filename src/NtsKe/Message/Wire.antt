-- ===== src/NtsKe/Message/Wire.antt =====
-- nts_ke_session.c: `add_record` and `get_record` against the encoding of a record.
use native.Mathlib.Nat.{add-zero}
use chrony.Common.{
  ℕ, ◌+◌, ◌-◌, ◌*◌, ◌/◌, ◌%◌, ◌<◌, ◌≤◌, min, Bool, true, false, ◌||◌, some, List, ◌++◌, ltb, leb,
  length, take, drop, ◌≡◌, arith, refl, sym, ap, ◌∙◌, length-append, append_assoc,
  length-take_of_le, length-drop, drop-drop, drop-append, take-drop-take, take-append_of_le, subst,
  ◌⊎◌, inl, inr, Bool-cases,
}
use chrony.Common.Signed.{pos}
use chrony.Common.Bytes.{
  byte_at, get_u16, write_at, slice, take-write_at, length-write_at, byte_at-drop, byte_at-take,
}
use chrony.NtsKe.Message.{
  Message, Record, add_record, append_record, get_record, header_bytes, header_type,
  nke_max_message_length,
}

-- The bytes of a record.
abbrev pub encode_record : Record → List ℕ
encode_record r = header_bytes r.critical r.type r.body_length ++ r.body

-- The fields of a record in their ranges.
pub record ValidRecord (r : Record) : Type 0 where
  pub type_in : r.type ≤ 0x7fff
  pub body_in : r.body_length ≤ 0xffff
  pub body_size : length r.body ≡ r.body_length

-- The buffer has its full size, and the indices lie in it, in order.
pub record ValidMessage (m : Message) : Type 0 where
  pub size : length m.bytes ≡ nke_max_message_length
  pub length_in : m.length ≤ nke_max_message_length
  pub parsed_in : m.parsed ≤ m.length

-- The bytes of the message, and those behind what was parsed.
abbrev pub stored : Message → List ℕ
stored m = take m.length m.bytes

abbrev pub unparsed : Message → List ℕ
unparsed m = drop m.parsed (stored m)

abbrev pub record_of : Bool → ℕ → List ℕ → ℕ → Record
record_of critical type body body_length = record {
  critical = critical;
  type = type;
  body_length = body_length;
  body = take body_length body;
}

pub length-unparsed : (m : Message) → ValidMessage m → length (unparsed m) ≡ m.length - m.parsed
length-unparsed m v =
    length-drop m.parsed (stored m)
    ∙ ap (λ n. n - m.parsed) (length-take_of_le m.length m.bytes (omega arith))

-- `add_record` with a body of at least `b` bytes succeeds exactly when the type and the length fit
-- their fields and the record fits the buffer. Then the message ends with the encoded record, and
-- nothing before it has changed; otherwise the message stays as it is.
add_record-stored :
    (m : Message) (critical : Bool) (type : ℕ) (body : List ℕ) (b : ℕ)
    → ValidMessage m
    → b ≤ length body
    → (m' : Message) × ValidMessage m'
      × (((type ≤ 0x7fff)
            × (b ≤ 0xffff)
            × (m.length + 4 + b ≤ nke_max_message_length)
            × (add_record m critical (pos type) body (pos b) ≡ some (true, m'))
            × (m'.length ≡ m.length + 4 + b)
            × (m'.parsed ≡ m.parsed)
            × (stored m' ≡ stored m ++ encode_record (record_of critical type body b)))
          ⊎ (((0x7fff < type) ⊎ (0xffff < b) ⊎ (nke_max_message_length < m.length + 4 + b))
              × (add_record m critical (pos type) body (pos b) ≡ some (false, m))
              × (m' ≡ m)))
add_record-stored m critical type body b v h =
    elim (Bool-cases
      (ltb 0xffff b || ltb 0x7fff type || ltb nke_max_message_length (m.length + 4 + b))) [
        | inl refused ↦ (m, v, inr (ground arith, unfold add_record in ground arith, refl))
        | inr fits ↦
            let room : m.length + 4 + b ≤ nke_max_message_length = ground arith in
            (
              append_record m critical type body b,
              unfold append_record in
                  record {
                    size =
                        length-write_at (write_at m.bytes m.length header) (m.length + 4)
                          (take b body)
                        ∙ length-write_at m.bytes m.length header
                        ∙ v.size;
                    length_in = room;
                    parsed_in = omega (arith, v.parsed_in);
                  },
              inl (
                ground arith,
                ground arith,
                room,
                unfold add_record in ground (arith, v.length_in),
                unfold append_record in refl,
                unfold append_record in refl,
                unfold append_record in appended room,
              ),
            )
      ]
  where
    header : List ℕ
    header = header_bytes critical type b

    appended :
        m.length + 4 + b ≤ nke_max_message_length
        → take
            (m.length + 4 + b)
            (write_at (write_at m.bytes m.length header) (m.length + 4) (take b body))
          ≡ stored m ++ (header ++ take b body)
    appended k =
        let n = length-take_of_le b body h in
        subst
          (λ n.
            take (m.length + 4 + n)
              (write_at (write_at m.bytes m.length header) (m.length + 4) (take b body))
            ≡ stored m ++ (header ++ take b body))
          n
          (take-write_at (write_at m.bytes m.length header) (m.length + 4) (take b body)
              (omega (arith, n, v.size, length-write_at m.bytes m.length header))
            ∙ ap (λ l. l ++ take b body)
                (take-write_at m.bytes m.length header (omega (arith, v.size)))
            ∙ append_assoc (stored m) header (take b body))

-- Bytes and parts of the buffer behind what was parsed, when these begin with `xs`.
module _ (m : Message) (v : ValidMessage m) (xs rest : List ℕ) (e : unparsed m ≡ xs ++ rest) where
  length-prefix : m.parsed + length xs ≤ m.length
  length-prefix =
      omega (arith, length-append xs rest, ap (λ l. length l) e, length-unparsed m v, v.parsed_in)

  pub byte_at-prefix :
      (j : ℕ) → j < length xs → byte_at m.bytes (m.parsed + j) ≡ byte_at (xs ++ rest) j
  byte_at-prefix j h =
      sym (byte_at-take m.length m.bytes (m.parsed + j) (omega (arith, length-prefix)))
      ∙ sym (byte_at-drop m.parsed (stored m) j)
      ∙ ap (λ l. byte_at l j) e

  slice-prefix :
      (i n : ℕ) → i + n ≤ length xs → slice m.bytes (m.parsed + i) n ≡ take n (drop i (xs ++ rest))
  slice-prefix i n h =
      sym (take-drop-take n (m.parsed + i) m.length m.bytes (omega (arith, length-prefix)))
      ∙ ap (λ l. take n l) (drop-drop m.parsed i (stored m) ∙ ap (λ l. drop i l) e)

  unparsed-prefix : drop (m.parsed + length xs) (stored m) ≡ rest
  unparsed-prefix =
      drop-drop m.parsed (length xs) (stored m)
      ∙ ap (λ l. drop (length xs) l) e
      ∙ drop-append xs rest

-- What `get_record` gives for an encoded record, with a buffer of `n` bytes for the body.
abbrev pub received : Record → ℕ → Record
received r n = record r { body = take (min n r.body_length) r.body }

length-encode_record : (r : Record) → ValidRecord r → length (encode_record r) ≡ 4 + r.body_length
length-encode_record r w = omega (arith, w.body_size)

get_record-header :
    (m : Message) (n t blen : ℕ)
    → m.parsed + 4 + blen ≤ m.length
    → get_u16 m.bytes m.parsed ≡ t
    → get_u16 m.bytes (m.parsed + 2) ≡ blen
    → get_record m (pos n)
      ≡ some (
        record {
          critical = leb 0x8000 t;
          type = t % 0x8000;
          body_length = blen;
          body = slice m.bytes (m.parsed + 4) (min n blen);
        },
        record m { parsed = m.parsed + (4 + blen) },
      )
unfolding get_record
get_record-header m n t blen h e f = ground arith

header_type-inverse :
    (critical : Bool) (type : ℕ)
    → type ≤ 0x7fff
    → (leb 0x8000 (header_type critical type) ≡ critical)
      × (header_type critical type % 0x8000 ≡ type)
      × (header_type critical type / 256 % 256 * 256 + header_type critical type % 256
          ≡ header_type critical type)
header_type-inverse true type h = (ground arith, omega arith, omega arith)
header_type-inverse false type h = (ground arith, omega arith, omega arith)

-- If what is left of a message begins with an encoded record, `get_record` returns that record,
-- with as much of its body as the buffer of `n` bytes takes, and goes on behind it.
pub get_record-encode_record :
    (m : Message) (r : Record) (rest : List ℕ) (n : ℕ)
    → ValidMessage m
    → ValidRecord r
    → unparsed m ≡ encode_record r ++ rest
    → (m' : Message) × (get_record m (pos n) ≡ some (received r n, m'))
      × ValidMessage m'
      × (unparsed m' ≡ rest)
      × (stored m' ≡ stored m)
      × (m'.parsed ≡ m.parsed + (4 + r.body_length))
get_record-encode_record m r rest n v w e =
    let k = length-encode_record r w in
    let inside = length-prefix m v (encode_record r) rest e in
    let room : m.parsed + 4 + r.body_length ≤ m.length = omega (arith, inside, k) in
    let at = byte_at-prefix m v (encode_record r) rest e in
    let (crit, type, whole) = header_type-inverse r.critical r.type w.type_in in
    let b0 = rw add-zero at (at 0 (omega (arith, k))) in
    let two : m.parsed + 2 + 1 ≡ m.parsed + 3 = omega arith in
    let t : get_u16 m.bytes m.parsed ≡ header_type r.critical r.type =
      rw (b0, at 1 (omega (arith, k))) whole in
    let l : get_u16 m.bytes (m.parsed + 2) ≡ r.body_length =
      rw (two, at 2 (omega (arith, k)), at 3 (omega (arith, k))) (omega (arith, w.body_in)) in
    let body : slice m.bytes (m.parsed + 4) (min n r.body_length)
        ≡ take (min n r.body_length) r.body =
      slice-prefix m v (encode_record r) rest e 4 (min n r.body_length) (omega (arith, k))
      ∙ take-append_of_le (min n r.body_length) r.body rest (omega (arith, w.body_size)) in
    (
      record m { parsed = m.parsed + (4 + r.body_length) },
      get_record-header m n (header_type r.critical r.type) r.body_length room t l
          ∙ rw (crit, type, body) refl,
      record { size = v.size; length_in = v.length_in; parsed_in = omega (arith, room) },
      subst (λ i. drop (m.parsed + i) (stored m) ≡ rest) k
          (unparsed-prefix m v (encode_record r) rest e),
      refl,
      refl,
    )

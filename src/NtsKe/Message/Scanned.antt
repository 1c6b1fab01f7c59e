-- ===== src/NtsKe/Message/Scanned.antt =====
-- nts_ke_session.c: how `check_message_format` goes through the records of a message.
use chrony.Common.{
  ℕ, zero, suc, ◌+◌, ◌<◌, ◌≤◌, Bool, true, false, not, ◌&&◌, ◌||◌, Option, none, some, List, [],
  ◌∷◌, ◌++◌, if◌then◌else◌, ltb, leb, ◌==◌, length, ◌≡◌, arith, refl, sym, ap, ◌∙◌, append_assoc,
  append-nil, length-append, ◌⊎◌, inl, inr, Bool-cases,
}
use chrony.Common.Signed.{ℤ, pos}
use chrony.Common.Bytes.{get_u16}
use chrony.NtsKe.Message.{Message, Record, get_record, scan_records, Scan, bad, scanned}
use chrony.NtsKe.Message.Wire.{
  ValidRecord, ValidMessage, encode_record, unparsed, received, get_record-encode_record,
  length-unparsed, byte_at-prefix,
}

abbrev pub encode : List Record → List ℕ
encode [] = []
encode (r ∷ rs) = encode_record r ++ encode rs

abbrev pub AllValid : List Record → Type 0
AllValid [] = Unit
AllValid (r ∷ rs) = ValidRecord r × AllValid rs

-- Bytes that do not hold a whole record.
abbrev pub Partial : List ℕ → Type 0
Partial tail = (length tail < 4) ⊎ (length tail < 4 + get_u16 tail 2)

abbrev pub is_end : Record → Bool
is_end r = r.type == 0

-- The number of end-of-message records, and whether each is critical and empty.
abbrev pub count_ends : List Record → ℕ
count_ends [] = 0
count_ends (r ∷ rs) = (if is_end r then 1 else 0) + count_ends rs

abbrev pub ends_proper : List Record → Bool
ends_proper [] = true
ends_proper (r ∷ rs) =
    (if is_end r then r.critical && r.body_length == 0 else true) && ends_proper rs

-- The type of the last record, or `t` if there is none.
abbrev pub last_type : ℤ → List Record → ℤ
last_type t [] = t
last_type t (r ∷ rs) = last_type (pos r.type) rs

abbrev pub fine : List Record → ℕ → Bool
fine rs ends = ends_proper rs && leb (ends + count_ends rs) 1

get_record-Partial :
    (m : Message) (tail : List ℕ) (n : ℕ)
    → ValidMessage m
    → unparsed m ≡ tail
    → Partial tail
    → get_record m (pos n) ≡ none
unfolding get_record
get_record-Partial m tail n v e (inl h) =
    let l : m.length < m.parsed + 4 =
      omega (arith, length-unparsed m v, ap (λ l. length l) e, v.parsed_in) in
    ground arith
get_record-Partial m tail n v e (inr h) = elim (Bool-cases (ltb m.length (m.parsed + 4))) [
  | inl short ↦ rw short
  | inr long ↦
      let e' : unparsed m ≡ tail ++ [] = e ∙ sym (append-nil tail) in
      let k = length-unparsed m v in
      let l : 4 ≤ length tail = omega (arith, k, ap (λ l. length l) e, fits long, v.parsed_in) in
      let at = byte_at-prefix m v tail [] e' in
      let two : m.parsed + 2 + 1 ≡ m.parsed + 3 = omega arith in
      let blen : get_u16 m.bytes (m.parsed + 2) ≡ get_u16 tail 2 =
        rw (two, at 2 (omega (arith, l)), at 3 (omega (arith, l)), append-nil tail) refl in
      let beyond : m.length < m.parsed + (4 + get_u16 tail 2) =
        omega (arith, k, ap (λ l. length l) e, h, v.parsed_in) in
      ground (arith, blen, beyond)
]
  where
    fits : ltb m.length (m.parsed + 4) ≡ false → m.parsed + 4 ≤ m.length
    fits h = ground arith

get_record-complete :
    (m m' : Message) (r : Record) (n : ℕ)
    → get_record m (pos n) ≡ some (r, m')
    → (m'.complete ≡ m.complete) × (m'.length ≡ m.length)
unfolding get_record
get_record-complete m m' r n h = ground arith

-- What the loop of `check_message_format` leaves: the end records are in order and all records are
-- parsed, or they are not.
abbrev Outcome : Message → List Record → List ℕ → ℤ → ℕ → Option Scan → Type 0
Outcome m rs tail type ends result =
    (m' : Message) × (m'.complete ≡ m.complete)
    × (m'.length ≡ m.length)
    × (((fine rs ends ≡ true)
          × (result ≡ some (scanned (last_type type rs) m'))
          × (m'.parsed + length tail ≡ m.length))
        ⊎ ((fine rs ends ≡ false) × (result ≡ some (bad m'))))

-- The test that makes the loop return 0, and the count of end records behind it.
abbrev is_bad : Record → ℕ → Bool
is_bad r ends = is_end r && (not r.critical || not (r.body_length == 0) || ltb 0 ends)

abbrev more_ends : Record → ℕ → ℕ
more_ends r ends = if is_end r then ends + 1 else ends

fine_bad :
    (r : Record) (rs : List Record) (ends : ℕ) → is_bad r ends ≡ true → fine (r ∷ rs) ends ≡ false
fine_bad r rs ends h = ground arith

fine_more :
    (r : Record) (rs : List Record) (ends : ℕ)
    → is_bad r ends ≡ false
    → ends ≤ 1
    → (fine (r ∷ rs) ends ≡ fine rs (more_ends r ends)) × (more_ends r ends ≤ 1)
fine_more r rs ends h k = ground arith

scan_records-step :
    (fuel : ℕ) (m m' : Message) (r : Record) (type : ℤ) (ends : ℕ)
    → get_record m (pos 0) ≡ some (received r 0, m')
    → scan_records (suc fuel) m type ends ≡ (
        if is_bad r ends
        then some (bad m')
        else scan_records fuel m' (pos r.type) (more_ends r ends))
unfolding scan_records
scan_records-step fuel m m' r type ends e = rw (e, scan_records) refl

scan_records-end :
    (fuel : ℕ) (m : Message) (type : ℤ) (ends : ℕ)
    → get_record m (pos 0) ≡ none
    → scan_records (suc fuel) m type ends ≡ some (scanned type m)
unfolding scan_records
scan_records-end fuel m type ends e = rw (e, scan_records) refl

pub scan_records-Outcome :
    (fuel : ℕ) (m : Message) (rs : List Record) (tail : List ℕ) (type : ℤ) (ends : ℕ)
    → ValidMessage m
    → AllValid rs
    → unparsed m ≡ encode rs ++ tail
    → Partial tail
    → length rs < fuel
    → ends ≤ 1
    → Outcome m rs tail type ends (scan_records fuel m type ends)
scan_records-Outcome zero m rs tail type ends v a e p h k = absurd (omega arith)
scan_records-Outcome (suc fuel) m [] tail type ends v a e p h k = (
  m,
  refl,
  refl,
  inl (
    ground arith,
    scan_records-end fuel m type ends (get_record-Partial m tail 0 v e p),
    omega (arith, length-unparsed m v, ap (λ l. length l) e, v.parsed_in),
  ),
)
scan_records-Outcome (suc fuel) m (r ∷ rs) tail type ends v a e p h k =
    let (m1, g, v1, e1, same, parsed) =
      get_record-encode_record m r (encode rs ++ tail) 0 v a.0
        (e ∙ append_assoc (encode_record r) (encode rs) tail) in
    let (c1, l1) = get_record-complete m m1 (received r 0) 0 g in
    let step = scan_records-step fuel m m1 r type ends g in
    elim (Bool-cases (is_bad r ends)) [
      | inl b ↦ (m1, c1, l1, inr (fine_bad r rs ends b, step ∙ rw b refl))
      | inr b ↦
          let (f, k1) = fine_more r rs ends b k in
          let (m2, c2, l2, o) =
            scan_records-Outcome fuel m1 rs tail (pos r.type) (more_ends r ends) v1 a.1 e1 p
              (omega arith) k1 in
          (
            m2,
            c2 ∙ c1,
            l2 ∙ l1,
            elim o [
              | inl (q, s, left) ↦ inl (f ∙ q, step ∙ rw b s, left ∙ l1)
              | inr (q, s) ↦ inr (f ∙ q, step ∙ rw b s)
            ],
          )
    ]

pub length-encode : (rs : List Record) → AllValid rs → length rs ≤ length (encode rs)
length-encode [] a = omega arith
length-encode (r ∷ rs) a =
    omega (arith, length-encode rs a.1, length-append (encode_record r) (encode rs))

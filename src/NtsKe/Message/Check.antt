-- ===== src/NtsKe/Message/Check.antt =====
-- nts_ke_session.c: `check_message_format` on a message that holds a list of records.
use chrony.Common.{
  ℕ, zero, suc, ◌+◌, ◌<◌, Bool, true, false, not, some, List, [], ◌∷◌, ◌++◌, if◌then◌else◌, ◌==◌,
  length, ◌≡◌, arith, refl, sym, ap, ◌∙◌, length-append, ◌⊎◌, inl, inr, Bool-cases,
  length-take_of_le,
}
use chrony.Common.Signed.{ℤ, pos, negsuc}
use chrony.NtsKe.Message.{
  Message, Record, scanned, judge, check_message_format, reset_message_parsing,
}
use chrony.NtsKe.Message.Wire.{ValidMessage, stored}
use chrony.NtsKe.Message.Scanned.{
  encode, AllValid, Partial, last_type, fine, scan_records-Outcome, length-encode,
}

-- What the source makes of the records and the bytes behind them: whether the format is accepted,
-- and whether the message is complete.
abbrev pub format_of : List Record → List ℕ → Bool → Bool × Bool
format_of rs tail eof =
    if fine rs 0
    then (if length tail == 0
        then elim (last_type (negsuc 0) rs) [
          | pos t ↦ if t == 0 then (true, true) else (not eof, false)
          | negsuc n ↦ (not eof, false)
        ]
        else (not eof, false))
    else (false, false)

judge-format_of :
    (m : Message) (rs : List Record) (tail : List ℕ) (eof : Bool) (t : ℤ)
    → last_type (negsuc 0) rs ≡ t
    → fine rs 0 ≡ true
    → m.complete ≡ false
    → m.parsed + length tail ≡ m.length
    → ((t ≡ negsuc 0) ⊎ (0 < m.length))
    → (m' : Message) × (judge eof (scanned t m) ≡ ((format_of rs tail eof).0, m'))
      × (m'.complete ≡ (format_of rs tail eof).1)
unfolding judge
judge-format_of m rs tail eof (negsuc n) l f c left h = (m, ground arith, ground arith)
judge-format_of m rs tail eof (pos zero) l f c left h = elim (Bool-cases (length tail == 0)) [
  | inl none_left ↦ (record m { complete = true }, ground arith, ground arith)
  | inr some_left ↦ (m, ground arith, ground arith)
]
judge-format_of m rs tail eof (pos (suc t)) l f c left h = (m, ground arith, ground arith)

last_type-cases :
    (rs : List Record) (tail : List ℕ)
    → AllValid rs
    → (last_type (negsuc 0) rs ≡ negsuc 0) ⊎ (0 < length (encode rs ++ tail))
last_type-cases [] tail a = inl refl
last_type-cases (r ∷ rs) tail a = inr (omega arith)

-- On a message that holds valid records and behind them `tail`, too short for a record,
-- `check_message_format` returns. It rejects a message where an end-of-message record is not
-- critical, is not empty or comes twice. A message that ends with such a record, with nothing
-- behind it, is complete. Any other is accepted if more data may come, and not complete.
pub check_message_format-format_of :
    (m : Message) (rs : List Record) (tail : List ℕ) (eof : Bool)
    → ValidMessage m
    → AllValid rs
    → stored m ≡ encode rs ++ tail
    → Partial tail
    → (m' : Message) × (check_message_format m eof ≡ some ((format_of rs tail eof).0, m'))
      × (m'.complete ≡ (format_of rs tail eof).1)
unfolding check_message_format reset_message_parsing judge
check_message_format-format_of m rs tail eof v a e p =
    let l : m.length ≡ length (encode rs ++ tail) =
      sym (length-take_of_le m.length m.bytes (omega (arith, v.size, v.length_in)))
      ∙ ap (λ l. length l) e in
    let start = record (reset_message_parsing m) { complete = false } in
    let valid : ValidMessage start = record {
      size = v.size;
      length_in = v.length_in;
      parsed_in = omega arith;
    } in
    let (m', c, k, o) =
      scan_records-Outcome (m.length + 1) start rs tail (negsuc 0) 0 valid a e p
        (omega (arith, l, length-append (encode rs) tail, length-encode rs a)) (omega arith) in
    elim o [
      | inl (f, s, left) ↦
          let (m2, j, d) =
            judge-format_of m' rs tail eof (last_type (negsuc 0) rs) refl f c (left ∙ sym k)
              (positive (last_type-cases rs tail a) (k ∙ l)) in
          (m2, rw s (ap some j), d)
      | inr (f, s) ↦ (m', rw (s, f) refl, rw f c)
    ]
  where
    positive :
        {n : ℕ}
        → (last_type (negsuc 0) rs ≡ negsuc 0) ⊎ (0 < length (encode rs ++ tail))
        → n ≡ length (encode rs ++ tail)
        → (last_type (negsuc 0) rs ≡ negsuc 0) ⊎ (0 < n)
    positive (inl h) e = inl h
    positive (inr h) e = inr (rw e h)

-- ===== src/NtsKe/Message/Total.antt =====
-- nts_ke_session.c: `check_message_format` returns on any message.
use chrony.Common.{
  ℕ, zero, suc, ◌+◌, ◌<◌, ◌≤◌, Bool, false, some, ◌≡◌, arith, refl, Option-cases, Bool-cases, inl,
  inr, ltb, not, ◌||◌, ◌&&◌, ◌==◌, if◌then◌else◌,
}
use chrony.Common.Signed.{ℤ, pos, negsuc}
use chrony.NtsKe.Message.{
  Message, Record, get_record, scan_records, Scan, bad, scanned, judge, check_message_format,
  reset_message_parsing,
}

get_record-moves :
    (m m' : Message) (r : Record) (n : ℕ)
    → get_record m (pos n) ≡ some (r, m')
    → (m.parsed + 4 ≤ m'.parsed) × (m'.parsed ≤ m'.length) × (m'.length ≡ m.length)
unfolding get_record
get_record-moves m m' r n h = ground arith

scan_records-total :
    (fuel : ℕ) (m : Message) (type : ℤ) (ends : ℕ)
    → m.length < fuel + m.parsed
    → m.parsed ≤ m.length
    → (x : Scan) × (scan_records fuel m type ends ≡ some x)
scan_records-total zero m type ends h k = absurd (omega arith)
scan_records-total (suc fuel) m type ends h k = elim (Option-cases (get_record m (pos 0))) [
  | inl e ↦ unfold scan_records in (scanned type m, rw (e, scan_records) refl)
  | inr ((r, m'), e) ↦
      let (moved, inside, same) = get_record-moves m m' r 0 e in
      let (x, ih) =
        scan_records-total fuel m' (pos r.type) (if r.type == 0 then ends + 1 else ends)
          (omega arith) (omega arith) in
      split m' r e x ih
]
  where
    split :
        (m' : Message) (r : Record)
        → get_record m (pos 0) ≡ some (r, m')
        → (x : Scan)
        → scan_records fuel m' (pos r.type) (if r.type == 0 then ends + 1 else ends) ≡ some x
        → (x : Scan) × (scan_records (suc fuel) m type ends ≡ some x)
    split m' r e x ih =
        elim (Bool-cases
          (r.type == 0 && (not r.critical || not (r.body_length == 0) || ltb 0 ends))) [
            | inl b ↦ (bad m', unfold scan_records in rw (e, scan_records) (rw b refl))
            | inr b ↦ (x, unfold scan_records in rw (e, scan_records) (rw b ih))
          ]

-- Whatever bytes a message holds, `check_message_format` returns: the loop ends.
pub check_message_format-total :
    (m : Message) (eof : Bool) → (r : Bool × Message) × (check_message_format m eof ≡ some r)
unfolding check_message_format
check_message_format-total m eof =
    let (x, e) =
      scan_records-total (m.length + 1) (record (reset_message_parsing m) { complete = false })
        (negsuc 0) 0 (unfold reset_message_parsing in omega arith)
        (unfold reset_message_parsing in omega arith) in
    (judge eof x, rw e refl)

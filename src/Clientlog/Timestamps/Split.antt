-- ===== src/Clientlog/Timestamps/Split.antt =====
-- clientlog.c: where a timestamp that is not in the map would stand.
use chrony.Common.{
  ℕ, zero, suc, ◌+◌, ◌^◌, ◌≤◌, ◌<◌, true, false, ltb, ◌==◌, ◌≡◌, inl, inr, arith, Bool-cases, subst,
  sym, ◌∙◌, ap,
}
use chrony.Clientlog.Timestamps.{NtpTimestampMap, word64, sub64, is_negative}
use chrony.Clientlog.Timestamps.Search.{at, offset, IsOrdered, is_negative-offset, offset_inj}
use chrony.Clientlog.Timestamps.Reference.{scan}
use chrony.Clientlog.Timestamps.Find.{scan-next, scan-here}

-- The timestamps below the index are older, and those from the index on are newer. Before the first
-- one the distances are not those of the map.
pub record IsSplit (m : NtpTimestampMap) (rx r : ℕ) : Type 0 where
  pub upper : r ≤ m.size
  pub close : 0 < r → offset m rx < 2 ^ 63
  pub older : (j : ℕ) → j < r → offset m (at m j) < offset m rx
  pub newer : (j : ℕ) → 0 < r → r ≤ j → j < m.size → offset m rx < offset m (at m j)
  pub start : r ≡ 0 → 0 < m.size → is_negative (sub64 rx (at m 0)) ≡ true

-- What the scan has seen when it does not find the timestamp.
record Seen (m : NtpTimestampMap) (rx left i r : ℕ) : Type 0 where
  lower : i ≤ r
  upper : r ≤ i + left
  passed :
      (j : ℕ) → i ≤ j → j < r → ((at m j == rx) ≡ false) × (is_negative (sub64 rx (at m j)) ≡ false)
  stopped : r < i + left → is_negative (sub64 rx (at m r)) ≡ true

scan-Seen :
    (m : NtpTimestampMap) (rx left i r : ℕ) → scan m rx left i ≡ (false, r) → Seen m rx left i r
unfolding scan
scan-Seen m rx zero i r h =
    let same : i ≡ r = ground (arith, h) in
    record {
      lower = omega arith;
      upper = omega arith;
      passed = λ j k l. absurd (omega arith);
      stopped = λ k. absurd (omega arith);
    }
scan-Seen m rx (suc left) i r h = elim (Bool-cases (at m i == rx)) [
  | inl t ↦ absurd (ground (arith, h))
  | inr f ↦ elim (Bool-cases (is_negative (sub64 rx (at m i)))) [
    | inl t ↦
        let same : i ≡ r = ap (λ p. p.1) (sym (scan-here m rx left i f t) ∙ h) in
        record {
          lower = omega arith;
          upper = omega arith;
          passed = λ j k l. absurd (omega arith);
          stopped = λ k. subst (λ j. is_negative (sub64 rx (at m j)) ≡ true) same t;
        }
    | inr g ↦
        let s = scan-Seen m rx left (i + 1) r (sym (scan-next m rx left i f g) ∙ h) in
        record {
          lower = omega (arith, s.lower);
          upper = omega (arith, s.upper);
          passed = λ j k l. elim (Bool-cases (i == j)) [
            | inl u ↦
                let same : i ≡ j = ground arith in
                subst (λ j. ((at m j == rx) ≡ false) × (is_negative (sub64 rx (at m j)) ≡ false))
                  same (f, g)
            | inr u ↦ s.passed j (ground arith) l
          ];
          stopped = λ k. s.stopped (omega arith);
        }
  ]
]

pub scan-IsSplit :
    (m : NtpTimestampMap) (rx r : ℕ)
    → IsOrdered m
    → rx < word64
    → scan m rx m.size 0 ≡ (false, r)
    → IsSplit m rx r
scan-IsSplit m rx r ordered small h =
    let s = scan-Seen m rx m.size 0 r h in
    let upper : r ≤ m.size = omega (arith, s.upper) in
    let close : 0 < r → offset m rx < 2 ^ 63 =
      λ p. let f = (s.passed 0 (omega arith) p).1 in ground arith in
    let side : (j : ℕ)
        → 0 < r
        → j < m.size
        → is_negative (sub64 rx (at m j)) ≡ ltb (offset m rx) (offset m (at m j)) =
      λ j p k.
        is_negative-offset rx (at m j) (at m 0) small (ordered.range j k)
          (ordered.range 0 (omega arith)) (close p) (ordered.near j k) in
    record {
      upper = upper;
      close = close;
      older = λ j k.
          let (other, after) = s.passed j (omega arith) k in
          ground (
            arith,
            other,
            after,
            side j (omega arith) (omega arith),
            offset_inj (at m j) rx (at m 0) (ordered.range j (omega arith)) small
                (ordered.range 0 (omega arith)),
          );
      newer = λ j p k l.
          let first = s.stopped (omega arith) in
          ground (arith, first, side r p (omega arith), ordered.rising r j);
      start =
          λ e p. subst (λ i. is_negative (sub64 rx (at m i)) ≡ true) e (s.stopped (omega arith));
    }

-- ===== src/Clientlog/Timestamps/Search.antt =====
-- clientlog.c: the search of a timestamp in the map.
use chrony.Common.{
  ℕ, zero, suc, ◌+◌, ◌-◌, ◌^◌, ◌≤◌, ◌<◌, Bool, true, false, some, ltb, ◌==◌, ◌≡◌, inl, inr, arith,
  Bool-cases, eq_of_iff, subst, ◌∙◌, ap,
}
use chrony.Clientlog.Timestamps.{
  NtpTimestampMap, get_ntp_tss, word64, sub64, is_negative, is_positive, next_index, keep_between,
  search,
}

-- The timestamp at an index, and its distance from the first one.
unfoldable pub at : NtpTimestampMap → ℕ → ℕ
at m i = (get_ntp_tss m i).rx_ts

abbrev pub offset : NtpTimestampMap → ℕ → ℕ
offset m t = sub64 t (at m 0)

-- The timestamps rise from the first one by less than half of the range of a timestamp.
pub record IsOrdered (m : NtpTimestampMap) : Type 0 where
  pub range : (i : ℕ) → i < m.size → at m i < word64
  pub near : (i : ℕ) → i < m.size → offset m (at m i) < 2 ^ 63
  pub rising : (i j : ℕ) → i < j → j < m.size → offset m (at m i) < offset m (at m j)

-- Times within half of the range of a base are compared by their distances from it.
pub is_negative-offset :
    (a b base : ℕ)
    → a < word64
    → b < word64
    → base < word64
    → sub64 a base < 2 ^ 63
    → sub64 b base < 2 ^ 63
    → is_negative (sub64 a b) ≡ ltb (sub64 a base) (sub64 b base)
is_negative-offset a b base ha hb hc p q =
    eq_of_iff (is_negative (sub64 a b)) (ltb (sub64 a base) (sub64 b base)) (λ t. ground arith)
      (λ t. ground arith)

pub is_positive-offset :
    (a b base : ℕ)
    → a < word64
    → b < word64
    → base < word64
    → sub64 a base < 2 ^ 63
    → sub64 b base < 2 ^ 63
    → is_positive (sub64 a b) ≡ ltb (sub64 b base) (sub64 a base)
is_positive-offset a b base ha hb hc p q =
    eq_of_iff (is_positive (sub64 a b)) (ltb (sub64 b base) (sub64 a base)) (λ t. ground arith)
      (λ t. ground arith)

pub offset_inj :
    (a b base : ℕ) → a < word64 → b < word64 → base < word64 → sub64 a base ≡ sub64 b base → a ≡ b
offset_inj a b base ha hb hc e = omega arith

keep_between-between :
    (lo hi x : ℕ) → lo + 1 < hi → (lo < keep_between lo hi x) × (keep_between lo hi x < hi)
unfolding keep_between
keep_between-between lo hi x h = ground arith

next_index-between :
    (rx_ts i lo hi rx_lo rx_hi : ℕ)
    → lo + 1 < hi
    → (lo < next_index rx_ts i lo hi rx_lo rx_hi) × (next_index rx_ts i lo hi rx_lo rx_hi < hi)
unfolding next_index
next_index-between rx_ts i lo hi rx_lo rx_hi h = keep_between-between lo hi _ h

module _ (m : NtpTimestampMap) (rx_ts : ℕ) where
  -- The result of the search: the timestamp is at the index, or it would stand in front of it.
  unfoldable pub Hits : Bool × ℕ → Type 0
  Hits (true, r) = (r < m.size) × (at m r ≡ rx_ts)
  Hits (false, r) =
      (0 < r)
      × (r < m.size)
      × (offset m (at m (r - 1)) < offset m rx_ts)
      × (offset m rx_ts < offset m (at m r))

  module _ (ordered : IsOrdered m) (small : rx_ts < word64) (close : offset m rx_ts < 2 ^ 63) where
    -- A difference of timestamps of the map from the one that is searched.
    compare_at :
        (x : ℕ)
        → x < m.size
        → is_positive (sub64 (at m x) rx_ts) ≡ ltb (offset m rx_ts) (offset m (at m x))
    compare_at x h =
        is_positive-offset (at m x) rx_ts (at m 0) (ordered.range x h) small
          (ordered.range 0 (omega arith)) (ordered.near x h) close

    equal_at : (x : ℕ) → x < m.size → offset m (at m x) ≡ offset m rx_ts → at m x ≡ rx_ts
    equal_at x h e =
        offset_inj (at m x) rx_ts (at m 0) (ordered.range x h) small (ordered.range 0 (omega arith))
          e

    apart_of_rises : (lo hi : ℕ) → lo ≤ hi → offset m (at m lo) < offset m (at m hi) → lo < hi
    apart_of_rises lo hi le h = elim (Bool-cases (lo == hi)) [
      | inl t ↦
          let same : lo ≡ hi = ground arith in
          absurd (omega (arith, ap (λ i. offset m (at m i)) same))
      | inr f ↦ ground arith
    ]

    pub search-Hits :
        (fuel i lo hi : ℕ)
        → hi - lo < fuel
        → lo ≤ hi
        → hi < m.size
        → offset m (at m lo) ≤ offset m rx_ts
        → offset m rx_ts ≤ offset m (at m hi)
        → (r : Bool × ℕ) × (search m rx_ts fuel i lo hi (at m lo) (at m hi) ≡ some r) × Hits r
    unfolding search Hits at
    search-Hits zero i lo hi f le h p q = absurd (omega arith)
    search-Hits (suc fuel) i lo hi f le h p q = elim (Bool-cases (rx_ts == at m hi)) [
      | inl t ↦ ((true, hi), rw t, (h, ground arith))
      | inr not_hi ↦ elim (Bool-cases (rx_ts == at m lo)) [
        | inl t ↦ ((true, lo), rw (not_hi, t), (omega arith, ground arith))
        | inr not_lo ↦
            let above : offset m (at m lo) < offset m rx_ts =
              ground (arith, equal_at lo (omega arith)) in
            let under : offset m rx_ts < offset m (at m hi) = ground (arith, equal_at hi h) in
            elim (Bool-cases (lo + 1 == hi)) [
              | inl t ↦
                  let next : lo ≡ hi - 1 = ground arith in
                  (
                    (false, hi),
                    rw (not_hi, not_lo, t),
                    (
                      ground arith,
                      h,
                      subst (λ l. offset m (at m l) < offset m rx_ts) next above,
                      under,
                    ),
                  )
              | inr apart ↦
                  let strict = apart_of_rises lo hi le (omega arith) in
                  let wide : lo + 1 < hi = ground arith in
                  let x = next_index rx_ts i lo hi (at m lo) (at m hi) in
                  let (l, u) = next_index-between rx_ts i lo hi (at m lo) (at m hi) wide in
                  let side = compare_at x (omega arith) in
                  elim (Bool-cases (ltb (offset m rx_ts) (offset m (at m x)))) [
                    | inl t ↦
                        let (r, e, hit) =
                          search-Hits fuel (i + 1) lo x (omega arith) (omega arith) (omega arith) p
                            (ground arith) in
                        (r, rw (not_hi, not_lo, apart, side ∙ t) e, hit)
                    | inr t ↦
                        let (r, e, hit) =
                          search-Hits fuel (i + 1) x hi (omega arith) (omega arith) h (ground arith)
                            q in
                        (r, rw (not_hi, not_lo, apart, side ∙ t) e, hit)
                  ]
            ]
      ]
    ]

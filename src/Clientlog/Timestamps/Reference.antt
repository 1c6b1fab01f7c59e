-- ===== src/Clientlog/Timestamps/Reference.antt =====
-- clientlog.c: the search of a timestamp, against going through the timestamps in their order.
use native.Mathlib.Nat.{zero-add, suc-add, add-zero, sub_self}
use chrony.Common.{
  ℕ, zero, suc, ◌+◌, ◌-◌, ◌^◌, ◌≤◌, ◌<◌, Bool, true, false, some, if◌then◌else◌, ltb, ◌==◌, ◌≡◌,
  inl, inr, arith, Bool-cases, subst, sym, ◌∙◌, ap,
}
use chrony.Clientlog.Timestamps.{
  NtpTimestampMap, word64, sub64, is_negative, is_positive, find_uncached,
}
use chrony.Clientlog.Timestamps.Search.{
  at, offset, IsOrdered, is_negative-offset, is_positive-offset, Hits, search-Hits,
}

module _ (m : NtpTimestampMap) (rx_ts : ℕ) where
  -- From an index on, the first timestamp that is the one searched or comes after it.
  unfoldable pub scan : ℕ → ℕ → Bool × ℕ
  scan zero i = (false, i)
  scan (suc left) i =
      let rest = scan left (i + 1) in
      if at m i == rx_ts
      then (true, i)
      else (if is_negative (sub64 rx_ts (at m i)) then (false, i) else rest)

  module _ (ordered : IsOrdered m) (small : rx_ts < word64) (close : offset m rx_ts < 2 ^ 63) where
    compare_before :
        (j : ℕ)
        → j < m.size
        → is_negative (sub64 rx_ts (at m j)) ≡ ltb (offset m rx_ts) (offset m (at m j))
    compare_before j h =
        is_negative-offset rx_ts (at m j) (at m 0) small (ordered.range j h)
          (ordered.range 0 (omega arith)) close (ordered.near j h)

    -- An older timestamp is passed over.
    Passes : ℕ → Type 0
    Passes j = ((at m j == rx_ts) ≡ false) × (is_negative (sub64 rx_ts (at m j)) ≡ false)

    older-Passes : (j : ℕ) → j < m.size → offset m (at m j) < offset m rx_ts → Passes j
    unfolding Passes
    older-Passes j h l = (
      elim (Bool-cases (at m j == rx_ts)) [
        | inl t ↦
            let same : at m j ≡ rx_ts = ground arith in absurd (omega (arith, ap (offset m) same))
        | inr f ↦ f
      ],
      ground (arith, compare_before j h),
    )

    scan-Passes :
        (n left i : ℕ) → ((j : ℕ) → j < i + n → Passes j) → scan (n + left) i ≡ scan left (i + n)
    unfolding scan Passes
    scan-Passes zero left i pass = rw (zero-add, add-zero)
    scan-Passes (suc n) left i pass =
        let (other, newer) = pass i (omega arith) in
        let next : i + suc n ≡ i + 1 + n = omega arith in
        rw (suc-add, other, newer, next) (scan-Passes n left (i + 1) (λ j h. pass j (omega arith)))

    scan-stop :
        (r : ℕ) → r ≤ m.size → ((j : ℕ) → j < r → Passes j) → scan m.size 0 ≡ scan (m.size - r) r
    scan-stop r h pass =
        let total : m.size ≡ r + (m.size - r) = omega arith in
        ap (λ n. scan n 0) total
        ∙ scan-Passes r (m.size - r) 0 (λ j k. pass j (omega arith))
        ∙ ap (scan (m.size - r)) (zero-add r)

    scan-found : (left r : ℕ) → at m r ≡ rx_ts → scan (suc left) r ≡ (true, r)
    unfolding scan
    scan-found left r e = let t : (at m r == rx_ts) ≡ true = ground (arith, e) in rw t

    scan-newer :
        (left r : ℕ)
        → r < m.size
        → offset m rx_ts < offset m (at m r)
        → scan (suc left) r ≡ (false, r)
    unfolding scan
    scan-newer left r h u =
        let newer : is_negative (sub64 rx_ts (at m r)) ≡ true =
          ground (arith, compare_before r h) in
        let other : (at m r == rx_ts) ≡ false = elim (Bool-cases (at m r == rx_ts)) [
          | inl t ↦
              let same : at m r ≡ rx_ts = ground arith in absurd (omega (arith, ap (offset m) same))
          | inr f ↦ f
        ] in
        rw (other, newer)

    up_to :
        (k j : ℕ)
        → j ≤ k
        → k < m.size
        → offset m (at m k) < offset m rx_ts
        → offset m (at m j) < offset m rx_ts
    up_to k j h s l = elim (Bool-cases (j == k)) [
      | inl t ↦
          let same : k ≡ j = ground arith in subst (λ i. offset m (at m i) < offset m rx_ts) same l
      | inr f ↦ let less : j < k = ground arith in omega (arith, ordered.rising j k less s)
    ]

    pub Hits-scan : (b : Bool) (r : ℕ) → Hits m rx_ts (b, r) → scan m.size 0 ≡ (b, r)
    unfolding Hits
    Hits-scan true r (h, e) =
        let older : (j : ℕ) → j < r → Passes j = λ j k.
          older-Passes j (omega arith) (omega (arith, ordered.rising j r k h, ap (offset m) e)) in
        let left : m.size - r ≡ suc (m.size - r - 1) = omega arith in
        scan-stop r (omega arith) older ∙ ap (λ n. scan n r) left ∙ scan-found (m.size - r - 1) r e
    Hits-scan false r (p, h, l, u) =
        let older : (j : ℕ) → j < r → Passes j =
          λ j k. older-Passes j (omega arith) (up_to (r - 1) j (omega arith) (omega arith) l) in
        let left : m.size - r ≡ suc (m.size - r - 1) = omega arith in
        scan-stop r (omega arith) older
        ∙ ap (λ n. scan n r) left
        ∙ scan-newer (m.size - r - 1) r h u

  sub64_self : (x : ℕ) → sub64 x x ≡ 0
  sub64_self x = omega arith

  scan-old :
      (left r : ℕ) → is_negative (sub64 rx_ts (at m r)) ≡ true → scan (suc left) r ≡ (false, r)
  unfolding scan
  scan-old left r h =
      let other : (at m r == rx_ts) ≡ false = elim (Bool-cases (at m r == rx_ts)) [
        | inl t ↦
            let same : at m r ≡ rx_ts = ground arith in
            ground (arith, h, sub64_self rx_ts, ap (sub64 rx_ts) same)
        | inr f ↦ f
      ] in
      rw (other, h)

  -- On a map in order, the search behind the cache gives what going through the timestamps gives.
  pub find_uncached-scan :
      IsOrdered m → rx_ts < word64 → find_uncached m rx_ts ≡ some (scan m.size 0)
  unfolding find_uncached scan at
  find_uncached-scan ordered small = elim (Bool-cases (m.size == 0)) [
    | inl t ↦ let empty : m.size ≡ 0 = ground arith in rw (t, empty)
    | inr some_size ↦
        let count : m.size ≡ suc (m.size - 1) = ground arith in
        let last : m.size - 1 < m.size = omega (arith, count) in
        elim (Bool-cases (is_negative (sub64 rx_ts (at m 0)))) [
          | inl old ↦
              rw (some_size, old)
                (ap some (sym (ap (λ n. scan n 0) count ∙ scan-old (m.size - 1) 0 old)))
          | inr not_old ↦
              let close : offset m rx_ts < 2 ^ 63 = ground arith in
              let side =
                is_positive-offset rx_ts (at m (m.size - 1)) (at m 0) small
                  (ordered.range (m.size - 1) last) (ordered.range 0 (omega (arith, count))) close
                  (ordered.near (m.size - 1) last) in
              elim (Bool-cases (is_positive (sub64 rx_ts (at m (m.size - 1))))) [
                | inl new ↦
                    let above : offset m (at m (m.size - 1)) < offset m rx_ts =
                      ground (arith, side, new) in
                    let all : (j : ℕ) → j < m.size → Passes ordered small close j = λ j k.
                      older-Passes ordered small close j k
                        (up_to ordered small close (m.size - 1) j (omega arith) last above) in
                    rw (some_size, not_old, new)
                      (ap some (
                        sym (
                          scan-stop ordered small close m.size (omega arith) all
                          ∙ ap (λ n. scan n m.size) (sub_self m.size))))
                | inr not_new ↦
                    let below : offset m rx_ts ≤ offset m (at m (m.size - 1)) =
                      ground (arith, side, not_new) in
                    let ((b, r), e, hit) =
                      search-Hits m rx_ts ordered small close m.size 0 0 (m.size - 1) (omega arith)
                        (omega arith) last (omega (arith, sub64_self (at m 0))) below in
                    rw (some_size, not_old, not_new)
                      (e ∙ ap some (sym (Hits-scan ordered small close b r hit)))
              ]
        ]
  ]

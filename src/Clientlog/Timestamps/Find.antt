-- ===== src/Clientlog/Timestamps/Find.antt =====
-- clientlog.c: `find_ntp_rx_ts` with its cache.
use chrony.Common.{
  ℕ, zero, suc, ◌+◌, ◌^◌, ◌≤◌, ◌<◌, Bool, true, false, not, ◌&&◌, some, ◌==◌, ◌≡◌, ◌≢◌, ◌⊎◌, inl,
  inr, arith, refl, Bool-cases, subst, sym, ◌∙◌, ap,
}
use chrony.Clientlog.Timestamps.{
  NtpTimestampMap, get_ntp_tss, word64, sub64, is_negative, cache, find_ntp_rx_ts, slot,
}
use chrony.Clientlog.Timestamps.Search.{at, offset, IsOrdered, Hits}
use chrony.Clientlog.Timestamps.Reference.{scan, Hits-scan, find_uncached-scan}

-- The cache is empty, or it has the index of its timestamp.
unfoldable pub IsCached : NtpTimestampMap → Type 0
IsCached m =
    (m.cached_rx_ts ≡ 0) ⊎ ((m.cached_index < m.size) × (at m m.cached_index ≡ m.cached_rx_ts))

-- A map within its buffer, in order, and with a true cache.
pub record IsValid (m : NtpTimestampMap) : Type 0 where
  pub room : 0 < m.max_size
  pub small : m.max_size ≤ 2 ^ 24
  pub inside : m.first < m.max_size
  pub fits : m.size ≤ m.max_size
  pub ordered : IsOrdered m
  pub cached : IsCached m

-- What `find_ntp_rx_ts` returns: the result and the index as going through the timestamps gives
-- them, and a valid map that differs in nothing but the cache.
unfoldable pub Finds : NtpTimestampMap → ℕ → Bool × ℕ × NtpTimestampMap → Type 0
Finds m rx_ts (found, index, m') =
    ((found, index) ≡ scan m rx_ts m.size 0)
    × IsValid m'
    × (m' ≡ record m { cached_index = m'.cached_index; cached_rx_ts = m'.cached_rx_ts })

pub scan-next :
    (m : NtpTimestampMap) (rx_ts left i : ℕ)
    → (at m i == rx_ts) ≡ false
    → is_negative (sub64 rx_ts (at m i)) ≡ false
    → scan m rx_ts (suc left) i ≡ scan m rx_ts left (i + 1)
unfolding scan
scan-next m rx_ts left i f g = rw (f, g)

pub scan-here :
    (m : NtpTimestampMap) (rx_ts left i : ℕ)
    → (at m i == rx_ts) ≡ false
    → is_negative (sub64 rx_ts (at m i)) ≡ true
    → scan m rx_ts (suc left) i ≡ (false, i)
unfolding scan
scan-here m rx_ts left i f g = rw (f, g)

pub scan-true :
    (m : NtpTimestampMap) (rx_ts left i : ℕ) (r : ℕ)
    → scan m rx_ts left i ≡ (true, r)
    → (r < i + left) × (at m r ≡ rx_ts)
unfolding scan
scan-true m rx_ts zero i r h = cc h
scan-true m rx_ts (suc left) i r h = elim (Bool-cases (at m i == rx_ts)) [
  | inl t ↦
      let same : i ≡ r = ground (arith, h) in
      (omega arith, subst (λ j. at m j ≡ rx_ts) same (ground arith))
  | inr f ↦ elim (Bool-cases (is_negative (sub64 rx_ts (at m i)))) [
    | inl t ↦ cc (subst (λ p. p ≡ (true, r)) (scan-here m rx_ts left i f t) h)
    | inr g ↦
        let (l, e) = scan-true m rx_ts left (i + 1) r (sym (scan-next m rx_ts left i f g) ∙ h) in
        (omega arith, e)
  ]
]

filled {ℓ κ} : (P : Type ℓ) {Q : Type κ} → P ⊎ Q → ¬ P → Q
filled P (inl p) n = absurd (n p)
filled P (inr q) n = q

cache-Finds :
    (m : NtpTimestampMap) (rx_ts : ℕ)
    → IsValid m
    → (p : Bool × ℕ) → scan m rx_ts m.size 0 ≡ p
    → Finds m rx_ts (cache m rx_ts p)
unfolding Finds cache IsCached at get_ntp_tss slot
cache-Finds m rx_ts v (true, i) e =
    let (l, found) = scan-true m rx_ts m.size 0 i e in
    (
      sym e,
      record {
        room = v.room;
        small = v.small;
        inside = v.inside;
        fits = v.fits;
        ordered = record {
          range = v.ordered.range;
          near = v.ordered.near;
          rising = v.ordered.rising;
        };
        cached = inr (omega arith, found);
      },
      refl,
    )
cache-Finds m rx_ts v (false, i) e = (sym e, v, refl)

-- On a valid map, with a timestamp below 2^64, `find_ntp_rx_ts` returns. The interpolation search
-- with its cache gives the result and the index that going through the timestamps in their order
-- gives, and the map stays valid and as it is but for the cache.
pub find_ntp_rx_ts-scan :
    (m : NtpTimestampMap) (rx_ts : ℕ)
    → IsValid m
    → rx_ts < word64
    → (r : Bool × ℕ × NtpTimestampMap) × (find_ntp_rx_ts m rx_ts ≡ some r) × Finds m rx_ts r
unfolding find_ntp_rx_ts Finds IsCached Hits
find_ntp_rx_ts-scan m rx_ts v small =
    elim (Bool-cases (m.cached_rx_ts == rx_ts && not (rx_ts == 0))) [
      | inl hit ↦
          let full : m.cached_rx_ts ≢ 0 = ground (arith, hit) in
          let same : m.cached_rx_ts ≡ rx_ts = ground (arith, hit) in
          let (l, e) = filled (m.cached_rx_ts ≡ 0) v.cached full in
          let found = e ∙ same in
          let close : offset m rx_ts < 2 ^ 63 =
            omega (arith, v.ordered.near m.cached_index l, ap (offset m) found) in
          (
            (true, m.cached_index, m),
            rw hit,
            (sym (Hits-scan m rx_ts v.ordered small close true m.cached_index (l, found)), v, refl),
          )
      | inr miss ↦
          let e = find_uncached-scan m rx_ts v.ordered small in
          (
            cache m rx_ts (scan m rx_ts m.size 0),
            rw (miss, e),
            cache-Finds m rx_ts v (scan m rx_ts m.size 0) refl,
          )
    ]

-- ===== src/Clientlog/Timestamps/Written.antt =====
-- clientlog.c: the map after a new timestamp is written where room was made for it.
use chrony.Common.{
  ℕ, ◌+◌, ◌-◌, ◌^◌, ◌≤◌, ◌<◌, true, false, ◌||◌, Option, none, some, if◌then◌else◌, ltb, ◌==◌, ◌≡◌,
  ◌≢◌, inl, inr, arith, refl, Bool-cases, subst, sym, ◌∙◌, ap,
}
use chrony.Common.Signed.{pos, negsuc, ltb_ℤ}
use chrony.Util.Time.{Timespec, diff_timespecs}
use chrony.Clientlog.Timestamps.{
  NtpTimestamps, NtpTimestampMap, get_ntp_tss, set_ntp_tss, word64, sub64, slot,
}
use chrony.Clientlog.Timestamps.Store.{set_ntp_tx, write_new}
use chrony.Clientlog.Timestamps.Search.{at, offset, IsOrdered}
use chrony.Clientlog.Timestamps.Find.{IsValid, IsCached}
use chrony.Clientlog.Timestamps.Split.{IsSplit}
use chrony.Clientlog.Timestamps.Slots.{HasBuffer, get-set}
use chrony.Clientlog.Timestamps.Room.{IsPlaced, future}

-- In order by the distances from any base.
record IsOrderedFrom (base : ℕ) (m : NtpTimestampMap) : Type 0 where
  range : (i : ℕ) → i < m.size → at m i < word64
  near : (i : ℕ) → i < m.size → sub64 (at m i) base < 2 ^ 63
  rising : (i j : ℕ) → i < j → j < m.size → sub64 (at m i) base < sub64 (at m j) base

difference :
    (x y base : ℕ)
    → x < word64
    → y < word64
    → base < word64
    → sub64 y base ≤ sub64 x base
    → sub64 x y ≡ sub64 x base - sub64 y base
difference x y base h k l le = omega arith

IsOrderedFrom-IsOrdered :
    (base : ℕ) (m : NtpTimestampMap) → base < word64 → IsOrderedFrom base m → IsOrdered m
IsOrderedFrom-IsOrdered base m h o =
    let first : (i : ℕ) → i < m.size → sub64 (at m 0) base ≤ sub64 (at m i) base = λ i k.
      elim (Bool-cases (i == 0)) [
        | inl t ↦
            let same : 0 ≡ i = ground arith in
            let self : sub64 (at m 0) base ≤ sub64 (at m 0) base = omega arith in
            subst (λ j. sub64 (at m 0) base ≤ sub64 (at m j) base) same self
        | inr f ↦ let rise = o.rising 0 i (ground arith) k in omega arith
      ] in
    let apart : (i : ℕ)
        → i < m.size
        → sub64 (at m i) (at m 0) ≡ sub64 (at m i) base - sub64 (at m 0) base =
      λ i k.
        difference (at m i) (at m 0) base (o.range i k) (o.range 0 (omega arith)) h (first i k) in
    record {
      range = o.range;
      near = λ i k. omega (arith, apart i k, o.near i k);
      rising = λ i j k l.
          omega (arith, apart i (omega arith), apart j l, o.rising i j k l, first i (omega arith));
    }

module _ (ntp64_to_timespec : ℕ → Timespec) where
  pub set_ntp_tx-kept :
      (tss : NtpTimestamps) (rx : ℕ) (tx_ts : Option Timespec) (tx_src : ℕ)
      → ((set_ntp_tx ntp64_to_timespec tss rx tx_ts tx_src).rx_ts ≡ tss.rx_ts)
        × ((set_ntp_tx ntp64_to_timespec tss rx tx_ts tx_src).disabled ≡ tss.disabled)
  unfolding set_ntp_tx
  set_ntp_tx-kept tss rx none tx_src = (refl, refl)
  set_ntp_tx-kept tss rx (some tx_ts) tx_src =
      let ts = diff_timespecs tx_ts (ntp64_to_timespec rx) in
      elim (Bool-cases (ltb_ℤ ts.tv_sec (negsuc 1) || ltb_ℤ (pos 1) ts.tv_sec)) [
        | inl t ↦ rw t (refl, refl)
        | inr f ↦ rw f (refl, refl)
      ]

  module _ (m m' : NtpTimestampMap) (rx r k : ℕ) (b : HasBuffer m) (fits : m.size ≤ m.max_size)
      (ordered : IsOrdered m) (small : rx < word64) (split : IsSplit m rx r)
      (placed : IsPlaced m rx r k m') (tx_ts : Option Timespec) (tx_src : ℕ) where
    unfoldable pub new_tss : NtpTimestamps
    new_tss =
        set_ntp_tx ntp64_to_timespec
          (record (get_ntp_tss m' k) {
            rx_ts = rx;
            disabled = false;
            valid_tx = false;
            slew_epoch = m'.slew_epoch;
          })
          rx tx_ts tx_src

    unfoldable pub after : NtpTimestampMap
    after = write_new ntp64_to_timespec m' k rx tx_ts tx_src

    pub get-after :
        (i : ℕ) → i < m'.size → get_ntp_tss after i ≡ (if i == k then new_tss else get_ntp_tss m' i)
    unfolding after write_new new_tss get_ntp_tss slot
    get-after i h =
        let b' = placed.buffer in
        get-set (record m' { cached_index = k; cached_rx_ts = rx }) k i new_tss
          (record { room = b'.room; small = b'.small; inside = b'.inside })
          (omega (arith, placed.inside, placed.fits)) (omega (arith, placed.fits))

    at-new : at after k ≡ rx
    unfolding at new_tss
    at-new =
        let here : (k == k) ≡ true = ground arith in
        let read = get-after k placed.inside in
        let chosen : (if k == k then new_tss else get_ntp_tss m' k) ≡ new_tss = rw here in
        ap (λ t. t.rx_ts) (read ∙ chosen)
        ∙ (set_ntp_tx-kept
            (record (get_ntp_tss m' k) {
              rx_ts = rx;
              disabled = false;
              valid_tx = false;
              slew_epoch = m'.slew_epoch;
            })
            rx tx_ts tx_src).0

    at-old : (i : ℕ) → i < m'.size → i ≢ k → at after i ≡ at m (placed.src i)
    unfolding at
    at-old i h n =
        let other : (i == k) ≡ false = ground arith in
        let read = get-after i h in
        let chosen : (if i == k then new_tss else get_ntp_tss m' i) ≡ get_ntp_tss m (placed.src i) =
          rw other (placed.from i h n) in
        ap (λ t. t.rx_ts) (read ∙ chosen)

    -- Both kinds of index at once.
    by_index :
        (P : ℕ → ℕ → Type 0)
        → P k rx
        → ((i : ℕ) → i < m'.size → i ≢ k → P i (at m (placed.src i)))
        → (i : ℕ) → i < m'.size
        → P i (at after i)
    by_index P new old i h = elim (Bool-cases (i == k)) [
      | inl t ↦
          let same : k ≡ i = ground arith in
          subst (λ j. P j (at after j)) same (subst (P k) (sym at-new) new)
      | inr f ↦
          let other : i ≢ k = ground arith in subst (P i) (sym (at-old i h other)) (old i h other)
    ]

    -- Behind an older timestamp the order is that of the old map.
    after-later : 0 < r → IsOrderedFrom (at m 0) after
    unfolding after write_new set_ntp_tss
    after-later p = record {
      range =
          by_index (λ i x. x < word64) small
            (λ i h n. ordered.range (placed.src i) (placed.within i h n));
      near =
          by_index (λ i x. offset m x < 2 ^ 63) (split.close p)
            (λ i h n. ordered.near (placed.src i) (placed.within i h n));
      rising = λ i j l h.
          by_index (λ j y. (i : ℕ) → i < j → offset m (at after i) < offset m y)
            (λ i l.
              subst (λ x. offset m x < offset m rx)
                (sym (at-old i (omega (arith, placed.inside)) (omega arith)))
                (split.older (placed.src i) (placed.left i l)))
            (λ j h n i l.
              by_index (λ i x. i < j → offset m x < offset m (at m (placed.src j)))
                (λ l. split.newer (placed.src j) p (placed.right j l h) (placed.within j h n))
                (λ i h' n' l.
                  ordered.rising (placed.src i) (placed.src j) (placed.rises i j l h n' n)
                    (placed.within j h n))
                i (omega arith) l)
            j h i l;
    }

    -- A new first timestamp is the base of the others.
    after-first : r ≡ 0 → IsOrderedFrom rx after
    unfolding after write_new set_ntp_tss
    after-first e =
        let first : k ≡ 0 = elim (Bool-cases (k == 0)) [
          | inl t ↦ ground arith
          | inr f ↦ absurd (omega (arith, placed.left 0 (ground arith)))
        ] in
        let gap : (j : ℕ)
            → j < m'.size
            → j ≢ k
            → sub64 (at m (placed.src j)) rx ≡ sub64 (at m 0) rx + offset m (at m (placed.src j)) =
          λ j h n.
            future m rx r b fits ordered small split (placed.src j) e (placed.within j h n) in
        let self : sub64 rx rx ≡ 0 = omega arith in
        record {
          range =
              by_index (λ i x. x < word64) small
                (λ i h n. ordered.range (placed.src i) (placed.within i h n));
          near =
              by_index (λ i x. sub64 x rx < 2 ^ 63) (omega arith)
                (λ i h n. let close = placed.near i e h n in omega arith);
          rising = λ i j l h.
              by_index (λ j y. (i : ℕ) → i < j → sub64 (at after i) rx < sub64 y rx)
                (λ i l. absurd (omega arith))
                (λ j h n i l.
                  by_index (λ i x. i < j → sub64 x rx < sub64 (at m (placed.src j)) rx)
                    (λ l.
                      let there = gap j h n in
                      let within = placed.within j h n in
                      let old = split.start e (omega arith) in
                      let range = ordered.range 0 (omega arith) in
                      let positive : 0 < sub64 (at m 0) rx = ground arith in omega arith)
                    (λ i h' n' l.
                      let rise =
                        ordered.rising (placed.src i) (placed.src j) (placed.rises i j l h n' n)
                          (placed.within j h n) in
                      omega (arith, gap i h' n', gap j h n, rise))
                    i (omega arith) l)
                j h i l;
        }

    pub after-IsValid : IsValid after
    unfolding IsCached after write_new set_ntp_tss
    after-IsValid =
        let b' = placed.buffer in
        record {
          room = b'.room;
          small = b'.small;
          inside = b'.inside;
          fits = placed.fits;
          ordered = elim (Bool-cases (ltb 0 r)) [
            | inl t ↦
                let p : 0 < r = ground arith in
                IsOrderedFrom-IsOrdered (at m 0) after
                  (ordered.range 0 (omega (arith, split.upper))) (after-later p)
            | inr f ↦ IsOrderedFrom-IsOrdered rx after small (after-first (ground arith))
          ];
          cached = inr (placed.inside, at-new);
        }

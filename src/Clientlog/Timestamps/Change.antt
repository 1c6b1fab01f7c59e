-- ===== src/Clientlog/Timestamps/Change.antt =====
-- clientlog.c: a change of a timestamp in place, other than of its time.
use chrony.Common.{
  ℕ, ◌<◌, true, if◌then◌else◌, ◌==◌, ◌≡◌, inl, inr, arith, Bool-cases, refl, ap, ◌∙◌,
}
use chrony.Clientlog.Timestamps.{NtpTimestampMap, NtpTimestamps, get_ntp_tss, set_ntp_tss}
use chrony.Clientlog.Timestamps.Store.{disable_at}
use chrony.Clientlog.Timestamps.Search.{at}
use chrony.Clientlog.Timestamps.Find.{IsValid, IsCached}
use chrony.Clientlog.Timestamps.Slots.{HasBuffer, get-set}

pub valid_buffer : (m : NtpTimestampMap) → IsValid m → HasBuffer m
valid_buffer m v = record { room = v.room; small = v.small; inside = v.inside }

module _ (m : NtpTimestampMap) (i : ℕ) (tss : NtpTimestamps) (v : IsValid m) (h : i < m.size) where
  pub get-set_ntp_tss :
      (j : ℕ)
      → j < m.size
      → get_ntp_tss (set_ntp_tss m i tss) j ≡ (if j == i then tss else get_ntp_tss m j)
  get-set_ntp_tss j k =
      get-set m i j tss (valid_buffer m v) (omega (arith, v.fits)) (omega (arith, v.fits))

  module _ (kept : tss.rx_ts ≡ at m i) where
    pub at-set_ntp_tss : (j : ℕ) → j < m.size → at (set_ntp_tss m i tss) j ≡ at m j
    unfolding at
    at-set_ntp_tss j k = elim (Bool-cases (j == i)) [
      | inl t ↦
          let same : i ≡ j = ground arith in
          let chosen : (if j == i then tss else get_ntp_tss m j) ≡ tss = rw t in
          ap (λ t. t.rx_ts) (get-set_ntp_tss j k ∙ chosen) ∙ kept ∙ ap (at m) same
      | inr f ↦
          let chosen : (if j == i then tss else get_ntp_tss m j) ≡ get_ntp_tss m j = rw f in
          ap (λ t. t.rx_ts) (get-set_ntp_tss j k ∙ chosen)
    ]

    pub set_ntp_tss-IsValid : IsValid (set_ntp_tss m i tss)
    unfolding set_ntp_tss IsCached
    set_ntp_tss-IsValid =
        let first = at-set_ntp_tss 0 (omega arith) in
        record {
          room = v.room;
          small = v.small;
          inside = v.inside;
          fits = v.fits;
          ordered = record {
            range = λ j k. omega (arith, at-set_ntp_tss j k, v.ordered.range j k);
            near = λ j k. omega (arith, at-set_ntp_tss j k, first, v.ordered.near j k);
            rising = λ j l r k. omega (
              arith,
              at-set_ntp_tss j (omega arith),
              at-set_ntp_tss l k,
              first,
              v.ordered.rising j l r k,
            );
          };
          cached = elim v.cached [
            | inl e ↦ inl e
            | inr c ↦ inr (c.0, at-set_ntp_tss m.cached_index c.0 ∙ c.1)
          ];
        }

pub disable_at-IsValid :
    (m : NtpTimestampMap) (i : ℕ) → IsValid m → i < m.size → IsValid (disable_at m i)
unfolding disable_at at
disable_at-IsValid m i v h =
    set_ntp_tss-IsValid m i (record (get_ntp_tss m i) { disabled = true }) v h refl

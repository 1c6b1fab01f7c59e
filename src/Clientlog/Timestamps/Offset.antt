-- ===== src/Clientlog/Timestamps/Offset.antt =====
-- clientlog.c: a transmit timestamp is kept as its offset from the receive timestamp.
use chrony.Common.{
  ℕ, ◌+◌, ◌*◌, ◌<◌, false, ◌||◌, some, if◌then◌else◌, ◌≡◌, inl, inr, arith, Bool-cases, ap,
}
use chrony.Common.Signed.{ℤ, pos, negsuc, ltb_ℤ, ◌+ℤ◌, ◌-ℤ◌, ◌*ℤ◌, pos_part, neg_part, int_laws}
use chrony.Util.Time.{
  Timespec, nsec_per_sec, normalise_timespec, diff_timespecs, normalise_timespec-total, eq_of_total,
}
use chrony.Clientlog.Timestamps.{NtpTimestamps}
use chrony.Clientlog.Timestamps.Store.{set_ntp_tx, get_ntp_tx}

-- A transmit timestamp that is at most about two seconds away from the receive timestamp.
unfoldable pub IsClose : Timespec → Timespec → Type 0
IsClose tx_ts rx =
    let ts = diff_timespecs tx_ts rx in
    (ltb_ℤ ts.tv_sec (negsuc 1) || ltb_ℤ (pos 1) ts.tv_sec) ≡ false

*ℤ_parts :
    (a : ℤ)
    → pos_part (a *ℤ pos nsec_per_sec) + neg_part a * nsec_per_sec
      ≡ neg_part (a *ℤ pos nsec_per_sec) + pos_part a * nsec_per_sec
unfolding ◌*ℤ◌
*ℤ_parts a = ground arith

-- `UTI_NormaliseTimespec` of a time and an offset from it, with a second moved first.
moved : Timespec → ℤ → Timespec
moved rx offset =
    if ltb_ℤ offset (pos nsec_per_sec)
    then normalise_timespec rx.tv_sec (pos rx.tv_nsec +ℤ offset)
    else normalise_timespec (rx.tv_sec +ℤ pos 1) (pos rx.tv_nsec +ℤ (offset -ℤ pos nsec_per_sec))

moved-total :
    (rx : Timespec) (offset : ℤ)
    → ((moved rx offset).tv_nsec < nsec_per_sec)
      × (pos_part (moved rx offset).tv_sec * nsec_per_sec
            + (moved rx offset).tv_nsec
            + neg_part rx.tv_sec * nsec_per_sec
            + neg_part offset
          ≡ neg_part (moved rx offset).tv_sec * nsec_per_sec
            + pos_part rx.tv_sec * nsec_per_sec
            + rx.tv_nsec
            + pos_part offset)
unfolding moved
moved-total rx offset = elim (Bool-cases (ltb_ℤ offset (pos nsec_per_sec))) [
  | inl t ↦
      let (small, total) = normalise_timespec-total rx.tv_sec (pos rx.tv_nsec +ℤ offset) in
      rw t (small, omega int_laws)
  | inr f ↦
      let nsec = pos rx.tv_nsec +ℤ (offset -ℤ pos nsec_per_sec) in
      let (small, total) = normalise_timespec-total (rx.tv_sec +ℤ pos 1) nsec in
      rw f (small, omega int_laws)
]

module _ (ntp64_to_timespec : ℕ → Timespec) where
  -- A close timestamp comes back with its source.
  pub get_ntp_tx-set_ntp_tx :
      (tss : NtpTimestamps) (tx_ts : Timespec) (tx_src : ℕ)
      → (ntp64_to_timespec tss.rx_ts).tv_nsec < nsec_per_sec
      → tx_ts.tv_nsec < nsec_per_sec
      → IsClose tx_ts (ntp64_to_timespec tss.rx_ts)
      → get_ntp_tx ntp64_to_timespec
          (set_ntp_tx ntp64_to_timespec tss tss.rx_ts (some tx_ts) tx_src)
        ≡ (tx_ts, tx_src)
  unfolding IsClose set_ntp_tx get_ntp_tx diff_timespecs moved
  get_ntp_tx-set_ntp_tx tss tx_ts tx_src h k close =
      let rx = ntp64_to_timespec tss.rx_ts in
      let sec = tx_ts.tv_sec -ℤ rx.tv_sec in
      let nsec = pos tx_ts.tv_nsec -ℤ pos rx.tv_nsec in
      let ts = diff_timespecs tx_ts rx in
      let offset = pos ts.tv_nsec +ℤ ts.tv_sec *ℤ pos nsec_per_sec in
      let (small, total) = normalise_timespec-total sec nsec in
      let (near, back) = moved-total rx offset in
      let parts = *ℤ_parts ts.tv_sec in
      let same : moved rx offset ≡ tx_ts =
        eq_of_total (moved rx offset) tx_ts near k (omega int_laws) in
      rw close (ap (λ t. (t, tx_src)) same)

-- ===== src/Clientlog/Timestamps/Save.antt =====
-- clientlog.c: `CLG_SaveNtpTimestamps` keeps the map valid, and `CLG_GetNtpTxTimestamp` gets what was saved.
use chrony.Common.{
  ℕ, zero, suc, ◌+◌, ◌<◌, Bool, true, false, Option, none, some, if◌then◌else◌, ◌==◌, ◌≡◌, ◌≢◌, inl,
  inr, arith, refl, Bool-cases, subst, sym, ◌∙◌, ap,
}
use chrony.Util.Time.{Timespec, nsec_per_sec}
use chrony.Clientlog.Timestamps.{NtpTimestampMap, get_ntp_tss, word64, slot, find_ntp_rx_ts}
use chrony.Clientlog.Timestamps.Store.{
  set_ntp_tx, save_ntp_timestamps, get_found, get_ntp_tx_timestamp, get_ntp_tx,
}
use chrony.Clientlog.Timestamps.Search.{at}
use chrony.Clientlog.Timestamps.Reference.{scan}
use chrony.Clientlog.Timestamps.Find.{IsValid, IsCached, Finds, find_ntp_rx_ts-scan}
use chrony.Clientlog.Timestamps.Saved.{Saves, save_found-Saves, find-at}
use chrony.Clientlog.Timestamps.Offset.{IsClose, get_ntp_tx-set_ntp_tx}

-- Allocating the buffer leaves a valid map valid.
allocate-IsValid : (m : NtpTimestampMap) → IsValid m → IsValid (record m { allocated = true })
unfolding IsCached at get_ntp_tss slot
allocate-IsValid m v = record {
  room = v.room;
  small = v.small;
  inside = v.inside;
  fits = v.fits;
  ordered = record { range = v.ordered.range; near = v.ordered.near; rising = v.ordered.rising };
  cached = v.cached;
}

scan-allocate :
    (m : NtpTimestampMap) (rx left i : ℕ)
    → scan (record m { allocated = true }) rx left i ≡ scan m rx left i
unfolding scan at get_ntp_tss slot
scan-allocate m rx zero i = refl
scan-allocate m rx (suc left) i = rw (scan-allocate m rx left (i + 1))

module _ (ntp64_to_timespec : ℕ → Timespec) (m : NtpTimestampMap) where
  pub get_ntp_tx_timestamp-some :
      (rx : ℕ) (r : Bool × ℕ × NtpTimestampMap)
      → m.allocated ≡ true
      → find_ntp_rx_ts m rx ≡ some r
      → get_ntp_tx_timestamp ntp64_to_timespec m rx ≡ some (get_found ntp64_to_timespec r)
  unfolding get_ntp_tx_timestamp
  get_ntp_tx_timestamp-some rx r allocated found = rw (found, allocated)

  get_found_disabled :
      (i : ℕ)
      → (get_ntp_tss m i).disabled ≡ true
      → get_found ntp64_to_timespec (true, i, m) ≡ (none, m)
  unfolding get_found
  get_found_disabled i e = rw e

  get_found_enabled :
      (i : ℕ)
      → (get_ntp_tss m i).disabled ≡ false
      → get_found ntp64_to_timespec (true, i, m)
        ≡ (some (get_ntp_tx ntp64_to_timespec (get_ntp_tss m i)), m)
  unfolding get_found
  get_found_enabled i e = rw e

module _ (ntp64_to_timespec : ℕ → Timespec) (m : NtpTimestampMap) (rx : ℕ) (tx_ts : Option Timespec)
    (tx_src : ℕ) (v : IsValid m) (small : rx < word64) where
  -- Saving a timestamp other than 0.
  save_ntp_timestamps-Saves :
      rx ≢ 0
      → (m' : NtpTimestampMap) × (save_ntp_timestamps ntp64_to_timespec true m rx tx_ts tx_src
          ≡ some m')
        × Saves ntp64_to_timespec
            (record m { allocated = true })
            rx
            tx_ts
            tx_src
            (scan m rx m.size 0).0
            m'
  unfolding save_ntp_timestamps Finds
  save_ntp_timestamps-Saves full =
      let ready : NtpTimestampMap = record m { allocated = true } in
      let valid = allocate-IsValid m v in
      let (r, found, finds) = find_ntp_rx_ts-scan ready rx valid small in
      let (m', saved, saves) =
        save_found-Saves ntp64_to_timespec ready rx tx_ts tx_src valid small r finds in
      let other : (rx == 0) ≡ false = ground arith in
      let b : r.0 ≡ (scan m rx m.size 0).0 =
        ap (λ p. p.0) (finds.0 ∙ scan-allocate m rx m.size 0) in
      (
        m',
        rw (other, found) saved,
        subst (λ b. Saves ntp64_to_timespec ready rx tx_ts tx_src b m') b saves,
      )

  -- On a valid map, with a timestamp below 2^64, saving returns, and leaves a valid map.
  pub save_ntp_timestamps-IsValid :
      (active : Bool)
      → (m' : NtpTimestampMap) × (save_ntp_timestamps ntp64_to_timespec active m rx tx_ts tx_src
          ≡ some m')
        × IsValid m'
  unfolding save_ntp_timestamps Saves
  save_ntp_timestamps-IsValid false = (m, refl, v)
  save_ntp_timestamps-IsValid true = elim (Bool-cases (rx == 0)) [
    | inl t ↦ (record m { allocated = true }, rw t refl, allocate-IsValid m v)
    | inr f ↦
        let (m', saved, saves) = save_ntp_timestamps-Saves (ground arith) in (m', saved, saves.0)
  ]

  -- On a valid map, with a timestamp below 2^64 other than 0: getting the transmit timestamp after
  -- saving gives what was saved, when the receive timestamp is new, and nothing when it is in the map
  -- already. The transmit timestamp is normalised, as that of the receive timestamp, and close to it.
  pub get_ntp_tx_timestamp-save_ntp_timestamps :
      (tx : Timespec)
      → tx_ts ≡ some tx
      → rx ≢ 0
      → tx.tv_nsec < nsec_per_sec
      → (ntp64_to_timespec rx).tv_nsec < nsec_per_sec
      → IsClose tx (ntp64_to_timespec rx)
      → (m' : NtpTimestampMap) × (m'' : NtpTimestampMap) × (save_ntp_timestamps ntp64_to_timespec
            true m rx tx_ts tx_src
          ≡ some m')
        × (get_ntp_tx_timestamp ntp64_to_timespec m' rx
            ≡ some (if (scan m rx m.size 0).0 then none else some (tx, tx_src), m''))
  unfolding Saves
  get_ntp_tx_timestamp-save_ntp_timestamps tx given full k h close =
      let (m', saved, (valid, allocated, (i, old, inside, here, rx', disabled, kept, answer))) =
        save_ntp_timestamps-Saves full in
      let (m'', found, same) = find-at m' rx i valid small inside here in
      let get = get_ntp_tx_timestamp-some ntp64_to_timespec m' rx (true, i, m'') allocated found in
      elim (Bool-cases (scan m rx m.size 0).0) [
        | inl t ↦
            let off : (get_ntp_tss m'' i).disabled ≡ true =
              ap (λ t. t.disabled) same ∙ answer ∙ t in
            let none' : (if (scan m rx m.size 0).0 then none else some (tx, tx_src)) ≡ none =
              rw t in
            (
              m',
              m'',
              saved,
              get
                  ∙ ap some (
                      get_found_disabled ntp64_to_timespec m'' i off
                      ∙ ap (λ a. (a, m'')) (sym none')),
            )
        | inr f ↦
            let on : (get_ntp_tss m'' i).disabled ≡ false =
              ap (λ t. t.disabled) same ∙ answer ∙ f in
            let read : get_ntp_tx ntp64_to_timespec (get_ntp_tss m'' i) ≡ (tx, tx_src) =
              ap (get_ntp_tx ntp64_to_timespec) (same ∙ kept f)
              ∙ ap
                  (λ t.
                    get_ntp_tx ntp64_to_timespec
                      (set_ntp_tx ntp64_to_timespec old old.rx_ts t tx_src))
                  given
              ∙ get_ntp_tx-set_ntp_tx ntp64_to_timespec old tx tx_src
                  (subst (λ t. (ntp64_to_timespec t).tv_nsec < nsec_per_sec) (sym rx') h) k
                  (subst (λ t. IsClose tx (ntp64_to_timespec t)) (sym rx') close) in
            let some' : (if (scan m rx m.size 0).0 then none else some (tx, tx_src))
                ≡ some (tx, tx_src) =
              rw f in
            (
              m',
              m'',
              saved,
              get
                  ∙ ap some (
                      get_found_enabled ntp64_to_timespec m'' i on
                      ∙ ap (λ a. (some a, m'')) read
                      ∙ ap (λ a. (a, m'')) (sym some')),
            )
      ]

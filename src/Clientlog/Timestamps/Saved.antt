-- ===== src/Clientlog/Timestamps/Saved.antt =====
-- clientlog.c: the map behind the search of `CLG_SaveNtpTimestamps`.
use chrony.Common.{
  ℕ, ◌^◌, ◌<◌, Bool, true, false, Option, some, leb, ◌==◌, ◌≡◌, arith, refl, subst, sym, ◌∙◌, ap,
}
use chrony.Util.Time.{Timespec}
use chrony.Clientlog.Timestamps.{
  NtpTimestamps, NtpTimestampMap, get_ntp_tss, set_ntp_tss, word64, slot, find_ntp_rx_ts,
}
use chrony.Clientlog.Timestamps.Store.{
  push_ntp_tss, make_room, move_up, disable_at, set_ntp_tx, write_new, save_found,
}
use chrony.Clientlog.Timestamps.Search.{at, offset, Hits}
use chrony.Clientlog.Timestamps.Reference.{Hits-scan}
use chrony.Clientlog.Timestamps.Find.{IsValid, Finds, find_ntp_rx_ts-scan, scan-true}
use chrony.Clientlog.Timestamps.Split.{IsSplit, scan-IsSplit}
use chrony.Clientlog.Timestamps.Slots.{move_up-kept}
use chrony.Clientlog.Timestamps.Room.{make_room-IsPlaced}
use chrony.Clientlog.Timestamps.Written.{after, after-IsValid, get-after, new_tss, set_ntp_tx-kept}
use chrony.Clientlog.Timestamps.Change.{
  valid_buffer, get-set_ntp_tss, at-set_ntp_tss, disable_at-IsValid,
}

-- A timestamp of a valid map is found where it is.
pub find-at :
    (m : NtpTimestampMap) (rx i : ℕ)
    → IsValid m
    → rx < word64
    → i < m.size
    → at m i ≡ rx
    → (m' : NtpTimestampMap) × (find_ntp_rx_ts m rx ≡ some (true, i, m'))
      × (get_ntp_tss m' i ≡ get_ntp_tss m i)
unfolding Finds Hits get_ntp_tss slot
find-at m rx i v small h e =
    let ((b, r, m'), found, (scanned, v', kept)) = find_ntp_rx_ts-scan m rx v small in
    let close : offset m rx < 2 ^ 63 = omega (arith, v.ordered.near i h, ap (offset m) e) in
    let p = scanned ∙ Hits-scan m rx v.ordered small close true i (h, e) in
    (m', found ∙ ap (λ p. some (p.0, p.1, m')) p, ap (λ m. get_ntp_tss m i) kept)

move_up-allocated : (n k : ℕ) (m : NtpTimestampMap) → (move_up n k m).allocated ≡ m.allocated
move_up-allocated n k m = ap (λ m. m.allocated) (move_up-kept n k m)

make_room-allocated :
    (m : NtpTimestampMap) (rx i : ℕ) → (make_room m rx i).1.allocated ≡ m.allocated
unfolding make_room push_ntp_tss
make_room-allocated m rx i = grind (arith, move_up-allocated)

-- The cache is not part of the order.
IsSplit-cached :
    (m m' : NtpTimestampMap) (rx r : ℕ)
    → m' ≡ record m { cached_index = m'.cached_index; cached_rx_ts = m'.cached_rx_ts }
    → IsSplit m rx r
    → IsSplit m' rx r
unfolding at get_ntp_tss slot
IsSplit-cached m m' rx r kept s =
    subst (λ n. IsSplit n rx r) (sym kept)
      (record {
        upper = s.upper;
        close = s.close;
        older = s.older;
        newer = s.newer;
        start = s.start;
      })

module _ (ntp64_to_timespec : ℕ → Timespec) where
  -- What saving leaves: a valid and allocated map, in which the timestamp is disabled if it was there
  -- and otherwise holds the new transmit timestamp.
  unfoldable pub Saves : NtpTimestampMap → ℕ → Option Timespec → ℕ → Bool → NtpTimestampMap → Type 0
  Saves m rx tx_ts tx_src found m' =
      IsValid m'
      × (m'.allocated ≡ m.allocated)
      × ((i : ℕ) × (old : NtpTimestamps) × (i < m'.size)
          × (at m' i ≡ rx)
          × (old.rx_ts ≡ rx)
          × (old.disabled ≡ found)
          × ((found ≡ false)
              → get_ntp_tss m' i ≡ set_ntp_tx ntp64_to_timespec old old.rx_ts tx_ts tx_src)
          × ((get_ntp_tss m' i).disabled ≡ found))

  write_new-Saves :
      (m : NtpTimestampMap) (rx r : ℕ) (tx_ts : Option Timespec) (tx_src : ℕ)
      → IsValid m
      → rx < word64
      → IsSplit m rx r
      → Saves m rx tx_ts tx_src false
          (write_new ntp64_to_timespec (make_room m rx r).1 (make_room m rx r).0 rx tx_ts tx_src)
  unfolding Saves at after new_tss write_new set_ntp_tss
  write_new-Saves m rx r tx_ts tx_src v small split =
      let b = valid_buffer m v in
      let (k, m') = make_room m rx r in
      let placed = make_room-IsPlaced m rx r b v.fits v.ordered small split in
      let old : NtpTimestamps = record (get_ntp_tss m' k) {
        rx_ts = rx;
        disabled = false;
        valid_tx = false;
        slew_epoch = m'.slew_epoch;
      } in
      let (rx', disabled') = set_ntp_tx-kept ntp64_to_timespec old rx tx_ts tx_src in
      let self : (k == k) ≡ true = ground arith in
      let read : get_ntp_tss (write_new ntp64_to_timespec m' k rx tx_ts tx_src) k
          ≡ set_ntp_tx ntp64_to_timespec old rx tx_ts tx_src =
        get-after ntp64_to_timespec m m' rx r k b v.fits v.ordered small split placed tx_ts tx_src k
          placed.inside
        ∙ rw self in
      (
        after-IsValid ntp64_to_timespec m m' rx r k b v.fits v.ordered small split placed tx_ts
            tx_src,
        make_room-allocated m rx r,
        (
          k,
          old,
          placed.inside,
          ap (λ t. t.rx_ts) read ∙ rx',
          refl,
          refl,
          λ f. read,
          ap (λ t. t.disabled) read ∙ disabled',
        ),
      )

  pub save_found-Saves :
      (m : NtpTimestampMap) (rx : ℕ) (tx_ts : Option Timespec) (tx_src : ℕ)
      → IsValid m
      → rx < word64
      → (r : Bool × ℕ × NtpTimestampMap) → Finds m rx r
      → (m' : NtpTimestampMap) × (save_found ntp64_to_timespec rx tx_ts tx_src r ≡ some m')
        × Saves m rx tx_ts tx_src r.0 m'
  unfolding save_found Finds Saves disable_at set_ntp_tss at get_ntp_tss slot
  save_found-Saves m rx tx_ts tx_src v small (true, i, m') (scanned, v', kept) =
      let (l, e) = scan-true m rx m.size 0 i (sym scanned) in
      let size' : m'.size ≡ m.size = ap (λ m. m.size) kept in
      let inside : i < m'.size = omega arith in
      let here : at m' i ≡ rx = ap (λ m. at m i) kept ∙ e in
      let off : NtpTimestamps = record (get_ntp_tss m' i) { disabled = true } in
      let there : at (disable_at m' i) i ≡ rx =
        at-set_ntp_tss m' i off v' inside refl i inside ∙ here in
      let self : (i == i) ≡ true = ground arith in
      let read : get_ntp_tss (disable_at m' i) i ≡ record (get_ntp_tss m' i) { disabled = true } =
        get-set_ntp_tss m' i off v' inside i inside ∙ rw self in
      (
        disable_at m' i,
        refl,
        (
          disable_at-IsValid m' i v' inside,
          ap (λ m. m.allocated) kept,
          (
            i,
            record (get_ntp_tss m' i) { disabled = true },
            inside,
            there,
            here,
            refl,
            λ f. cc f,
            ap (λ t. t.disabled) read,
          ),
        ),
      )
  save_found-Saves m rx tx_ts tx_src v small (false, r, m') (scanned, v', kept) =
      let split =
        IsSplit-cached m m' rx r kept (scan-IsSplit m rx r v.ordered small (sym scanned)) in
      let fits : leb r m'.size ≡ true = ground (arith, split.upper) in
      let (valid, allocated, rest) = write_new-Saves m' rx r tx_ts tx_src v' small split in
      (_, rw fits refl, (valid, allocated ∙ ap (λ m. m.allocated) kept, rest))

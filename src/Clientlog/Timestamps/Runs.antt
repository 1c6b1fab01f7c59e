-- ===== src/Clientlog/Timestamps/Runs.antt =====
-- clientlog.c: the operations on the map, one after the other.
use chrony.Common.{
  ℕ, ◌+◌, ◌*◌, ◌%◌, ◌^◌, ◌<◌, ◌≤◌, Bool, true, false, Option, some, ◌>>=◌, List, [], ◌∷◌, ◌≡◌,
  arith, refl, inl, inr, Bool-cases, ap, sym,
}
use chrony.Util.Time.{Timespec}
use chrony.Clientlog.Timestamps.{
  NtpTimestampMap, NtpTimestamps, get_ntp_tss, slot, word64, find_ntp_rx_ts,
}
use chrony.Clientlog.Timestamps.Store.{
  save_ntp_timestamps, undo_ntp_tx_timestamp_slew, undo_found, update_ntp_tx_timestamp,
  update_found, get_ntp_tx_timestamp, get_found, disable_ntp_timestamps, disable_found, handle_slew,
}
use chrony.Clientlog.Timestamps.Search.{at}
use chrony.Clientlog.Timestamps.Find.{IsValid, IsCached, Finds, find_ntp_rx_ts-scan, scan-true}
use chrony.Clientlog.Timestamps.Written.{set_ntp_tx-kept}
use chrony.Clientlog.Timestamps.Change.{set_ntp_tss-IsValid, disable_at-IsValid}
use chrony.Clientlog.Timestamps.Save.{get_ntp_tx_timestamp-some, save_ntp_timestamps-IsValid}

-- `NTP_int64`, in the order of the host.
pub record NtpInt64 : Type 0 where
  pub hi : ℕ
  pub lo : ℕ

unfoldable pub ntp64_to_int64 : NtpInt64 → ℕ
ntp64_to_int64 ts = ts.hi % 2 ^ 32 * 2 ^ 32 + ts.lo % 2 ^ 32

-- The map of `CLG_Initialise`, with whatever the memory holds.
abbrev pub initial_map : (ℕ → NtpTimestamps) → ℕ → NtpTimestampMap
initial_map memory max_size = record {
  timestamps = memory;
  allocated = false;
  first = 0;
  size = 0;
  max_size = max_size;
  cached_index = 0;
  cached_rx_ts = 0;
  slew_epoch = 0;
  total_ntp_interleaved_hits = 0;
}

-- A call of an operation with its arguments.
pub data Call : Type 0 where
  save : NtpInt64 → Option Timespec → ℕ → Call
  undo : NtpInt64 → Timespec → (Timespec → Timespec) → Call
  update : NtpInt64 → Option Timespec → ℕ → Call
  get : NtpInt64 → Call
  disable : NtpInt64 → Call
  slew : Bool → Call

module _ (ntp64_to_timespec : ℕ → Timespec) (active : Bool) where
  unfoldable pub call : NtpTimestampMap → Call → Option NtpTimestampMap
  call m (save rx tx_ts tx_src) =
      save_ntp_timestamps ntp64_to_timespec active m (ntp64_to_int64 rx) tx_ts tx_src
  call m (undo rx tx_ts add_offset) =
      undo_ntp_tx_timestamp_slew add_offset m (ntp64_to_int64 rx) tx_ts >>= λ r. some r.1
  call m (update rx tx_ts tx_src) =
      update_ntp_tx_timestamp ntp64_to_timespec m (ntp64_to_int64 rx) tx_ts tx_src
  call m (get rx) = get_ntp_tx_timestamp ntp64_to_timespec m (ntp64_to_int64 rx) >>= λ r. some r.1
  call m (disable rx) = disable_ntp_timestamps m (ntp64_to_int64 rx)
  call m (slew unknown_step) = some (handle_slew m unknown_step)

  unfoldable pub run : NtpTimestampMap → List Call → Option NtpTimestampMap
  run m [] = some m
  run m (c ∷ cs) = call m c >>= λ m'. run m' cs

  -- A call returns, and leaves a valid map.
  Returns : Option NtpTimestampMap → Type 0
  Returns result = (m : NtpTimestampMap) × (result ≡ some m) × IsValid m

  ntp64_to_int64-bound : (rx : NtpInt64) → ntp64_to_int64 rx < word64
  unfolding ntp64_to_int64
  ntp64_to_int64-bound rx = omega arith

  update_found-IsValid :
      (m : NtpTimestampMap) (rx : ℕ) (tx_ts : Option Timespec) (tx_src : ℕ)
      (r : Bool × ℕ × NtpTimestampMap)
      → Finds m rx r
      → IsValid (update_found ntp64_to_timespec rx tx_ts tx_src r)
  unfolding update_found Finds at
  update_found-IsValid m rx tx_ts tx_src (true, i, m') (scanned, v, kept) =
      let (l, e) = scan-true m rx m.size 0 i (sym scanned) in
      let size' : m'.size ≡ m.size = ap (λ m. m.size) kept in
      set_ntp_tss-IsValid m' i _ v (omega arith)
        (set_ntp_tx-kept ntp64_to_timespec (get_ntp_tss m' i) rx tx_ts tx_src).0
  update_found-IsValid m rx tx_ts tx_src (false, i, m') (scanned, v, kept) = v

  disable_found-IsValid :
      (m : NtpTimestampMap) (rx : ℕ) (r : Bool × ℕ × NtpTimestampMap)
      → Finds m rx r
      → IsValid (disable_found r)
  unfolding disable_found Finds
  disable_found-IsValid m rx (true, i, m') (scanned, v, kept) =
      let (l, e) = scan-true m rx m.size 0 i (sym scanned) in
      let size' : m'.size ≡ m.size = ap (λ m. m.size) kept in
      disable_at-IsValid m' i v (omega arith)
  disable_found-IsValid m rx (false, i, m') (scanned, v, kept) = v

  get_found-IsValid :
      (m : NtpTimestampMap) (rx : ℕ) (r : Bool × ℕ × NtpTimestampMap)
      → Finds m rx r
      → IsValid (get_found ntp64_to_timespec r).1
  unfolding get_found Finds
  get_found-IsValid m rx (true, i, m') (scanned, v, kept) =
      elim (Bool-cases (get_ntp_tss m' i).disabled) [ inl t ↦ rw t v | inr f ↦ rw f v ]
  get_found-IsValid m rx (false, i, m') (scanned, v, kept) = v

  undo_found-IsValid :
      (m : NtpTimestampMap) (rx : ℕ) (tx_ts : Timespec) (add_offset : Timespec → Timespec)
      (r : Bool × ℕ × NtpTimestampMap)
      → Finds m rx r
      → IsValid (undo_found add_offset tx_ts r).1
  unfolding undo_found Finds
  undo_found-IsValid m rx tx_ts add_offset (true, i, m') (scanned, v, kept) = v
  undo_found-IsValid m rx tx_ts add_offset (false, i, m') (scanned, v, kept) = v

  -- The statistics are not part of what makes a map valid.
  count-IsValid :
      (m : NtpTimestampMap) (hits : ℕ)
      → IsValid m
      → IsValid (record m { total_ntp_interleaved_hits = hits })
  unfolding IsCached at get_ntp_tss slot
  count-IsValid m hits v = record {
    room = v.room;
    small = v.small;
    inside = v.inside;
    fits = v.fits;
    ordered = record { range = v.ordered.range; near = v.ordered.near; rising = v.ordered.rising };
    cached = v.cached;
  }

  handle_slew-IsValid :
      (m : NtpTimestampMap) (unknown : Bool) → IsValid m → IsValid (handle_slew m unknown)
  unfolding handle_slew IsCached at get_ntp_tss slot
  handle_slew-IsValid m true v = record {
    room = v.room;
    small = v.small;
    inside = v.inside;
    fits = omega arith;
    ordered = record {
      range = λ i h. absurd (omega arith);
      near = λ i h. absurd (omega arith);
      rising = λ i j l h. absurd (omega arith);
    };
    cached = inl refl;
  }
  handle_slew-IsValid m false v = record {
    room = v.room;
    small = v.small;
    inside = v.inside;
    fits = v.fits;
    ordered = record { range = v.ordered.range; near = v.ordered.near; rising = v.ordered.rising };
    cached = v.cached;
  }

  -- The calls on a map with a buffer, after the search.
  update-some :
      (m : NtpTimestampMap) (rx : ℕ) (tx_ts : Option Timespec) (tx_src : ℕ)
      (r : Bool × ℕ × NtpTimestampMap)
      → m.allocated ≡ true
      → find_ntp_rx_ts m rx ≡ some r
      → update_ntp_tx_timestamp ntp64_to_timespec m rx tx_ts tx_src
        ≡ some (update_found ntp64_to_timespec rx tx_ts tx_src r)
  unfolding update_ntp_tx_timestamp
  update-some m rx tx_ts tx_src r t e = rw (e, t)

  undo-some :
      (m : NtpTimestampMap) (rx : ℕ) (tx_ts : Timespec) (add_offset : Timespec → Timespec)
      (r : Bool × ℕ × NtpTimestampMap)
      → m.allocated ≡ true
      → find_ntp_rx_ts m rx ≡ some r
      → undo_ntp_tx_timestamp_slew add_offset m rx tx_ts ≡ some (undo_found add_offset tx_ts r)
  unfolding undo_ntp_tx_timestamp_slew
  undo-some m rx tx_ts add_offset r t e = rw (e, t)

  disable-some :
      (m : NtpTimestampMap) (rx : ℕ) (r : Bool × ℕ × NtpTimestampMap)
      → m.allocated ≡ true
      → find_ntp_rx_ts m rx ≡ some r
      → disable_ntp_timestamps m rx
        ≡ some (record (disable_found r) {
          total_ntp_interleaved_hits = ((disable_found r).total_ntp_interleaved_hits + 1) % word64;
        })
  unfolding disable_ntp_timestamps
  disable-some m rx r t e = rw (e, t)

  call-Returns : (m : NtpTimestampMap) (c : Call) → IsValid m → Returns (call m c)
  unfolding Returns call undo_ntp_tx_timestamp_slew update_ntp_tx_timestamp get_ntp_tx_timestamp
      disable_ntp_timestamps
  call-Returns m (save rx tx_ts tx_src) v =
      save_ntp_timestamps-IsValid ntp64_to_timespec m (ntp64_to_int64 rx) tx_ts tx_src v
        (ntp64_to_int64-bound rx) active
  call-Returns m (undo rx tx_ts add_offset) v =
      let (r, e, finds) = find_ntp_rx_ts-scan m (ntp64_to_int64 rx) v (ntp64_to_int64-bound rx) in
      elim (Bool-cases m.allocated) [
        | inl t ↦ (
          _,
          ap (λ o. o >>= λ r. some r.1) (undo-some m _ tx_ts add_offset r t e),
          undo_found-IsValid m (ntp64_to_int64 rx) tx_ts add_offset r finds,
        )
        | inr f ↦ (m, rw f refl, v)
      ]
  call-Returns m (update rx tx_ts tx_src) v =
      let (r, e, finds) = find_ntp_rx_ts-scan m (ntp64_to_int64 rx) v (ntp64_to_int64-bound rx) in
      elim (Bool-cases m.allocated) [
        | inl t ↦ (
          _,
          update-some m _ tx_ts tx_src r t e,
          update_found-IsValid m (ntp64_to_int64 rx) tx_ts tx_src r finds,
        )
        | inr f ↦ (m, rw f refl, v)
      ]
  call-Returns m (get rx) v =
      let (r, e, finds) = find_ntp_rx_ts-scan m (ntp64_to_int64 rx) v (ntp64_to_int64-bound rx) in
      elim (Bool-cases m.allocated) [
        | inl t ↦ (
          _,
          ap (λ o. o >>= λ r. some r.1) (get_ntp_tx_timestamp-some ntp64_to_timespec m _ r t e),
          get_found-IsValid m (ntp64_to_int64 rx) r finds,
        )
        | inr f ↦ (m, rw f refl, v)
      ]
  call-Returns m (disable rx) v =
      let (r, e, finds) = find_ntp_rx_ts-scan m (ntp64_to_int64 rx) v (ntp64_to_int64-bound rx) in
      elim (Bool-cases m.allocated) [
        | inl t ↦ (
          _,
          disable-some m _ r t e,
          count-IsValid _ _ (disable_found-IsValid m (ntp64_to_int64 rx) r finds),
        )
        | inr f ↦ (m, rw f refl, v)
      ]
  call-Returns m (slew unknown) v = (handle_slew m unknown, refl, handle_slew-IsValid m unknown v)

  run-Returns : (m : NtpTimestampMap) (cs : List Call) → IsValid m → Returns (run m cs)
  unfolding Returns run
  run-Returns m [] v = (m, refl, v)
  run-Returns m (c ∷ cs) v =
      let (m', e, v') = call-Returns m c v in
      let (m'', e', v'') = run-Returns m' cs v' in (m'', rw e e', v'')

  initial_map-IsValid :
      (memory : ℕ → NtpTimestamps) (max_size : ℕ)
      → 0 < max_size
      → max_size ≤ 2 ^ 24
      → IsValid (initial_map memory max_size)
  unfolding IsCached
  initial_map-IsValid memory max_size h k = record {
    room = h;
    small = k;
    inside = h;
    fits = omega arith;
    ordered = record {
      range = λ i h. absurd (omega arith);
      near = λ i h. absurd (omega arith);
      rising = λ i j l h. absurd (omega arith);
    };
    cached = inl refl;
  }

  -- From the map of a buffer of 1 to 2^24 timestamps, whatever its memory holds, every sequence of
  -- calls returns: no assertion fails and no search runs on. It leaves a valid map.
  pub run-IsValid :
      (memory : ℕ → NtpTimestamps) (max_size : ℕ) (cs : List Call)
      → 0 < max_size
      → max_size ≤ 2 ^ 24
      → (m : NtpTimestampMap) × (run (initial_map memory max_size) cs ≡ some m) × IsValid m
  unfolding Returns
  run-IsValid memory max_size cs h k =
      run-Returns (initial_map memory max_size) cs (initial_map-IsValid memory max_size h k)

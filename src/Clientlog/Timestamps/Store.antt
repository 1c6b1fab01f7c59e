-- ===== src/Clientlog/Timestamps/Store.antt =====
-- clientlog.c: saving, updating and reading the timestamps of the map.
--
-- `UTI_Ntp64ToTimespec`, which divides in floating point, is an argument. `none` is a failed assertion
-- or a loop whose fuel has run out.
use chrony.Common.{
  ℕ, zero, suc, ◌+◌, ◌-◌, ◌%◌, ◌^◌, Bool, true, false, not, ◌&&◌, ◌||◌, Option, none, some, ◌>>=◌,
  if◌then◌else◌, ltb, leb, ◌==◌,
}
use chrony.Common.Signed.{pos, negsuc, ltb_ℤ, ◌+ℤ◌, ◌-ℤ◌, ◌*ℤ◌}
use chrony.Util.Time.{Timespec, nsec_per_sec, normalise_timespec, diff_timespecs, zero_timespec}
use chrony.Clientlog.Timestamps.{
  NtpTimestamps, NtpTimestampMap, get_ntp_tss, set_ntp_tss, sub64, word64, find_ntp_rx_ts,
}

abbrev pub ntpts_future_limit : ℕ
ntpts_future_limit = 2 ^ 32

abbrev pub ntpts_insert_limit : ℕ
ntpts_insert_limit = 64

-- Room for one more timestamp: the index where it goes, and the map.
unfoldable pub push_ntp_tss : NtpTimestampMap → ℕ → ℕ × NtpTimestampMap
push_ntp_tss m index =
    if ltb m.size m.max_size
    then (index, record m { size = m.size + 1 })
    else (if ltb 0 index then index - 1 else index, record m { first = (m.first + 1) % m.max_size })

-- The size after the timestamps in distant future are trimmed.
unfoldable pub trim : NtpTimestampMap → ℕ → ℕ → ℕ → ℕ
trim m rx index zero = zero
trim m rx index (suc size) =
    let rest = trim m rx index size in
    if ltb index (suc size) && ltb ntpts_future_limit (sub64 (get_ntp_tss m size).rx_ts rx)
    then rest
    else suc size

-- `for (i = size - 1; i > index; i--)`, which moves the timestamps behind the index by one.
unfoldable pub move_up : ℕ → ℕ → NtpTimestampMap → NtpTimestampMap
move_up zero index m = m
move_up (suc i) index m =
    let rest = move_up i index (set_ntp_tss m (suc i) (get_ntp_tss m i)) in
    if ltb index (suc i) then rest else m

-- The index where the new timestamp is written, after room has been made there.
unfoldable pub make_room : NtpTimestampMap → ℕ → ℕ → ℕ × NtpTimestampMap
make_room m rx index =
    if index == m.size
    then push_ntp_tss m index
    else (let trimmed : NtpTimestampMap = record m { size = trim m rx index m.size } in
        if leb trimmed.size (index + ntpts_insert_limit)
        then (let pushed = push_ntp_tss trimmed index in
            (pushed.0, move_up (pushed.1.size - 1) pushed.0 pushed.1))
        else (if ltb 0 index then index - 1 else index, trimmed))

-- `|= NTPTS_DISABLED` at an index.
unfoldable pub disable_at : NtpTimestampMap → ℕ → NtpTimestampMap
disable_at m index = set_ntp_tss m index (record (get_ntp_tss m index) { disabled = true })

module _ (ntp64_to_timespec : ℕ → Timespec) where
  unfoldable pub set_ntp_tx : NtpTimestamps → ℕ → Option Timespec → ℕ → NtpTimestamps
  set_ntp_tx tss rx_ts none tx_src = record tss { valid_tx = false }
  set_ntp_tx tss rx_ts (some tx_ts) tx_src =
      let ts = diff_timespecs tx_ts (ntp64_to_timespec rx_ts) in
      if ltb_ℤ ts.tv_sec (negsuc 1) || ltb_ℤ (pos 1) ts.tv_sec
      then record tss { valid_tx = false }
      else record tss {
        tx_ts_offset = pos ts.tv_nsec +ℤ ts.tv_sec *ℤ pos nsec_per_sec;
        valid_tx = true;
        tx_ts_source = tx_src;
      }

  -- `*tx_ts` and `*tx_src`
  unfoldable pub get_ntp_tx : NtpTimestamps → Timespec × ℕ
  get_ntp_tx tss =
      let rx = ntp64_to_timespec tss.rx_ts in
      (
        if tss.valid_tx
            then (if ltb_ℤ tss.tx_ts_offset (pos nsec_per_sec)
                then normalise_timespec rx.tv_sec (pos rx.tv_nsec +ℤ tss.tx_ts_offset)
                else normalise_timespec (rx.tv_sec +ℤ pos 1)
                    (pos rx.tv_nsec +ℤ (tss.tx_ts_offset -ℤ pos nsec_per_sec)))
            else zero_timespec,
        tss.tx_ts_source,
      )

  -- The new timestamp at its index.
  unfoldable pub write_new : NtpTimestampMap → ℕ → ℕ → Option Timespec → ℕ → NtpTimestampMap
  write_new m index rx tx_ts tx_src =
      let tss : NtpTimestamps = record (get_ntp_tss m index) {
        rx_ts = rx;
        disabled = false;
        valid_tx = false;
        slew_epoch = m.slew_epoch;
      } in
      set_ntp_tss (record m { cached_index = index; cached_rx_ts = rx }) index
        (set_ntp_tx tss rx tx_ts tx_src)

  -- `CLG_SaveNtpTimestamps` behind its first tests.
  unfoldable pub save_found :
      ℕ → Option Timespec → ℕ → Bool × ℕ × NtpTimestampMap → Option NtpTimestampMap
  save_found rx tx_ts tx_src (true, index, m) = some (disable_at m index)
  save_found rx tx_ts tx_src (false, index, m) =
      if leb index m.size
      then (let room = make_room m rx index in some (write_new room.1 room.0 rx tx_ts tx_src))
      else none

  unfoldable pub save_ntp_timestamps :
      Bool → NtpTimestampMap → ℕ → Option Timespec → ℕ → Option NtpTimestampMap
  save_ntp_timestamps active m rx tx_ts tx_src =
      if not active
      then some m
      else (let m' : NtpTimestampMap = record m { allocated = true } in
          if rx == 0 then some m' else (find_ntp_rx_ts m' rx >>= save_found rx tx_ts tx_src))

  -- `CLG_UpdateNtpTxTimestamp`
  unfoldable pub update_found :
      ℕ → Option Timespec → ℕ → Bool × ℕ × NtpTimestampMap → NtpTimestampMap
  update_found rx tx_ts tx_src (true, index, m) =
      set_ntp_tss m index (set_ntp_tx (get_ntp_tss m index) rx tx_ts tx_src)
  update_found rx tx_ts tx_src (false, index, m) = m

  unfoldable pub update_ntp_tx_timestamp :
      NtpTimestampMap → ℕ → Option Timespec → ℕ → Option NtpTimestampMap
  update_ntp_tx_timestamp m rx tx_ts tx_src =
      if not m.allocated
      then some m
      else (find_ntp_rx_ts m rx >>= λ r. some (update_found rx tx_ts tx_src r))

  -- `CLG_GetNtpTxTimestamp`: the transmit timestamp with its source, or none for 0.
  unfoldable pub get_found : Bool × ℕ × NtpTimestampMap → Option (Timespec × ℕ) × NtpTimestampMap
  get_found (true, index, m) =
      let tss = get_ntp_tss m index in
      if tss.disabled then (none, m) else (some (get_ntp_tx tss), m)
  get_found (false, index, m) = (none, m)

  unfoldable pub get_ntp_tx_timestamp :
      NtpTimestampMap → ℕ → Option (Option (Timespec × ℕ) × NtpTimestampMap)
  get_ntp_tx_timestamp m rx =
      if not m.allocated then some (none, m) else (find_ntp_rx_ts m rx >>= λ r. some (get_found r))

-- What is removed from a transmit timestamp is `UTI_AddDoubleToTimespec` with the offset of the slew.
unfoldable pub undo_found :
    (Timespec → Timespec) → Timespec → Bool × ℕ × NtpTimestampMap → Timespec × NtpTimestampMap
undo_found add_offset tx_ts (true, index, m) = (
  if ((get_ntp_tss m index).slew_epoch + 1) % 2 ^ 16 == m.slew_epoch
      then add_offset tx_ts
      else tx_ts,
  m,
)
undo_found add_offset tx_ts (false, index, m) = (tx_ts, m)

-- `CLG_UndoNtpTxTimestampSlew`
unfoldable pub undo_ntp_tx_timestamp_slew :
    (Timespec → Timespec) → NtpTimestampMap → ℕ → Timespec → Option (Timespec × NtpTimestampMap)
undo_ntp_tx_timestamp_slew add_offset m rx_ts tx_ts =
    if not m.allocated
    then some (tx_ts, m)
    else (find_ntp_rx_ts m rx_ts >>= λ r. some (undo_found add_offset tx_ts r))

unfoldable pub disable_found : Bool × ℕ × NtpTimestampMap → NtpTimestampMap
disable_found (true, index, m) = disable_at m index
disable_found (false, index, m) = m

-- `CLG_DisableNtpTimestamps`
unfoldable pub disable_ntp_timestamps : NtpTimestampMap → ℕ → Option NtpTimestampMap
disable_ntp_timestamps m rx = if not m.allocated then some m else (do
  r ← find_ntp_rx_ts m rx
  let m' = disable_found r
  some (record m' { total_ntp_interleaved_hits = (m'.total_ntp_interleaved_hits + 1) % word64 }))

-- `handle_slew`, with whether the change is an unknown step.
unfoldable pub handle_slew : NtpTimestampMap → Bool → NtpTimestampMap
handle_slew m unknown_step =
    let epoch = (m.slew_epoch + 1) % 2 ^ 16 in
    if unknown_step
    then record m { size = 0; cached_rx_ts = 0; slew_epoch = epoch }
    else record m { slew_epoch = epoch }

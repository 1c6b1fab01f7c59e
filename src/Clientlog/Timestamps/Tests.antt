-- ===== src/Clientlog/Timestamps/Tests.antt =====
-- clientlog.c: runs of the map on two timestamps.
use chrony.Common.{
  List, [], ◌∷◌, ℕ, ◌+◌, ◌*◌, ◌<◌, Bool, true, false, none, some, if◌then◌else◌, ◌≡◌, inl, arith,
  refl,
}
use chrony.Common.Signed.{pos, ltb_ℤ, ◌-ℤ◌}
use chrony.Util.Time.{Timespec, diff_timespecs, normalise_timespec}
use chrony.Clientlog.Timestamps.{NtpTimestampMap, get_ntp_tss, slot, find_ntp_rx_ts}
use chrony.Clientlog.Timestamps.Store.{save_ntp_timestamps, get_ntp_tx_timestamp}
use chrony.Clientlog.Timestamps.Search.{at}
use chrony.Clientlog.Timestamps.Reference.{scan}
use chrony.Clientlog.Timestamps.Find.{IsValid, IsCached, Finds, find_ntp_rx_ts-scan}
use chrony.Clientlog.Timestamps.Save.{get_ntp_tx_timestamp-save_ntp_timestamps}
use chrony.Clientlog.Timestamps.Runs.{
  NtpInt64, Call, save, get, disable, slew, run, initial_map, run-IsValid,
}
use chrony.Clientlog.Timestamps.Offset.{IsClose}

-- Timestamps 10 and 20 in a buffer of four.
abbrev two_stamps : NtpTimestampMap
two_stamps = record {
  timestamps = λ i. record {
    rx_ts = 10 * i + 10;
    disabled = false;
    valid_tx = false;
    tx_ts_source = 0;
    slew_epoch = 0;
    tx_ts_offset = pos 0;
  };
  allocated = true;
  first = 0;
  size = 2;
  max_size = 4;
  cached_index = 0;
  cached_rx_ts = 0;
  slew_epoch = 0;
  total_ntp_interleaved_hits = 0;
}

at-two_stamps : (i : ℕ) → i < 2 → at two_stamps i ≡ 10 * i + 10
unfolding at get_ntp_tss slot
at-two_stamps i h = omega arith

two_stamps-IsValid : IsValid two_stamps
unfolding IsCached
two_stamps-IsValid =
    let first = at-two_stamps 0 (omega arith) in
    record {
      room = omega arith;
      small = omega arith;
      inside = omega arith;
      fits = omega arith;
      ordered = record {
        range = λ i h. omega (arith, at-two_stamps i h);
        near = λ i h. omega (arith, at-two_stamps i h, first);
        rising = λ i j l h. omega (arith, at-two_stamps i (omega arith), at-two_stamps j h, first);
      };
      cached = inl refl;
    }

-- A receive timestamp counts seconds here.
abbrev seconds : ℕ → Timespec
seconds t = record { tv_sec = pos t; tv_nsec = 0 }

abbrev half_past : Timespec
half_past = record { tv_sec = pos 15; tv_nsec = 500000000 }

find_missing_lem : scan two_stamps 15 2 0 ≡ (false, 1)
unfolding scan at get_ntp_tss slot
find_missing_lem = refl

find_ntp_rx_ts-scan_example :
    (r : Bool × ℕ × NtpTimestampMap) × (find_ntp_rx_ts two_stamps 15 ≡ some r)
    × Finds two_stamps 15 r
find_ntp_rx_ts-scan_example = find_ntp_rx_ts-scan two_stamps 15 two_stamps-IsValid (omega arith)

half_past-IsClose : IsClose half_past (seconds 15)
unfolding IsClose ltb_ℤ diff_timespecs normalise_timespec ◌-ℤ◌
half_past-IsClose = refl

get_ntp_tx_timestamp-save_ntp_timestamps_example :
    (m' : NtpTimestampMap) × (m'' : NtpTimestampMap) × (save_ntp_timestamps seconds true two_stamps
        15
        (some half_past)
        1
      ≡ some m')
    × (get_ntp_tx_timestamp seconds m' 15
        ≡ some (if (scan two_stamps 15 2 0).0 then none else some (half_past, 1), m''))
get_ntp_tx_timestamp-save_ntp_timestamps_example =
    get_ntp_tx_timestamp-save_ntp_timestamps seconds two_stamps 15 (some half_past) 1
      two_stamps-IsValid (omega arith) half_past refl (omega arith) (omega arith) (omega arith)
      half_past-IsClose

-- The receive timestamp 15, in the lower word.
abbrev fifteen : NtpInt64
fifteen = record { hi = 0; lo = 15 }

abbrev some_calls : List Call
some_calls =
    save fifteen (some half_past) 1
    ∷ get fifteen
    ∷ save fifteen none 0
    ∷ disable fifteen
    ∷ slew true
    ∷ []

run-IsValid_example :
    (m : NtpTimestampMap) × (run seconds true (initial_map two_stamps.timestamps 4) some_calls
      ≡ some m)
    × IsValid m
run-IsValid_example =
    run-IsValid seconds true two_stamps.timestamps 4 some_calls (omega arith) (omega arith)

-- ===== src/Clientlog/Timestamps.antt =====
-- clientlog.c: the map from receive to transmit timestamps, for clients in interleaved mode.
--
-- The memory of the circular buffer is a function of the slot. `max_size` is a power of two, so that
-- the mask of `get_ntp_tss` is a remainder. `none` is a loop whose fuel has run out.
pub mod Search
pub mod Reference
pub mod Store
pub mod Find
pub mod Split
pub mod Room
pub mod Slots
pub mod Written
pub mod Offset
pub mod Change
pub mod Saved
pub mod Save
pub mod Runs
mod Tests
use chrony.Common.Signed.{ℤ}
use chrony.Common.{
  ℕ, zero, suc, ◌+◌, ◌-◌, ◌*◌, ◌/◌, ◌%◌, ◌^◌, max, Bool, true, false, not, ◌&&◌, ◌||◌, Option, none,
  some, ◌>>=◌, if◌then◌else◌, ltb, leb, ◌==◌,
}

-- `uint64_t` and `uint32_t`.
abbrev pub word64 : ℕ
word64 = 2 ^ 64

abbrev pub word32 : ℕ
word32 = 2 ^ 32

abbrev pub sub64 : ℕ → ℕ → ℕ
sub64 a b = (a + word64 - b) % word64

-- `(int64_t)x < 0` and `(int64_t)x > 0`
abbrev pub is_negative : ℕ → Bool
is_negative x = leb (2 ^ 63) x

abbrev pub is_positive : ℕ → Bool
is_positive x = ltb 0 x && ltb x (2 ^ 63)

-- The two flags are Boolean values.
pub record NtpTimestamps : Type 0 where
  pub rx_ts : ℕ
  pub disabled : Bool
  pub valid_tx : Bool
  pub tx_ts_source : ℕ
  pub slew_epoch : ℕ
  pub tx_ts_offset : ℤ

-- `allocated` is `timestamps != NULL`. `slew_offset` is floating point and left out. The number of
-- interleaved responses is the one of the server's statistics.
pub record NtpTimestampMap : Type 0 where
  pub timestamps : ℕ → NtpTimestamps
  pub allocated : Bool
  pub first : ℕ
  pub size : ℕ
  pub max_size : ℕ
  pub cached_index : ℕ
  pub cached_rx_ts : ℕ
  pub slew_epoch : ℕ
  pub total_ntp_interleaved_hits : ℕ

-- The slot of an index.
unfoldable pub slot : NtpTimestampMap → ℕ → ℕ
slot m index = (m.first + index) % word32 % m.max_size

unfoldable pub get_ntp_tss : NtpTimestampMap → ℕ → NtpTimestamps
get_ntp_tss m index = m.timestamps (slot m index)

-- A write through the pointer of `get_ntp_tss`.
unfoldable pub set_ntp_tss : NtpTimestampMap → ℕ → NtpTimestamps → NtpTimestampMap
set_ntp_tss m index tss = record m {
  timestamps = λ i. if i == slot m index then tss else m.timestamps i;
}

-- The index strictly between `lo` and `hi` that is closest to `x`.
unfoldable pub keep_between : ℕ → ℕ → ℕ → ℕ
keep_between lo hi x = if leb x lo then lo + 1 else (if leb hi x then hi - 1 else x)

-- The next index to look at, by interpolation in every second round.
unfoldable pub next_index : ℕ → ℕ → ℕ → ℕ → ℕ → ℕ → ℕ
next_index rx_ts i lo hi rx_lo rx_hi =
    let step = sub64 rx_hi rx_lo / (hi - lo) in
    keep_between lo hi (
      if ltb 3 (hi - lo) && i % 2 == 0
      then (lo + sub64 rx_ts rx_lo / (if step == 0 then 1 else step)) % word64 % word32
      else lo + (hi - lo) / 2)

module _ (m : NtpTimestampMap) (rx_ts : ℕ) where
  -- The combined linear interpolation and binary search: whether the timestamp is found, and `*index`.
  unfoldable pub search : ℕ → ℕ → ℕ → ℕ → ℕ → ℕ → Option (Bool × ℕ)
  search zero i lo hi rx_lo rx_hi = none
  search (suc fuel) i lo hi rx_lo rx_hi =
      let x = next_index rx_ts i lo hi rx_lo rx_hi in
      let rx_x = (get_ntp_tss m x).rx_ts in
      let below = not (is_positive (sub64 rx_x rx_ts)) in
      let rest =
        search fuel (i + 1) (if below then x else lo) (if below then hi else x)
          (if below then rx_x else rx_lo) (if below then rx_hi else rx_x) in
      if rx_ts == rx_hi
      then some (true, hi)
      else (if rx_ts == rx_lo
          then some (true, lo)
          else (if lo + 1 == hi then some (false, hi) else rest))

  -- The search behind the test of the cache.
  unfoldable pub find_uncached : Option (Bool × ℕ)
  find_uncached =
      let hi = m.size - 1 in
      let rx_lo = (get_ntp_tss m 0).rx_ts in
      let rx_hi = (get_ntp_tss m hi).rx_ts in
      if m.size == 0
      then some (false, 0)
      else (if is_negative (sub64 rx_ts rx_lo)
          then some (false, 0)
          else (if is_positive (sub64 rx_ts rx_hi)
              then some (false, m.size)
              else search m.size 0 0 hi rx_lo rx_hi))

-- A timestamp that is found is cached.
unfoldable pub cache : NtpTimestampMap → ℕ → Bool × ℕ → Bool × ℕ × NtpTimestampMap
cache m rx_ts (true, index) = (true, index, record m { cached_index = index; cached_rx_ts = rx_ts })
cache m rx_ts (false, index) = (false, index, m)

-- `find_ntp_rx_ts`: the result, `*index`, and the map with its cache.
unfoldable pub find_ntp_rx_ts : NtpTimestampMap → ℕ → Option (Bool × ℕ × NtpTimestampMap)
find_ntp_rx_ts m rx_ts =
    if m.cached_rx_ts == rx_ts && not (rx_ts == 0)
    then some (true, m.cached_index, m)
    else (find_uncached m rx_ts >>= λ r. some (cache m rx_ts r))

-- ===== src/Clientlog/Limits.antt =====
-- clientlog.c: the limiting of the rate of responses with token buckets.
--
-- One service is modelled: a client is its record with the elements of the arrays that the service
-- has, and `dropped` is the bit of the service in `drop_flags`. The total hits and drops are left out.
-- A request is `CLG_LogServiceAccess` and `CLG_LimitServiceRate` on the record that they find.
-- The words of `UTI_GetRandomBytes` are an argument.
pub mod Params
pub mod Bounds
pub mod Budget
mod Tests
use chrony.Common.{
  ℕ, zero, suc, ◌+◌, ◌-◌, ◌*◌, ◌/◌, ◌%◌, ◌^◌, min, Bool, true, false, not, ◌&&◌, ◌||◌,
  if◌then◌else◌, ltb, leb, ◌==◌,
}
use chrony.Common.Signed.{ℤ, pos, negsuc, ltb_ℤ, ◌+ℤ◌, ◌-ℤ◌}
use chrony.Clientlog.Timestamps.{word32}
use chrony.Util.Time.{Timespec, nsec_per_sec}

abbrev ts_frac : ℕ
ts_frac = 4

abbrev pub invalid_ts : ℕ
invalid_ts = 0

abbrev pub rate_scale : ℕ
rate_scale = 4

abbrev pub invalid_rate : ℤ
invalid_rate = negsuc 127

-- `x == INVALID_RATE`
unfoldable pub is_invalid : ℤ → Bool
is_invalid (pos n) = false
is_invalid (negsuc n) = n == 127

pub data Limit : Type 0 where
  pass : Limit
  drop : Limit
  kod : Limit

pub record Bucket : Type 0 where
  pub max_tokens : ℕ
  pub tokens_per_hit : ℕ
  pub token_shift : ℤ
  pub leak_rate : ℕ
  pub kod_rate : ℕ

pub record Client : Type 0 where
  pub last_hit : ℕ
  pub hits : ℕ
  pub drops : ℕ
  pub tokens : ℕ
  pub rate : ℤ
  pub ntp_timeout_rate : ℤ
  pub dropped : Bool

-- The static variables of `limit_response_random`, and the number of random words that were taken.
pub record Random : Type 0 where
  pub rnd : ℕ
  pub bits_left : ℕ
  pub taken : ℕ

-- `get_record`, of a client that is new.
abbrev pub new_client : Bucket → Client
new_client b = record {
  last_hit = invalid_ts;
  hits = 0;
  drops = 0;
  tokens = b.max_tokens;
  rate = invalid_rate;
  ntp_timeout_rate = invalid_rate;
  dropped = false;
}

-- `(uint32_t)ts->tv_sec`
unfoldable pub to_word32 : ℤ → ℕ
to_word32 (pos n) = n % word32
to_word32 (negsuc n) = word32 - 1 - n % word32

-- The right operand of `|` has the low four bits only, which the left one does not have.
unfoldable pub get_ts_from_timespec : ℕ → Timespec → ℕ
get_ts_from_timespec ts_offset ts =
    let sec = to_word32 ts.tv_sec in
    let nsec = (ts.tv_nsec % word32 + ts_offset) % word32 in
    let over = leb nsec_per_sec nsec in
    let sec' = if over then (sec + 1) % word32 else sec in
    let nsec' = if over then nsec - nsec_per_sec else nsec in
    sec' * 2 ^ ts_frac % word32 + 140740 * (nsec' / 2 ^ 15) % word32 / 2 ^ (32 - ts_frac)

-- The tokens for the time between two hits.
unfoldable pub new_tokens : ℤ → ℕ → ℕ → ℕ → ℕ
new_tokens (pos tshift) mtokens prev_hit now_ts =
    (now_ts / 2 ^ tshift + word32 - prev_hit / 2 ^ tshift) % word32
new_tokens (negsuc n) mtokens prev_hit now_ts =
    let interval = (now_ts + word32 - prev_hit) % word32 in
    if ltb mtokens interval then mtokens else interval * 2 ^ suc n % word32

-- The rounds of the loop that takes the logarithm.
unfoldable pub log_rounds : ℕ → ℕ → ℕ
log_rounds zero interval = 0
log_rounds (suc left) interval =
    let rest = log_rounds left (interval / 2) in if leb interval 1 then 0 else suc rest

-- `-interval2`
unfoldable pub scaled_rate : ℕ → ℤ
scaled_rate interval =
    if interval == 0
    then pos (rate_scale * (ts_frac + 1))
    else pos (rate_scale * ts_frac)
      -ℤ pos (rate_scale * log_rounds 18 ((interval + interval / 2) % word32))

-- The division of C, which rounds to zero.
unfoldable pub half : ℤ → ℤ
half (pos n) = pos (n / 2)
half (negsuc n) = pos 0 -ℤ pos (suc n / 2)

-- The rate after a request, from the rate of the last interval.
unfoldable pub update_rate : ℤ → ℤ → ℤ
update_rate rate new_rate =
    if is_invalid rate
    then new_rate
    else (if ltb_ℤ rate new_rate
        then rate +ℤ pos 1
        else (if ltb_ℤ new_rate rate
            then (if ltb_ℤ (pos (rate_scale * 5 / 2) +ℤ new_rate) rate
                then pos (rate_scale * 5 / 2) +ℤ new_rate
                else half (rate +ℤ new_rate -ℤ pos 1))
            else rate))

-- `update_record`, from `now_ts`.
unfoldable pub update_record : Bool → Bucket → Client → ℕ → Client
update_record is_ntp b client now_ts =
    let prev_hit = client.last_hit in
    let hit : Client = record client { last_hit = now_ts; hits = (client.hits + 1) % word32 } in
    let interval = (now_ts + word32 - prev_hit) % word32 in
    let tokens =
      min ((client.tokens + new_tokens b.token_shift b.max_tokens prev_hit now_ts) % word32)
        b.max_tokens in
    let new_rate = scaled_rate interval in
    if prev_hit == invalid_ts || leb (2 ^ 31) interval
    then hit
    else (if is_ntp && client.dropped
        then record hit {
          tokens = tokens;
          ntp_timeout_rate = update_rate client.ntp_timeout_rate new_rate;
        }
        else record hit { tokens = tokens; rate = update_rate client.rate new_rate })

module _ (get_random : ℕ → ℕ) where
  -- The result is whether the response is limited.
  unfoldable pub limit_response_random : ℕ → Random → Bool × Random
  limit_response_random rate r =
      let fresh : Random =
        if ltb r.bits_left rate
        then (record { rnd = get_random r.taken % word32; bits_left = 32; taken = r.taken + 1 })
        else r in
      (
        not (fresh.rnd % 2 ^ rate == 0),
        record fresh { rnd = fresh.rnd / 2 ^ rate; bits_left = fresh.bits_left - rate },
      )

  -- `CLG_LimitServiceRate` when the response is not let through.
  unfoldable pub refuse : Bucket → Client → Random → Limit × Client × Random
  refuse b client r =
      let draw = limit_response_random b.kod_rate r in
      let dropped : Client = record client {
        dropped = true;
        drops = (client.drops + 1) % 2 ^ 16;
      } in
      if ltb 0 b.kod_rate
      then (if draw.0 then (drop, dropped, draw.1) else (kod, client, draw.1))
      else (drop, dropped, r)

  -- Requests at more than twice the rate invert the sense of the leak.
  unfoldable pub is_flooding : Bool → Client → Bool
  is_flooding is_ntp client =
      is_ntp
      && not (is_invalid client.ntp_timeout_rate)
      && ltb_ℤ (client.rate +ℤ pos rate_scale) client.ntp_timeout_rate

  unfoldable pub limit_service_rate : Bool → Bucket → Client → Random → Limit × Client × Random
  limit_service_rate is_ntp b client r =
      let cleared : Client = record client { dropped = false } in
      let draw = limit_response_random b.leak_rate r in
      let drops = if is_flooding is_ntp client then not draw.0 else draw.0 in
      if b.tokens_per_hit == 0
      then (pass, client, r)
      else (if leb b.tokens_per_hit client.tokens
          then (pass, record cleared { tokens = client.tokens - b.tokens_per_hit }, r)
          else (if not drops
              then (pass, record cleared { tokens = 0 }, draw.1)
              else refuse b cleared draw.1))

  -- One request: the limit, and the new state.
  unfoldable pub request : Bool → Bucket → ℕ → Client × Random → Limit × Client × Random
  request is_ntp b now_ts (client, r) =
      limit_service_rate is_ntp b (update_record is_ntp b client now_ts) r

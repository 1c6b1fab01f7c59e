-- ===== src/Clientlog/Limits/Tests.antt =====
-- clientlog.c: runs of the limiting of responses.
use chrony.Common.{ℕ, ◌+◌, ◌*◌, ◌≤◌, true, List, [], ◌∷◌, ◌≡◌, inl, refl, arith}
use chrony.Common.Signed.{pos, pos_part, ltb_ℤ, ◌+ℤ◌, ◌-ℤ◌}
use chrony.Clientlog.Limits.{
  Bucket, Random, request, new_client, update_record, limit_service_rate, limit_response_random,
  refuse, is_flooding, is_invalid, new_tokens, update_rate, scaled_rate, log_rounds,
}
use chrony.Clientlog.Limits.Params.{
  Represents, clamp, set_bucket_params, params_of, find_shift, min_limit_interval,
  max_limit_interval, min_limit_burst, max_limit_burst, set_bucket_params-Represents,
}
use chrony.Clientlog.Limits.Bounds.{IsBounded, IsRate, request-IsBounded}
use chrony.Clientlog.Limits.Budget.{passes, leaks, is_rising, last_time, passes-new_client}

-- The parameters of the default of `ratelimit`: an interval of 2^3 seconds, and a burst of 8.
set_bucket_params_lem :
    set_bucket_params (pos 3) (pos 8) ≡ record { mtokens = 1024; tphit = 128; tshift = pos 0 }
unfolding set_bucket_params params_of find_shift clamp ltb_ℤ ◌+ℤ◌
set_bucket_params_lem = refl

set_bucket_params-Represents_example :
    Represents
      (clamp min_limit_interval (pos 3) max_limit_interval +ℤ pos 4)
      (pos_part (clamp min_limit_burst (pos 8) max_limit_burst))
      (set_bucket_params (pos 3) (pos 8))
set_bucket_params-Represents_example = set_bucket_params-Represents (pos 3) (pos 8)

-- A bucket of two hits, with a token in each tick.
abbrev two_hits : Bucket
two_hits = record {
  max_tokens = 256;
  tokens_per_hit = 128;
  token_shift = pos 0;
  leak_rate = 2;
  kod_rate = 0;
}

abbrev all_ones : ℕ → ℕ
all_ones n = 4294967295

abbrev start : Random
start = record { rnd = 0; bits_left = 0; taken = 0 }

new_client-IsBounded : IsBounded two_hits (new_client two_hits)
unfolding IsRate
new_client-IsBounded = record { capacity = omega arith; rate = inl refl; timeout_rate = inl refl }

request-IsBounded_example :
    IsBounded two_hits (request all_ones true two_hits 1000 (new_client two_hits, start)).1
request-IsBounded_example =
    request-IsBounded all_ones true two_hits (new_client two_hits) start 1000 new_client-IsBounded

-- The requests after the first one, at 1000.
abbrev later_times : List ℕ
later_times = 1016 ∷ 1032 ∷ 1048 ∷ 1064 ∷ []

rising_lem : is_rising 0 (1000 ∷ later_times) ≡ true
unfolding is_rising
rising_lem = refl

-- Two responses take the tokens, and the other requests are dropped.
passes_lem : passes all_ones true two_hits (1000 ∷ later_times) (new_client two_hits, start) ≡ 2
unfolding passes request limit_service_rate update_record new_tokens is_flooding is_invalid
    limit_response_random refuse update_rate scaled_rate ◌-ℤ◌ log_rounds ltb_ℤ ◌+ℤ◌
passes_lem = refl

passes-new_client_example :
    128 * passes all_ones true two_hits (1000 ∷ later_times) (new_client two_hits, start) + 1000
    ≤ 256
      + 1064
      + 128 * leaks all_ones true two_hits (1000 ∷ later_times) (new_client two_hits, start)
unfolding last_time
passes-new_client_example =
    passes-new_client all_ones true two_hits 1000 later_times start rising_lem

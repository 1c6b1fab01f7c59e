-- ===== src/Clientlog/Limits/Bounds.antt =====
-- clientlog.c: the members of a record stay in their ranges.
use chrony.Common.{
  ℕ, zero, suc, ◌+◌, ◌-◌, ◌/◌, ◌%◌, ◌^◌, ◌≤◌, Bool, ◌&&◌, ◌||◌, leb, ◌==◌, ◌≡◌, ◌⊎◌, inl, inr,
  arith, Bool-cases, subst, sym,
}
use chrony.Common.Signed.{ℤ, ltb_ℤ, ◌+ℤ◌, ◌-ℤ◌, pos_part, neg_part}
use chrony.Clientlog.Limits.{
  Bucket, Client, Random, invalid_rate, is_invalid, log_rounds, scaled_rate, half, update_rate,
  update_record, limit_service_rate, refuse, request,
}

-- A rate that is not known, or from 2^-5 to 2^14 seconds between two requests.
unfoldable pub IsRate : ℤ → Type 0
IsRate r = (r ≡ invalid_rate) ⊎ ((pos_part r ≤ 20) × (neg_part r ≤ 56))

-- A record with no more tokens than the bucket holds, and with rates in their range.
pub record IsBounded (b : Bucket) (client : Client) : Type 0 where
  pub capacity : client.tokens ≤ b.max_tokens
  pub rate : IsRate client.rate
  pub timeout_rate : IsRate client.ntp_timeout_rate

log_rounds_bound : (n interval : ℕ) → log_rounds n interval ≤ n
unfolding log_rounds
log_rounds_bound zero interval = omega arith
log_rounds_bound (suc n) interval = ground (arith, log_rounds_bound n (interval / 2))

scaled_rate-range :
    (interval : ℕ) → (pos_part (scaled_rate interval) ≤ 20) × (neg_part (scaled_rate interval) ≤ 56)
unfolding scaled_rate ◌-ℤ◌
scaled_rate-range interval =
    let most = log_rounds_bound 18 ((interval + interval / 2) % 2 ^ 32) in
    elim (Bool-cases (interval == 0)) [
      | inl t ↦ rw t (omega arith, omega arith)
      | inr f ↦ rw f (ground arith, ground arith)
    ]

update_rate-IsRate :
    (rate new_rate : ℤ)
    → IsRate rate
    → pos_part new_rate ≤ 20
    → neg_part new_rate ≤ 56
    → IsRate (update_rate rate new_rate)
unfolding IsRate update_rate is_invalid half ltb_ℤ ◌+ℤ◌ ◌-ℤ◌
update_rate-IsRate rate new_rate (inl e) h k = inr (rw e (h, k))
update_rate-IsRate rate new_rate (inr (l, u)) h k = inr (ground arith, ground arith)

update_record-IsBounded :
    (is_ntp : Bool) (b : Bucket) (client : Client) (now_ts : ℕ)
    → IsBounded b client
    → IsBounded b (update_record is_ntp b client now_ts)
unfolding update_record
update_record-IsBounded is_ntp b client now_ts v =
    let interval = (now_ts + 2 ^ 32 - client.last_hit) % 2 ^ 32 in
    let (high, low) = scaled_rate-range interval in
    elim (Bool-cases (client.last_hit == 0 || leb (2 ^ 31) interval)) [
      | inl t ↦
          rw t (record { capacity = v.capacity; rate = v.rate; timeout_rate = v.timeout_rate })
      | inr f ↦ elim (Bool-cases (is_ntp && client.dropped)) [
        | inl t ↦
            rw (f, t)
              (record {
                capacity = ground arith;
                rate = v.rate;
                timeout_rate = update_rate-IsRate client.ntp_timeout_rate _ v.timeout_rate high low;
              })
        | inr g ↦
            rw (f, g)
              (record {
                capacity = ground arith;
                rate = update_rate-IsRate client.rate _ v.rate high low;
                timeout_rate = v.timeout_rate;
              })
      ]
    ]

-- The bounds are about the tokens and the two rates.
IsBounded-same :
    (b : Bucket) (client client' : Client)
    → IsBounded b client
    → client'.tokens ≤ client.tokens
    → client'.rate ≡ client.rate
    → client'.ntp_timeout_rate ≡ client.ntp_timeout_rate
    → IsBounded b client'
IsBounded-same b client client' v less same same' = record {
  capacity = omega (arith, v.capacity);
  rate = subst IsRate (sym same) v.rate;
  timeout_rate = subst IsRate (sym same') v.timeout_rate;
}

-- What `CLG_LimitServiceRate` leaves of a record.
unfoldable pub Keeps : Client → Client → Type 0
Keeps client client' =
    (client'.tokens ≤ client.tokens)
    × (client'.rate ≡ client.rate)
    × (client'.ntp_timeout_rate ≡ client.ntp_timeout_rate)
    × (client'.last_hit ≡ client.last_hit)

module _ (get_random : ℕ → ℕ) (is_ntp : Bool) (b : Bucket) where
  pub limit_service_rate-Keeps :
      (client : Client) (r : Random)
      → Keeps client (limit_service_rate get_random is_ntp b client r).1
  unfolding Keeps limit_service_rate refuse
  limit_service_rate-Keeps client r = ground arith

  -- If a record has its tokens within the capacity of the bucket and its rates within their range, a
  -- request leaves them so.
  pub request-IsBounded :
      (client : Client) (r : Random) (now_ts : ℕ)
      → IsBounded b client
      → IsBounded b (request get_random is_ntp b now_ts (client, r)).1
  unfolding request Keeps
  request-IsBounded client r now_ts v =
      let hit = update_record is_ntp b client now_ts in
      let (tokens, rate, timeout, last) = limit_service_rate-Keeps hit r in
      IsBounded-same b hit _ (update_record-IsBounded is_ntp b client now_ts v) tokens rate timeout

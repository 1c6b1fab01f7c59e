-- ===== src/Clientlog/Limits/Budget.antt =====
-- clientlog.c: how many responses a client gets.
use native.Mathlib.Nat.{
  le-div_iff_mul-le, div-mul-le_self, div-le_self, mod-le, add-mul, mul-add, one-le-pow,
  mul-le-mul_left,
}
use chrony.Common.{
  ℕ, suc, ◌+◌, ◌-◌, ◌*◌, ◌/◌, ◌%◌, ◌^◌, ◌<◌, ◌≤◌, Bool, true, false, not, ◌&&◌, if◌then◌else◌, ltb,
  leb, ◌≡◌, List, [], ◌∷◌, inl, inr, arith, refl, Bool-cases, ap, ◌∙◌,
}
use chrony.Common.Signed.{ℤ, pos, negsuc}
use chrony.Clientlog.Limits.{
  Bucket, Client, Random, Limit, pass, drop, kod, new_tokens, update_record, limit_service_rate,
  limit_response_random, is_flooding, refuse, request, new_client,
}
use chrony.Clientlog.Limits.Bounds.{Keeps, limit_service_rate-Keeps}

-- The clock of a bucket.
abbrev pub ticks : ℤ → ℕ → ℕ
ticks (pos n) t = t / 2 ^ n
ticks (negsuc n) t = t * 2 ^ suc n

abbrev pub is_pass : Limit → Bool
is_pass pass = true
is_pass drop = false
is_pass kod = false

abbrev one_if : Bool → ℕ
one_if b = if b then 1 else 0

-- The times of requests rise, from a time on.
unfoldable pub is_rising : ℕ → List ℕ → Bool
is_rising prev [] = true
is_rising prev (t ∷ ts) = leb prev t && ltb t (2 ^ 32) && is_rising t ts

unfoldable pub last_time : ℕ → List ℕ → ℕ
last_time prev [] = prev
last_time prev (t ∷ ts) = last_time t ts

new_tokens-ticks :
    (tshift : ℤ) (mtokens prev now : ℕ)
    → prev ≤ now
    → now < 2 ^ 32
    → new_tokens tshift mtokens prev now + ticks tshift prev ≤ ticks tshift now
unfolding new_tokens
new_tokens-ticks (pos n) mtokens prev now h k =
    let positive : 0 < 2 ^ n = one-le-pow n 2 (omega arith) in
    let below = div-mul-le_self prev (2 ^ n) in
    let rise : prev / 2 ^ n ≤ now / 2 ^ n = (le-div_iff_mul-le positive).1 (omega arith) in
    let small : now / 2 ^ n ≤ now = div-le_self now (2 ^ n) in omega arith
new_tokens-ticks (negsuc n) mtokens prev now h k =
    let gap : (now + 2 ^ 32 - prev) % 2 ^ 32 ≡ now - prev = omega arith in
    let positive : 1 ≤ 2 ^ suc n = one-le-pow (suc n) 2 (omega arith) in
    let scaled = mul-le-mul_left (now - prev) positive in
    let whole : now ≡ now - prev + prev = omega arith in
    let parts = ap (λ t. t * 2 ^ suc n) whole ∙ add-mul (now - prev) prev (2 ^ suc n) in
    let cut = mod-le ((now - prev) * 2 ^ suc n) (2 ^ 32) in
    elim (Bool-cases (ltb mtokens (now - prev))) [
      | inl t ↦ rw (gap, t) (ground arith)
      | inr f ↦ rw (gap, f) (omega arith)
    ]

-- The tokens of a record that is hit.
update_record-ticks :
    (is_ntp : Bool) (b : Bucket) (client : Client) (now : ℕ)
    → client.last_hit ≤ now
    → now < 2 ^ 32
    → ((update_record is_ntp b client now).last_hit ≡ now)
      × ((update_record is_ntp b client now).tokens + ticks b.token_shift client.last_hit
          ≤ client.tokens + ticks b.token_shift now)
unfolding update_record
update_record-ticks is_ntp b client now h k =
    let more = new_tokens-ticks b.token_shift b.max_tokens client.last_hit now h k in
    let g = new_tokens b.token_shift b.max_tokens client.last_hit now in
    let cut = mod-le (client.tokens + g) (2 ^ 32) in ground arith

module _ (get_random : ℕ → ℕ) (is_ntp : Bool) (b : Bucket) where
  -- The bucket does not have the tokens, and the random bits let the response through. Of a client
  -- at more than twice the rate it is the other bits that do.
  unfoldable pub is_leak : Client → Random → Bool
  is_leak client r =
      let limited = (limit_response_random get_random b.leak_rate r).0 in
      not (leb b.tokens_per_hit client.tokens)
      && (if is_flooding get_random is_ntp client then limited else not limited)

  -- A response takes its tokens, or it is a leak.
  limit_service_rate-pays :
      (client : Client) (r : Random)
      → (limit_service_rate get_random is_ntp b client r).1.tokens
          + b.tokens_per_hit * one_if (is_pass (limit_service_rate get_random is_ntp b client r).0)
        ≤ client.tokens + b.tokens_per_hit * one_if (is_leak client r)
  unfolding limit_service_rate refuse is_leak
  limit_service_rate-pays client r = ground arith

  -- The number of responses to requests at some times.
  unfoldable pub passes : List ℕ → Client × Random → ℕ
  passes [] state = 0
  passes (t ∷ ts) state =
      let (limit, client', r') = request get_random is_ntp b t state in
      one_if (is_pass limit) + passes ts (client', r')

  -- The number of leaks.
  unfoldable pub leaks : List ℕ → Client × Random → ℕ
  leaks [] state = 0
  leaks (t ∷ ts) (client, r) =
      let (limit, client', r') = request get_random is_ntp b t (client, r) in
      one_if (is_leak (update_record is_ntp b client t) r) + leaks ts (client', r')

  -- The tokens for the responses are those of the record and those of the time that passes.
  unfoldable Budget : List ℕ → Client → Random → Type 0
  Budget ts client r =
      b.tokens_per_hit * passes ts (client, r) + ticks b.token_shift client.last_hit
      ≤ client.tokens
        + ticks b.token_shift (last_time client.last_hit ts)
        + b.tokens_per_hit * leaks ts (client, r)

  -- One response in front of others.
  serve-Budget :
      (t : ℕ) (ts : List ℕ) (hit : Client) (r : Random)
      → hit.last_hit ≡ t
      → is_rising t ts ≡ true
      → ((client : Client) (r : Random) → is_rising client.last_hit ts ≡ true → Budget ts client r)
      → let (limit, client', r') = limit_service_rate get_random is_ntp b hit r in
        b.tokens_per_hit * (one_if (is_pass limit) + passes ts (client', r'))
          + ticks b.token_shift t
        ≤ hit.tokens
          + ticks b.token_shift (last_time t ts)
          + b.tokens_per_hit * (one_if (is_leak hit r) + leaks ts (client', r'))
  unfolding Budget Keeps
  serve-Budget t ts hit r last rising rest =
      let (limit, client', r') = limit_service_rate get_random is_ntp b hit r in
      let paid = limit_service_rate-pays hit r in
      let (tokens, rate, timeout, kept) = limit_service_rate-Keeps get_random is_ntp b hit r in
      let same : client'.last_hit ≡ t = kept ∙ last in
      let after = rest client' r' (rw same rising) in
      let first = ap (ticks b.token_shift) same in
      let final = ap (λ t. ticks b.token_shift (last_time t ts)) same in
      let passed = mul-add b.tokens_per_hit (one_if (is_pass limit)) (passes ts (client', r')) in
      let leaked = mul-add b.tokens_per_hit (one_if (is_leak hit r)) (leaks ts (client', r')) in
      omega arith

  passes-Budget :
      (ts : List ℕ) (client : Client) (r : Random)
      → is_rising client.last_hit ts ≡ true
      → Budget ts client r
  unfolding Budget is_rising last_time passes leaks request
  passes-Budget [] client r h = omega arith
  passes-Budget (t ∷ ts) client r h =
      let later : client.last_hit ≤ t = ground (arith, h) in
      let small : t < 2 ^ 32 = ground (arith, h) in
      let rest : is_rising t ts ≡ true = ground (arith, h) in
      let (last, gained) = update_record-ticks is_ntp b client t later small in
      let served =
        serve-Budget t ts (update_record is_ntp b client t) r last rest
          (λ c r. passes-Budget ts c r) in
      omega arith

  -- A new client whose requests come in the order of their times, which are below 2^32, gets no more
  -- responses than the tokens of a full bucket and of the time since its first request pay for,
  -- besides one for each request without enough tokens that the random bits let through.
  pub passes-new_client :
      (t : ℕ) (ts : List ℕ) (r : Random)
      → is_rising 0 (t ∷ ts) ≡ true
      → b.tokens_per_hit * passes (t ∷ ts) (new_client b, r) + ticks b.token_shift t
        ≤ b.max_tokens
          + ticks b.token_shift (last_time t ts)
          + b.tokens_per_hit * leaks (t ∷ ts) (new_client b, r)
  unfolding is_rising passes leaks request update_record
  passes-new_client t ts r h =
      serve-Budget t ts (update_record is_ntp b (new_client b) t) r refl (ground (arith, h))
        (λ c r. passes-Budget ts c r)

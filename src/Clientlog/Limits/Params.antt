-- ===== src/Clientlog/Limits/Params.antt =====
-- clientlog.c: `set_bucket_params`, the buckets of a configured interval and burst.
use native.Mathlib.Nat.{
  mod-eq_of_lt, mod-lt, mul_comm, mul-le-mul_right, one-le-pow, pow-le-pow_right,
}
use chrony.Common.{
  ℕ, zero, suc, ◌+◌, ◌-◌, ◌*◌, ◌%◌, ◌^◌, ◌<◌, ◌≤◌, max, if◌then◌else◌, ltb, ◌≡◌, inl, inr, arith,
  refl, Bool-cases,
}
use chrony.Common.Signed.{ℤ, pos, negsuc, ltb_ℤ, ◌+ℤ◌, pos_part, neg_part}

abbrev pub min_limit_interval : ℤ
min_limit_interval = negsuc 18

abbrev pub max_limit_interval : ℤ
max_limit_interval = pos 12

abbrev pub min_limit_burst : ℤ
min_limit_burst = pos 1

abbrev pub max_limit_burst : ℤ
max_limit_burst = pos 255

-- `CLAMP`
unfoldable pub clamp : ℤ → ℤ → ℤ → ℤ
clamp least x most =
    let low = if ltb_ℤ x most then x else most in if ltb_ℤ low least then least else low

-- `*mtokens`, `*tphit` and `*tshift`
pub record Params : Type 0 where
  pub mtokens : ℕ
  pub tphit : ℕ
  pub tshift : ℤ

-- The loop for the smallest shift, with the number of shifts that are left.
unfoldable pub find_shift : ℕ → ℕ → ℕ → ℕ
find_shift burst tshift zero = tshift
find_shift burst tshift (suc left) =
    let rest = find_shift burst (tshift + 1) left in
    if ltb (burst * 2 ^ suc left) (2 ^ 16) then tshift else rest

-- From `interval + TS_FRAC` and the burst, both clamped.
unfoldable pub params_of : ℤ → ℕ → Params
params_of (pos n) burst =
    let tshift = find_shift burst 0 n in
    let tphit = 2 ^ (n - tshift) % 2 ^ 16 in
    record { mtokens = tphit * burst % 2 ^ 16; tphit = tphit; tshift = pos tshift }
params_of (negsuc n) burst = record {
  mtokens = 1 * max (2 ^ suc n) burst % 2 ^ 16;
  tphit = 1;
  tshift = negsuc n;
}

unfoldable pub set_bucket_params : ℤ → ℤ → Params
set_bucket_params interval burst =
    params_of (clamp min_limit_interval interval max_limit_interval +ℤ pos 4)
      (pos_part (clamp min_limit_burst burst max_limit_burst))

find_shift-fits :
    (burst tshift left : ℕ)
    → burst < 2 ^ 16
    → (find_shift burst tshift left ≤ tshift + left)
      × (burst * 2 ^ (tshift + left - find_shift burst tshift left) < 2 ^ 16)
unfolding find_shift
find_shift-fits burst tshift zero h =
    let done : tshift + 0 - tshift ≡ 0 = omega arith in (omega arith, rw done (omega arith))
find_shift-fits burst tshift (suc left) h =
    let (upper, fits) = find_shift-fits burst (tshift + 1) left h in
    let rest : tshift + suc left - tshift ≡ suc left = omega arith in
    let next : tshift + 1 + left ≡ tshift + suc left = omega arith in
    elim (Bool-cases (ltb (burst * 2 ^ suc left) (2 ^ 16))) [
      | inl t ↦ rw (t, rest) (omega arith, ground (arith, t))
      | inr f ↦ rw f (omega arith, rw⁻¹ next fits)
    ]

clamp-interval :
    (x : ℤ)
    → (pos_part (clamp min_limit_interval x max_limit_interval +ℤ pos 4) ≤ 16)
      × (neg_part (clamp min_limit_interval x max_limit_interval +ℤ pos 4) ≤ 15)
unfolding clamp ltb_ℤ ◌+ℤ◌
clamp-interval x = (ground arith, ground arith)

clamp-burst :
    (x : ℤ)
    → (0 < pos_part (clamp min_limit_burst x max_limit_burst))
      × (pos_part (clamp min_limit_burst x max_limit_burst) < 2 ^ 8)
unfolding clamp ltb_ℤ
clamp-burst x = (ground arith, ground arith)

-- The parameters of a bucket that stand for an interval and a burst: a shift and a cost of a hit with
-- the interval between them, and the capacity of a burst, or of the tokens of one tick of the clock,
-- in 16 bits.
pub record Represents (interval : ℤ) (burst : ℕ) (p : Params) : Type 0 where
  pub shift : pos_part p.tshift ≤ pos_part interval
  pub coarse : neg_part p.tshift ≡ neg_part interval
  pub cost : p.tphit ≡ 2 ^ (pos_part interval - pos_part p.tshift)
  pub capacity : p.mtokens ≡ p.tphit * max (2 ^ neg_part interval) burst
  pub fits : p.mtokens < 2 ^ 16
  pub positive : 0 < p.tphit
  pub holds : p.tphit ≤ p.mtokens

params_of-Represents :
    (interval : ℤ) (burst : ℕ)
    → pos_part interval ≤ 16
    → neg_part interval ≤ 15
    → 0 < burst
    → burst < 2 ^ 8
    → Represents interval burst (params_of interval burst)
unfolding params_of
params_of-Represents (pos n) burst h k lower upper =
    let (le, fits) = find_shift-fits burst 0 n (omega arith) in
    let cost = 2 ^ (n - find_shift burst 0 n) in
    let same : 0 + n - find_shift burst 0 n ≡ n - find_shift burst 0 n = omega arith in
    let fits' : burst * cost < 2 ^ 16 = rw⁻¹ same fits in
    let most : 1 * cost ≤ burst * cost = mul-le-mul_right cost lower in
    let turn : cost * burst ≡ burst * cost = mul_comm cost burst in
    let whole : cost % 2 ^ 16 ≡ cost = mod-eq_of_lt (omega arith) in
    let product : cost * burst % 2 ^ 16 ≡ cost * burst = mod-eq_of_lt (omega arith) in
    let only : max 1 burst ≡ burst = ground arith in
    record {
      shift = omega arith;
      coarse = refl;
      cost = whole;
      capacity = rw (whole, only) product;
      fits = mod-lt _ (omega arith);
      positive = rw whole (one-le-pow _ _ (omega arith));
      holds = rw (whole, product) (omega arith);
    }
params_of-Represents (negsuc n) burst h k lower upper =
    let power : 2 ^ suc n ≤ 2 ^ 15 = pow-le-pow_right (omega arith) k in
    let product : 1 * max (2 ^ suc n) burst % 2 ^ 16 ≡ 1 * max (2 ^ suc n) burst =
      mod-eq_of_lt (ground arith) in
    let more : burst ≤ max (2 ^ suc n) burst = ground arith in
    record {
      shift = omega arith;
      coarse = refl;
      cost = refl;
      capacity = product;
      fits = mod-lt _ (omega arith);
      positive = omega arith;
      holds = rw product (omega arith);
    }

-- The parameters of any interval and burst stand for the clamped ones: nothing is cut off at 16 bits,
-- and the bucket holds at least one hit.
pub set_bucket_params-Represents :
    (interval burst : ℤ)
    → Represents
        (clamp min_limit_interval interval max_limit_interval +ℤ pos 4)
        (pos_part (clamp min_limit_burst burst max_limit_burst))
        (set_bucket_params interval burst)
unfolding set_bucket_params
set_bucket_params-Represents interval burst =
    let (high, low) = clamp-interval interval in
    let (least, most) = clamp-burst burst in params_of-Represents _ _ high low least most

-- ===== src/AddrFilt/Digits.antt =====
-- addrfilt.c: the digits that `get_subnet` reads from an address, and the subnets in terms of the
-- bits of its words.
use native.Mathlib.Nat.{div-div-eq-div-mul, pow-suc, mul_assoc, add-zero, div-one}
use chrony.Common.{
  ℕ, zero, suc, ◌+◌, ◌-◌, ◌*◌, ◌/◌, ◌%◌, ◌^◌, ◌<◌, ◌≤◌, Bool, true, false, List, [], ◌∷◌, ◌++◌,
  append_assoc, if◌then◌else◌, ◌==◌, ◌≡◌, ◌&&◌, ◌∙◌, length, length-append, get_elem?, some, arith,
  refl, ap, sym, subst, leb, Bool-cases, inl, inr,
}
use chrony.AddrFilt.{get_subnet}
use chrony.AddrFilt.Spec.{covers}
use chrony.AddrFilt.Descend.{Reads}

-- The last `m` digits of a 32-bit word.
abbrev pub word_digits : ℕ → ℕ → List ℕ
word_digits zero w = []
word_digits (suc m) w = (w / 2 ^ (4 * m) % 16) ∷ word_digits m w

abbrev pub digits : List ℕ → List ℕ
digits [] = []
digits (w ∷ ws) = word_digits 8 w ++ digits ws

-- Two addresses, as lists of 32-bit words, agree in the first `bits` bits.
unfoldable pub same_subnet : ℕ → List ℕ → List ℕ → Bool
same_subnet bits (a ∷ as') (b ∷ bs) =
    if leb bits 32
    then a / 2 ^ (32 - bits) == b / 2 ^ (32 - bits)
    else a == b && same_subnet (bits - 32) as' bs
same_subnet bits [] [] = true
same_subnet bits _ _ = false

-- 32-bit words.
abbrev pub AllWords : List ℕ → Type 0
AllWords [] = Unit
AllWords (w ∷ ws) = (w < 2 ^ 32) × AllWords ws

pub length-digits : (ws : List ℕ) → length (digits ws) ≡ 8 * length ws
length-digits [] = refl
length-digits (w ∷ ws) = omega (arith, length-digits ws)

get_elem?-append_lem : (pre ws : List ℕ) (w : ℕ) → get_elem? (pre ++ (w ∷ ws)) (length pre) ≡ some w
get_elem?-append_lem [] ws w = refl
get_elem?-append_lem (x ∷ pre) ws w = get_elem?-append_lem pre ws w

get_subnet-word :
    (pre ws : List ℕ) (w m : ℕ)
    → m < 8
    → get_subnet (pre ++ (w ∷ ws)) (32 * length pre + (28 - 4 * m)) ≡ some (w / 2 ^ (4 * m) % 16)
unfolding get_subnet
get_subnet-word pre ws w m h =
    let e : (32 * length pre + (28 - 4 * m)) / 32 ≡ length pre = omega arith in
    let o : 32 - 4 - (32 * length pre + (28 - 4 * m)) % 32 ≡ 4 * m = omega arith in
    rw (e, get_elem?-append_lem pre ws w, o) refl

Reads-at : (ip : List ℕ) {c c' : ℕ} (ds : List ℕ) → c ≡ c' → Reads ip c' ds → Reads ip c ds
Reads-at ip ds e r = rw e r

Reads-word :
    (pre : List ℕ) (w : ℕ) (ws : List ℕ) (m : ℕ)
    → m ≤ 8
    → Reads (pre ++ (w ∷ ws)) (32 * length pre + (32 - 4 * m)) (word_digits m w ++ digits ws)
Reads-word pre w [] zero h = tt
Reads-word pre w (v ∷ vs) zero h =
    Reads-at (pre ++ (w ∷ v ∷ vs)) {c' = 32 * length (pre ++ (w ∷ [])) + 0} (digits (v ∷ vs))
      (omega (arith, length-append pre (w ∷ [])))
      (subst (λ ip. Reads ip (32 * length (pre ++ (w ∷ [])) + 0) (digits (v ∷ vs)))
        (append_assoc pre (w ∷ []) (v ∷ vs)) (Reads-word (pre ++ (w ∷ [])) v vs 8 (omega arith)))
Reads-word pre w ws (suc m) h = (
  rw at_digit (get_subnet-word pre ws w m (omega arith)),
  omega arith,
  Reads-at (pre ++ (w ∷ ws)) {c' = 32 * length pre + (32 - 4 * m)} (word_digits m w ++ digits ws)
      (omega arith) (Reads-word pre w ws m (omega arith)),
)
  where
    at_digit : 32 * length pre + (32 - 4 * suc m) ≡ 32 * length pre + (28 - 4 * m)
    at_digit = omega arith

-- Every digit of an address is read inside the array of its words.
pub Reads-digits : (ip : List ℕ) → Reads ip 0 (digits ip)
Reads-digits [] = tt
Reads-digits (w ∷ ws) = Reads-word [] w ws 8 (omega arith)

pow_add : (e j : ℕ) → 2 ^ (e + j) ≡ 2 ^ e * 2 ^ j
pow_add e zero = rw add-zero (omega arith)
pow_add e (suc j) =
    let next : e + suc j ≡ suc (e + j) = omega arith in
    rw (next, pow-suc 2 (e + j), pow-suc 2 j, pow_add e j) (mul_assoc (2 ^ e) (2 ^ j) 2)

div_pow : (w e j : ℕ) → w / 2 ^ (e + j) ≡ w / 2 ^ e / 2 ^ j
div_pow w e j = rw (pow_add e j) (sym (div-div-eq-div-mul w (2 ^ e) (2 ^ j)))

-- A subnet of at most the digits of one word.
covers-word :
    (m bits a b : ℕ) (xs ys : List ℕ)
    → bits ≤ 4 * m
    → (covers bits (word_digits m b ++ ys) (word_digits m a ++ xs)
        && (a / 2 ^ (4 * m) == b / 2 ^ (4 * m)))
      ≡ (a / 2 ^ (4 * m - bits) == b / 2 ^ (4 * m - bits))
unfolding covers
covers-word m zero a b xs ys h = let f : 4 * m - 0 ≡ 4 * m = omega arith in rw f
covers-word zero (suc bits) a b xs ys h = absurd (omega arith)
covers-word (suc m) (suc zero) a b xs ys h =
    let e : 4 * suc m ≡ 4 * m + 4 = omega arith in
    let f : 4 * m + 4 - 1 ≡ 4 * m + 3 = omega arith in
    rw (e, f, div_pow a (4 * m) 4, div_pow b (4 * m) 4, div_pow a (4 * m) 3, div_pow b (4 * m) 3)
      (ground arith)
covers-word (suc m) (suc (suc zero)) a b xs ys h =
    let e : 4 * suc m ≡ 4 * m + 4 = omega arith in
    let f : 4 * m + 4 - 2 ≡ 4 * m + 2 = omega arith in
    rw (e, f, div_pow a (4 * m) 4, div_pow b (4 * m) 4, div_pow a (4 * m) 2, div_pow b (4 * m) 2)
      (ground arith)
covers-word (suc m) (suc (suc (suc zero))) a b xs ys h =
    let e : 4 * suc m ≡ 4 * m + 4 = omega arith in
    let f : 4 * m + 4 - 3 ≡ 4 * m + 1 = omega arith in
    rw (e, f, div_pow a (4 * m) 4, div_pow b (4 * m) 4, div_pow a (4 * m) 1, div_pow b (4 * m) 1)
      (ground arith)
covers-word (suc m) (suc (suc (suc (suc bits)))) a b xs ys h =
    let e : 4 * suc m ≡ 4 * m + 4 = omega arith in
    let f : 4 * m + 4 - suc (suc (suc (suc bits))) ≡ 4 * m - bits = omega arith in
    rw (e, f, div_pow a (4 * m) 4, div_pow b (4 * m) 4)
      (ground (arith, covers-word m bits a b xs ys (omega arith)))

digit_split :
    (c : Bool) (x y : ℕ) → ((x % 16 == y % 16 && c) && (x / 2 ^ 4 == y / 2 ^ 4)) ≡ (c && (x == y))
digit_split true x y = ground arith
digit_split false x y = ground arith

-- A subnet of all digits of one word and `r` more bits.
covers-append :
    (m r a b : ℕ) (xs ys : List ℕ)
    → (covers (4 * m + r) (word_digits m b ++ ys) (word_digits m a ++ xs)
        && (a / 2 ^ (4 * m) == b / 2 ^ (4 * m)))
      ≡ (a == b && covers r ys xs)
unfolding covers
covers-append zero r a b xs ys =
    let e : 0 + r ≡ r = omega arith in rw (e, div-one a, div-one b) (ground arith)
covers-append (suc m) r a b xs ys =
    let e : 4 * suc m + r ≡ suc (suc (suc (suc (4 * m + r)))) = omega arith in
    let f : 4 * suc m ≡ 4 * m + 4 = omega arith in
    rw (e, f, div_pow a (4 * m) 4, div_pow b (4 * m) 4)
      (digit_split (covers (4 * m + r) (word_digits m b ++ ys) (word_digits m a ++ xs))
          (a / 2 ^ (4 * m)) (b / 2 ^ (4 * m))
        ∙ covers-append m r a b xs ys)

lt_of_leb : (n : ℕ) → leb n 32 ≡ false → 32 < n
lt_of_leb n h = ground arith

-- The digits of a subnet agree exactly when its bits do.
pub covers-digits :
    (bits : ℕ) (addr ip : List ℕ)
    → AllWords addr
    → AllWords ip
    → length addr ≡ length ip
    → bits ≤ 32 * length ip
    → covers bits (digits ip) (digits addr) ≡ same_subnet bits addr ip
unfolding same_subnet
covers-digits zero [] [] wa wi l h = unfold covers in refl
covers-digits (suc bits) [] [] wa wi l h = absurd (omega arith)
covers-digits bits [] (b ∷ bs) wa wi l h = absurd (omega arith)
covers-digits bits (a ∷ as') [] wa wi l h = absurd (omega arith)
covers-digits bits (a ∷ as') (b ∷ bs) wa wi l h = elim (Bool-cases (leb bits 32)) [
  | inl within ↦ ground (arith, covers-word 8 bits a b (digits as') (digits bs))
  | inr past ↦
      let e : bits ≡ 4 * 8 + (bits - 32) = omega (arith, lt_of_leb bits past) in
      let rest = covers-digits (bits - 32) as' bs wa.1 wi.1 (omega arith) (omega arith) in
      ground (
        arith,
        covers-append 8 (bits - 32) a b (digits as') (digits bs),
        ap (λ n. covers n (digits (b ∷ bs)) (digits (a ∷ as'))) e,
        rest,
      )
]

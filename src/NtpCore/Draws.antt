-- ===== src/NtpCore/Draws.antt =====
-- The loops of `transmit_packet` that draw random timestamps.
use chrony.Common.{
  ℕ, Bool, true, false, not, ◌&&◌, Option, none, some, List, [], ◌∷◌, ◌>>=◌, if◌then◌else◌, ◌==◌,
  map, ◌≡◌, ◌≢◌, ◌⊎◌, inl, inr, arith, Bool-cases, refl, ap, sym, subst,
}
use chrony.Common.Signed.{ℤ}
use chrony.Util.Ntp64.{is_zero_ntp64, is_equal, is_equal_any_ntp64, eq_of_parts64, zero_ntp64}
use chrony.Clientlog.Timestamps.Runs.{NtpInt64}
use chrony.NtpCore.{LocalTimestamp, mode_client}
use chrony.Util.Time.{Timespec}
use chrony.NtpCore.Transmit.{
  TransmitIo, draw, is_unknown, turns, receive_time, receive_turns, transmit_turns,
  received_timestamps, is_shorter, transmit_packet,
}

-- Candidates of which the first four are different.
pub record FourDiffer (candidates : List NtpInt64) : Type 0 where
  pub a : NtpInt64
  pub b : NtpInt64
  pub c : NtpInt64
  pub d : NtpInt64
  pub rest : List NtpInt64
  pub start : candidates ≡ a ∷ b ∷ c ∷ d ∷ rest
  pub a_b : a ≢ b
  pub a_c : a ≢ c
  pub a_d : a ≢ d
  pub b_c : b ≢ c
  pub b_d : b ≢ d
  pub c_d : c ≢ d

is_equal-eq : (a : NtpInt64) (o : Option NtpInt64) → is_equal a o ≡ true → o ≡ some a
is_equal-eq a none h = cc h
is_equal-eq a (some b) h = ap some (eq_of_parts64 b a (ground arith) (ground arith))

equal_one :
    (a : NtpInt64) (b1 b2 b3 : Option NtpInt64)
    → is_equal_any_ntp64 a b1 b2 b3 ≡ true
    → (b1 ≡ some a) ⊎ (b2 ≡ some a) ⊎ (b3 ≡ some a)
unfolding is_equal_any_ntp64
equal_one a b1 b2 b3 h = elim (Bool-cases (is_equal a b1)) [
  | inl e ↦ inl (is_equal-eq a b1 e)
  | inr e ↦ elim (Bool-cases (is_equal a b2)) [
    | inl f ↦ inr (inl (is_equal-eq a b2 f))
    | inr f ↦ inr (inr (is_equal-eq a b3 (ground (arith, h, e, f))))
  ]
]

-- A candidate is taken, or it is one of the three.
draw_cases :
    (c : NtpInt64) (cs : List NtpInt64) (b1 b2 b3 : Option NtpInt64)
    → (draw (c ∷ cs) b1 b2 b3 ≡ some c)
      ⊎ ((draw (c ∷ cs) b1 b2 b3 ≡ draw cs b1 b2 b3)
          × ((b1 ≡ some c) ⊎ (b2 ≡ some c) ⊎ (b3 ≡ some c)))
unfolding draw
draw_cases c cs b1 b2 b3 =
    elim (Bool-cases (not (is_zero_ntp64 c) && is_equal_any_ntp64 c b1 b2 b3)) [
      | inl e ↦ inr (rw e refl, equal_one c b1 b2 b3 (ground (arith, e)))
      | inr e ↦ inl (rw e refl)
    ]

-- Three pointers cannot hold four values.
pigeonhole :
    {A : Type 0} (a b c d : A) (b1 b2 b3 : Option A)
    → a ≢ b
    → a ≢ c
    → a ≢ d
    → b ≢ c
    → b ≢ d
    → c ≢ d
    → (b1 ≡ some a) ⊎ (b2 ≡ some a) ⊎ (b3 ≡ some a)
    → (b1 ≡ some b) ⊎ (b2 ≡ some b) ⊎ (b3 ≡ some b)
    → (b1 ≡ some c) ⊎ (b2 ≡ some c) ⊎ (b3 ≡ some c)
    → (b1 ≡ some d) ⊎ (b2 ≡ some d) ⊎ (b3 ≡ some d)
    → ⊥
pigeonhole a b c d b1 b2 b3 ab ac ad bc bd cd p q r s = ground arith

-- A loop of `transmit_packet` ends, at the latest with the fourth different candidate.
draw-ends :
    (cs : List NtpInt64) (b1 b2 b3 : Option NtpInt64) → FourDiffer cs → draw cs b1 b2 b3 ≢ none
draw-ends cs b1 b2 b3 h fails =
    let fails' : draw (h.a ∷ h.b ∷ h.c ∷ h.d ∷ h.rest) b1 b2 b3 ≡ none = rw (sym h.start) fails in
    elim (draw_cases h.a (h.b ∷ h.c ∷ h.d ∷ h.rest) b1 b2 b3) [
      | inl e ↦ cc (e, fails')
      | inr (e, p) ↦ elim (draw_cases h.b (h.c ∷ h.d ∷ h.rest) b1 b2 b3) [
        | inl f ↦ cc (f, e, fails')
        | inr (f, q) ↦ elim (draw_cases h.c (h.d ∷ h.rest) b1 b2 b3) [
          | inl g ↦ cc (g, f, e, fails')
          | inr (g, r) ↦ elim (draw_cases h.d h.rest b1 b2 b3) [
            | inl k ↦ cc (k, g, f, e, fails')
            | inr (k, s) ↦
                pigeonhole h.a h.b h.c h.d b1 b2 b3 h.a_b h.a_c h.a_d h.b_c h.b_d h.c_d p q r s
          ]
        ]
      ]
    ]

-- A time of zero is taken for zero, whatever is drawn.
zeros-end :
    (cs : List NtpInt64) (b1 b2 b3 : Option NtpInt64)
    → FourDiffer cs
    → draw (map (λ c. zero_ntp64) cs) b1 b2 b3 ≢ none
unfolding draw is_zero_ntp64
zeros-end cs b1 b2 b3 h =
    subst (λ l. draw (map (λ c. zero_ntp64) l) b1 b2 b3 ≢ none) (sym h.start) (λ e. cc e)

turns-end :
    (ts : Timespec) (cs : List NtpInt64) (b1 b2 b3 : Option NtpInt64)
    → FourDiffer cs
    → draw (turns ts cs) b1 b2 b3 ≢ none
unfolding turns
turns-end ts cs b1 b2 b3 h = elim (Bool-cases (is_unknown ts)) [
  | inl e ↦ rw e (zeros-end cs b1 b2 b3 h)
  | inr e ↦ rw e (draw-ends cs b1 b2 b3 h)
]

transmit_turns-end :
    (interleaved : Bool) (local_tx : Option LocalTimestamp) (io : TransmitIo)
    (b1 b2 b3 : Option NtpInt64)
    → FourDiffer io.transmit_candidates
    → draw (transmit_turns interleaved local_tx io) b1 b2 b3 ≢ none
unfolding transmit_turns
transmit_turns-end interleaved none io b1 b2 b3 h = draw-ends io.transmit_candidates b1 b2 b3 h
transmit_turns-end false (some local_tx) io b1 b2 b3 h = draw-ends io.transmit_candidates b1 b2 b3 h
transmit_turns-end true (some local_tx) io b1 b2 b3 h =
    turns-end local_tx.ts io.transmit_candidates b1 b2 b3 h

differs : (zero equal : Bool) → (not zero && equal) ≡ false → (zero ≡ true) ⊎ (equal ≡ false)
differs zero equal h = ground arith

-- What is drawn is zero or none of the three.
pub draw-differs :
    (cs : List NtpInt64) (b1 b2 b3 : Option NtpInt64) (c : NtpInt64)
    → draw cs b1 b2 b3 ≡ some c
    → (is_zero_ntp64 c ≡ true) ⊎ (is_equal_any_ntp64 c b1 b2 b3 ≡ false)
unfolding draw
draw-differs [] b1 b2 b3 c e = cc e
draw-differs (x ∷ cs) b1 b2 b3 c e =
    elim (Bool-cases (not (is_zero_ntp64 x) && is_equal_any_ntp64 x b1 b2 b3)) [
      | inl f ↦
          let later : draw cs b1 b2 b3 ≡ some c = ground arith in draw-differs cs b1 b2 b3 c later
      | inr f ↦
          let taken : x ≡ c = ground arith in
          subst (λ y. (is_zero_ntp64 y ≡ true) ⊎ (is_equal_any_ntp64 y b1 b2 b3 ≡ false)) taken
            (differs (is_zero_ntp64 x) (is_equal_any_ntp64 x b1 b2 b3) f)
    ]

-- Of each loop of `transmit_packet` the first four candidates for a time that is not zero differ.
pub record HasCandidates (io : TransmitIo) : Type 0 where
  pub receive : FourDiffer io.receive_candidates
  pub transmit : FourDiffer io.transmit_candidates

bind-some :
    {A : Type 0} {B : Type 0} (o : Option A) (f : A → Option B)
    → o ≢ none
    → ((a : A) → f a ≢ none)
    → (o >>= f) ≢ none
bind-some none f h k = absurd (h refl)
bind-some (some a) f h k = k a

if-some :
    {A : Type 0} (test : Bool) (a b : Option A)
    → a ≢ none
    → b ≢ none
    → (if test then a else b) ≢ none
if-some true a b h k = h
if-some false a b h k = k

some_ne : {A : Type 0} (a : A) → some a ≢ none
some_ne a e = cc e

received-ends :
    (mode : ℕ) (interleaved : Bool) (remote_ntp_rx : Option NtpInt64) (remote_ntp_tx : NtpInt64)
    (local_ntp_rx : Option NtpInt64) (local_ts : LocalTimestamp) (io : TransmitIo)
    → FourDiffer io.receive_candidates
    → received_timestamps mode interleaved remote_ntp_rx remote_ntp_tx local_ntp_rx
        (receive_turns mode local_ts io)
      ≢ none
unfolding received_timestamps receive_turns
received-ends mode interleaved rx tx local_rx local_ts io h =
    if-some (mode == mode_client && not interleaved) _ _ (some_ne (zero_ntp64, zero_ntp64)) (
      bind-some (draw (turns (receive_time mode local_ts io) io.receive_candidates) _ local_rx none)
        _ (turns-end (receive_time mode local_ts io) io.receive_candidates _ local_rx none h)
        (λ receive. some_ne (_, receive)))

-- `transmit_packet` returns, whatever its other arguments, when of each of its two loops the first
-- four candidates for a time that is not zero are different. For a time of zero, such as that of a peer
-- from which nothing came yet, no random bits help: there the loop ends by its test of zero.
pub transmit_packet-ends :
    (mode : ℕ) (interleaved : Bool) (poll : ℤ) (version kod : ℕ) (remote_ntp_rx : Option NtpInt64)
    (remote_ntp_tx : NtpInt64) (local_ts : LocalTimestamp) (local_tx : Option LocalTimestamp)
    (local_ntp_rx local_ntp_tx : Option NtpInt64) (request_length : Option ℕ) (io : TransmitIo)
    → HasCandidates io
    → transmit_packet mode interleaved poll version kod remote_ntp_rx remote_ntp_tx local_ts
        local_tx local_ntp_rx local_ntp_tx request_length io
      ≢ none
unfolding transmit_packet
transmit_packet-ends mode interleaved poll version kod rx tx local_ts local_tx local_rx local_ntp_tx
      len io h =
    bind-some _ _ (received-ends mode _ rx tx local_rx local_ts io h.receive) (λ received.
      if-some io.fields_added _ _
        (bind-some _ _ (transmit_turns-end _ local_tx io _ _ local_ntp_tx h.transmit) (λ transmit.
          if-some (io.authenticated && not (is_shorter len io.length)) _ _ (some_ne _) (some_ne _)))
        (some_ne _))

-- ===== src/NtpCore/Limits.antt =====
-- `NCR_ModifyMinpoll` and `NCR_ModifyMaxpoll`, which call each other.
use chrony.Common.{ℕ, suc, false, some, if◌then◌else◌, ◌≡◌, arith, Bool-cases, inl, inr, refl}
use chrony.Common.Signed.{ℤ, ltb_ℤ}
use chrony.NtpCore.{NcrInstance, is_poll}
use chrony.NtpCore.Poll.{modify_minpoll, modify_maxpoll}

ltb_ℤ_irrefl : (a : ℤ) → ltb_ℤ a a ≡ false
unfolding ltb_ℤ
ltb_ℤ_irrefl a = ground arith

-- The limits with a new minimum, or with a new maximum; the other one follows it.
abbrev pub with_minpoll : NcrInstance → ℤ → NcrInstance
with_minpoll inst poll = record inst {
  minpoll = poll;
  maxpoll = if ltb_ℤ inst.maxpoll poll then poll else inst.maxpoll;
}

abbrev pub with_maxpoll : NcrInstance → ℤ → NcrInstance
with_maxpoll inst poll = record inst {
  maxpoll = poll;
  minpoll = if ltb_ℤ poll inst.minpoll then poll else inst.minpoll;
}

-- The calls of `NCR_ModifyMinpoll` and `NCR_ModifyMaxpoll` end after at most two. An interval
-- between -7 and 24 becomes the limit, and the other limit is moved only as far as it takes to keep
-- the two in order; another interval changes nothing.
pub modify_minpoll-limits :
    (fuel : ℕ) (inst : NcrInstance) (poll : ℤ)
    → (modify_minpoll (suc (suc fuel)) inst poll
        ≡ some (if is_poll poll then with_minpoll inst poll else inst))
      × (modify_maxpoll (suc (suc fuel)) inst poll
          ≡ some (if is_poll poll then with_maxpoll inst poll else inst))
unfolding modify_minpoll modify_maxpoll
modify_minpoll-limits fuel inst poll =
    let same = ltb_ℤ_irrefl poll in
    elim (Bool-cases (is_poll poll)) [
      | inl e ↦ (
        elim (Bool-cases (ltb_ℤ inst.maxpoll poll)) [
          | inl f ↦ rw (e, f, same) refl
          | inr f ↦ rw (e, f) refl
        ],
        elim (Bool-cases (ltb_ℤ poll inst.minpoll)) [
          | inl f ↦ rw (e, f, same) refl
          | inr f ↦ rw (e, f) refl
        ],
      )
      | inr e ↦ (rw e refl, rw e refl)
    ]

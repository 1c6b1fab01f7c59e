-- ===== src/Sched/Files/Highest.antt =====
-- sched.c: the descriptors with handlers, and the highest of them.
use chrony.Common.{
  ℕ, zero, suc, ◌+◌, ◌≤◌, ◌<◌, Bool, true, false, some, List, [], ◌∷◌, ◌++◌, if◌then◌else◌, ltb,
  ◌==◌, ◌≡◌, inl, inr, length, arith, refl, ap, sym, Bool-cases, set, replicate, get_elem?,
}
use chrony.Sched.Files.{FileHandlerEntry, Handlers, no_handler, is_registered, lower_highest}

-- Whether a descriptor has a handler.
abbrev pub has_handler : List FileHandlerEntry → ℕ → Bool
has_handler [] fd = false
has_handler (e ∷ es) zero = is_registered e
has_handler (e ∷ es) (suc fd) = has_handler es fd

-- One more than the highest descriptor with a handler, or 0.
abbrev pub highest : List FileHandlerEntry → ℕ
highest [] = 0
highest (e ∷ es) =
    let rest = highest es in if rest == 0 then (if is_registered e then 1 else 0) else rest + 1

highest-has_handler :
    (es : List FileHandlerEntry) (fd : ℕ) → has_handler es fd ≡ true → fd < highest es
highest-has_handler [] fd h = ground arith
highest-has_handler (e ∷ es) zero h = ground arith
highest-has_handler (e ∷ es) (suc fd) h = ground (arith, highest-has_handler es fd)

has_handler-highest :
    (es : List FileHandlerEntry) (fd : ℕ) → highest es ≡ suc fd → has_handler es fd ≡ true
has_handler-highest [] fd h = ground arith
has_handler-highest (e ∷ es) zero h = ground arith
has_handler-highest (e ∷ es) (suc fd) h = ground (arith, has_handler-highest es fd)

highest-replicate : (n : ℕ) → highest (replicate n no_handler) ≡ 0
unfolding is_registered
highest-replicate zero = refl
highest-replicate (suc n) = ground (arith, highest-replicate n)

pub highest-append :
    (es : List FileHandlerEntry) (n : ℕ) → highest (es ++ replicate n no_handler) ≡ highest es
highest-append [] n = highest-replicate n
highest-append (e ∷ es) n = ground (arith, highest-append es n)

pub highest-set :
    (es : List FileHandlerEntry) (fd : ℕ) (e : FileHandlerEntry)
    → is_registered e ≡ true
    → fd < length es
    → highest (set es fd e) ≡ (if ltb (highest es) (fd + 1) then fd + 1 else highest es)
highest-set [] fd e r h = ground arith
highest-set (f ∷ fs) zero e r h = ground arith
highest-set (f ∷ fs) (suc fd) e r h = ground (arith, highest-set fs fd e r)

pub highest-clear :
    (es : List FileHandlerEntry) (fd : ℕ) → highest (set es fd no_handler) ≤ highest es
unfolding is_registered
highest-clear [] fd = omega arith
highest-clear (f ∷ fs) zero = ground arith
highest-clear (f ∷ fs) (suc fd) = ground (arith, highest-clear fs fd)

pub has_handler-append :
    (es : List FileHandlerEntry) (n k : ℕ)
    → has_handler (es ++ replicate n no_handler) k ≡ has_handler es k
unfolding is_registered
has_handler-append [] zero k = refl
has_handler-append [] (suc n) zero = refl
has_handler-append [] (suc n) (suc k) = has_handler-append [] n k
has_handler-append (e ∷ es) n zero = refl
has_handler-append (e ∷ es) n (suc k) = has_handler-append es n k

pub has_handler-set :
    (es : List FileHandlerEntry) (fd k : ℕ) (e : FileHandlerEntry)
    → fd < length es
    → has_handler (set es fd e) k ≡ (if fd == k then is_registered e else has_handler es k)
has_handler-set [] fd k e h = ground arith
has_handler-set (f ∷ fs) zero zero e h = ground arith
has_handler-set (f ∷ fs) zero (suc k) e h = ground arith
has_handler-set (f ∷ fs) (suc fd) zero e h = ground arith
has_handler-set (f ∷ fs) (suc fd) (suc k) e h = ground (arith, has_handler-set fs fd k e)

pub get_elem?-has_handler :
    (es : List FileHandlerEntry) (fd : ℕ)
    → fd < length es
    → (e : FileHandlerEntry) × (get_elem? es fd ≡ some e) × (is_registered e ≡ has_handler es fd)
get_elem?-has_handler [] fd h = absurd (omega arith)
get_elem?-has_handler (e ∷ es) zero h = (e, refl, refl)
get_elem?-has_handler (e ∷ es) (suc fd) h = get_elem?-has_handler es fd (omega arith)

pub has_handler-length :
    (es : List FileHandlerEntry) (fd : ℕ) → has_handler es fd ≡ true → fd < length es
has_handler-length [] fd h = ground arith
has_handler-length (e ∷ es) zero h = omega arith
has_handler-length (e ∷ es) (suc fd) h = omega (arith, has_handler-length es fd h)

pub highest-length : (es : List FileHandlerEntry) → highest es ≤ length es
highest-length [] = omega arith
highest-length (e ∷ es) = ground (arith, highest-length es)

-- The loop finds the highest descriptor from any start that is not below it.
pub lower_highest-highest :
    (n : ℕ) (es : List FileHandlerEntry)
    → highest es ≤ n
    → n ≤ length es
    → lower_highest n es ≡ some (highest es)
unfolding lower_highest
lower_highest-highest zero es h k = let e : highest es ≡ 0 = omega arith in ap some (sym e)
lower_highest-highest (suc fd) es h k =
    let (e, found, same) = get_elem?-has_handler es fd (omega arith) in
    elim (Bool-cases (has_handler es fd)) [
      | inl t ↦
          let top : highest es ≡ suc fd = omega (arith, highest-has_handler es fd t) in
          rw (found, same, t, top)
      | inr f ↦
          let below : highest es ≤ fd = ground (arith, has_handler-highest es fd) in
          rw (found, same, f) (lower_highest-highest fd es below (omega arith))
    ]

unfoldable pub IsValid : Handlers → Type 0
IsValid h = h.one_highest_fd ≡ highest h.file_handlers

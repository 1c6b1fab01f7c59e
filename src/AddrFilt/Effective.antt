-- ===== src/AddrFilt/Effective.antt =====
-- addrfilt.c: the decision on an address, before and after a subnet is set.
use mathlib.Core.Path.{fun_ext}
use chrony.Common.{
  ℕ, zero, suc, ◌-◌, ◌*◌, ◌/◌, ◌^◌, ◌<◌, ◌≤◌, Bool, true, false, List, [], ◌∷◌, ◌++◌, if◌then◌else◌,
  ◌==◌, ◌≡◌, ◌≢◌, ◌∙◌, ◌⊎◌, length, take, drop, arith, refl, ap, sym, Bool-cases, inl, inr,
}
use chrony.AddrFilt.{State, deny, allow, as_parent, pick}
use chrony.AddrFilt.Spec.{effective, update, covers, levels}

effective_congr :
    (f g : List ℕ → State) (s : State) (ds : List ℕ)
    → ((p : List ℕ) → f p ≡ g p)
    → effective f s ds ≡ effective g s ds
effective_congr f g s ds h = ap (λ k. effective k s ds) (fun_ext h)

pub effective-as_parent : (s : State) (ds : List ℕ) → effective (λ p. as_parent) s ds ≡ s
unfolding effective
effective-as_parent s [] = refl
effective-as_parent s (d ∷ ds) = effective-as_parent s ds

pick-ne_as_parent : (s t : State) → t ≢ as_parent → pick s t ≢ as_parent
pick-ne_as_parent deny t h = ground arith
pick-ne_as_parent allow t h = ground arith
pick-ne_as_parent as_parent t h = h

pub effective-ne_as_parent :
    (states : List ℕ → State) (s : State) (ds : List ℕ)
    → s ≢ as_parent
    → effective states s ds ≢ as_parent
unfolding effective
effective-ne_as_parent states s [] h = pick-ne_as_parent (states []) s h
effective-ne_as_parent states s (d ∷ ds) h =
    effective-ne_as_parent (λ q. states (d ∷ q)) (pick (states []) s) ds
      (pick-ne_as_parent (states []) s h)

-- The states of the prefixes that continue `p` by at least one digit.
abbrev pub longer : (List ℕ → State) → List ℕ → List ℕ → State
longer states p [] = as_parent
longer states p (d ∷ q) = states (p ++ (d ∷ q))

-- What an address of the digits `ds` gets after the update: outside the subnet what it got before;
-- inside it the new state, unless a longer prefix that is kept decides.
abbrev pub decided : ℕ → List ℕ → State → Bool → (List ℕ → State) → State → List ℕ → State
decided bits ip new_state delete_children states s ds =
    if covers bits ip ds
    then (if delete_children
        then new_state
        else effective (longer states (take (levels bits) ds)) new_state (drop (levels bits) ds))
    else effective states s ds

pick_self : (t s : State) → t ≢ as_parent → pick t s ≡ t
pick_self deny s h = refl
pick_self allow s h = refl
pick_self as_parent s h = absurd (h refl)

module _ (new_state : State) (proper : new_state ≢ as_parent) where
  effective-update_zero :
      (delete_children : Bool) (ip : List ℕ) (states : List ℕ → State) (s : State) (ds : List ℕ)
      → effective (λ p. update 0 ip new_state delete_children p (states p)) s ds
        ≡ (if delete_children then new_state else effective (longer states []) new_state ds)
  unfolding effective update covers
  effective-update_zero true ip states s [] = pick_self new_state s proper
  effective-update_zero false ip states s [] = pick_self new_state s proper
  effective-update_zero true ip states s (d ∷ ds) = rw (pick_self new_state s proper) (
      effective_congr (λ q. update 0 ip new_state true (d ∷ q) (states (d ∷ q))) (λ q. as_parent)
        new_state ds (λ q. ground arith)
      ∙ effective-as_parent new_state ds)
  effective-update_zero false ip states s (d ∷ ds) = rw (pick_self new_state s proper) (
      effective_congr (λ q. update 0 ip new_state false (d ∷ q) (states (d ∷ q)))
        (λ q. states (d ∷ q)) new_state ds (λ q. ground arith))

  -- An update that leaves the empty prefix alone, and the prefixes that start with `d` or not.
  effective-update_step :
      (u : List ℕ → State → State) (v : List ℕ → State → State) (test : Bool) (d : ℕ) (ds : List ℕ)
      (states : List ℕ → State) (s : State)
      → u [] (states []) ≡ states []
      → ((q : List ℕ)
          → u (d ∷ q) (states (d ∷ q)) ≡ (if test then v q (states (d ∷ q)) else states (d ∷ q)))
      → effective (λ p. u p (states p)) s (d ∷ ds) ≡ (
          if test
          then effective (λ q. v q (states (d ∷ q))) (pick (states []) s) ds
          else effective states s (d ∷ ds))
  unfolding effective
  effective-update_step u v true d ds states s e h = rw e (
      effective_congr (λ q. u (d ∷ q) (states (d ∷ q))) (λ q. v q (states (d ∷ q)))
        (pick (states []) s) ds h)
  effective-update_step u v false d ds states s e h = rw e (
      effective_congr (λ q. u (d ∷ q) (states (d ∷ q))) (λ q. states (d ∷ q)) (pick (states []) s)
        ds h)

  longer-cons :
      (states : List ℕ → State) (d : ℕ) (p ds : List ℕ)
      → effective (longer (λ q. states (d ∷ q)) p) new_state ds
        ≡ effective (longer states (d ∷ p)) new_state ds
  longer-cons states d p ds =
      effective_congr (longer (λ q. states (d ∷ q)) p) (longer states (d ∷ p)) new_state ds same
    where
      same : (q : List ℕ) → longer (λ q. states (d ∷ q)) p q ≡ longer states (d ∷ p) q
      same [] = refl
      same (y ∷ q) = refl

  -- A subnet that ends within the first digit.
  effective-update_partial :
      (delete_children : Bool) (b : ℕ) (ip ds : List ℕ) (x d : ℕ) (states : List ℕ → State)
      (s : State)
      → 0 < b
      → b < 4
      → effective (λ p. update b (x ∷ ip) new_state delete_children p (states p)) s (d ∷ ds) ≡ (
          if d / 2 ^ (4 - b) == x / 2 ^ (4 - b)
          then (if delete_children
              then new_state
              else effective (longer states (d ∷ [])) new_state ds)
          else effective states s (d ∷ ds))
  effective-update_partial del b ip ds x d states s h l =
      (effective-update_step (update b (x ∷ ip) new_state del) (update 0 ip new_state del)
        (d / 2 ^ (4 - b) == x / 2 ^ (4 - b)) d ds states s (at_nil b h) (λ q. at_cons b h l q))
      ∙ rw
          (
            effective-update_zero del ip (λ q. states (d ∷ q)) (pick (states []) s) ds,
            longer-cons states d [] ds,
          )
          refl
    where
      at_nil : (b : ℕ) → 0 < b → update b (x ∷ ip) new_state del [] (states []) ≡ states []
      at_nil zero h = absurd (omega arith)
      at_nil (suc zero) h = unfold update covers in refl
      at_nil (suc (suc zero)) h = unfold update covers in refl
      at_nil (suc (suc (suc zero))) h = unfold update covers in refl
      at_nil (suc (suc (suc (suc b)))) h = unfold update covers in refl

      at_cons :
          (b : ℕ)
          → 0 < b
          → b < 4
          → (q : List ℕ)
          → update b (x ∷ ip) new_state del (d ∷ q) (states (d ∷ q)) ≡ (
              if d / 2 ^ (4 - b) == x / 2 ^ (4 - b)
              then update 0 ip new_state del q (states (d ∷ q))
              else states (d ∷ q))
      at_cons zero h l q = absurd (omega arith)
      at_cons (suc zero) h l q = unfold update covers in ground arith
      at_cons (suc (suc zero)) h l q = unfold update covers in ground arith
      at_cons (suc (suc (suc zero))) h l q = unfold update covers in ground arith
      at_cons (suc (suc (suc (suc b)))) h l q = absurd (omega arith)

  -- The same one digit further down.
  decided-cons :
      (delete_children : Bool) (b x d : ℕ) (ip ds : List ℕ) (states : List ℕ → State) (s : State)
      → decided (suc (suc (suc (suc b)))) (x ∷ ip) new_state delete_children states s (d ∷ ds) ≡ (
          if d == x
          then decided b ip new_state delete_children (λ q. states (d ∷ q)) (pick (states []) s) ds
          else effective states s (d ∷ ds))
  unfolding covers effective
  decided-cons del b x d ip ds states s =
      rw (deeper, longer-cons states d (take (levels b) ds) (drop (levels b) ds)) (ground arith)
    where
      deeper : levels (suc (suc (suc (suc b)))) ≡ suc (levels b)
      deeper = omega arith

  -- The update of the states moves the decision on every address as `decided` says.
  pub effective-update :
      (delete_children : Bool) (bits : ℕ) (ip ds : List ℕ) (states : List ℕ → State) (s : State)
      → bits ≤ 4 * length ds
      → bits ≤ 4 * length ip
      → effective (λ p. update bits ip new_state delete_children p (states p)) s ds
        ≡ decided bits ip new_state delete_children states s ds
  unfolding covers
  effective-update del zero ip ds states s h k = effective-update_zero del ip states s ds
  effective-update del (suc b) ip [] states s h k = absurd (omega arith)
  effective-update del (suc b) [] (d ∷ ds) states s h k = absurd (omega arith)
  effective-update del (suc zero) (x ∷ ip) (d ∷ ds) states s h k =
      effective-update_partial del 1 ip ds x d states s (omega arith) (omega arith)
  effective-update del (suc (suc zero)) (x ∷ ip) (d ∷ ds) states s h k =
      effective-update_partial del 2 ip ds x d states s (omega arith) (omega arith)
  effective-update del (suc (suc (suc zero))) (x ∷ ip) (d ∷ ds) states s h k =
      effective-update_partial del 3 ip ds x d states s (omega arith) (omega arith)
  effective-update del (suc (suc (suc (suc b)))) (x ∷ ip) (d ∷ ds) states s h k =
      effective-update_step (update (suc (suc (suc (suc b)))) (x ∷ ip) new_state del)
        (update b ip new_state del) (d == x) d ds states s (unfold update covers in refl)
        (λ q. unfold update covers in ground arith)
      ∙ rw
          (effective-update del b ip ds (λ q. states (d ∷ q)) (pick (states []) s) (omega arith)
            (omega arith))
          (sym (decided-cons del b x d ip ds states s))

-- The decision in two parts: first along the digits up to `l`, then by the longer prefixes.
effective-split :
    (l : ℕ) (states : List ℕ → State) (s : State) (ds : List ℕ)
    → effective states s ds
      ≡ effective (longer states (take l ds)) (effective states s (take l ds)) (drop l ds)
unfolding effective
effective-split zero states s [] = refl
effective-split zero states s (d ∷ ds) = refl
effective-split (suc l) states s [] = refl
effective-split (suc l) states s (d ∷ ds) =
    effective-split l (λ q. states (d ∷ q)) (pick (states []) s) ds
    ∙ effective_congr (longer (λ q. states (d ∷ q)) (take l ds)) (longer states (d ∷ take l ds))
        (effective (λ q. states (d ∷ q)) (pick (states []) s) (take l ds)) (drop l ds) same
  where
    same :
        (q : List ℕ) → longer (λ q. states (d ∷ q)) (take l ds) q ≡ longer states (d ∷ take l ds) q
    same [] = refl
    same (y ∷ q) = refl

-- A decision is the state that it starts from, or the same from any other.
effective-or :
    (f : List ℕ → State) (s t : State) (ds : List ℕ)
    → (effective f s ds ≡ s) ⊎ (effective f s ds ≡ effective f t ds)
unfolding effective
effective-or f s t [] = or_here (f []) refl
  where
    or_here : (x : State) → f [] ≡ x → (pick (f []) s ≡ s) ⊎ (pick (f []) s ≡ pick (f []) t)
    or_here deny e = inr (rw e)
    or_here allow e = inr (rw e)
    or_here as_parent e = inl (rw e)
effective-or f s t (d ∷ ds) = or_below (f []) refl (effective-or (λ q. f (d ∷ q)) s t ds)
  where
    below : State → State
    below x = effective (λ q. f (d ∷ q)) x ds

    or_below :
        (x : State)
        → f [] ≡ x
        → (below s ≡ s) ⊎ (below s ≡ below t)
        → (below (pick (f []) s) ≡ s) ⊎ (below (pick (f []) s) ≡ below (pick (f []) t))
    or_below deny e h = inr (rw e)
    or_below allow e h = inr (rw e)
    or_below as_parent e h = rw e h

-- Without the deletion of the children an address in the subnet gets the new state or what it had.
pub decided-or :
    (bits : ℕ) (ip : List ℕ) (new_state : State) (states : List ℕ → State) (s : State) (ds : List ℕ)
    → (decided bits ip new_state false states s ds ≡ new_state)
      ⊎ (decided bits ip new_state false states s ds ≡ effective states s ds)
decided-or bits ip new_state states s ds = elim (Bool-cases (covers bits ip ds)) [
  | inl e ↦
      rw (e, effective-split (levels bits) states s ds)
        (effective-or (longer states (take (levels bits) ds)) new_state
          (effective states s (take (levels bits) ds)) (drop (levels bits) ds))
  | inr e ↦ inr (rw e)
]

-- ===== src/AddrFilt/Subnet.antt =====
-- addrfilt.c: the subnets of addresses, and what setting one means.
use chrony.Common.{
  ℕ, zero, suc, ◌-◌, ◌*◌, ◌/◌, ◌^◌, ◌<◌, ◌≤◌, Bool, true, false, List, [], ◌∷◌, if◌then◌else◌, ◌==◌,
  ◌≡◌, ◌≢◌, ◌⊎◌, inl, inr, length, Option, some, arith, refl, ap, Bool-cases,
}
use chrony.Addressing.{IpAddr, inet4, inet6, unspec, id}
use chrony.AddrFilt.{
  State, deny, as_parent, TableNode, AuthTable, split_ip6, check_ip_in_node, state_of,
}
use chrony.AddrFilt.Spec.{state_at, effective, IsTable}
use chrony.AddrFilt.Effective.{decided, decided-or}
use chrony.AddrFilt.Walk.{permits}
use chrony.AddrFilt.Digits.{digits, AllWords, same_subnet, covers-digits}
use chrony.AddrFilt.Access.{check_ip_in_node-digits}

-- The nodes reach at most as far down as the addresses have digits, and the roots have a state.
pub record ValidTable (t : AuthTable) : Type 0 where
  pub table4 : IsTable 8 t.base4
  pub table6 : IsTable 32 t.base6
  pub root4 : state_of t.base4 ≢ as_parent
  pub root6 : state_of t.base6 ≢ as_parent

abbrev pub AllBytes : List ℕ → Type 0
AllBytes [] = Unit
AllBytes (b ∷ bs) = (b < 256) × AllBytes bs

-- The members of the union in their ranges.
abbrev pub ValidIp : IpAddr → Type 0
ValidIp (inet4 a) = a < 2 ^ 32
ValidIp (inet6 bs) = (length bs ≡ 16) × AllBytes bs
ValidIp _ = Unit

-- The longest subnet of the family; only an `IPADDR_ID` has none.
abbrev pub FitsFamily : IpAddr → ℕ → Type 0
FitsFamily (inet4 a) bits = bits ≤ 32
FitsFamily (inet6 bs) bits = bits ≤ 128
FitsFamily unspec bits = bits ≡ 0
FitsFamily (id n) bits = ⊥

-- Does `addr` lie in the subnet of the first `bits` bits of `ip`? The unspecified address stands
-- for all addresses of both families.
abbrev pub in_subnet : IpAddr → ℕ → IpAddr → Bool
in_subnet (inet4 ip) bits (inet4 addr) = addr / 2 ^ (32 - bits) == ip / 2 ^ (32 - bits)
in_subnet (inet6 ip) bits (inet6 addr) = same_subnet bits (split_ip6 addr) (split_ip6 ip)
in_subnet unspec bits (inet4 addr) = true
in_subnet unspec bits (inet6 addr) = true
in_subnet _ bits _ = false

-- The access of one address before and after a subnet is set.
abbrev pub Sets : State → Bool → Bool → Option Bool → Option Bool → Type 0
Sets new_state true inside before after =
    after ≡ (if inside then some (permits new_state) else before)
Sets new_state false true before after = (after ≡ some (permits new_state)) ⊎ (after ≡ before)
Sets new_state false false before after = after ≡ before

pub split_ip6-words :
    (n : ℕ) (bs : List ℕ)
    → length bs ≡ 4 * n
    → AllBytes bs
    → (length (split_ip6 bs) ≡ n) × AllWords (split_ip6 bs)
unfolding split_ip6
split_ip6-words n [] l a = (omega arith, tt)
split_ip6-words n (x ∷ []) l a = absurd (omega arith)
split_ip6-words n (x ∷ y ∷ []) l a = absurd (omega arith)
split_ip6-words n (x ∷ y ∷ z ∷ []) l a = absurd (omega arith)
split_ip6-words zero (x ∷ y ∷ z ∷ w ∷ bs) l a = absurd (omega arith)
split_ip6-words (suc n) (x ∷ y ∷ z ∷ w ∷ bs) l a =
    let (k, ws) = split_ip6-words n bs (omega arith) a.1.1.1.1 in (ap suc k, (omega arith, ws))

-- `decided` in terms of what the address had.
pub decided-Sets :
    (bits : ℕ) (ip : List ℕ) (new_state : State) (del : Bool) (node node' : TableNode)
    (addr : List ℕ)
    → IsTable (8 * length addr) node
    → AllWords addr
    → AllWords ip
    → length addr ≡ length ip
    → bits ≤ 32 * length ip
    → check_ip_in_node node' addr
      ≡ some (permits (decided bits (digits ip) new_state del (state_at node) deny (digits addr)))
    → Sets new_state del
        (same_subnet bits addr ip)
        (check_ip_in_node node addr)
        (check_ip_in_node node' addr)
decided-Sets bits ip new_state true node node' addr t wa wi l h e =
    rw (e, check_ip_in_node-digits node addr t, covers-digits bits addr ip wa wi l h)
      (choose (same_subnet bits addr ip))
  where
    choose :
        (b : Bool)
        → some (permits (if b then new_state else effective (state_at node) deny (digits addr))) ≡ (
            if b
            then some (permits new_state)
            else some (permits (effective (state_at node) deny (digits addr))))
    choose true = refl
    choose false = refl
decided-Sets bits ip new_state false node node' addr t wa wi l h e =
    elim (Bool-cases (same_subnet bits addr ip)) [
      | inl b ↦
          rw (b, e, check_ip_in_node-digits node addr t)
            (either (decided-or bits (digits ip) new_state (state_at node) deny (digits addr)))
      | inr b ↦
          rw (b, e, check_ip_in_node-digits node addr t)
            (rw (covers-digits bits addr ip wa wi l h, b) refl)
    ]
  where
    d : State
    d = decided bits (digits ip) new_state false (state_at node) deny (digits addr)

    either :
        (d ≡ new_state) ⊎ (d ≡ effective (state_at node) deny (digits addr))
        → (some (permits d) ≡ some (permits new_state))
          ⊎ (some (permits d) ≡ some (permits (effective (state_at node) deny (digits addr))))
    either (inl h) = inl (rw h)
    either (inr h) = inr (rw h)

pub same_subnet_word :
    (bits a ip : ℕ)
    → bits ≤ 32
    → same_subnet bits (a ∷ []) (ip ∷ []) ≡ (a / 2 ^ (32 - bits) == ip / 2 ^ (32 - bits))
unfolding same_subnet
same_subnet_word bits a ip h = ground arith

-- Every address is in the subnet of no bits.
pub same_subnet_zero :
    (addr ip : List ℕ)
    → 0 < length addr
    → length addr ≡ length ip
    → AllWords addr
    → AllWords ip
    → same_subnet 0 addr ip ≡ true
unfolding same_subnet
same_subnet_zero [] ip p l a i = absurd (omega arith)
same_subnet_zero (x ∷ xs) [] p l a i = absurd (omega arith)
same_subnet_zero (x ∷ xs) (y ∷ ys) p l a i = ground arith

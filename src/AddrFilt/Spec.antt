-- ===== src/AddrFilt/Spec.antt =====
-- addrfilt.c: what a table means.
--
-- A prefix is the list of its digits, `NBITS` bits each. A table gives each prefix a state, and an
-- address has the state of its longest prefix that is not AS_PARENT.
use chrony.Common.{
  ℕ, zero, suc, ◌+◌, ◌-◌, ◌/◌, ◌^◌, Bool, true, false, List, [], ◌∷◌, if◌then◌else◌, ◌==◌, ◌≡◌,
  ◌&&◌, length,
}
use chrony.AddrFilt.{
  State, as_parent, TableNode, leaf, branch, Nodes, nil, cons, pick, nbits, table_size,
}

unfoldable mutual
  pub state_at : TableNode → List ℕ → State
  state_at (leaf s) [] = s
  state_at (leaf s) (d ∷ p) = as_parent
  state_at (branch s ns) [] = s
  state_at (branch s ns) (d ∷ p) = state_in ns d p

  pub state_in : Nodes → ℕ → List ℕ → State
  state_in nil i p = as_parent
  state_in (cons n ns) zero p = state_at n p
  state_in (cons n ns) (suc i) p = state_in ns i p

-- The last state on the way along a list of digits that is not AS_PARENT.
unfoldable pub effective : (List ℕ → State) → State → List ℕ → State
effective states state [] = pick (states []) state
effective states state (d ∷ p) = effective (λ q. states (d ∷ q)) (pick (states []) state) p

-- Does the digit list `p` start with the first `bits` bits of `ip`?
unfoldable pub covers : ℕ → List ℕ → List ℕ → Bool
covers zero ip p = true
covers (suc (suc (suc (suc bits)))) (x ∷ ip) (d ∷ p) = d == x && covers bits ip p
covers bits (x ∷ ip) (d ∷ p) = d / 2 ^ (nbits - bits) == x / 2 ^ (nbits - bits)
covers bits ip p = false

-- The number of digits that a subnet of that many bits is stored under.
abbrev pub levels : ℕ → ℕ
levels bits = (bits + 3) / 4

-- The state of the prefix `p` after a subnet is set, from the one before.
unfoldable pub update : ℕ → List ℕ → State → Bool → List ℕ → State → State
update bits ip new_state delete_children p s =
    if covers bits ip p
    then (if length p == levels bits then new_state else if delete_children then as_parent else s)
    else s

abbrev pub count : Nodes → ℕ
count nil = 0
count (cons n ns) = suc (count ns)

-- A node with at most `k` levels below it, where each array has TABLE_SIZE nodes.
abbrev mutual
  pub IsTable : ℕ → TableNode → Type 0
  IsTable k (leaf s) = Unit
  IsTable zero (branch s ns) = ⊥
  IsTable (suc k) (branch s ns) = (count ns ≡ table_size) × AllTables k ns

  pub AllTables : ℕ → Nodes → Type 0
  AllTables k nil = Unit
  AllTables k (cons n ns) = IsTable k n × AllTables k ns

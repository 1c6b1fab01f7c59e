-- ===== src/AddrFilt/Walk.antt =====
-- addrfilt.c: `check_ip_in_node` against the decision that the states of the prefixes make.
use chrony.Common.{
  ℕ, zero, suc, ◌+◌, ◌<◌, Bool, true, false, List, [], ◌∷◌, ◌≡◌, ◌≢◌, length, some, arith, refl,
}
use chrony.AddrFilt.{
  State, deny, allow, as_parent, TableNode, leaf, branch, Nodes, nil, cons, pick, walk, walk_in,
  verdict, check_ip_in_node,
}
use chrony.AddrFilt.Spec.{state_at, state_in, effective, count, IsTable, AllTables}
use chrony.AddrFilt.Descend.{Reads}
use chrony.AddrFilt.Effective.{effective-as_parent, effective-ne_as_parent}

effective-leaf : (s t : State) (ds : List ℕ) → effective (state_at (leaf s)) t ds ≡ pick s t
unfolding effective state_at
effective-leaf s t [] = refl
effective-leaf s t (d ∷ ds) = effective-as_parent (pick s t) ds

mutual
  unfolding walk effective state_at

  walk-effective :
      (n : TableNode) (ip ds : List ℕ) (c : ℕ) (s : State)
      → Reads ip c ds
      → IsTable (length ds) n
      → walk n ip c s ≡ some (effective (state_at n) s ds)
  walk-effective (leaf t) ip ds c s r h = rw (effective-leaf t s ds)
  walk-effective (branch t ns) ip [] c s r h = absurd h
  walk-effective (branch t ns) ip (d ∷ ds) c s r h =
      rw (r.0) (walk_in-effective ns d ip ds (c + 4) (pick t s) r.2 (omega (arith, r.1, h.0)) h.1)

  walk_in-effective :
      (ns : Nodes) (i : ℕ) (ip ds : List ℕ) (c : ℕ) (s : State)
      → Reads ip c ds
      → i < count ns
      → AllTables (length ds) ns
      → walk_in ns i ip c s ≡ some (effective (state_in ns i) s ds)
  walk_in-effective nil i ip ds c s r h a = absurd (omega arith)
  walk_in-effective (cons n ns) zero ip ds c s r h a = walk-effective n ip ds c s r a.0
  walk_in-effective (cons n ns) (suc i) ip ds c s r h a =
      walk_in-effective ns i ip ds c s r (omega arith) a.1

abbrev pub permits : State → Bool
permits allow = true
permits _ = false

verdict-permits : (s : State) → s ≢ as_parent → verdict s ≡ some (permits s)
verdict-permits deny h = refl
verdict-permits allow h = refl
verdict-permits as_parent h = absurd (h refl)

-- The search returns, reads the address in range, and decides by the longest prefix with a state.
pub check_ip_in_node-effective :
    (n : TableNode) (ip ds : List ℕ)
    → Reads ip 0 ds
    → IsTable (length ds) n
    → check_ip_in_node n ip ≡ some (permits (effective (state_at n) deny ds))
unfolding check_ip_in_node
check_ip_in_node-effective n ip ds r h = rw (walk-effective n ip ds 0 deny r h) (
    verdict-permits (effective (state_at n) deny ds)
      (effective-ne_as_parent (state_at n) deny ds (λ e. cc e)))

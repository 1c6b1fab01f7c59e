-- ===== src/AddrFilt/Update.antt =====
-- addrfilt.c: what the writes to a table do to the states of its prefixes.
use chrony.Common.{
  ℕ, zero, suc, ◌+◌, ◌<◌, ◌≤◌, Bool, true, false, List, [], ◌∷◌, if◌then◌else◌, ◌≡◌, ◌&&◌, ap,
  Option, some, arith, refl, ltb, leb,
}
use chrony.AddrFilt.{
  State, as_parent, TableNode, leaf, branch, Nodes, nil, cons, table_size, modify, blank_nodes,
  open_node, set_node, set_entries,
}
use chrony.AddrFilt.Spec.{state_at, state_in, update, covers, count, IsTable, AllTables}

-- `f` succeeds on the tables of at most `k` levels, and maps the state of each prefix by `u`.
abbrev pub Maps : ℕ → (TableNode → Option TableNode) → (List ℕ → State → State) → Type 0
Maps k f u =
    (n : TableNode)
    → IsTable k n
    → (n' : TableNode) × (f n ≡ some n')
      × IsTable k n'
      × ((p : List ℕ) → state_at n' p ≡ u p (state_at n p))

-- What an update of the children from `lo` up to `hi` comes to.
abbrev pub MapsIn : ℕ → ℕ → ℕ → (List ℕ → State → State) → Nodes → Option Nodes → Type 0
MapsIn k lo hi u ns result =
    (ns' : Nodes) × (result ≡ some ns')
    × (count ns' ≡ count ns)
    × AllTables k ns'
    × ((d : ℕ) (p : List ℕ)
        → state_in ns' d p
          ≡ (if leb lo d && ltb d hi then u p (state_in ns d p) else state_in ns d p))

pub modify-MapsIn :
    (k : ℕ) (f : TableNode → Option TableNode) (u : List ℕ → State → State)
    → Maps k f u
    → (i : ℕ) (ns : Nodes) → i < count ns
    → AllTables k ns
    → MapsIn k i (i + 1) u ns (modify f i ns)
unfolding modify state_in
modify-MapsIn k f u m i nil h a = absurd (omega arith)
modify-MapsIn k f u m zero (cons n ns) h a =
    let (n', e, t, s) = m n a.0 in
    (cons n' ns, ground arith, refl, (t, a.1), λ d p. first n' d p (s p))
  where
    first :
        (n' : TableNode) (d : ℕ) (p : List ℕ)
        → state_at n' p ≡ u p (state_at n p)
        → state_in (cons n' ns) d p ≡ (
            if leb 0 d && ltb d (0 + 1)
            then u p (state_in (cons n ns) d p)
            else state_in (cons n ns) d p)
    first n' zero p e = ground arith
    first n' (suc d) p e = ground arith
modify-MapsIn k f u m (suc i) (cons n ns) h a =
    let (ns', e, c, t, s) = modify-MapsIn k f u m i ns (omega arith) a.1 in
    (cons n ns', ground arith, omega arith, (a.0, t), λ d p. later ns' d p s)
  where
    later :
        (ns' : Nodes) (d : ℕ) (p : List ℕ)
        → ((d : ℕ) (p : List ℕ)
            → state_in ns' d p
              ≡ (if leb i d && ltb d (i + 1) then u p (state_in ns d p) else state_in ns d p))
        → state_in (cons n ns') d p ≡ (
            if leb (suc i) d && ltb d (suc i + 1)
            then u p (state_in (cons n ns) d p)
            else state_in (cons n ns) d p)
    later ns' zero p s = ground arith
    later ns' (suc d) p s = ground (arith, s d p)

module _ (ip : List ℕ) (new_state : State) (delete_children : Bool) where
  abbrev here : List ℕ → State → State
  here = update 0 ip new_state delete_children

  set_node-update :
      (n : TableNode) (p : List ℕ)
      → state_at (set_node ip new_state delete_children n) p ≡ here p (state_at n p)
  unfolding set_node update covers state_at
  set_node-update (leaf s) [] = ground arith
  set_node-update (leaf s) (d ∷ p) = ground arith
  set_node-update (branch s ns) [] = ground arith
  set_node-update (branch s ns) (d ∷ p) = ground arith

  set_node-IsTable :
      (k : ℕ) (n : TableNode) → IsTable k n → IsTable k (set_node ip new_state delete_children n)
  unfolding set_node
  set_node-IsTable k (leaf s) t =
      elim delete_children as (λ b. IsTable k (set_node ip new_state b (leaf s))) [
        | true ↦ tt
        | false ↦ tt
      ]
  set_node-IsTable zero (branch s ns) t = absurd t
  set_node-IsTable (suc k) (branch s ns) t =
      elim delete_children as (λ b. IsTable (suc k) (set_node ip new_state b (branch s ns))) [
        | true ↦ tt
        | false ↦ t
      ]

  pub set_node-Maps :
      (k : ℕ) → Maps k (λ node. some (set_node ip new_state delete_children node)) here
  set_node-Maps k n t =
      (set_node ip new_state delete_children n, refl, set_node-IsTable k n t, set_node-update n)

  pub set_entries-MapsIn :
      (k left i : ℕ) (ns : Nodes)
      → i + left ≤ count ns
      → AllTables k ns
      → MapsIn k i (i + left) here ns (set_entries ip new_state delete_children left i ns)
  unfolding set_entries
  set_entries-MapsIn k zero i ns h a = (ns, refl, refl, a, λ d p. ground arith)
  set_entries-MapsIn k (suc left) i ns h a =
      let (ns1, e1, c1, a1, s1) =
        modify-MapsIn k (λ node. some (set_node ip new_state delete_children node)) here
          (set_node-Maps k) i ns (omega arith) a in
      let (ns2, e2, c2, a2, s2) = set_entries-MapsIn k left (i + 1) ns1 (omega arith) a1 in
      (ns2, ground arith, omega arith, a2, λ d p. ground (arith, s1 d p, s2 d p))

blank_nodes-as_parent : (m d : ℕ) (p : List ℕ) → state_in (blank_nodes m) d p ≡ as_parent
unfolding blank_nodes state_at
blank_nodes-as_parent zero d p = refl
blank_nodes-as_parent (suc m) zero [] = refl
blank_nodes-as_parent (suc m) zero (x ∷ p) = refl
blank_nodes-as_parent (suc m) (suc d) p = blank_nodes-as_parent m d p

blank_nodes-AllTables : (k m : ℕ) → (count (blank_nodes m) ≡ m) × AllTables k (blank_nodes m)
unfolding blank_nodes
blank_nodes-AllTables k zero = (refl, tt)
blank_nodes-AllTables k (suc m) = let (c, a) = blank_nodes-AllTables k m in (ap suc c, (tt, a))

-- Opening a node changes no state.
pub open_node_lem :
    (k : ℕ) (n : TableNode)
    → IsTable (suc k) n
    → (s : State) × (ns : Nodes) × (open_node n ≡ branch s ns)
      × (count ns ≡ table_size)
      × AllTables k ns
      × ((p : List ℕ) → state_at (branch s ns) p ≡ state_at n p)
unfolding open_node state_at
open_node_lem k (leaf s) t = (
  s,
  blank_nodes table_size,
  refl,
  (blank_nodes-AllTables k table_size).0,
  (blank_nodes-AllTables k table_size).1,
  same,
)
  where
    same : (p : List ℕ) → state_at (branch s (blank_nodes table_size)) p ≡ state_at (leaf s) p
    same [] = refl
    same (d ∷ p) = blank_nodes-as_parent table_size d p
open_node_lem k (branch s ns) t = (s, ns, refl, t.0, t.1, λ p. refl)

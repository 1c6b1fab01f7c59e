-- ===== src/AddrFilt/Access.antt =====
-- addrfilt.c: what the calls of the interface do to the access of every address.
use mathlib.Core.Path.{fun_ext}
use chrony.Common.{
  ℕ, zero, suc, ◌*◌, ◌≤◌, Bool, true, false, List, [], ◌∷◌, ◌==◌, ◌≡◌, ◌≢◌, ◌∙◌, length, Option,
  some, arith, refl, ap, Bool-cases, inl, inr,
}
use chrony.Common.Signed.{pos}
use chrony.AddrFilt.{
  State, deny, as_parent, TableNode, leaf, branch, Status, success, set_subnet, check_ip_in_node,
  state_of,
}
use chrony.AddrFilt.Spec.{state_at, effective, update, covers, levels, IsTable}
use chrony.AddrFilt.Descend.{descend-Maps}
use chrony.AddrFilt.Effective.{decided, effective-update}
use chrony.AddrFilt.Walk.{permits, check_ip_in_node-effective}
use chrony.AddrFilt.Digits.{digits, length-digits, Reads-digits}

-- What `set_subnet` leaves, and what any address of the family then gets.
pub record IsSetSubnet (n : ℕ) (ip : List ℕ) (bits : ℕ) (new_state : State) (del : Bool)
    (node : TableNode) (result : Option (Status × TableNode)) : Type 0 where
  pub node' : TableNode
  pub returns : result ≡ some (success, node')
  pub table : IsTable (8 * n) node'
  pub root : state_of node ≢ as_parent → state_of node' ≢ as_parent
  pub access :
      (addr : List ℕ)
      → length addr ≡ n
      → check_ip_in_node node' addr
        ≡ some (permits (decided bits (digits ip) new_state del (state_at node) deny (digits addr)))

-- On a table whose nodes reach no further down than the address has digits, `check_ip_in_node`
-- returns, with no access outside an array and no failed assertion, and decides by the longest
-- prefix of the address that has a state.
pub check_ip_in_node-digits :
    (node : TableNode) (addr : List ℕ)
    → IsTable (8 * length addr) node
    → check_ip_in_node node addr ≡ some (permits (effective (state_at node) deny (digits addr)))
check_ip_in_node-digits node addr t =
    check_ip_in_node-effective node addr (digits addr) (Reads-digits addr)
      (rw (length-digits addr) t)

state_at-nil : (n : TableNode) → state_at n [] ≡ state_of n
unfolding state_at
state_at-nil (leaf s) = refl
state_at-nil (branch s ns) = refl

-- The root gets the new state, or keeps its own.
update-root :
    (bits : ℕ) (ip : List ℕ) (new_state : State) (del : Bool) (s : State)
    → new_state ≢ as_parent
    → s ≢ as_parent
    → update bits ip new_state del [] s ≢ as_parent
unfolding update
update-root bits ip new_state del s p q = elim (Bool-cases (covers bits ip [])) [
  | inl c ↦ elim (Bool-cases (length {A = ℕ} [] == levels bits)) [
    | inl e ↦ rw (c, e) p
    | inr e ↦ absurd (covers-nil bits ip c e)
  ]
  | inr c ↦ rw c q
]
  where
    covers-nil :
        (bits : ℕ) (ip : List ℕ)
        → covers bits ip [] ≡ true
        → (length {A = ℕ} [] == levels bits) ≡ false
        → ⊥
    covers-nil zero ip c e = cc
    covers-nil (suc zero) [] c e = unfold covers in cc c
    covers-nil (suc zero) (x ∷ ip) c e = unfold covers in cc c
    covers-nil (suc (suc zero)) [] c e = unfold covers in cc c
    covers-nil (suc (suc zero)) (x ∷ ip) c e = unfold covers in cc c
    covers-nil (suc (suc (suc zero))) [] c e = unfold covers in cc c
    covers-nil (suc (suc (suc zero))) (x ∷ ip) c e = unfold covers in cc c
    covers-nil (suc (suc (suc (suc b)))) [] c e = unfold covers in cc c
    covers-nil (suc (suc (suc (suc b)))) (x ∷ ip) c e = unfold covers in cc c

-- Setting a subnet of a valid length always succeeds: no access outside an array, no failed
-- assertion. It keeps the table well formed, and every address then gets what `decided` says.
pub set_subnet-access :
    (node : TableNode) (ip : List ℕ) (bits : ℕ) (new_state : State) (del : Bool)
    → IsTable (8 * length ip) node
    → bits ≤ 32 * length ip
    → new_state ≢ as_parent
    → IsSetSubnet
        (length ip)
        ip
        bits
        new_state
        del
        node
        (set_subnet node ip (length ip) (pos bits) new_state del)
set_subnet-access node ip bits new_state del t h proper =
    let (node', e, t', s) =
      descend-Maps ip new_state del bits 0 (digits ip) (Reads-digits ip)
        (omega (arith, length-digits ip)) node (rw (length-digits ip) t) in
    record {
      node' = node';
      returns = unfold set_subnet in ground arith;
      table = rw length-digits at t';
      root = λ h.
          rw (← state_at-nil node', s [])
            (update-root bits (digits ip) new_state del (state_at node []) proper
              (rw (state_at-nil node) h));
      access = λ addr l.
          check_ip_in_node-digits node' addr (rw l (rw length-digits at t'))
          ∙ ap (λ s. some (permits s))
              (ap (λ f. effective f deny (digits addr)) (fun_ext s)
                ∙ effective-update new_state proper del bits (digits ip) (digits addr)
                    (state_at node) deny (omega (arith, length-digits addr))
                    (omega (arith, length-digits ip)));
    }

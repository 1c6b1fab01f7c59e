-- ===== src/AddrFilt/Table.antt =====
-- addrfilt.c: `ADF_Allow`, `ADF_AllowAll`, `ADF_Deny` and `ADF_DenyAll` against `ADF_IsAllowed`.
use chrony.Common.{
  ℕ, zero, suc, ◌*◌, ◌^◌, ◌<◌, ◌≤◌, Bool, true, false, List, [], ◌∷◌, ◌≡◌, ◌≢◌, ◌∙◌, length, Option,
  some, arith, refl, sym,
}
use chrony.Common.Signed.{pos}
use chrony.Addressing.{IpAddr, inet4, inet6, unspec, id}
use chrony.AddrFilt.{
  State, as_parent, TableNode, AuthTable, Status, success, split_ip6, set_subnet, set_subnet_of,
  descend, set_last, set_node, set_both, set_second, check_ip_in_node, is_allowed, zero_ip6,
}
use chrony.AddrFilt.Spec.{IsTable}
use chrony.AddrFilt.Digits.{AllWords, same_subnet}
use chrony.AddrFilt.Access.{IsSetSubnet, set_subnet-access}
use chrony.AddrFilt.Subnet.{
  ValidTable, ValidIp, FitsFamily, in_subnet, Sets, split_ip6-words, decided-Sets, same_subnet_word,
  same_subnet_zero,
}

module _ (new_state : State) (proper : new_state ≢ as_parent) (del : Bool) where
  Sets-same : (x : Option Bool) → Sets new_state del false x x
  Sets-same x = elim del as (λ b. Sets new_state b false x x) [ true ↦ refl | false ↦ refl ]

  -- The addresses of one family, where its node has the subnet set.
  family-Sets :
      (node : TableNode) (ip addr : List ℕ) (bits : ℕ) {result : Option (Status × TableNode)}
      → IsTable (8 * length ip) node
      → (r : IsSetSubnet (length ip) ip bits new_state del node result) → bits ≤ 32 * length ip
      → AllWords ip
      → AllWords addr
      → length addr ≡ length ip
      → Sets new_state del
          (same_subnet bits addr ip)
          (check_ip_in_node node addr)
          (check_ip_in_node r.node' addr)
  family-Sets node ip addr bits t r h wi wa l =
      decided-Sets bits ip new_state del node r.node' addr (rw l t) wa wi l h (r.access addr l)

  -- What a call leaves that sets the addresses for which `inside` holds.
  pub record SetsTable (t : AuthTable) (inside : IpAddr → Bool)
      (result : Option (Status × AuthTable)) : Type 0 where
    pub t' : AuthTable
    pub returns : result ≡ some (success, t')
    pub valid : ValidTable t'
    pub access :
        (addr : IpAddr)
        → ValidIp addr
        → Sets new_state del (inside addr) (is_allowed t addr) (is_allowed t' addr)

  set_inet4 :
      (t : AuthTable) (ip bits : ℕ)
      → ValidTable t
      → ip < 2 ^ 32
      → bits ≤ 32
      → SetsTable t
          (in_subnet (inet4 ip) bits)
          (set_subnet_of t (inet4 ip) (pos bits) new_state del)
  unfolding set_subnet_of is_allowed
  set_inet4 t ip bits v w h = record {
    t' = record t { base4 = r.node' };
    returns = rw (r.returns);
    valid = record { table4 = r.table; table6 = v.table6; root4 = r.root v.root4; root6 = v.root6 };
    access = access;
  }
    where
      r :
          IsSetSubnet 1
            (ip ∷ [])
            bits
            new_state
            del
            t.base4
            (set_subnet t.base4 (ip ∷ []) 1 (pos bits) new_state del)
      r = set_subnet-access t.base4 (ip ∷ []) bits new_state del v.table4 h proper

      access :
          (addr : IpAddr)
          → ValidIp addr
          → Sets new_state del
              (in_subnet (inet4 ip) bits addr)
              (is_allowed t addr)
              (is_allowed (record t { base4 = r.node' }) addr)
      access (inet4 a) wa =
          rw (same_subnet_word bits a ip h) at
            (family-Sets t.base4 (ip ∷ []) (a ∷ []) bits v.table4 r h (w, tt) (wa, tt) refl)
      access (inet6 a) wa = Sets-same (is_allowed t (inet6 a))
      access unspec wa = Sets-same (some false)
      access (id n) wa = Sets-same (some false)

  set_inet6 :
      (t : AuthTable) (ip : List ℕ) (bits : ℕ)
      → ValidTable t
      → ValidIp (inet6 ip)
      → bits ≤ 128
      → SetsTable t
          (in_subnet (inet6 ip) bits)
          (set_subnet_of t (inet6 ip) (pos bits) new_state del)
  unfolding set_subnet_of is_allowed
  set_inet6 t ip bits v w h = record {
    t' = record t { base6 = r.node' };
    returns = rw (← words.0) (rw (r.returns));
    valid = record {
      table4 = v.table4;
      table6 = rw (words.0) at (r.table);
      root4 = v.root4;
      root6 = r.root v.root6;
    };
    access = access;
  }
    where
      words : (length (split_ip6 ip) ≡ 4) × AllWords (split_ip6 ip)
      words = split_ip6-words 4 ip w.0 w.1

      table : IsTable (8 * length (split_ip6 ip)) t.base6
      table = rw (words.0) v.table6

      r :
          IsSetSubnet
            (length (split_ip6 ip))
            (split_ip6 ip)
            bits
            new_state
            del
            t.base6
            (set_subnet t.base6 (split_ip6 ip) (length (split_ip6 ip)) (pos bits) new_state del)
      r =
          set_subnet-access t.base6 (split_ip6 ip) bits new_state del table (omega (arith, words.0))
            proper

      access :
          (addr : IpAddr)
          → ValidIp addr
          → Sets new_state del
              (in_subnet (inet6 ip) bits addr)
              (is_allowed t addr)
              (is_allowed (record t { base6 = r.node' }) addr)
      access (inet4 a) wa = Sets-same (is_allowed t (inet4 a))
      access (inet6 a) wa =
          let addr_words = split_ip6-words 4 a wa.0 wa.1 in
          family-Sets t.base6 (split_ip6 ip) (split_ip6 a) bits table r (omega (arith, words.0))
            words.1 addr_words.1 (addr_words.0 ∙ sym words.0)
      access unspec wa = Sets-same (some false)
      access (id n) wa = Sets-same (some false)

  -- The unspecified address sets both roots.
  set_unspec :
      (t : AuthTable)
      → ValidTable t
      → SetsTable t (in_subnet unspec 0) (set_subnet_of t unspec (pos 0) new_state del)
  unfolding set_subnet_of set_both set_second is_allowed
  set_unspec t v = record {
    t' = record t { base4 = r4.node'; base6 = r6.node' };
    returns = rw (same4, r4.returns) (rw (r6.returns));
    valid = record {
      table4 = r4.table;
      table6 = r6.table;
      root4 = r4.root v.root4;
      root6 = r6.root v.root6;
    };
    access = access;
  }
    where
      r4 :
          IsSetSubnet 1
            (0 ∷ [])
            0
            new_state
            del
            t.base4
            (set_subnet t.base4 (0 ∷ []) 1 (pos 0) new_state del)
      r4 = set_subnet-access t.base4 (0 ∷ []) 0 new_state del v.table4 (omega arith) proper

      r6 :
          IsSetSubnet 4 zero_ip6 0 new_state del t.base6
            (set_subnet t.base6 zero_ip6 4 (pos 0) new_state del)
      r6 = set_subnet-access t.base6 zero_ip6 0 new_state del v.table6 (omega arith) proper

      same4 :
          set_subnet t.base4 zero_ip6 1 (pos 0) new_state del
          ≡ set_subnet t.base4 (0 ∷ []) 1 (pos 0) new_state del
      same4 = unfold set_subnet descend set_last set_node in refl

      access :
          (addr : IpAddr)
          → ValidIp addr
          → Sets new_state del
              (in_subnet unspec 0 addr)
              (is_allowed t addr)
              (is_allowed (record t { base4 = r4.node'; base6 = r6.node' }) addr)
      access (inet4 a) wa =
          rw (same_subnet_zero (a ∷ []) (0 ∷ []) (omega arith) refl (wa, tt) (omega arith, tt)) at (
            family-Sets t.base4 (0 ∷ []) (a ∷ []) 0 v.table4 r4 (omega arith) (omega arith, tt)
              (wa, tt) refl)
      access (inet6 a) wa =
          let addr_words = split_ip6-words 4 a wa.0 wa.1 in
          rw
            (same_subnet_zero (split_ip6 a) zero_ip6 (omega (arith, addr_words.0)) addr_words.0
              addr_words.1 (omega arith))
            at
            (family-Sets t.base6 zero_ip6 (split_ip6 a) 0 v.table6 r6 (omega arith) (omega arith)
              addr_words.1 addr_words.0)
      access unspec wa = Sets-same (some false)
      access (id n) wa = Sets-same (some false)

  pub set_subnet_of-SetsTable :
      (t : AuthTable) (ip : IpAddr) (bits : ℕ)
      → ValidTable t
      → ValidIp ip
      → FitsFamily ip bits
      → SetsTable t (in_subnet ip bits) (set_subnet_of t ip (pos bits) new_state del)
  set_subnet_of-SetsTable t (inet4 a) bits v w h = set_inet4 t a bits v w h
  set_subnet_of-SetsTable t (inet6 a) bits v w h = set_inet6 t a bits v w h
  set_subnet_of-SetsTable t unspec zero v w h = set_unspec t v
  set_subnet_of-SetsTable t unspec (suc bits) v w h = absurd (omega arith)
  set_subnet_of-SetsTable t (id n) bits v w h = absurd h

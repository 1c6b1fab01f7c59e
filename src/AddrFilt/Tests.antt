-- ===== src/AddrFilt/Tests.antt =====
-- addrfilt.c: runs on small tables, and the properties at concrete inputs.
use chrony.Common.{
  Bool, true, false, List, [], ◌∷◌, ◌≡◌, ◌⊎◌, Option, some, arith, refl, ◌>>=◌, replicate,
}
use chrony.Common.Signed.{pos}
use chrony.Addressing.{IpAddr, inet4, inet6}
use chrony.AddrFilt.{
  State, deny, allow, as_parent, TableNode, leaf, AuthTable, Status, success, bad_subnet,
  set_subnet_of, is_allowed, create_table, allow_subnet, allow_all, deny_subnet, deny_all,
  set_subnet, check_ip_in_node, any_allowed, family_inet4, family_inet6,
}
use chrony.AddrFilt
use chrony.AddrFilt.Spec.{state_at, effective}
use chrony.AddrFilt.Walk.{permits}
use chrony.AddrFilt.Digits.{digits}
use chrony.AddrFilt.Access.{check_ip_in_node-digits}
use chrony.AddrFilt.Subnet.{ValidTable, in_subnet}
use chrony.AddrFilt.Calls.{
  allow_all-is_allowed, deny_all-is_allowed, allow_subnet-is_allowed, deny_subnet-is_allowed,
  create_table-ValidTable,
}

-- 10.0.0.0 and 10.1.2.3
abbrev net : IpAddr
net = inet4 0x0a000000

abbrev host : IpAddr
host = inet4 0x0a010203

-- 2001:db8::
abbrev net6 : IpAddr
net6 = inet6 (0x20 ∷ 0x01 ∷ 0x0d ∷ 0xb8 ∷ replicate 12 0)

-- The access of some addresses after `allow 10.0.0.0/7`, `deny 10.1.0.0/16`.
script : Option (List (Option Bool))
script = do
  a ← allow_subnet create_table net (pos 7)
  b ← deny_subnet a.1 (inet4 0x0a010000) (pos 16)
  some (
      is_allowed b.1 net
      ∷ is_allowed b.1 host
      ∷ is_allowed b.1 (inet4 0x0b000000)
      ∷ is_allowed b.1 (inet4 0x0c000000)
      ∷ any_allowed b.1 family_inet4
      ∷ any_allowed b.1 family_inet6
      ∷ [])

script_lem :
    script ≡ some (some true ∷ some false ∷ some true ∷ some false ∷ some true ∷ some false ∷ [])
unfolding script allow_subnet deny_subnet set_subnet_of set_subnet AddrFilt.descend
    AddrFilt.get_subnet AddrFilt.modify_child AddrFilt.open_node create_table AddrFilt.modify
    AddrFilt.blank_nodes AddrFilt.set_last AddrFilt.set_range AddrFilt.set_entries AddrFilt.set_node
    is_allowed any_allowed check_ip_in_node AddrFilt.is_any_allowed AddrFilt.walk
script_lem = refl

allow_all-is_allowed_example :
    (t' : AuthTable) × (allow_all create_table net (pos 7) ≡ some (success, t'))
    × ValidTable t'
    × (is_allowed t' host ≡ some true)
allow_all-is_allowed_example =
    allow_all-is_allowed create_table net host 7 create_table-ValidTable (omega arith) (omega arith)
      (omega arith)

deny_all-is_allowed_example :
    (t' : AuthTable) × (deny_all create_table net6 (pos 33) ≡ some (success, t'))
    × ValidTable t'
    × (is_allowed t' host ≡ is_allowed create_table host)
deny_all-is_allowed_example =
    deny_all-is_allowed create_table net6 host 33 create_table-ValidTable (omega arith)
      (omega arith) (omega arith)

allow_subnet-is_allowed_example :
    (t' : AuthTable) × (allow_subnet create_table net (pos 8) ≡ some (success, t'))
    × ValidTable t'
    × (((in_subnet net 8 host ≡ true) × (is_allowed t' host ≡ some true))
        ⊎ (is_allowed t' host ≡ is_allowed create_table host))
allow_subnet-is_allowed_example =
    allow_subnet-is_allowed create_table net host 8 create_table-ValidTable (omega arith)
      (omega arith) (omega arith)

deny_subnet-is_allowed_example :
    (t' : AuthTable) × (deny_subnet create_table net (pos 8) ≡ some (success, t'))
    × ValidTable t'
    × (((in_subnet net 8 host ≡ true) × (is_allowed t' host ≡ some false))
        ⊎ (is_allowed t' host ≡ is_allowed create_table host))
deny_subnet-is_allowed_example =
    deny_subnet-is_allowed create_table net host 8 create_table-ValidTable (omega arith)
      (omega arith) (omega arith)

check_ip_in_node-digits_example :
    check_ip_in_node (leaf deny) (0x0a000000 ∷ [])
    ≡ some (permits (effective (state_at (leaf deny)) deny (digits (0x0a000000 ∷ []))))
check_ip_in_node-digits_example = check_ip_in_node-digits (leaf deny) (0x0a000000 ∷ []) tt

-- ===== src/AddrFilt/Calls.antt =====
-- addrfilt.c: the properties of the calls of the interface.
use chrony.Common.{
  ℕ, Bool, true, false, if◌then◌else◌, ◌≡◌, ◌≢◌, ◌⊎◌, inl, inr, Option, some, arith, refl,
}
use chrony.Common.Signed.{pos}
use chrony.Addressing.{IpAddr}
use chrony.AddrFilt.{
  State, deny, allow, as_parent, AuthTable, success, is_allowed, create_table, allow_subnet,
  allow_all, deny_subnet, deny_all,
}
use chrony.AddrFilt.Subnet.{ValidTable, ValidIp, FitsFamily, in_subnet, Sets}
use chrony.AddrFilt.Table.{set_subnet_of-SetsTable}

allow_proper : allow ≢ as_parent
allow_proper e = cc e

deny_proper : deny ≢ as_parent
deny_proper e = cc e

-- On a well-formed table and with addresses in range, `ADF_AllowAll` with a subnet that fits the
-- family succeeds and keeps the table well formed. Then
-- every address in the subnet is allowed, and every other address has the access that it had.
pub allow_all-is_allowed :
    (t : AuthTable) (ip addr : IpAddr) (bits : ℕ)
    → ValidTable t
    → ValidIp ip
    → ValidIp addr
    → FitsFamily ip bits
    → (t' : AuthTable) × (allow_all t ip (pos bits) ≡ some (success, t'))
      × ValidTable t'
      × (is_allowed t' addr ≡ (if in_subnet ip bits addr then some true else is_allowed t addr))
unfolding allow_all
allow_all-is_allowed t ip addr bits v w wa h =
    let r = set_subnet_of-SetsTable allow allow_proper true t ip bits v w h in
    (r.t', r.returns, r.valid, r.access addr wa)

-- On a well-formed table and with addresses in range, `ADF_DenyAll` with a subnet that fits the
-- family succeeds and keeps the table well formed. Then
-- every address in the subnet is denied, and every other address has the access that it had.
pub deny_all-is_allowed :
    (t : AuthTable) (ip addr : IpAddr) (bits : ℕ)
    → ValidTable t
    → ValidIp ip
    → ValidIp addr
    → FitsFamily ip bits
    → (t' : AuthTable) × (deny_all t ip (pos bits) ≡ some (success, t'))
      × ValidTable t'
      × (is_allowed t' addr ≡ (if in_subnet ip bits addr then some false else is_allowed t addr))
unfolding deny_all
deny_all-is_allowed t ip addr bits v w wa h =
    let r = set_subnet_of-SetsTable deny deny_proper true t ip bits v w h in
    (r.t', r.returns, r.valid, r.access addr wa)

kept_or_set :
    (inside : Bool) (s : State) (before after : Option Bool) (b : Bool)
    → Sets s false inside before after
    → ((s ≡ allow) × (b ≡ true)) ⊎ ((s ≡ deny) × (b ≡ false))
    → ((inside ≡ true) × (after ≡ some b)) ⊎ (after ≡ before)
kept_or_set false s before after b h k = inr h
kept_or_set true s before after b h k = ground arith

-- On a well-formed table and with addresses in range, `ADF_Allow` with a subnet that fits the
-- family succeeds and keeps the table well formed. Then an
-- address is allowed and lies in the subnet, or it has the access that it had.
pub allow_subnet-is_allowed :
    (t : AuthTable) (ip addr : IpAddr) (bits : ℕ)
    → ValidTable t
    → ValidIp ip
    → ValidIp addr
    → FitsFamily ip bits
    → (t' : AuthTable) × (allow_subnet t ip (pos bits) ≡ some (success, t'))
      × ValidTable t'
      × (((in_subnet ip bits addr ≡ true) × (is_allowed t' addr ≡ some true))
          ⊎ (is_allowed t' addr ≡ is_allowed t addr))
unfolding allow_subnet
allow_subnet-is_allowed t ip addr bits v w wa h =
    let r = set_subnet_of-SetsTable allow allow_proper false t ip bits v w h in
    (
      r.t',
      r.returns,
      r.valid,
      kept_or_set (in_subnet ip bits addr) allow (is_allowed t addr) (is_allowed r.t' addr) true
          (r.access addr wa) (inl (refl, refl)),
    )

-- On a well-formed table and with addresses in range, `ADF_Deny` with a subnet that fits the
-- family succeeds and keeps the table well formed. Then an
-- address is denied and lies in the subnet, or it has the access that it had.
pub deny_subnet-is_allowed :
    (t : AuthTable) (ip addr : IpAddr) (bits : ℕ)
    → ValidTable t
    → ValidIp ip
    → ValidIp addr
    → FitsFamily ip bits
    → (t' : AuthTable) × (deny_subnet t ip (pos bits) ≡ some (success, t'))
      × ValidTable t'
      × (((in_subnet ip bits addr ≡ true) × (is_allowed t' addr ≡ some false))
          ⊎ (is_allowed t' addr ≡ is_allowed t addr))
unfolding deny_subnet
deny_subnet-is_allowed t ip addr bits v w wa h =
    let r = set_subnet_of-SetsTable deny deny_proper false t ip bits v w h in
    (
      r.t',
      r.returns,
      r.valid,
      kept_or_set (in_subnet ip bits addr) deny (is_allowed t addr) (is_allowed r.t' addr) false
          (r.access addr wa) (inr (refl, refl)),
    )

-- A new table is well formed.
pub create_table-ValidTable : ValidTable create_table
unfolding create_table
create_table-ValidTable = record {
  table4 = tt;
  table6 = tt;
  root4 = deny_proper;
  root6 = deny_proper;
}

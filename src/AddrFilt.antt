-- ===== src/AddrFilt.antt =====
-- addrfilt.c: the tables of allowed and denied subnets.
--
-- A result of `none` is an access outside an array or a failed assertion; the theorems of the
-- child modules show that it does not occur.
pub mod Spec
pub mod Update
pub mod Descend
pub mod Effective
pub mod Walk
pub mod Digits
pub mod Access
pub mod Subnet
pub mod Table
pub mod Calls
mod Tests
use chrony.Common.{
  ℕ, zero, suc, ◌+◌, ◌-◌, ◌*◌, ◌/◌, ◌%◌, ◌^◌, Bool, true, false, Option, none, some, List, [], ◌∷◌,
  ◌>>=◌, if◌then◌else◌, ltb, leb, ◌==◌, get_elem?,
}
use chrony.Common.Signed.{ℤ, pos, negsuc}
use chrony.Addressing.{IpAddr, unspec, inet4, inet6, id}

pub data State : Type 0 where
  deny allow as_parent : State

-- `TableNode`: a `leaf` has `extended == NULL`, a `branch` has the array of its children.
mutual
  pub data TableNode : Type 0 where
    leaf : State → TableNode
    branch : State → Nodes → TableNode

  pub data Nodes : Type 0 where
    nil : Nodes
    cons : TableNode → Nodes → Nodes

pub record AuthTable : Type 0 where
  pub base4 : TableNode
  pub base6 : TableNode

pub data Status : Type 0 where
  success bad_subnet : Status

abbrev pub nbits : ℕ
nbits = 4

abbrev pub table_size : ℕ
table_size = 2 ^ nbits

-- The bytes are shifted to separate places, so the source's `|` is a sum.
pub split_ip6 : List ℕ → List ℕ
split_ip6 (a ∷ b ∷ c ∷ d ∷ rest) = (a * 2 ^ 24 + b * 2 ^ 16 + c * 2 ^ 8 + d) ∷ split_ip6 rest
split_ip6 _ = []

-- `x & ((1UL << NBITS) - 1)` is the remainder.
pub get_subnet : List ℕ → ℕ → Option ℕ
get_subnet addr position = do
  word ← get_elem? addr (position / 32)
  some (word / 2 ^ (32 - nbits - position % 32) % table_size)

pub create_table : AuthTable
create_table = record { base4 = leaf deny; base6 = leaf deny }

abbrev pub state_of : TableNode → State
state_of (leaf s) = s
state_of (branch s ns) = s

abbrev pub with_state : State → TableNode → TableNode
with_state s (leaf _) = leaf s
with_state s (branch _ ns) = branch s ns

-- The children are freed with all below them.
abbrev pub close_node : TableNode → TableNode
close_node (leaf s) = leaf s
close_node (branch s ns) = leaf s

pub blank_nodes : ℕ → Nodes
blank_nodes zero = nil
blank_nodes (suc n) = cons (leaf as_parent) (blank_nodes n)

pub open_node : TableNode → TableNode
open_node (leaf s) = branch s (blank_nodes table_size)
open_node (branch s ns) = branch s ns

-- The update of `extended[i]` through its pointer.
pub modify : (TableNode → Option TableNode) → ℕ → Nodes → Option Nodes
modify f i nil = none
modify f zero (cons n ns) = f n >>= λ n'. some (cons n' ns)
modify f (suc i) (cons n ns) = modify f i ns >>= λ ns'. some (cons n ns')

pub modify_child : (TableNode → Option TableNode) → ℕ → TableNode → Option TableNode
modify_child f i (leaf s) = none
modify_child f i (branch s ns) = modify f i ns >>= λ ns'. some (branch s ns')

module _ (ip : List ℕ) (new_state : State) (delete_children : Bool) where
  pub set_node : TableNode → TableNode
  set_node node = with_state new_state (if delete_children then close_node node else node)

  -- `for (i=subnet, j=0; j<N; i++, j++)`, by the number of rounds left.
  pub set_entries : ℕ → ℕ → Nodes → Option Nodes
  set_entries zero i ns = some ns
  set_entries (suc left) i ns = do
    ns' ← modify (λ node. some (set_node node)) i ns
    set_entries left (i + 1) ns'

  pub set_range : ℕ → ℕ → TableNode → Option TableNode
  set_range n first (leaf s) = none
  set_range n first (branch s ns) = set_entries n first ns >>= λ ns'. some (branch s ns')

  -- What follows each loop, at the node where the loop ends. `subnet & ~(N - 1)` rounds down.
  pub set_last : ℕ → ℕ → TableNode → Option TableNode
  set_last bits_to_go bits_consumed node = if bits_to_go == 0 then some (set_node node) else do
    subnet ← get_subnet ip bits_consumed
    let n = 2 ^ (nbits - bits_to_go)
    let first = subnet / n * n
    if leb (first + n) table_size then set_range n first (open_node node) else none

  -- Both loops go on while `bits_to_go >= NBITS`: the first has a multiple of `NBITS` bits.
  pub descend : ℕ → ℕ → TableNode → Option TableNode
  descend (suc (suc (suc (suc bits_to_go)))) bits_consumed node = do
    subnet ← get_subnet ip bits_consumed
    modify_child (descend bits_to_go (bits_consumed + nbits)) subnet (open_node node)
  descend bits_to_go bits_consumed node = set_last bits_to_go bits_consumed node

-- A subnet out of range leaves the node alone.
pub set_subnet : TableNode → List ℕ → ℕ → ℤ → State → Bool → Option (Status × TableNode)
set_subnet node ip ip_len (negsuc n) new_state delete_children = some (bad_subnet, node)
set_subnet node ip ip_len (pos subnet_bits) new_state delete_children =
    if ltb (32 * ip_len) subnet_bits
    then some (bad_subnet, node)
    else do node' ← descend ip new_state delete_children subnet_bits 0 node; some (success, node')

-- `set_subnet` on one of the two tables, with the other kept.
abbrev put4 : AuthTable → Status × TableNode → Status × AuthTable
put4 table (status, node) = (status, record table { base4 = node })

abbrev put6 : AuthTable → Status × TableNode → Status × AuthTable
put6 table (status, node) = (status, record table { base6 = node })

abbrev pub zero_ip6 : List ℕ
zero_ip6 = 0 ∷ 0 ∷ 0 ∷ 0 ∷ []

-- The `&&` of the two calls: the second is made if the first succeeds.
pub set_second : State → Bool → Status × AuthTable → Option (Status × AuthTable)
set_second new_state delete_children (success, table) = do
  result ← set_subnet table.base6 zero_ip6 4 (pos 0) new_state delete_children
  some (put6 table result)
set_second new_state delete_children (bad_subnet, table) = some (bad_subnet, table)

pub set_both : AuthTable → ℤ → State → Bool → Option (Status × AuthTable)
set_both table (pos zero) new_state delete_children = do
  result ← set_subnet table.base4 zero_ip6 1 (pos 0) new_state delete_children
  set_second new_state delete_children (put4 table result)
set_both table subnet_bits new_state delete_children = some (bad_subnet, table)

-- `set_subnet_`, which takes the table by the family of the address.
pub set_subnet_of : AuthTable → IpAddr → ℤ → State → Bool → Option (Status × AuthTable)
set_subnet_of table (inet4 in4) subnet_bits new_state delete_children = do
  result ← set_subnet table.base4 (in4 ∷ []) 1 subnet_bits new_state delete_children
  some (put4 table result)
set_subnet_of table (inet6 in6) subnet_bits new_state delete_children = do
  result ← set_subnet table.base6 (split_ip6 in6) 4 subnet_bits new_state delete_children
  some (put6 table result)
set_subnet_of table unspec subnet_bits new_state delete_children =
    set_both table subnet_bits new_state delete_children
set_subnet_of table (id n) subnet_bits new_state delete_children = some (bad_subnet, table)

pub allow_subnet : AuthTable → IpAddr → ℤ → Option (Status × AuthTable)
allow_subnet table ip subnet_bits = set_subnet_of table ip subnet_bits allow false

pub allow_all : AuthTable → IpAddr → ℤ → Option (Status × AuthTable)
allow_all table ip subnet_bits = set_subnet_of table ip subnet_bits allow true

pub deny_subnet : AuthTable → IpAddr → ℤ → Option (Status × AuthTable)
deny_subnet table ip subnet_bits = set_subnet_of table ip subnet_bits deny false

pub deny_all : AuthTable → IpAddr → ℤ → Option (Status × AuthTable)
deny_all table ip subnet_bits = set_subnet_of table ip subnet_bits deny true

-- `if (node->state != AS_PARENT) state = node->state`
abbrev pub pick : State → State → State
pick as_parent state = state
pick s state = s

-- The loop of `check_ip_in_node`, which ends at a node with no children.
mutual
  pub walk : TableNode → List ℕ → ℕ → State → Option State
  walk (leaf s) ip bits_consumed state = some (pick s state)
  walk (branch s ns) ip bits_consumed state = do
    subnet ← get_subnet ip bits_consumed
    walk_in ns subnet ip (bits_consumed + nbits) (pick s state)

  pub walk_in : Nodes → ℕ → List ℕ → ℕ → State → Option State
  walk_in nil i ip bits_consumed state = none
  walk_in (cons n ns) zero ip bits_consumed state = walk n ip bits_consumed state
  walk_in (cons n ns) (suc i) ip bits_consumed state = walk_in ns i ip bits_consumed state

abbrev pub verdict : State → Option Bool
verdict allow = some true
verdict deny = some false
verdict as_parent = none

pub check_ip_in_node : TableNode → List ℕ → Option Bool
check_ip_in_node start_node ip = do state ← walk start_node ip 0 deny; verdict state

pub is_allowed : AuthTable → IpAddr → Option Bool
is_allowed table (inet4 in4) = check_ip_in_node table.base4 (in4 ∷ [])
is_allowed table (inet6 in6) = check_ip_in_node table.base6 (split_ip6 in6)
is_allowed table _ = some false

-- The loop over the children returns at the first that allows some address.
mutual
  pub is_any_allowed : TableNode → State → Option Bool
  is_any_allowed (leaf s) parent = verdict (pick s parent)
  is_any_allowed (branch s ns) parent = elim (pick s parent) [
    | as_parent ↦ none
    | state ↦ any_in ns state
  ]

  pub any_in : Nodes → State → Option Bool
  any_in nil state = some false
  any_in (cons n ns) state = elim (is_any_allowed n state) [
    | none ↦ none
    | some true ↦ some true
    | some false ↦ any_in ns state
  ]

pub data Family : Type 0 where
  family_unspec family_inet4 family_inet6 family_id : Family

pub any_allowed : AuthTable → Family → Option Bool
any_allowed table family_inet4 = is_any_allowed table.base4 as_parent
any_allowed table family_inet6 = is_any_allowed table.base6 as_parent
any_allowed table _ = some false

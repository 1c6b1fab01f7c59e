-- ===== src/Addressing.antt =====
-- addressing.h: the addresses that the other parts pass around.
use chrony.Common.{ℕ, List}

-- `IPAddr`: the `family` with its member of the union. An `inet6` address is its 16 bytes.
pub data IpAddr : Type 0 where
  unspec : IpAddr
  inet4 : ℕ → IpAddr
  inet6 : List ℕ → IpAddr
  id : ℕ → IpAddr

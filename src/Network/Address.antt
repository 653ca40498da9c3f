-- ===== src/Network/Address.antt =====
-- libs/network/address.h and address.cpp: an IPv4 address and a port, both in network order.
pub mod Order
pub mod Text
mod Tests
use x_kbengine.Prelude.{ℕ, Bool, not, ◌&&◌, ◌||◌, ltb, ◌==◌}

pub record Address : Type 0 where
  pub ip : ℕ
  pub port : ℕ

-- `Address()` and `Address(uint32_t, uint16_t)`
abbrev pub unset : Address
unset = record { ip = 0; port = 0 }

unfoldable pub eq : Address → Address → Bool
eq l r = (l.ip == r.ip) && (l.port == r.port)

unfoldable pub ne : Address → Address → Bool
ne l r = not (l.ip == r.ip) || not (l.port == r.port)

unfoldable pub less : Address → Address → Bool
less l r = ltb l.ip r.ip || ((l.ip == r.ip) && ltb l.port r.port)

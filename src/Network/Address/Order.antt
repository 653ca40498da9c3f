-- ===== src/Network/Address/Order.antt =====
-- The comparisons of addresses agree with one another, and order addresses as `std::map` wants it.
use x_kbengine.Prelude.{◌≡◌, true, false, not, arith}
use x_kbengine.Network.Address.{Address, eq, ne, less}

-- `==` holds of equal addresses only.
pub eq→≡ : (l r : Address) → eq l r ≡ true → l ≡ r
unfolding eq
eq→≡ l r h = ground arith

pub eq_refl : (l : Address) → eq l l ≡ true
unfolding eq
eq_refl l = ground arith

pub ne-eq : (l r : Address) → ne l r ≡ not (eq l r)
unfolding ne eq
ne-eq l r = ground arith

pub less_irrefl : (l : Address) → less l l ≡ false
unfolding less
less_irrefl l = ground arith

-- The order is transitive.
pub less_trans : (a b c : Address) → less a b ≡ true → less b c ≡ true → less a c ≡ true
unfolding less
less_trans a b c h k = ground arith

-- Of two addresses neither of which is below the other, `==` holds.
pub less_total : (l r : Address) → less l r ≡ false → less r l ≡ false → eq l r ≡ true
unfolding less eq
less_total l r h k = ground arith

pub less_asym : (a b : Address) → less a b ≡ true → less b a ≡ false
unfolding less
less_asym a b h = ground arith

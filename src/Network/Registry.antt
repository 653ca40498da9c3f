-- ===== src/Network/Registry.antt =====
-- `std::map<Address, …>` of libs/network/network_interface.h, as the operators of
-- libs/network/address.h order it: the entries in the order of their keys.
pub mod Laws
use x_kbengine.Prelude.{
  Bool, true, false, ◌||◌, not, Option, none, some, List, [], ◌∷◌, if◌then◌else◌,
}
use x_kbengine.Network.Address.{Address, less}

-- Two keys of which neither is below the other are the same to the map.
abbrev pub same_key : Address → Address → Bool
same_key a b = not (less a b || less b a)

module _ {V : Type 0} where
  unfoldable pub find : Address → List (Address × V) → Option V
  find a [] = none
  find a ((b, v) ∷ entries) = if same_key a b then some v else find a entries

  -- `map[a] = v`
  unfoldable pub insert : Address → V → List (Address × V) → List (Address × V)
  insert a v [] = (a, v) ∷ []
  insert a v ((b, w) ∷ entries) =
      if less a b
      then (a, v) ∷ (b, w) ∷ entries
      else if less b a
      then (b, w) ∷ insert a v entries
      else (b, v) ∷ entries

  -- The result says whether an entry was there.
  unfoldable pub erase : Address → List (Address × V) → Bool × List (Address × V)
  erase a [] = (false, [])
  erase a ((b, v) ∷ entries) =
      let (found, rest) = erase a entries in
      if same_key a b then (true, entries) else (found, (b, v) ∷ rest)

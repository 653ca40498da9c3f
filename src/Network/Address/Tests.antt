-- ===== src/Network/Address/Tests.antt =====
-- The text of an address.
use x_kbengine.Prelude.{arith, ◌≡◌, refl, [], ◌∷◌}
use x_kbengine.Stream.Bytes.{swap_bytes, host_bytes, host_value}
use x_kbengine.Network.Address.{Address}
use x_kbengine.Network.Address.Text.{c_str, decimal, formatted, read_address, read_address-c_str}

abbrev local : Address
local = record { ip = 16_777_343; port = 20_480 }

-- "127.0.0.1:80"
c_str-local : c_str local ≡ 49 ∷ 50 ∷ 55 ∷ 46 ∷ 48 ∷ 46 ∷ 48 ∷ 46 ∷ 49 ∷ 58 ∷ 56 ∷ 48 ∷ []
unfolding c_str decimal swap_bytes host_bytes host_value
c_str-local = refl

read_address-c_str_example :
    (read_address (c_str local) ≡ local)
    × (c_str local ≡ formatted (swap_bytes 4 16_777_343) (swap_bytes 2 20_480))
read_address-c_str_example = read_address-c_str local (omega arith) (omega arith)

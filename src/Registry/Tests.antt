-- ===== src/Registry/Tests.antt =====
-- driver/char_dev.c: the theorem on a registry of one device.
use hurlex_ii.Base.{refl, [], ◌∷◌, arith, ◌==◌, if◌then◌else◌}
use hurlex_ii.Registry.{Registry, add_char_dev, add_block_dev, add_filesystem}
use hurlex_ii.Registry.Names.{IsRegistry, Registered, add_char_dev-Registered}

-- The device 8 is "kb", and every other structure is "ide".
abbrev one_device : Registry
one_device = record {
  head = 8;
  next = λ p. 0;
  name = λ p. if p == 8 then 107 ∷ 98 ∷ [] else 105 ∷ 100 ∷ 101 ∷ [];
}

one_device-IsRegistry : IsRegistry one_device (8 ∷ [])
one_device-IsRegistry = record { leads = (refl, omega arith, refl); unique = (refl, tt) }

add_char_dev-Registered_example :
    Registered (8 ∷ []) 16 one_device (add_char_dev 3 16 one_device)
    × Registered (8 ∷ []) 16 one_device (add_block_dev 3 16 one_device)
    × Registered (8 ∷ []) 16 one_device (add_filesystem 3 16 one_device)
add_char_dev-Registered_example =
    add_char_dev-Registered 3 16 one_device (8 ∷ []) one_device-IsRegistry (omega arith) refl
      (omega arith)

-- ===== src/Vmm/Tests.antt =====
-- arch/i386/mm/vmm.c: the theorems on small directories.
use hurlex_ii.Base.{◌≡◌, refl, true, some, arith, inl, ◌==◌, if◌then◌else◌}
use hurlex_ii.Vmm.{Vmm, map, get_mapping, masked, vmm_init}
use hurlex_ii.Vmm.Map.{map-get_mapping}
use hurlex_ii.Vmm.Init.{vmm_init-get_mapping}

-- Directory entry 0 has the table 0x5000, and every table is full of 0x9003.
abbrev one_table : Vmm
one_table = record { pgd = λ i. if i == 0 then 0x5003 else 0; table = λ t i. 0x9003 }

map-get_mapping_example :
    (get_mapping 0x3000 true (map 0 0x3000 0x7123 3 one_table) ≡ some 0x7000)
    × (get_mapping 0x4000 true (map 0 0x3000 0x7123 3 one_table) ≡ some 0x9000)
unfolding get_mapping
map-get_mapping_example =
    map-get_mapping 0 0x3000 0x7123 3 0x4000 one_table (omega arith) (omega arith) (omega arith)
      (omega arith) (omega arith) (omega arith) (inl refl)

vmm_init-get_mapping_example :
    get_mapping 0xC012_3456 true (vmm_init 0x20_0000 one_table) ≡ some (masked 0x12_3456)
vmm_init-get_mapping_example =
    vmm_init-get_mapping 0x20_0000 0xC012_3456 one_table (omega arith) refl (omega arith)
      (omega arith)

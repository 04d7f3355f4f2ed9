-- ===== src/Drivers/Ram/Tests.antt =====
-- The choice of src/drivers/memory.c at a map of two entries.
use jiauliyan_os.Base.{◌≡◌, ◌⊎◌, refl, [], ◌∷◌, some, arith}
use jiauliyan_os.Memory.{Mem, store32, load32, load64}
use jiauliyan_os.Drivers.Ram.{
  Ram, no_ram, memory_init, Entry, Lays, AllShorter, IsPiece, memory_init_longest,
}

-- The map at 256: 640 KB at 0, then 127 MB at 1 MB, each entry 20 bytes long behind its size. What
-- stands behind the map is zero.
abbrev map_memory : Mem
map_memory =
    store32 (store32 (store32 (store32 (store32 (λ x. 0) 256 20) 268 655360) 280 20) 284 1048576)
      292 133169152

abbrev low_memory : Entry
low_memory = record { size = 20; addr = 0; len = 655360 }

abbrev high_memory : Entry
high_memory = record { size = 20; addr = 1048576; len = 133169152 }

abbrev behind_map : Entry
behind_map = record { size = 0; addr = 0; len = 0 }

-- The loop sees the second entry, and the zeros behind the map.
map-Lays : Lays map_memory 304 256 low_memory (high_memory ∷ behind_map ∷ [])
unfolding load32 load64 store32
map-Lays = (
  omega arith,
  refl,
  omega arith,
  refl,
  refl,
  (omega arith, refl, omega arith, refl, refl, omega arith),
)

memory_init_longest_example :
    (r : Ram) × (memory_init 3 map_memory 256 48 no_ram ≡ some r)
    × AllShorter (high_memory ∷ behind_map ∷ []) r
    × ((r ≡ no_ram) ⊎ IsPiece r (high_memory ∷ behind_map ∷ []))
memory_init_longest_example =
    memory_init_longest (high_memory ∷ behind_map ∷ []) low_memory 3 map_memory 256 48 (omega arith)
      map-Lays (omega arith)

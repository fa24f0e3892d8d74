-- ===== src/Tests/Kernel.antt =====
-- The theorems on the kernel's interrupt source, applied to concrete pools.
use esdm.Base.{true, false, some, List, [], ◌∷◌, replicate, refl}
use esdm.System.{EntropyEs}
use esdm.Harvest.{PerCpu, Hashing, irq_pool_hash}
use esdm.Harvest.Counts.{Capped, irq_pool_hash-Capped}

-- A digest of 64 bytes, and 256 interrupts for 256 bits.
abbrev hashing : Hashing
hashing = record {
  startup_complete = true;
  hash_there = true;
  continuous_compression = true;
  data_num_values = 1024;
  irq_entropy_bits = 256;
  compress_osr = 64;
  digestsize = 64;
  init_ok = true;
  pool_ok = λ cpu. true;
  inject_ok = λ cpu. true;
  final_digest = some (replicate 64 9);
}

-- One pool above its cap, one offline.
abbrev three_pools : List PerCpu
three_pools =
    record { online = true; array_irqs = 700 }
    ∷ record { online = false; array_irqs = 50 }
    ∷ record { online = true; array_irqs = 100 }
    ∷ []

abbrev blank : EntropyEs
blank = record { e = replicate 64 0; e_bits = 0 }

irq_pool_hash-Capped_example :
    Capped hashing 256 three_pools (irq_pool_hash hashing blank 256 three_pools)
irq_pool_hash-Capped_example = irq_pool_hash-Capped hashing blank 256 three_pools refl

-- ===== src/Harvest.antt =====
-- How the kernel's interrupt source hands out what its CPUs have collected: `esdm_irq_pool_hash` of
-- addon/linux_esdm_es/esdm_es_irq.c. No interrupt comes in between its reads of a CPU's counter. The
-- results of the hash are parameters.
pub mod Counts
use esdm.Base.{
  ℕ, zero, suc, ◌+◌, ◌-◌, ◌*◌, ◌/◌, Bool, true, false, not, Option, none, some, List, [], ◌∷◌, ◌++◌,
  ltb, leb, if◌then◌else◌, min, add_u32, mul_u32, min_uint32, take, drop,
}
use esdm.System.{EntropyEs}

-- The pool of one CPU, with the interrupts that it has counted.
pub record PerCpu : Type 0 where
  pub online : Bool
  pub array_irqs : ℕ

-- The build and the state of the health test, and what the hash returns: for the pool of each CPU,
-- for its digest as part of the whole, at the start and at the end.
pub record Hashing : Type 0 where
  pub startup_complete : Bool
  pub hash_there : Bool
  pub continuous_compression : Bool
  pub data_num_values : ℕ
  pub irq_entropy_bits : ℕ
  pub compress_osr : ℕ
  pub digestsize : ℕ
  pub init_ok : Bool
  pub pool_ok : ℕ → Bool
  pub inject_ok : ℕ → Bool
  pub final_digest : Option (List ℕ)

-- `esdm_entropy_to_data` and `esdm_data_to_entropy`; 256 is the security strength.
unfoldable pub entropy_to_data : ℕ → ℕ → ℕ
entropy_to_data entropy_bits entropy_rate = mul_u32 entropy_bits entropy_rate / 256

unfoldable pub data_to_entropy : ℕ → ℕ → ℕ
data_to_entropy num entropy_rate = mul_u32 num 256 / entropy_rate

-- `esdm_reduce_by_osr` of the kernel module.
unfoldable pub discount_osr : ℕ → ℕ → ℕ
discount_osr osr_bits entropy_bits =
    if leb osr_bits entropy_bits then entropy_bits - osr_bits else 0

module _ (c : Hashing) where
  -- The most interrupts that count for one pool.
  unfoldable pub pool_cap : ℕ
  unfolding entropy_to_data
  pool_cap =
      let digestsize_irqs = entropy_to_data (mul_u32 c.digestsize 8) c.irq_entropy_bits in
      if c.continuous_compression
      then digestsize_irqs
      else min_uint32 digestsize_irqs c.data_num_values

  -- `esdm_irq_pool_hash_one`; the counter of the pool is then 0.
  unfoldable pub pool_hash_one : ℕ → PerCpu → ℕ
  unfolding pool_cap
  pool_hash_one cpu pool = if c.pool_ok cpu then min_uint32 pool.array_irqs pool_cap else 0

  -- What is used of a sum, and what is given back.
  unfoldable pub used : ℕ → ℕ → ℕ
  used requested_irqs sum = if ltb requested_irqs sum then requested_irqs else sum

  unfoldable pub unused : ℕ → ℕ → ℕ
  unused requested_irqs sum = if ltb requested_irqs sum then sum - requested_irqs else 0

  -- The loop over the CPUs from one on; none where a hash fails.
  unfoldable pub harvest : ℕ → ℕ → ℕ → List PerCpu → Option ℕ × List PerCpu
  unfolding pool_hash_one used unused
  harvest requested_irqs cpu collected [] = (some collected, [])
  harvest requested_irqs cpu collected (pool ∷ pools) =
      let sum = add_u32 collected (pool_hash_one cpu pool) in
      let next = if pool.online then used requested_irqs sum else collected in
      let rest = harvest requested_irqs (suc cpu) next pools in
      if not pool.online
      then (rest.0, pool ∷ rest.1)
      else if c.inject_ok cpu
      then (rest.0, record pool { array_irqs = unused requested_irqs sum } ∷ rest.1)
      else (none, record pool { array_irqs = 0 } ∷ pools)

  -- The entropy statement and the buffer for so many interrupts.
  unfoldable pub deliver : ℕ → EntropyEs → EntropyEs
  unfolding data_to_entropy discount_osr
  deliver collected_irqs eb = elim c.final_digest [
    | none ↦ record eb { e_bits = 0 }
    | some digest ↦
        let bits =
          discount_osr c.compress_osr (data_to_entropy collected_irqs c.irq_entropy_bits) in
        record { e = take (bits / 8) digest ++ drop (bits / 8) eb.e; e_bits = bits }
  ]

  -- The interrupts that make up the bits asked for.
  unfoldable pub requested : ℕ → ℕ
  unfolding entropy_to_data
  requested requested_bits =
      entropy_to_data (add_u32 (min_uint32 (mul_u32 c.digestsize 8) requested_bits) c.compress_osr)
        c.irq_entropy_bits

  -- `esdm_irq_pool_hash`. Without a hash the buffer stays as it was.
  unfoldable pub irq_pool_hash : EntropyEs → ℕ → List PerCpu → EntropyEs × List PerCpu
  unfolding harvest deliver requested
  irq_pool_hash eb requested_bits pools =
      if not c.startup_complete
      then (record eb { e_bits = 0 }, pools)
      else if not c.hash_there
      then (eb, pools)
      else if not c.init_ok
      then (record eb { e_bits = 0 }, pools)
      else (let (collected, pools') = harvest (requested requested_bits) 0 0 pools in
          (elim collected [ none ↦ record eb { e_bits = 0 } | some n ↦ deliver n eb ], pools'))

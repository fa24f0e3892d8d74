-- ===== src/Harvest/Counts.antt =====
-- No interrupt counts twice, and no more entropy is reported than was asked for.
use native.Mathlib.Nat.{div-le_of_le-mul, mul-le-mul_right, mul_comm}
use esdm.Base.{
  ℕ, suc, ◌+◌, ◌-◌, ◌*◌, ◌/◌, ◌≤◌, true, false, Option, none, some, List, [], ◌∷◌, ◌≡◌, arith,
  if◌then◌else◌, add_u32, mul_u32, min_uint32, take, drop, ◌++◌, inl, inr, Bool-cases,
}
use esdm.System.{EntropyEs}
use esdm.Harvest.{
  PerCpu, Hashing, entropy_to_data, data_to_entropy, discount_osr, pool_cap, pool_hash_one, used,
  unused, harvest, deliver, requested, irq_pool_hash,
}

entropy_to_data-le :
    (a r : ℕ) → (entropy_to_data a r ≤ 16777215) × (entropy_to_data a r * 256 ≤ a * r)
unfolding entropy_to_data
entropy_to_data-le a r = (omega arith, omega arith)

-- All interrupts that are counted.
abbrev pub total : List PerCpu → ℕ
total [] = 0
total (pool ∷ pools) = pool.array_irqs + total pools

module _ (c : Hashing) where
  pool_cap-le : pool_cap c ≤ 16777215
  unfolding pool_cap
  pool_cap-le = ground (arith, entropy_to_data-le (mul_u32 c.digestsize 8) c.irq_entropy_bits)

  pool_hash_one-le :
      (cpu : ℕ) (pool : PerCpu)
      → (pool_hash_one c cpu pool ≤ pool.array_irqs) × (pool_hash_one c cpu pool ≤ 16777215)
  unfolding pool_hash_one
  pool_hash_one-le cpu pool = ground (arith, pool_cap-le)

  used-unused :
      (limit sum : ℕ)
      → (used c limit sum + unused c limit sum ≡ sum)
        × (used c limit sum ≤ limit)
        × (unused c limit sum ≤ sum - limit)
  unfolding used unused
  used-unused limit sum = ground arith

  -- The interrupts of the pools from one on that a run of the loop drops.
  abbrev pub lost : ℕ → List PerCpu → ℕ
  lost cpu [] = 0
  lost cpu (pool ∷ pools) =
      (if pool.online then pool.array_irqs - pool_hash_one c cpu pool else 0) + lost (suc cpu) pools

  -- The interrupts handed out, given back and dropped are those that were there.
  abbrev pub Conserved : ℕ → ℕ → ℕ → List PerCpu → Option ℕ × List PerCpu → Type 0
  Conserved limit cpu before pools (some after, pools') =
      (after + total pools' + lost cpu pools ≡ before + total pools) × (after ≤ limit)
  Conserved limit cpu before pools (none, pools') = total pools' ≤ total pools

  skipped-Conserved :
      (limit cpu before n : ℕ) (pools : List PerCpu) (r : Option ℕ × List PerCpu)
      → let pool : PerCpu = record { online = false; array_irqs = n } in
        Conserved limit (suc cpu) before pools r
        → Conserved limit cpu before (pool ∷ pools) (r.0, pool ∷ r.1)
  skipped-Conserved limit cpu before n pools (none, ps) x = omega (arith, x)
  skipped-Conserved limit cpu before n pools (some after, ps) (sum, le) = (omega (arith, sum), le)

  taken-Conserved :
      (limit cpu before n : ℕ) (pools : List PerCpu) (r : Option ℕ × List PerCpu)
      → before ≤ limit
      → limit ≤ 16777215
      → let pool : PerCpu = record { online = true; array_irqs = n } in
        let sum = add_u32 before (pool_hash_one c cpu pool) in
        Conserved limit (suc cpu) (used c limit sum) pools r
        → Conserved limit cpu before
            (pool ∷ pools)
            (r.0, record pool { array_irqs = unused c limit sum } ∷ r.1)
  taken-Conserved limit cpu before n pools (none, ps) le small x =
      let pool : PerCpu = record { online = true; array_irqs = n } in
      omega (
        arith,
        x,
        pool_hash_one-le cpu pool,
        used-unused limit (add_u32 before (pool_hash_one c cpu pool)),
      )
  taken-Conserved limit cpu before n pools (some after, ps) le small (sum, fits) =
      let pool : PerCpu = record { online = true; array_irqs = n } in
      (
        omega (
          arith,
          sum,
          pool_hash_one-le cpu pool,
          used-unused limit (add_u32 before (pool_hash_one c cpu pool)),
        ),
        fits,
      )

  harvest-Conserved :
      (limit cpu before : ℕ) (pools : List PerCpu)
      → limit ≤ 16777215
      → before ≤ limit
      → Conserved limit cpu before pools (harvest c limit cpu before pools)
  unfolding harvest
  harvest-Conserved limit cpu before [] small le = (omega arith, le)
  harvest-Conserved limit cpu before (pool ∷ pools) small le = elim (Bool-cases pool.online) [
    | inr off ↦
        rw (off, harvest)
          (skipped-Conserved limit cpu before pool.array_irqs pools
            (harvest c limit (suc cpu) before pools)
            (harvest-Conserved limit (suc cpu) before pools small le))
    | inl on ↦
        let whole : PerCpu = record { online = true; array_irqs = pool.array_irqs } in
        let sum = add_u32 before (pool_hash_one c cpu whole) in
        let rest =
          harvest-Conserved limit (suc cpu) (used c limit sum) pools small
            (used-unused limit sum).1 in
        elim (Bool-cases (c.inject_ok cpu)) [
          | inl fed ↦
              rw (on, harvest, fed)
                (taken-Conserved limit cpu before pool.array_irqs pools
                  (harvest c limit (suc cpu) (used c limit sum) pools) le small rest)
          | inr failed ↦ rw (on, harvest, failed) (omega arith)
        ]
  ]

  requested-le :
      (bits : ℕ)
      → (requested c bits ≤ 16777215)
        × (requested c bits * 256
            ≤ (min_uint32 (mul_u32 c.digestsize 8) bits + c.compress_osr) * c.irq_entropy_bits)
  unfolding requested
  requested-le bits =
      let capped = min_uint32 (mul_u32 c.digestsize 8) bits in
      let (small, whole) = entropy_to_data-le (add_u32 capped c.compress_osr) c.irq_entropy_bits in
      let word : add_u32 capped c.compress_osr ≤ capped + c.compress_osr = omega arith in
      (small, omega (arith, whole, mul-le-mul_right c.irq_entropy_bits word))

  pub harvest-requested :
      (bits : ℕ) (pools : List PerCpu)
      → Conserved (requested c bits) 0 0 pools (harvest c (requested c bits) 0 0 pools)
  harvest-requested bits pools =
      harvest-Conserved (requested c bits) 0 0 pools (requested-le bits).0 (omega arith)

  discounted-le :
      (n r capped osr : ℕ)
      → n * 256 ≤ r * (capped + osr)
      → discount_osr osr (data_to_entropy n r) ≤ capped
  unfolding data_to_entropy discount_osr
  discounted-le n r capped osr le =
      let word : mul_u32 n 256 ≤ r * (capped + osr) = omega arith in
      let bits : mul_u32 n 256 / r ≤ capped + osr = div-le_of_le-mul r word in ground (arith, bits)

  filled-le :
      (final : Option (List ℕ)) (bits capped : ℕ) (eb : EntropyEs)
      → bits ≤ capped
      → let eb' : EntropyEs = elim final [
        | none ↦ record eb { e_bits = 0 }
        | some digest ↦ record { e = take (bits / 8) digest ++ drop (bits / 8) eb.e; e_bits = bits }
      ] in
        eb'.e_bits ≤ capped
  filled-le none bits capped eb le = omega arith
  filled-le (some digest) bits capped eb le = le

  deliver-le :
      (n bits : ℕ) (eb : EntropyEs)
      → n ≤ requested c bits
      → (deliver c n eb).e_bits ≤ min_uint32 (mul_u32 c.digestsize 8) bits
  unfolding deliver
  deliver-le n bits eb le =
      let capped = min_uint32 (mul_u32 c.digestsize 8) bits in
      let enough : n * 256 ≤ c.irq_entropy_bits * (capped + c.compress_osr) =
        omega
          (arith, (requested-le bits).1, mul_comm (capped + c.compress_osr) c.irq_entropy_bits) in
      let bound = discounted-le n c.irq_entropy_bits capped c.compress_osr enough in
      filled-le c.final_digest (discount_osr c.compress_osr (data_to_entropy n c.irq_entropy_bits))
        capped eb bound

  -- The entropy is within the request and the digest, and no count has grown.
  abbrev pub Capped : ℕ → List PerCpu → EntropyEs × List PerCpu → Type 0
  Capped bits pools (eb, pools') =
      (eb.e_bits ≤ bits) × (eb.e_bits ≤ mul_u32 c.digestsize 8) × (total pools' ≤ total pools)

  Conserved-Capped :
      (bits : ℕ) (pools : List PerCpu) (eb : EntropyEs) (r : Option ℕ × List PerCpu)
      → Conserved (requested c bits) 0 0 pools r
      → Capped bits pools
          (elim (r.0) [ none ↦ record eb { e_bits = 0 } | some n ↦ deliver c n eb ], r.1)
  Conserved-Capped bits pools eb (none, pools') x = (omega arith, omega arith, x)
  Conserved-Capped bits pools eb (some n, pools') (sum, le) =
      let bound = deliver-le n bits eb le in
      (ground (arith, bound), ground (arith, bound), omega (arith, sum))

  -- With a hash, no more entropy is reported than was asked for, and no more than the digest has bits,
  -- whatever the pools have counted, for each rate and each oversampling and also where a hash fails;
  -- and no interrupt is counted that was not there before.
  pub irq_pool_hash-Capped :
      (eb : EntropyEs) (bits : ℕ) (pools : List PerCpu)
      → c.hash_there ≡ true
      → Capped bits pools (irq_pool_hash c eb bits pools)
  unfolding irq_pool_hash
  irq_pool_hash-Capped eb bits pools there = elim (Bool-cases c.startup_complete) [
    | inr testing ↦ rw testing (omega arith, omega arith, omega arith)
    | inl complete ↦ elim (Bool-cases c.init_ok) [
      | inr failed ↦ rw (complete, there, failed) (omega arith, omega arith, omega arith)
      | inl ready ↦
          rw (complete, there, ready)
            (Conserved-Capped bits pools eb (harvest c (requested c bits) 0 0 pools)
              (harvest-requested bits pools))
    ]
  ]

-- ===== src/AuxPool/Accounting.antt =====
-- The entropy counter of the auxiliary pool at insertions and extractions.
use esdm.Base.{
  ℕ, ◌+◌, ◌-◌, ◌*◌, ◌≤◌, ◌<◌, min, List, Result, ok, err, Errno, ◌≡◌, refl, ◌⊎◌, inl, inr,
  Result-cases, arith, length, min_uint32, mul_u32,
}
use esdm.Config.{compress_osr, reduce_by_osr}
use esdm.System.{Sys, Pool, Platform, EntropyEs}
use esdm.AuxPool.{
  notify_need_entropy, pool_set_entropy, ensure_init, insert_update, pool_insert_locked,
  pool_insert_aux, aux_get_pool, extract, collect, cap_request, aux_get_backtrack,
}

-- Sizes that the `uint32_t` arithmetic holds.
pub record Sized {X D H : Type 0} (p : Platform X D H) (s : Sys X D H) : Type 0 where
  pub digest : p.hash_digestsize ≤ 64
  pub counter : s.pool.aux_entropy_bits ≤ 8 * p.hash_digestsize

module _ {X D H : Type 0} where
  pub bits-pool_set_entropy :
      (bits : ℕ) (s : Sys X D H) → (pool_set_entropy bits s).pool.aux_entropy_bits ≡ bits
  unfolding pool_set_entropy
  bits-pool_set_entropy bits s = refl

  pub bits-notify_need_entropy : (s : Sys X D H) → (notify_need_entropy s).pool ≡ s.pool
  unfolding notify_need_entropy
  bits-notify_need_entropy s = refl

module _ {X D H : Type 0} (p : Platform X D H) where
  bits-ensure_init :
      (q : Pool H) {r : Pool H} → ensure_init p q ≡ ok r → r.aux_entropy_bits ≡ q.aux_entropy_bits
  unfolding ensure_init
  bits-ensure_init q h = ground arith

  -- What an insertion leaves in the counter, by its return value.
  abbrev pub Credited : ℕ → ℕ → ℕ → Result (Unit {0}) × Sys X D H → Type 0
  Credited before bits len r =
      ((r.0 ≡ ok tt)
        × (r.1.pool.aux_entropy_bits ≡ min (before + min bits (8 * len)) (8 * p.hash_digestsize)))
      ⊎ ((e : Errno) × (r.0 ≡ err e) × (r.1.pool.aux_entropy_bits ≡ before))

  insert_update-Credited :
      (inbuf : List ℕ) (bits : ℕ) (q : Pool H) (s : Sys X D H)
      → p.hash_digestsize ≤ 64
      → bits + q.aux_entropy_bits < 4294967296
      → bits ≤ 8 * length inbuf
      → Credited q.aux_entropy_bits bits (length inbuf) (insert_update p inbuf bits q s)
  unfolding insert_update
  insert_update-Credited inbuf bits q s dig small fits =
      elim (Result-cases (p.hash_update q.aux_pool inbuf)) [
        | inl (x, e) ↦ rw (e, insert_update) (inr (x, refl, refl))
        | inr (h, e) ↦ rw (e, insert_update) (inl (refl, rw bits-pool_set_entropy (ground arith)))
      ]

  insert_locked-Credited :
      (inbuf : List ℕ) (bits : ℕ) (s : Sys X D H)
      → Sized p s
      → length inbuf ≤ 268435456
      → Credited s.pool.aux_entropy_bits bits (length inbuf) (pool_insert_locked p inbuf bits s)
  unfolding pool_insert_locked
  insert_locked-Credited inbuf bits s z short = elim (Result-cases (ensure_init p s.pool)) [
    | inl (x, e) ↦ rw (e, pool_insert_locked) (inr (x, refl, refl))
    | inr (q, e) ↦
        rw (e, pool_insert_locked)
          (ground (
            arith,
            bits-ensure_init s.pool e,
            insert_update-Credited inbuf (min_uint32 bits (mul_u32 (length inbuf) 8)) q s z.digest,
          ))
  ]

  -- An insertion that succeeds credits the claimed entropy, but no more than the bits inserted,
  -- and caps the counter at the digest size; one that fails leaves the counter as it was. The
  -- digest has at most 64 bytes, the counter is within its size, and at most 2^28 bytes are
  -- inserted.
  pub pool_insert_aux-Credited :
      (inbuf : List ℕ) (bits : ℕ) (s : Sys X D H)
      → Sized p s
      → length inbuf ≤ 268435456
      → Credited s.pool.aux_entropy_bits bits (length inbuf) (pool_insert_aux p inbuf bits s)
  unfolding pool_insert_aux notify_need_entropy
  pool_insert_aux-Credited inbuf bits s z short = insert_locked-Credited inbuf bits s z short

  -- What is collected for a request, and what stays.
  collect_lem :
      (capped : ℕ) (s : Sys X D H)
      → Sized p s
      → capped ≤ 512
      → let (collected, q) = collect p capped s in
        (collected ≡ min s.pool.aux_entropy_bits (capped + compress_osr s.settings))
        × (collected + q.aux_entropy_bits ≡ s.pool.aux_entropy_bits)
  unfolding collect compress_osr
  collect_lem capped s z small = ground arith

  reduce_by_osr_lem :
      (s : Sys X D H) (n : ℕ) → reduce_by_osr s.settings n ≡ n - compress_osr s.settings
  unfolding reduce_by_osr
  reduce_by_osr_lem s n = ground arith

  cap_request-le :
      (n : ℕ) → p.hash_digestsize ≤ 64 → (cap_request p n ≤ 512) × (cap_request p n ≤ n)
  unfolding cap_request
  cap_request-le n small = ground arith

  -- The digest is handed out whole or the entropy is reported as none.
  bits-extract :
      (out : List ℕ) (capped returned : ℕ) (q : Pool H)
      → let (out', bits, q') = extract p out capped returned q in
        ((bits ≡ returned) ⊎ (bits ≡ 0)) × (q'.aux_entropy_bits ≡ q.aux_entropy_bits)
  unfolding extract
  bits-extract out capped returned q = ground arith

  -- Entropy handed out by the pool.
  abbrev pub Extracted : ℕ → ℕ → ℕ → Sys X D H → ℕ → Sys X D H → Type 0
  Extracted before osr request s bits s' =
      (bits ≤ request)
      × (bits + s'.pool.aux_entropy_bits ≤ before)
      × ((bits ≡ 0) ⊎ (bits + osr + s'.pool.aux_entropy_bits ≡ before))

  aux_get_pool-Extracted :
      (out : List ℕ) (request : ℕ) (s : Sys X D H)
      → Sized p s
      → let (out', bits, s') = aux_get_pool p out request s in
        Extracted s.pool.aux_entropy_bits (compress_osr s.settings) request s bits s'
  unfolding aux_get_pool
  aux_get_pool-Extracted out request s z =
      let capped = cap_request p request in
      let (collected, q) = collect p capped s in
      ground (
        arith,
        cap_request-le request,
        collect_lem capped s z,
        reduce_by_osr_lem s collected,
        bits-extract out capped (reduce_by_osr s.settings collected) q,
      )

  -- An extraction with its backtracking step reports at most the requested entropy; what it
  -- reports and what stays in the counter is at most what was there, and where it reports any,
  -- the oversampling has been taken off as well, exactly. The digest has at most 64 bytes, the
  -- counter is within its size, and the entry that is put back has at most 2^28 bytes.
  pub aux_get_backtrack-Extracted :
      (es : EntropyEs) (request : ℕ) (s : Sys X D H)
      → Sized p s
      → length (p.image_es (aux_get_backtrack p es request s).0) ≤ 268435456
      → let (es', s') = aux_get_backtrack p es request s in
        Extracted s.pool.aux_entropy_bits (compress_osr s.settings) request s es'.e_bits s'
  unfolding aux_get_backtrack
  aux_get_backtrack-Extracted es request s z short =
      let (out, bits, s') = aux_get_pool p es.e request s in
      let x = aux_get_pool-Extracted es.e request s z in
      let z' : Sized p s' = record { digest = z.digest; counter = omega (arith, x, z.counter) } in
      let img = p.image_es (record { e = out; e_bits = bits }) in
      ground (arith, x, insert_locked-Credited img 0 s' z' short)

  collect-le : (capped : ℕ) (s : Sys X D H) → p.hash_digestsize ≤ 64 → (collect p capped s).0 ≤ 512
  unfolding collect
  collect-le capped s small = ground arith

  -- The pool never reports more than its digest can hold.
  pub aux_get_pool-le :
      (out : List ℕ) (request : ℕ) (s : Sys X D H)
      → p.hash_digestsize ≤ 64
      → (aux_get_pool p out request s).1 ≤ 512
  unfolding aux_get_pool
  aux_get_pool-le out request s small =
      let capped = cap_request p request in
      let (collected, q) = collect p capped s in
      ground (
        arith,
        collect-le capped s small,
        reduce_by_osr_lem s collected,
        bits-extract out capped (reduce_by_osr s.settings collected) q,
      )

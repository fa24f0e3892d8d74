-- ===== src/AuxPool.antt =====
-- The auxiliary entropy pool, esdm/esdm_es_aux.c, with the helpers of esdm/esdm_es_aux.h and
-- `esdm_need_entropy` of esdm/esdm_interface_dev_common.c. The pool's lock and the hash lock are
-- held for the whole of each operation.
pub mod Frame
pub mod Accounting
pub mod Switch
use esdm.Base.{
  ℕ, ◌*◌, ◌/◌, Bool, true, false, not, ◌&&◌, List, ◌++◌, Result, ok, err, ltb, if◌then◌else◌,
  min_uint32, add_u32, sub_u32, mul_u32, length, take, drop,
}
use esdm.Config.{
  sp80090c_compliant, compress_osr, reduce_by_osr, seed_buffer_init_add_bits, max_digestsize,
  full_seed_entropy_bits,
}
use esdm.System.{Sys, Pool, Platform, EntropyEs}
use esdm.ShmStatus

module _ {X D H : Type 0} where
  abbrev pub with_pool : Pool H → Sys X D H → Sys X D H
  with_pool q s = record s { pool = q }

  -- In bits.
  unfoldable pub get_digestsize : Sys X D H → ℕ
  get_digestsize s = mul_u32 s.pool.digestsize 8

  unfoldable pub aux_avail_entropy : Sys X D H → ℕ
  unfolding get_digestsize
  aux_avail_entropy s =
      reduce_by_osr s.settings (min_uint32 (get_digestsize s) s.pool.aux_entropy_bits)

  unfoldable pub security_strength : Sys X D H → ℕ
  unfolding get_digestsize
  security_strength s = min_uint32 full_seed_entropy_bits (get_digestsize s)

  unfoldable pub get_seed_entropy_osr : Bool → Sys X D H → ℕ
  get_seed_entropy_osr fully_seeded s =
      let requested_bits = security_strength s in
      if sp80090c_compliant s.settings && not fully_seeded
      then add_u32 requested_bits (seed_buffer_init_add_bits s.settings.build)
      else requested_bits

  unfoldable pub need_entropy : Sys X D H → Bool
  need_entropy s = ltb (aux_avail_entropy s) s.write_wakeup_bits

  -- `esdm_shm_status_set_need_entropy`, and all that `esdm_writer_wakeup` changes.
  unfoldable pub notify_need_entropy : Sys X D H → Sys X D H
  notify_need_entropy s = record s { shm = ShmStatus.set_need_entropy (need_entropy s) s.shm }

  unfoldable pub set_digestsize : ℕ → Sys X D H → Sys X D H
  set_digestsize digestsize s =
      let ent_bits = min_uint32 s.pool.aux_entropy_bits (get_digestsize s) in
      record s {
        pool = record (s.pool) { aux_entropy_bits = add_u32 0 ent_bits; digestsize = digestsize };
        write_wakeup_bits = reduce_by_osr s.settings (mul_u32 digestsize 8);
      }

  unfoldable pub pool_set_entropy : ℕ → Sys X D H → Sys X D H
  unfolding notify_need_entropy
  pool_set_entropy entropy_bits s =
      notify_need_entropy (with_pool (record (s.pool) { aux_entropy_bits = entropy_bits }) s)

  -- `esdm_aux_reset`
  unfoldable pub aux_reset : Sys X D H → Sys X D H
  unfolding pool_set_entropy
  aux_reset s = pool_set_entropy 0 s

module _ {X D H : Type 0} (p : Platform X D H) where
  unfoldable pub aux_init : Sys X D H → Result (Unit {0}) × Sys X D H
  aux_init s = elim p.hash_alloc [
    | err e ↦ (err e, s)
    | ok h ↦ (
      ok tt,
      notify_need_entropy (record s {
        pool = record (s.pool) { aux_pool = h; initialized = false };
        write_wakeup_bits = reduce_by_osr s.settings (get_digestsize s);
      }),
    )
  ]

  -- The hash is set up at the first insertion.
  unfoldable pub ensure_init : Pool H → Result (Pool H)
  ensure_init q = if q.initialized then ok q else elim (p.hash_init q.aux_pool) [
    | err e ↦ err e
    | ok h ↦ ok (record q { aux_pool = h; initialized = true })
  ]

  -- The rest of `esdm_aux_pool_insert_locked`, on the pool that is set up.
  unfoldable pub insert_update : List ℕ → ℕ → Pool H → Sys X D H → Result (Unit {0}) × Sys X D H
  insert_update inbuf entropy_bits q s = elim (p.hash_update q.aux_pool inbuf) [
    | err e ↦ (err e, with_pool q s)
    | ok h ↦ (
      ok tt,
      pool_set_entropy
          (min_uint32 (add_u32 entropy_bits q.aux_entropy_bits) (mul_u32 p.hash_digestsize 8))
          (with_pool (record q { aux_pool = h }) s),
    )
  ]

  unfoldable pub pool_insert_locked : List ℕ → ℕ → Sys X D H → Result (Unit {0}) × Sys X D H
  unfolding ensure_init insert_update
  pool_insert_locked inbuf bits s =
      let entropy_bits = min_uint32 bits (mul_u32 (length inbuf) 8) in
      elim (ensure_init s.pool) [ err e ↦ (err e, s) | ok q ↦ insert_update inbuf entropy_bits q s ]

  unfoldable pub pool_insert_aux : List ℕ → ℕ → Sys X D H → Result (Unit {0}) × Sys X D H
  unfolding pool_insert_locked
  pool_insert_aux inbuf bits s =
      let (ret, s') = pool_insert_locked inbuf bits s in (ret, notify_need_entropy s')

  -- The request after both caps of `esdm_aux_get_pool`.
  unfoldable pub cap_request : ℕ → ℕ
  cap_request requested_bits =
      let digestsize_bits = mul_u32 p.hash_digestsize 8 in
      let capped = if ltb digestsize_bits requested_bits then digestsize_bits else requested_bits in
      min_uint32 capped (max_digestsize * 8)

  -- The entropy taken out of the pool for a capped request: what is collected, and the pool with
  -- the overflow put back.
  unfoldable pub collect : ℕ → Sys X D H → ℕ × Pool H
  collect capped s =
      let requested_bits_osr = add_u32 capped (compress_osr s.settings) in
      let collected = min_uint32 (mul_u32 p.hash_digestsize 8) s.pool.aux_entropy_bits in
      if ltb requested_bits_osr collected
      then (
        requested_bits_osr,
        record (s.pool) { aux_entropy_bits = add_u32 0 (sub_u32 collected requested_bits_osr) },
      )
      else (collected, record (s.pool) { aux_entropy_bits = 0 })

  -- The digest is handed out and the hash started anew; on a failure no entropy is reported.
  unfoldable pub extract : List ℕ → ℕ → ℕ → Pool H → List ℕ × ℕ × Pool H
  extract outbuf capped returned q = elim (p.hash_final q.aux_pool) [
    | err e ↦ (outbuf, 0, q)
    | ok digest ↦ elim (p.hash_init q.aux_pool) [
      | err e ↦ (outbuf, 0, q)
      | ok h ↦ (
        take (capped / 8) digest ++ drop (capped / 8) outbuf,
        returned,
        record q { aux_pool = h },
      )
    ]
  ]

  unfoldable pub aux_get_pool : List ℕ → ℕ → Sys X D H → List ℕ × ℕ × Sys X D H
  unfolding cap_request collect extract
  aux_get_pool outbuf requested_bits s =
      if s.pool.initialized
      then (let capped = cap_request requested_bits in
          let (collected, q) = collect capped s in
          let returned = reduce_by_osr s.settings collected in
          let (out, bits, q') = extract outbuf capped returned q in (out, bits, with_pool q' s))
      else (outbuf, 0, s)

  unfoldable pub aux_get_backtrack : EntropyEs → ℕ → Sys X D H → EntropyEs × Sys X D H
  unfolding aux_get_pool pool_insert_locked
  aux_get_backtrack eb_es requested_bits s =
      let (out, bits, s') = aux_get_pool eb_es.e requested_bits s in
      let filled : EntropyEs = record { e = out; e_bits = bits } in
      let (ret, s'') = pool_insert_locked (p.image_es filled) 0 s' in (filled, s'')

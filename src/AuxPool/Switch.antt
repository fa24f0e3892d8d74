-- ===== src/AuxPool/Switch.antt =====
-- The switch of the auxiliary pool to another hash, `esdm_aux_switch_hash` of esdm/esdm_es_aux.c. The
-- old and the new callbacks stand in two platforms over the same kind of hash state.
use esdm.Base.{
  ◌*◌, ◌≤◌, ◌<◌, min, Bool, not, Result, ok, err, ◌≡◌, refl, ◌⊎◌, inl, arith, if◌then◌else◌,
  if_both,
}
use esdm.Config.{reduce_by_osr}
use esdm.System.{Sys, Pool, Platform}
use esdm.AuxPool.{with_pool, set_digestsize, get_digestsize}

module _ {X D H : Type 0} where
  -- The calls of both callback tables in their order: the state of the new hash, fed with the digest
  -- of the old one.
  unfoldable pub new_hash : Platform X D H → Platform X D H → Pool H → Result H
  new_hash old new q = elim new.hash_alloc [
    | err e ↦ err e
    | ok unused ↦ elim (old.hash_final q.aux_pool) [
      | err e ↦ err e
      | ok digest ↦ elim (new.hash_init unused) [ err e ↦ err e | ok h ↦ new.hash_update h digest ]
    ]
  ]

  -- `is_init`: the call is for the initial DRNG.
  unfoldable pub aux_switch_hash :
      Platform X D H → Platform X D H → Bool → Sys X D H → Result (Unit {0}) × Sys X D H
  unfolding new_hash
  aux_switch_hash old new is_init s =
      if not s.pool.initialized
      then (ok tt, s)
      else if not is_init
      then (ok tt, s)
      else elim (new_hash old new s.pool) [
        | err e ↦ (err e, s)
        | ok h ↦ (
          ok tt,
          set_digestsize new.hash_digestsize (with_pool (record (s.pool) { aux_pool = h }) s),
        )
      ]

  -- What is left of the entropy by a switch.
  abbrev pub Switched : Platform X D H → Sys X D H → Result (Unit {0}) × Sys X D H → Type 0
  Switched new s r =
      (r.1.pool.aux_entropy_bits ≤ s.pool.aux_entropy_bits)
      × ((r.1.pool ≡ s.pool) × (r.1.write_wakeup_bits ≡ s.write_wakeup_bits)
          ⊎ (r.0 ≡ ok tt)
            × (r.1.pool.aux_entropy_bits ≡ min s.pool.aux_entropy_bits (8 * s.pool.digestsize))
            × (r.1.pool.digestsize ≡ new.hash_digestsize)
            × (r.1.write_wakeup_bits ≡ reduce_by_osr s.settings (8 * new.hash_digestsize)))

  set_digestsize-Switched :
      (new : Platform X D H) (h : H) (s : Sys X D H)
      → s.pool.digestsize ≤ 64
      → new.hash_digestsize ≤ 64
      → s.pool.aux_entropy_bits < 4294967296
      → Switched new s (
        ok tt,
        set_digestsize new.hash_digestsize (with_pool (record (s.pool) { aux_pool = h }) s),
      )
  unfolding set_digestsize get_digestsize
  set_digestsize-Switched new h s small small' fits = ground arith

  unchanged :
      (new : Platform X D H) (s : Sys X D H) (ret : Result (Unit {0})) → Switched new s (ret, s)
  unchanged new s ret = (omega arith, inl (refl, refl))

  result_both :
      (new : Platform X D H) (s : Sys X D H) (r : Result H) (f : H → Sys X D H)
      → ((h : H) → Switched new s (ok tt, f h))
      → let x : Result (Unit {0}) × Sys X D H = elim r [
        | err e ↦ (err e, s)
        | ok h ↦ (ok tt, f h)
      ] in
        Switched new s x
  result_both new s (err e) f k = unchanged new s (err e)
  result_both new s (ok h) f k = k h

  -- A switch never adds entropy. It fails or has nothing to do, and then leaves the pool and the
  -- threshold of the writers as they were; or it keeps as much of the entropy as the old digest
  -- can hold, takes the new digest size, and sets the threshold by it. Digests are of at most 64
  -- bytes, and the counter is below 2^32.
  pub aux_switch_hash-Switched :
      (old new : Platform X D H) (is_init : Bool) (s : Sys X D H)
      → s.pool.digestsize ≤ 64
      → new.hash_digestsize ≤ 64
      → s.pool.aux_entropy_bits < 4294967296
      → Switched new s (aux_switch_hash old new is_init s)
  unfolding aux_switch_hash
  aux_switch_hash-Switched old new is_init s small small' fits =
      if_both (Switched new s) (not s.pool.initialized) (unchanged new s _) (
        if_both (Switched new s) (not is_init) (unchanged new s _) (
          result_both new s (new_hash old new s.pool) _
            λ h. set_digestsize-Switched new h s small small' fits))

-- ===== src/Rpc/Methods.antt =====
-- The methods of the RPC server, service-rpc/server/esdm_rpc_*_s.c, on the state of the managers. A
-- missing request is `none`. `privileged` is the answer of `esdm_rpc_client_is_privileged`.
pub mod Privilege
use esdm.Base.{
  ℕ, ◌+◌, Bool, true, false, not, Option, none, some, List, [], ◌∷◌, Result, ok, err, Errno, einval,
  efault, emsgsize, errno, Run, ◌>>=◌, ltb, ◌==◌, if◌then◌else◌, min_uint32, add_u32, length, take,
  uint32_max,
}
use esdm.Config.{reduce_by_osr}
use esdm.System.{Sys, Platform, EntropyBuf}
use esdm.AuxPool.{aux_avail_entropy, get_digestsize, pool_set_entropy, pool_insert_aux}
use esdm.EsMgr.{avail_entropy}
use esdm.Random.{drng_force_reseed, set_reseed_max_time}
use esdm.Api.{
  get_random_bytes_pr, get_random_bytes_full_noblock, get_random_bytes_full_timeout,
  get_random_bytes_min_noblock, get_random_bytes,
}
use esdm.GetSeed.{Seed, get_seed}
use esdm.Rpc.{max_data}

-- The responses with random bytes: `ret` and `randval`.
pub record RandomResponse : Type 0 where
  pub ret : Result ℕ
  pub randval : List ℕ

-- The response to a request that does not fit: the largest size, negated.
abbrev pub oversized : RandomResponse
oversized = record { ret = err (errno max_data); randval = [] }

unfoldable pub respond : Result (List ℕ) → RandomResponse
respond (err e) = record { ret = err e; randval = [] }
respond (ok bytes) = record { ret = ok (length bytes); randval = bytes }

abbrev pub Method : Type 0 → Type 0 → Type 0
Method S A = S → Run (A × S)

-- The frame that the methods for random bytes share, around the call of the library.
unfoldable pub limited :
    {S : Type 0} → (ℕ → Method S (Result (List ℕ))) → Option ℕ → Method S RandomResponse
unfolding respond
limited get none s = some (oversized, s)
limited get (some len) s =
    if ltb max_data len then some (oversized, s) else get len s >>= λ r. some (respond (r.0), r.1)

-- What `esdm_rpc_get_seed` makes of what `esdm_get_seed` left in its buffer, whose memory image
-- is `bytes`: on success 8 bytes more than the size in its first word.
unfoldable pub respond_seed : Seed → List ℕ → RandomResponse
respond_seed seed bytes = elim seed.ret [
  | ok n ↦ record {
    ret = ok n;
    randval = take (elim seed.word0 [ none ↦ 0 | some w ↦ w ] + 8) bytes;
  }
  | err e ↦ elim e [
    | emsgsize ↦ record { ret = err emsgsize; randval = take 8 bytes }
    | other ↦ record { ret = err other; randval = [] }
  ]
]

module _ {X D H : Type 0} where
  unfoldable pub rpc_is_fully_seeded : Sys X D H → Bool
  rpc_is_fully_seeded s = s.state.fully_seeded

  unfoldable pub rpc_is_min_seeded : Sys X D H → Bool
  rpc_is_min_seeded s = s.state.min_seeded

  unfoldable pub rpc_rnd_get_ent_cnt : Sys X D H → ℕ
  rpc_rnd_get_ent_cnt s = aux_avail_entropy s

  unfoldable pub rpc_get_min_reseed_secs : Sys X D H → ℕ
  rpc_get_min_reseed_secs s = s.reseed_max_time

  unfoldable pub rpc_get_write_wakeup_thresh : Sys X D H → ℕ
  rpc_get_write_wakeup_thresh s = s.write_wakeup_bits

  -- `esdm_set_write_wakeup_bits`
  unfoldable pub set_write_wakeup_bits : ℕ → Sys X D H → Sys X D H
  set_write_wakeup_bits val s = if val == 0 then s else record s {
    write_wakeup_bits = min_uint32 val (reduce_by_osr s.settings (get_digestsize s));
  }

  unfoldable pub rpc_rnd_add_to_ent_cnt :
      Bool → Option ℕ → Sys X D H → Result (Unit {0}) × Sys X D H
  rpc_rnd_add_to_ent_cnt privileged none s = (err efault, s)
  rpc_rnd_add_to_ent_cnt privileged (some entcnt) s =
      if not privileged
      then (err (errno 1), s)
      else (let ent_count_bits = add_u32 (aux_avail_entropy s) entcnt in
          let digestsize_bits = get_digestsize s in
          (
            ok tt,
            pool_set_entropy
                (if ltb digestsize_bits ent_count_bits then digestsize_bits else ent_count_bits) s,
          ))

  unfoldable pub rpc_rnd_clear_pool : Bool → Sys X D H → Result (Unit {0}) × Sys X D H
  rpc_rnd_clear_pool privileged s =
      if not privileged then (err (errno 1), s) else (ok tt, pool_set_entropy 0 s)

  unfoldable pub rpc_rnd_reseed_crng : Bool → Sys X D H → Result (Unit {0}) × Sys X D H
  rpc_rnd_reseed_crng privileged s =
      if not privileged then (err (errno 1), s) else (ok tt, drng_force_reseed s)

  unfoldable pub rpc_set_min_reseed_secs :
      Bool → Option ℕ → Sys X D H → Result (Unit {0}) × Sys X D H
  rpc_set_min_reseed_secs privileged none s = (err efault, s)
  rpc_set_min_reseed_secs privileged (some seconds) s =
      if not privileged then (err (errno 1), s) else (ok tt, set_reseed_max_time seconds s)

  unfoldable pub rpc_set_write_wakeup_thresh :
      Bool → Option ℕ → Sys X D H → Result (Unit {0}) × Sys X D H
  unfolding set_write_wakeup_bits
  rpc_set_write_wakeup_thresh privileged none s = (err efault, s)
  rpc_set_write_wakeup_thresh privileged (some wakeup) s =
      if not privileged then (err (errno 1), s) else (ok tt, set_write_wakeup_bits wakeup s)

module _ {X D H : Type 0} (p : Platform X D H) where
  unfoldable pub rpc_get_ent_lvl : Sys X D H → ℕ
  rpc_get_ent_lvl s = avail_entropy p s

  unfoldable pub rpc_get_random_bytes : Option ℕ → Method (Sys X D H) RandomResponse
  unfolding limited
  rpc_get_random_bytes = limited (get_random_bytes p)

  unfoldable pub rpc_get_random_bytes_full : Option ℕ → Method (Sys X D H) RandomResponse
  unfolding limited
  rpc_get_random_bytes_full = limited (get_random_bytes_full_noblock p)

  unfoldable pub rpc_get_random_bytes_full_timeout : Option ℕ → Method (Sys X D H) RandomResponse
  unfolding limited
  rpc_get_random_bytes_full_timeout = limited (get_random_bytes_full_timeout p)

  unfoldable pub rpc_get_random_bytes_min : Option ℕ → Method (Sys X D H) RandomResponse
  unfolding limited
  rpc_get_random_bytes_min = limited (get_random_bytes_min_noblock p)

  unfoldable pub rpc_get_random_bytes_pr : Bool → Option ℕ → Method (Sys X D H) RandomResponse
  unfolding limited
  rpc_get_random_bytes_pr busy = limited (get_random_bytes_pr p busy)

  -- The data of an addition of entropy may be missing.
  unfoldable pub rpc_rnd_add_entropy :
      Bool → Option (List ℕ) → ℕ → Sys X D H → Result (Unit {0}) × Sys X D H
  rpc_rnd_add_entropy privileged none entcnt s = (err efault, s)
  rpc_rnd_add_entropy privileged (some randval) entcnt s =
      if not privileged
      then (err (errno 1), s)
      else if ltb uint32_max (length randval)
      then (err einval, s)
      else pool_insert_aux p randval entcnt s

  unfoldable pub rpc_write_data : Option (List ℕ) → Sys X D H → Result (Unit {0}) × Sys X D H
  rpc_write_data none s = (err efault, s)
  rpc_write_data (some bytes) s =
      let (ret, s') = pool_insert_aux p bytes 0 s in (ret, drng_force_reseed s')

  -- `size` is sizeof(struct entropy_buf); the call never blocks. `image` is the memory image of the
  -- buffer, which is set to zero before.
  unfoldable pub rpc_get_seed :
      (Seed → List ℕ) → ℕ → Bool → Bool → EntropyBuf → Option ℕ → Method (Sys X D H) RandomResponse
  unfolding respond_seed
  rpc_get_seed image size busy fully eb none s = some (oversized, s)
  rpc_get_seed image size busy fully eb (some len) s =
      if ltb max_data len
      then some (oversized, s)
      else get_seed p size busy len true fully eb s >>= λ r.
          some (respond_seed (r.0) (image (r.0)), r.1)

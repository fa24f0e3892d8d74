-- ===== src/GetSeed.antt =====
-- `esdm_get_seed` of esdm/esdm_drng_mgr.c: a caller's access to the entropy sources.
pub mod Errors
use esdm.Base.{
  ℕ, zero, suc, ◌+◌, Bool, true, false, not, ◌||◌, Option, none, some, Result, ok, err, Errno,
  einval, eagain, emsgsize, Run, ◌>>=◌, ltb, ◌==◌, if◌then◌else◌,
}
use esdm.System.{Sys, Platform, EntropyBuf}
use esdm.AuxPool.{get_seed_entropy_osr}
use esdm.EsMgr.{pool_trylock, pool_unlock, entropy_rate_eb, fill_seed_buffer}
use esdm.DrngMgr.{seed_fuel}
use esdm.Api.{sleep_while_not_all_nodes_seeded}

-- What a call leaves behind: its return value, and the words and the buffer it wrote.
pub record Seed : Type 0 where
  pub ret : Result ℕ
  pub word0 : Option ℕ
  pub word1 : Option ℕ
  pub eb : EntropyBuf

abbrev pub failed : Errno → Option ℕ → EntropyBuf → Seed
failed e word0 eb = record { ret = err e; word0 = word0; word1 = none; eb = eb }

module _ {X D H : Type 0} (p : Platform X D H) where
  -- The collection loop: `none` after a poll that goes on for ever.
  unfoldable pub poll : ℕ → Bool → Bool → EntropyBuf → Sys X D H → Run (ℕ × EntropyBuf × Sys X D H)
  poll zero nonblock fully eb s = none
  poll (suc fuel) nonblock fully eb s =
      let (eb', s') = fill_seed_buffer p eb (get_seed_entropy_osr fully s) false s in
      let bits = entropy_rate_eb eb' in
      elim (not (bits == 0)
        || (not s'.state.all_online_nodes_seeded || (s'.mgr_terminate || nonblock))) [
          | true ↦ some (bits, eb', s')
          | false ↦ poll fuel nonblock fully eb' s'
        ]

  -- The part under the pool's lock.
  unfoldable pub get_seed_locked : ℕ → Bool → Bool → EntropyBuf → Sys X D H → Run (Seed × Sys X D H)
  get_seed_locked buflen nonblock fully eb s = pool_trylock s >>= λ s1.
      if s1.state.all_online_nodes_seeded
      then (poll seed_fuel nonblock fully eb s1 >>= λ r. some (
        record { ret = ok buflen; word0 = some buflen; word1 = some (r.0); eb = r.1 },
        pool_unlock (r.2),
      ))
      else some (record { ret = ok 0; word0 = some buflen; word1 = none; eb = eb }, pool_unlock s1)

  -- `busy`: another call holds the lock of this function. `size` is sizeof(struct entropy_buf), `eb`
  -- what the caller's buffer holds behind its two words.
  unfoldable pub get_seed :
      ℕ → Bool → ℕ → Bool → Bool → EntropyBuf → Sys X D H → Run (Seed × Sys X D H)
  unfolding get_seed_locked
  get_seed size busy nbytes nonblock fully eb s =
      let buflen = size + 16 in
      if ltb nbytes 8
      then some (failed einval none eb, s)
      else if ltb nbytes buflen
      then some (failed emsgsize (some buflen) eb, s)
      else if busy
      then some (failed eagain (some buflen) eb, s)
      else sleep_while_not_all_nodes_seeded p nonblock s >>= λ r. elim (r.0) [
        | err e ↦ some (failed e (some buflen) eb, r.1)
        | ok u ↦ get_seed_locked buflen nonblock fully eb (r.1)
      ]

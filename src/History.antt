-- ===== src/History.antt =====
-- Histories of the interface: the calls that a process makes one after the other, and what happens
-- outside between them.
pub mod Sound
pub mod Live
use esdm.Base.{ℕ, Bool, Option, none, some, List, [], ◌∷◌, Run, ◌>>=◌}
use esdm.System.{Sys, Platform, EntropyBuf, Timespec}
use esdm.AuxPool.{pool_insert_aux}
use esdm.DrngMgr.{es_add_entropy}
use esdm.Random.{drng_force_reseed, set_reseed_max_time}
use esdm.Api.{
  mgr_initialize, get_random_bytes_pr, get_random_bytes_pr_noblock, get_random_bytes_full_noblock,
  get_random_bytes_full, get_random_bytes_min, get_random_bytes_min_noblock, get_random_bytes,
}
use esdm.GetSeed.{get_seed}
use esdm.Node.{drngs_node_alloc}

-- `outside`: the sources, the clocks, and whether a thread sleeps on the queue of the
-- initialisation.
pub data Call (X : Type 0) : Type 0 where
  initialize node_alloc force_reseed add_entropy : Call X
  insert_aux : List ℕ → ℕ → Call X
  reseed_max_time : ℕ → Call X
  random random_full random_full_noblock random_min random_min_noblock random_pr_noblock :
      ℕ → Call X
  random_pr : Bool → ℕ → Call X
  seed : ℕ → Bool → ℕ → Bool → Bool → EntropyBuf → Call X
  outside : X → Timespec → ℕ → Bool → Call X

abbrev state_of : {A B : Type 0} → Run (A × B) → Run B
state_of m = m >>= λ r. some (r.1)

module _ {X D H : Type 0} (p : Platform X D H) where
  pub step : Call X → Sys X D H → Run (Sys X D H)
  step initialize s = some (mgr_initialize p s).1
  step node_alloc s = drngs_node_alloc p s
  step force_reseed s = some (drng_force_reseed s)
  step add_entropy s = es_add_entropy p s
  step (insert_aux inbuf bits) s = some (pool_insert_aux p inbuf bits s).1
  step (reseed_max_time seconds) s = some (set_reseed_max_time seconds s)
  step (random n) s = state_of (get_random_bytes p n s)
  step (random_full n) s = state_of (get_random_bytes_full p n s)
  step (random_full_noblock n) s = state_of (get_random_bytes_full_noblock p n s)
  step (random_min n) s = state_of (get_random_bytes_min p n s)
  step (random_min_noblock n) s = state_of (get_random_bytes_min_noblock p n s)
  step (random_pr_noblock n) s = state_of (get_random_bytes_pr_noblock p n s)
  step (random_pr busy n) s = state_of (get_random_bytes_pr p busy n s)
  step (seed size busy n nonblock fully eb) s =
      state_of (get_seed p size busy n nonblock fully eb s)
  step (outside x clock wall sleeper) s =
      some (record s { ext = x; clock = clock; wall_time = wall; init_wait_sleeper = sleeper })

  -- A history that returns from each of its calls.
  pub history : List (Call X) → Sys X D H → Run (Sys X D H)
  history [] s = some s
  history (c ∷ cs) s = step c s >>= history cs

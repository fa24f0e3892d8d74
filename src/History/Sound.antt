-- ===== src/History/Sound.antt =====
-- Histories of interface calls and the consistency of the ESDM.
use esdm.Base.{
  ℕ, Bool, true, false, ltb, ◌==◌, Option, none, some, List, [], ◌∷◌, Result, ok, err, Run, ◌+◌,
  arith, Ensures, returns, Ensures-bind, Ensures-if, if_both, option_both,
}
use esdm.System.{Sys, Platform, EntropyBuf, DrngRef, Drng}
use esdm.EsMgr.{pool_all_nodes_seeded}
use esdm.EsMgr.Stages.{Start, IsSound}
use esdm.DrngMgr.Sound.{es_add_entropy-IsSound}
use esdm.Random.{set_reseed_max_time}
use esdm.Random.Sound.{Sound2, drng_force_reseed-IsSound}
use esdm.Api.{
  get_random_bytes_pr_noblock, get_random_bytes_full_noblock, get_random_bytes_full,
  get_random_bytes_min, get_random_bytes_min_noblock, get_random_bytes,
}
use esdm.Api.Sound.{
  mgr_initialize-IsSound, drng_get_sleep-IsSound, nonoperational-IsSound, non_min_seeded-IsSound,
  after_wait-IsSound, pr-IsSound, not_all_nodes-IsSound, get_seed_locked-IsSound,
  pool_insert_aux-IsSound,
}
use esdm.GetSeed.{failed, get_seed, get_seed_locked}
use esdm.Node.{publish, alloc_initialized, drngs_node_alloc}
use esdm.History.{
  Call, initialize, node_alloc, force_reseed, add_entropy, insert_aux, reseed_max_time, random,
  random_full, random_full_noblock, random_min, random_min_noblock, random_pr_noblock, random_pr,
  seed, outside, state_of, step, history,
}

module _ {X D H : Type 0} (p : Platform X D H) {c : Start} where
  get_seed-IsSound :
      (size : ℕ) (busy : Bool) (n : ℕ) (nonblock fully : Bool) (eb : EntropyBuf) (s : Sys X D H)
      → IsSound c s
      → Ensures (Sound2 c) (get_seed p size busy n nonblock fully eb s)
  unfolding get_seed
  get_seed-IsSound size busy n nonblock fully eb s v =
      Ensures-if (ltb n 8) (λ _. returns v)
        (λ _.
          Ensures-if (ltb n (size + 16)) (λ _. returns v)
            (λ _.
              Ensures-if busy (λ _. returns v)
                (λ _. Ensures-bind _ (not_all_nodes-IsSound p nonblock s v) waited)))
    where
      waited :
          (r : Result (Unit {0}) × Sys X D H)
          → IsSound c r.1
          → Ensures (Sound2 c) (elim (r.0) [
            | err e ↦ some (failed e (some (size + 16)) eb, r.1)
            | ok u ↦ get_seed_locked p (size + 16) nonblock fully eb (r.1)
          ])
      waited (err e, t) w = returns w
      waited (ok u, t) w = get_seed_locked-IsSound p _ nonblock fully eb t w

  publish-IsSound :
      (insts : Option (List (Option DrngRef) × List (Drng D))) (s : Sys X D H)
      → IsSound c s
      → Ensures (IsSound c) (publish p insts s)
  unfolding publish pool_all_nodes_seeded
  publish-IsSound none s v = returns v
  publish-IsSound (some (insts, heap)) s v = es_add_entropy-IsSound p _ (record {
    set_to = v.set_to;
    floor = v.floor;
    flags = record { operational_full = v.flags.operational_full; full_min = v.flags.full_min };
    shown = v.shown;
  })

  alloc_initialized-IsSound :
      (r : Result (Unit {0}) × Sys X D H)
      → IsSound c r.1
      → Ensures (IsSound c) (alloc_initialized p r)
  unfolding alloc_initialized
  alloc_initialized-IsSound (err e, s) v = returns v
  alloc_initialized-IsSound (ok u, s) v = publish-IsSound _ s v

  node_alloc-IsSound : (s : Sys X D H) → IsSound c s → Ensures (IsSound c) (drngs_node_alloc p s)
  unfolding drngs_node_alloc
  node_alloc-IsSound s v =
      option_both (Ensures (IsSound c)) s.instances
        (alloc_initialized-IsSound _ (mgr_initialize-IsSound p s v)) (λ l. returns v)

  set_reseed_max_time-IsSound :
      (n : ℕ) (s : Sys X D H) → IsSound c s → IsSound c (set_reseed_max_time n s)
  unfolding set_reseed_max_time
  set_reseed_max_time-IsSound n s v = if_both (IsSound c) (n == 0) v (ground arith)

  after :
      {A : Type 0} (m : Run (A × Sys X D H))
      → Ensures (Sound2 c) m
      → Ensures (IsSound c) (state_of m)
  after m h = Ensures-bind _ h λ r w. returns w

  step-IsSound : (call : Call X) (s : Sys X D H) → IsSound c s → Ensures (IsSound c) (step p call s)
  unfolding step get_random_bytes get_random_bytes_full get_random_bytes_full_noblock
      get_random_bytes_min get_random_bytes_min_noblock get_random_bytes_pr_noblock
  step-IsSound initialize s v = returns (mgr_initialize-IsSound p s v)
  step-IsSound node_alloc s v = node_alloc-IsSound s v
  step-IsSound force_reseed s v = returns (drng_force_reseed-IsSound s v)
  step-IsSound add_entropy s v = es_add_entropy-IsSound p s v
  step-IsSound (insert_aux inbuf bits) s v = returns (pool_insert_aux-IsSound p inbuf bits s v)
  step-IsSound (reseed_max_time seconds) s v = returns (set_reseed_max_time-IsSound seconds s v)
  step-IsSound (random n) s v = after _ (drng_get_sleep-IsSound p _ false s v)
  step-IsSound (random_full n) s v =
      after _ (after_wait-IsSound p n false _ (nonoperational-IsSound p false s v))
  step-IsSound (random_full_noblock n) s v =
      after _ (after_wait-IsSound p n false _ (nonoperational-IsSound p true s v))
  step-IsSound (random_min n) s v =
      after _ (after_wait-IsSound p n false _ (non_min_seeded-IsSound p false s v))
  step-IsSound (random_min_noblock n) s v =
      after _ (after_wait-IsSound p n false _ (non_min_seeded-IsSound p true s v))
  step-IsSound (random_pr_noblock n) s v =
      after _ (after_wait-IsSound p n true _ (nonoperational-IsSound p true s v))
  step-IsSound (random_pr busy n) s v = after _ (pr-IsSound p busy n s v)
  step-IsSound (seed size busy n nonblock fully eb) s v =
      after _ (get_seed-IsSound size busy n nonblock fully eb s v)
  step-IsSound (outside x clock wall sleeper) s v = returns (ground arith)

  -- A history of interface calls from a sound state, if it returns, ends in a sound state: the ESDM
  -- is operational exactly if it is fully seeded, then also minimally seeded, an attached status
  -- page shows whether it is operational, the settings are as at the start, and an ESDM that was
  -- minimally seeded at the start still is.
  pub history-IsSound :
      (calls : List (Call X)) (s : Sys X D H)
      → IsSound c s
      → Ensures (IsSound c) (history p calls s)
  unfolding history
  history-IsSound [] s v = returns v
  history-IsSound (call ∷ calls) s v =
      Ensures-bind _ (step-IsSound call s v) (history-IsSound calls)

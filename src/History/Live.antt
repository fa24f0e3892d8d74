-- ===== src/History/Live.antt =====
-- Whether histories of calls that must not block return.
use esdm.Base.{
  ℕ, false, List, [], ◌∷◌, Run, refl, ap, ◌∙◌, arith, length, All, Yields, yields, Yields-bind,
  if_both, option_both, ◌==◌,
}
use esdm.System.{Sys, Platform, DrngRef, drng_init}
use esdm.AuxPool.{pool_insert_aux}
use esdm.AuxPool.Frame.{SameCore-trans, pool_insert_locked-SameCore, notify_need_entropy-SameCore}
use esdm.DrngMgr.Levels.{BoundedSources}
use esdm.DrngMgr.Ready.{Ready, Accepts, SameCore-Ready, SameDrngs-Ready}
use esdm.DrngMgr.Live.{Keeps, update-Keeps, es_add_entropy-Yields}
use esdm.Random.{
  online, force_one, force_all, drng_force_reseed, set_reseed_max_time, check_disable_threshold,
}
use esdm.Random.Live.{Keeps2}
use esdm.Api.Live.{initialized, noblock_calls}
use esdm.History.{
  Call, initialize, node_alloc, force_reseed, add_entropy, insert_aux, reseed_max_time, random,
  random_full, random_full_noblock, random_min, random_min_noblock, random_pr_noblock, random_pr,
  seed, outside, state_of, step, history,
}

-- The calls that must not block.
abbrev pub MustNotBlock : {X : Type 0} → Call X → Type 0
MustNotBlock initialize = Unit
MustNotBlock node_alloc = ⊥
MustNotBlock force_reseed = Unit
MustNotBlock add_entropy = Unit
MustNotBlock (insert_aux inbuf bits) = Unit
MustNotBlock (reseed_max_time seconds) = Unit
MustNotBlock (random n) = Unit
MustNotBlock (random_full n) = ⊥
MustNotBlock (random_full_noblock n) = Unit
MustNotBlock (random_min n) = ⊥
MustNotBlock (random_min_noblock n) = Unit
MustNotBlock (random_pr_noblock n) = Unit
MustNotBlock (random_pr busy n) = ⊥
MustNotBlock (seed size busy n nonblock fully eb) = ⊥
MustNotBlock (outside x clock wall sleeper) = Unit

module _ {X D H : Type 0} where
  force_all-Keeps :
      {n : ℕ} (refs : List DrngRef) (s : Sys X D H)
      → Keeps false n s
      → Keeps false n (force_all refs s)
  unfolding force_all force_one
  force_all-Keeps [] s k = k
  force_all-Keeps (ref ∷ refs) s k = force_all-Keeps refs _ (update-Keeps ref _ s refl k)

  drng_force_reseed-Keeps :
      {n : ℕ} (s : Sys X D H) → Keeps false n s → Keeps false n (drng_force_reseed s)
  unfolding drng_force_reseed force_one
  drng_force_reseed-Keeps s k =
      option_both (Keeps false _) s.instances (update-Keeps drng_init _ s refl k) (λ l.
        if_both (Keeps false _) (check_disable_threshold s.init_drng s)
          (update-Keeps drng_init _ s refl k) (force_all-Keeps (online _ l) s k))

  set_reseed_max_time-Keeps :
      {n : ℕ} (seconds : ℕ) (s : Sys X D H)
      → Keeps false n s
      → Keeps false n (set_reseed_max_time seconds s)
  unfolding set_reseed_max_time
  set_reseed_max_time-Keeps seconds s k =
      if_both (Keeps false _) (seconds == 0) k (SameDrngs-Ready (ground arith) k.0.lock k.0, k.1)

module _ {X D H : Type 0} (p : Platform X D H) (a : Accepts p) (b : BoundedSources p) where
  pool_insert_aux-Keeps :
      {n : ℕ} (inbuf : List ℕ) (bits : ℕ) (s : Sys X D H)
      → Keeps false n s
      → Keeps false n (pool_insert_aux p inbuf bits s).1
  unfolding pool_insert_aux
  pool_insert_aux-Keeps inbuf bits s k =
      let same =
        SameCore-trans (pool_insert_locked-SameCore p inbuf bits s)
          (notify_need_entropy-SameCore _) in
      (SameCore-Ready same k.0, ap length same.heap ∙ k.1)

  after :
      {n : ℕ} {A : Type 0} (m : Run (A × Sys X D H))
      → Yields (Keeps2 n) m
      → Yields (Keeps false n) (state_of m)
  after m h = Yields-bind _ h λ r w. yields w

  step-Yields :
      {n : ℕ} (call : Call X) (s : Sys X D H)
      → MustNotBlock call
      → Keeps false n s
      → Yields (Keeps false n) (step p call s)
  unfolding step
  step-Yields initialize s m k = yields (rw (initialized p a b s k.0).1 k)
  step-Yields node_alloc s m k = absurd m
  step-Yields force_reseed s m k = yields (drng_force_reseed-Keeps s k)
  step-Yields add_entropy s m k = es_add_entropy-Yields p a b s k
  step-Yields (insert_aux inbuf bits) s m k = yields (pool_insert_aux-Keeps inbuf bits s k)
  step-Yields (reseed_max_time seconds) s m k = yields (set_reseed_max_time-Keeps seconds s k)
  step-Yields (random n) s m k = after _ (noblock_calls p a b n s k).0
  step-Yields (random_full n) s m k = absurd m
  step-Yields (random_full_noblock n) s m k = after _ (noblock_calls p a b n s k).1
  step-Yields (random_min n) s m k = absurd m
  step-Yields (random_min_noblock n) s m k = after _ (noblock_calls p a b n s k).2
  step-Yields (random_pr_noblock n) s m k = after _ (noblock_calls p a b n s k).3
  step-Yields (random_pr busy n) s m k = absurd m
  step-Yields (seed size busy n nonblock fully eb) s m k = absurd m
  step-Yields (outside x clock wall sleeper) s m k =
      yields (SameDrngs-Ready (ground arith) k.0.lock k.0, k.1)

  history-Keeps :
      {n : ℕ} (calls : List (Call X)) (s : Sys X D H)
      → All MustNotBlock calls
      → Keeps false n s
      → Yields (Keeps false n) (history p calls s)
  unfolding history
  history-Keeps [] s m k = yields k
  history-Keeps (call ∷ calls) s m k =
      Yields-bind _ (step-Yields call s m.0 k) λ t w. history-Keeps calls t m.1 w

  -- Any history of calls that must not block (requests for random bytes, forced reseeds, insertions
  -- into the auxiliary pool, seeding work, and changes of the sources, the clocks and the maximal
  -- reseed time between them) returns from each of its calls, with the DRNGs allocated and the lock
  -- free: where this is so at the start, the NTG.1 seeding strategy is off, the backend accepts every
  -- seed, and each of at most seven sources reports at most 1024 bits per call.
  pub history-Yields :
      (calls : List (Call X)) (s : Sys X D H)
      → All MustNotBlock calls
      → Ready false s
      → Yields (Keeps false (length s.heap)) (history p calls s)
  history-Yields calls s m v = history-Keeps calls s m (v, refl)

-- ===== src/AuxPool/Frame.antt =====
-- What the operations of the auxiliary pool leave alone: all but the pool, the state of the
-- sources, and the part of the status page that asks for entropy.
use esdm.Base.{ℕ, Bool, Option, none, some, List, ◌≡◌, inl, inr, Result-cases, arith}
use esdm.System.{Sys, Pool, Platform, EntropyEs, Shm}
use esdm.ShmStatus
use esdm.ShmStatus.{sem_up, status_up}
use esdm.AuxPool.{
  with_pool, notify_need_entropy, pool_set_entropy, ensure_init, insert_update, pool_insert_locked,
  aux_get_pool, aux_get_backtrack, need_entropy,
}

-- The flag of the status page that says whether the ESDM is operational.
abbrev pub page : Shm → Option Bool
page m = elim m.status [ none ↦ none | some st ↦ some st.operational ]

pub record SameCore {X D H : Type 0} (s t : Sys X D H) : Type 0 where
  pub settings : t.settings ≡ s.settings
  pub state : t.state ≡ s.state
  pub shm_page : page t.shm ≡ page s.shm
  pub init_drng : t.init_drng ≡ s.init_drng
  pub pr_drng : t.pr_drng ≡ s.pr_drng
  pub heap : t.heap ≡ s.heap
  pub instances : t.instances ≡ s.instances
  pub avail : t.avail ≡ s.avail
  pub clock : t.clock ≡ s.clock

page-set_need_entropy : (need : Bool) (m : Shm) → page (ShmStatus.set_need_entropy need m) ≡ page m
unfolding ShmStatus.set_need_entropy
page-set_need_entropy need m = ground arith

module _ {X D H : Type 0} where
  pub SameCore-refl : (s : Sys X D H) → SameCore s s
  SameCore-refl s = ground arith

  pub SameCore-trans : {s t u : Sys X D H} → SameCore s t → SameCore t u → SameCore s u
  SameCore-trans a b = ground arith

  pub notify_need_entropy-SameCore : (s : Sys X D H) → SameCore s (notify_need_entropy s)
  unfolding notify_need_entropy
  notify_need_entropy-SameCore s = ground (arith, page-set_need_entropy (need_entropy s) s.shm)

  with_pool-SameCore : (q : Pool H) (s : Sys X D H) → SameCore s (with_pool q s)
  with_pool-SameCore q s = ground arith

  pub pool_set_entropy-SameCore : (bits : ℕ) (s : Sys X D H) → SameCore s (pool_set_entropy bits s)
  unfolding pool_set_entropy
  pool_set_entropy-SameCore bits s =
      SameCore-trans (with_pool-SameCore _ s) (notify_need_entropy-SameCore _)

module _ {X D H : Type 0} (p : Platform X D H) where
  insert_update-SameCore :
      (inbuf : List ℕ) (bits : ℕ) (q : Pool H) (s : Sys X D H)
      → SameCore s (insert_update p inbuf bits q s).1
  unfolding insert_update
  insert_update-SameCore inbuf bits q s = elim (Result-cases (p.hash_update q.aux_pool inbuf)) [
    | inl (x, e) ↦ rw (e, insert_update) (with_pool-SameCore q s)
    | inr (h, e) ↦
        rw (e, insert_update)
          (SameCore-trans (with_pool-SameCore _ s) (pool_set_entropy-SameCore _ _))
  ]

  pub pool_insert_locked-SameCore :
      (inbuf : List ℕ) (bits : ℕ) (s : Sys X D H) → SameCore s (pool_insert_locked p inbuf bits s).1
  unfolding pool_insert_locked
  pool_insert_locked-SameCore inbuf bits s = elim (Result-cases (ensure_init p s.pool)) [
    | inl (x, e) ↦ rw (e, pool_insert_locked) (SameCore-refl s)
    | inr (q, e) ↦ rw (e, pool_insert_locked) (insert_update-SameCore inbuf _ q s)
  ]

  pub aux_get_pool-SameCore :
      (out : List ℕ) (bits : ℕ) (s : Sys X D H) → SameCore s (aux_get_pool p out bits s).2
  unfolding aux_get_pool
  aux_get_pool-SameCore out bits s = ground arith

  pub aux_get_backtrack-SameCore :
      (es : EntropyEs) (bits : ℕ) (s : Sys X D H) → SameCore s (aux_get_backtrack p es bits s).1
  unfolding aux_get_backtrack
  aux_get_backtrack-SameCore es bits s =
      SameCore-trans (aux_get_pool-SameCore es.e bits s) (pool_insert_locked-SameCore _ 0 _)

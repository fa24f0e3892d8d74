-- ===== src/DrngMgr/Sound.antt =====
-- The seeding of esdm/esdm_drng_mgr.c and the consistency of stages and status page.
use esdm.Base.{
  ℕ, zero, suc, Bool, true, false, none, some, Run, ◌>>=◌, inl, inr, Bool-cases, Option-cases,
  arith, Ensures, blocks, returns, Ensures-bind, Ensures-if, Ensures-some, if_both,
}
use esdm.System.{Sys, Platform, DrngRef, drng_init, drng_pr, allocated, Drng, deref, store}
use esdm.EsMgr.{pool_trylock, pool_unlock, pool_all_nodes_seeded, get_available, es_reseed_wanted}
use esdm.EsMgr.Stages.{Start, IsSound, SameCore-IsSound, init_ops-IsSound, unset_flags-IsSound}
use esdm.EsMgr.Collect.{fill_seed_buffer-SameCore}
use esdm.DrngMgr.{
  Seeding, seed_round, seed_again, seed_loop, seed_start, seed_es_nolock, drng_seed, seed_work_one,
  seed_work_force, pick, seed_work, es_add_entropy, force_fully_seeded, seed_work_all,
  force_fully_seeded_all_drbgs, unset_fully_seeded, seed_fuel,
}

module _ {X D H : Type 0} {c : Start} where
  pub store-IsSound :
      (ref : DrngRef) (d : Drng D) (s : Sys X D H) → IsSound c s → IsSound c (store ref d s)
  store-IsSound drng_init d s v = ground arith
  store-IsSound drng_pr d s v = ground arith
  store-IsSound (allocated k) d s v = ground arith

  pub trylock-IsSound : (s : Sys X D H) → IsSound c s → Ensures (IsSound c) (pool_trylock s)
  unfolding pool_trylock
  trylock-IsSound s v =
      Ensures-if s.state.reseed_in_progress (λ e. blocks) (λ e. returns (ground arith))

  pub unlock-IsSound : (s : Sys X D H) → IsSound c s → IsSound c (pool_unlock s)
  unfolding pool_unlock
  unlock-IsSound s v = ground arith

  nodes_seeded-IsSound :
      (b : Bool) (s : Sys X D H) → IsSound c s → IsSound c (pool_all_nodes_seeded b s)
  unfolding pool_all_nodes_seeded
  nodes_seeded-IsSound b s v = ground arith

module _ {X D H : Type 0} (p : Platform X D H) {c : Start} where
  seed_round-IsSound :
      (ref : DrngRef) (forced ops : Bool) (st : Seeding X D H)
      → IsSound c st.sys
      → IsSound c (seed_round p ref forced ops st).sys
  unfolding seed_round
  seed_round-IsSound ref forced true st v = init_ops-IsSound p _ _ (
      store-IsSound ref _ _
        (SameCore-IsSound (fill_seed_buffer-SameCore p st.seedbuf _ _ st.sys) v))
  seed_round-IsSound ref forced false st v =
      store-IsSound ref _ _ (SameCore-IsSound (fill_seed_buffer-SameCore p st.seedbuf _ _ st.sys) v)

  seed_loop-IsSound :
      (fuel : ℕ) (ref : DrngRef) (forced ops : Bool) (st : Seeding X D H)
      → IsSound c st.sys
      → Ensures (λ (r : Seeding X D H). IsSound c r.sys) (seed_loop p fuel ref forced ops st)
  unfolding seed_loop
  seed_loop-IsSound zero ref forced ops st v = blocks
  seed_loop-IsSound (suc fuel) ref forced ops st v =
      let st' = seed_round p ref forced ops st in
      let v' = seed_round-IsSound ref forced ops st v in
      elim (Bool-cases (seed_again p ref forced st')) [
        | inl e ↦ rw (e, seed_loop) (seed_loop-IsSound fuel ref forced ops st' v')
        | inr e ↦ rw (e, seed_loop) (returns v')
      ]

  pub seed_es_nolock-IsSound :
      (ref : DrngRef) (ops : Bool) (s : Sys X D H)
      → IsSound c s
      → Ensures (λ (r : ℕ × Sys X D H). IsSound c r.1) (seed_es_nolock p ref ops s)
  unfolding seed_es_nolock
  seed_es_nolock-IsSound ref ops s v =
      Ensures-bind _ (seed_loop-IsSound seed_fuel ref _ ops (seed_start p s) v) λ st w. returns w

  pub drng_seed-IsSound :
      (ref : DrngRef) (s : Sys X D H) → IsSound c s → Ensures (IsSound c) (drng_seed p ref s)
  unfolding drng_seed
  drng_seed-IsSound ref s v = Ensures-bind _ (seed_es_nolock-IsSound ref true s v) λ r w. returns w

  seed_work_one-IsSound :
      (ref : DrngRef) (node : ℕ) (s : Sys X D H)
      → IsSound c s
      → Ensures (IsSound c) (seed_work_one p ref node s)
  unfolding seed_work_one
  seed_work_one-IsSound ref node s v =
      Ensures-bind _ (drng_seed-IsSound ref s v) λ s' w.
        returns (if_both (IsSound c) (deref ref s').fully_seeded (store-IsSound ref _ s' w) w)

  seed_work_force-IsSound :
      (force : Bool) (ref : DrngRef) (node : ℕ) (s : Sys X D H)
      → IsSound c s
      → Ensures (IsSound c) (seed_work_force p force ref node s)
  unfolding seed_work_force
  seed_work_force-IsSound force ref node s v =
      seed_work_one-IsSound ref node _ (store-IsSound ref _ s v)

  pub seed_work-IsSound :
      (force : Bool) (s : Sys X D H) → IsSound c s → Ensures (IsSound c) (seed_work p force s)
  unfolding seed_work
  seed_work-IsSound force s v =
      Ensures-if (get_available s)
        (λ _. elim (Option-cases (pick s)) [
          | inl e ↦ rw (e, seed_work) (returns (nodes_seeded-IsSound true s v))
          | inr ((ref, node), e) ↦ rw (e, seed_work) (seed_work_force-IsSound force ref node s v)
        ])
        (λ _. returns (if_both (IsSound c) s.init_wait_sleeper (init_ops-IsSound p none s v) v))

  locked-IsSound :
      (f : Sys X D H → Run (Sys X D H)) (s : Sys X D H)
      → ((t : Sys X D H) → IsSound c t → Ensures (IsSound c) (f t))
      → IsSound c s
      → Ensures (IsSound c) (f s >>= λ t. some (pool_unlock t))
  locked-IsSound f s keep v = Ensures-bind _ (keep s v) λ t w. returns (unlock-IsSound t w)

  pub es_add_entropy-IsSound :
      (s : Sys X D H) → IsSound c s → Ensures (IsSound c) (es_add_entropy p s)
  unfolding es_add_entropy
  es_add_entropy-IsSound s v =
      Ensures-if (es_reseed_wanted p s)
        (λ _. elim (Option-cases (pool_trylock s)) [
          | inl e ↦ rw (e, es_add_entropy) (returns v)
          | inr (t, e) ↦
              rw (e, es_add_entropy)
                (locked-IsSound (seed_work p false) t (seed_work-IsSound false)
                  (Ensures-some (trylock-IsSound s v) e))
        ])
        (λ _. returns v)

  pub force_fully_seeded-IsSound :
      (s : Sys X D H) → IsSound c s → Ensures (IsSound c) (force_fully_seeded p s)
  unfolding force_fully_seeded
  force_fully_seeded-IsSound s v =
      Ensures-if s.state.all_online_nodes_seeded (λ _. returns v)
        (λ _.
          Ensures-bind _ (trylock-IsSound s v)
            λ t w. locked-IsSound (seed_work p true) t (seed_work-IsSound true) w)

  seed_work_all-IsSound :
      (fuel : ℕ) (s : Sys X D H) → IsSound c s → Ensures (IsSound c) (seed_work_all p fuel s)
  unfolding seed_work_all
  seed_work_all-IsSound zero s v = blocks
  seed_work_all-IsSound (suc fuel) s v = Ensures-bind _ (seed_work-IsSound true s v) λ t w.
      elim (Bool-cases (es_reseed_wanted p t)) [
        | inl e ↦ rw e (seed_work_all-IsSound fuel t w)
        | inr e ↦ rw e (returns w)
      ]

  pub force_fully_seeded_all_drbgs-IsSound :
      (s : Sys X D H) → IsSound c s → Ensures (IsSound c) (force_fully_seeded_all_drbgs p s)
  unfolding force_fully_seeded_all_drbgs
  force_fully_seeded_all_drbgs-IsSound s v =
      Ensures-if s.state.all_online_nodes_seeded (λ _. returns v)
        (λ _.
          Ensures-bind _ (trylock-IsSound s v)
            λ t w. locked-IsSound (seed_work_all p seed_fuel) t (seed_work_all-IsSound seed_fuel) w)

  pub unset_fully_seeded-IsSound :
      (ref : DrngRef) (s : Sys X D H)
      → IsSound c s
      → Ensures (IsSound c) (unset_fully_seeded p ref s)
  unfolding unset_fully_seeded
  unset_fully_seeded-IsSound ref s v = force_fully_seeded-IsSound _ (unset_flags-IsSound ref s v)

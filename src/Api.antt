-- ===== src/Api.antt =====
-- The interface functions of esdm/esdm_drng_mgr.c: start of the DRNG manager, the reset of the
-- ESDM, and the calls that hand out random bytes and seed. A wait on the queue of the
-- initialisation ends when another thread changes the state: here the call does not return.
pub mod Sound
pub mod Live
pub mod Reset
pub mod Gates
use esdm.Base.{
  ℕ, ◌%◌, Bool, true, false, Option, none, some, List, Result, ok, err, eagain, errno, ◌||◌, Run,
  ◌>>=◌, ◌==◌, if◌then◌else◌, get_elem?, u32_mod,
}
use esdm.Config.{full_seed_entropy_bits, config_online_nodes, config_curr_node}
use esdm.System.{Sys, Platform, DrngRef, drng_init, drng_pr, deref, EsState}
use esdm.EsMgr.{reset_state, set_entropy_thresh}
use esdm.DrngMgr.{drng_reset, alloc_common, force_fully_seeded, force_fully_seeded_all_drbgs}
use esdm.Random.{online, reset_all, drng_get}

module _ {X D H : Type 0} where
  -- The DRNG of the caller's node, if it has one.
  unfoldable pub node_drng : Sys X D H → Option DrngRef
  node_drng s = elim s.instances [
    | none ↦ none
    | some insts ↦ elim (get_elem? insts (config_curr_node s.settings)) [ none ↦ none | some r ↦ r ]
  ]

  -- The DRNG that serves a request of `esdm_drng_get_sleep`.
  unfoldable pub choose_drng : Bool → Sys X D H → DrngRef
  unfolding node_drng
  choose_drng pr s = if pr then drng_pr else elim (node_drng s) [
    | none ↦ drng_init
    | some ref ↦ if (deref ref s).fully_seeded then ref else drng_init
  ]

  -- The waits share one shape: force a seeding, then go on, give up, or wait. The condition that
  -- `thread_wait_event` takes is negated without parentheses around it, so that the wait is also
  -- over once the manager terminates.
  unfoldable pub sleep_while :
      (EsState → Bool)
      → (Sys X D H → Run (Sys X D H))
      → Bool
      → Sys X D H
      → Run (Result (Unit {0}) × Sys X D H)
  sleep_while reached force nonblock s = force s >>= λ s'.
      if reached s'.state
      then some (ok tt, s')
      else if nonblock
      then some (err eagain, s')
      else if s'.mgr_terminate
      then some (ok tt, s')
      else none

  -- `esdm_drng_mgr_finalize`
  unfoldable pub mgr_finalize : Sys X D H → Sys X D H
  mgr_finalize s = record s {
    mgr_terminate = true;
    init_drng = record (s.init_drng) { handle = none };
    pr_drng = record (s.pr_drng) { handle = none };
  }

  -- The first part of `esdm_reset`: the DRNGs but that for prediction resistance.
  unfoldable pub reset_drngs : Sys X D H → Sys X D H
  reset_drngs s = elim s.instances [
    | none ↦ record s { init_drng = drng_reset s.init_drng s.clock }
    | some insts ↦ reset_all (online (config_online_nodes s.settings) insts) s
  ]

module _ {X D H : Type 0} (p : Platform X D H) where
  -- `esdm_drng_mgr_selftest`
  unfoldable pub mgr_selftest : Result (Unit {0})
  mgr_selftest = elim p.hash_selftest [ err e ↦ err e | ok u ↦ p.drng_selftest ]

  -- The allocation of both static DRNGs.
  unfoldable pub alloc_static : Sys X D H → Result (Unit {0}) × Sys X D H
  unfolding alloc_common
  alloc_static s = elim (alloc_common p s.pr_drng s.clock) [
    | err e ↦ (err e, s)
    | ok pr ↦ elim (alloc_common p s.init_drng s.clock) [
      | err e ↦ (err e, record s { pr_drng = pr })
      | ok i ↦ (ok tt, record s { pr_drng = pr; init_drng = i; avail = 2 })
    ]
  ]

  unfoldable pub mgr_initialize : Sys X D H → Result (Unit {0}) × Sys X D H
  unfolding mgr_selftest alloc_static
  mgr_initialize s =
      if s.avail == 0
      then (let (ret, s1) = alloc_static (record s { avail = 1 }) in
          elim ret [
            | err e ↦ (err e, record s1 { avail = 0 })
            | ok u ↦ elim mgr_selftest [
              | err e ↦ (err e, record s1 { avail = 0 })
              | ok v ↦ (ok tt, s1)
            ]
          ])
      else (ok tt, s)

  unfoldable pub mgr_reinitialize : Result (Unit {0})
  mgr_reinitialize = mgr_selftest

  unfoldable pub drng_get_sleep : ℕ → Bool → Sys X D H → Run (Result (List ℕ) × Sys X D H)
  drng_get_sleep outbuflen pr s =
      let ref = choose_drng pr s in
      let (ret, s1) = mgr_initialize s in
      elim ret [ err e ↦ some (err e, s1) | ok u ↦ drng_get p ref outbuflen s1 ]

  -- `esdm_reset`
  unfoldable pub esdm_reset : Sys X D H → Sys X D H
  unfolding reset_drngs
  esdm_reset s =
      let s1 = reset_drngs s in
      let s2 = record s1 { pr_drng = drng_reset s1.pr_drng s1.clock } in
      reset_state p (set_entropy_thresh full_seed_entropy_bits s2)

  unfoldable pub sleep_while_not_all_nodes_seeded :
      Bool → Sys X D H → Run (Result (Unit {0}) × Sys X D H)
  unfolding sleep_while
  sleep_while_not_all_nodes_seeded =
      sleep_while (λ st. st.all_online_nodes_seeded) (force_fully_seeded_all_drbgs p)

  unfoldable pub sleep_while_nonoperational : Bool → Sys X D H → Run (Result (Unit {0}) × Sys X D H)
  unfolding sleep_while
  sleep_while_nonoperational = sleep_while (λ st. st.operational) (force_fully_seeded p)

  unfoldable pub sleep_while_non_min_seeded : Bool → Sys X D H → Run (Result (Unit {0}) × Sys X D H)
  unfolding sleep_while
  sleep_while_non_min_seeded = sleep_while (λ st. st.min_seeded) (force_fully_seeded p)

  -- The wait with a timeout, which ends with ETIMEDOUT since no other thread changes the state.
  unfoldable pub sleep_while_nonoperational_timeout :
      Sys X D H → Run (Result (Unit {0}) × Sys X D H)
  sleep_while_nonoperational_timeout s = force_fully_seeded p s >>= λ s'.
      if s'.state.operational || s'.mgr_terminate
      then some (ok tt, s')
      else some (err (errno 110), s')

  -- A request after a wait: an error of the wait is the call's.
  unfoldable pub after_wait :
      ℕ → Bool → Run (Result (Unit {0}) × Sys X D H) → Run (Result (List ℕ) × Sys X D H)
  after_wait nbytes pr wait = wait >>= λ r. elim (r.0) [
    | err e ↦ some (err e, r.1)
    | ok u ↦ drng_get_sleep (nbytes % u32_mod) pr (r.1)
  ]

  -- `busy`: another call holds the lock of the prediction-resistance interface.
  unfoldable pub get_random_bytes_pr : Bool → ℕ → Sys X D H → Run (Result (List ℕ) × Sys X D H)
  get_random_bytes_pr busy nbytes s = sleep_while_nonoperational false s >>= λ r.
      if busy then some (err eagain, r.1) else drng_get_sleep (nbytes % u32_mod) true (r.1)

  unfoldable pub get_random_bytes_pr_noblock : ℕ → Sys X D H → Run (Result (List ℕ) × Sys X D H)
  unfolding after_wait
  get_random_bytes_pr_noblock nbytes s = after_wait nbytes true (sleep_while_nonoperational true s)

  unfoldable pub get_random_bytes_full_noblock : ℕ → Sys X D H → Run (Result (List ℕ) × Sys X D H)
  unfolding after_wait
  get_random_bytes_full_noblock nbytes s =
      after_wait nbytes false (sleep_while_nonoperational true s)

  unfoldable pub get_random_bytes_full : ℕ → Sys X D H → Run (Result (List ℕ) × Sys X D H)
  unfolding after_wait
  get_random_bytes_full nbytes s = after_wait nbytes false (sleep_while_nonoperational false s)

  unfoldable pub get_random_bytes_full_timeout : ℕ → Sys X D H → Run (Result (List ℕ) × Sys X D H)
  unfolding after_wait sleep_while_nonoperational_timeout
  get_random_bytes_full_timeout nbytes s =
      after_wait nbytes false (sleep_while_nonoperational_timeout s)

  unfoldable pub get_random_bytes_min : ℕ → Sys X D H → Run (Result (List ℕ) × Sys X D H)
  unfolding after_wait
  get_random_bytes_min nbytes s = after_wait nbytes false (sleep_while_non_min_seeded false s)

  unfoldable pub get_random_bytes_min_noblock : ℕ → Sys X D H → Run (Result (List ℕ) × Sys X D H)
  unfolding after_wait
  get_random_bytes_min_noblock nbytes s =
      after_wait nbytes false (sleep_while_non_min_seeded true s)

  unfoldable pub get_random_bytes : ℕ → Sys X D H → Run (Result (List ℕ) × Sys X D H)
  get_random_bytes nbytes s = drng_get_sleep (nbytes % u32_mod) false s

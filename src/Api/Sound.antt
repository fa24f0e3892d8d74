-- ===== src/Api/Sound.antt =====
-- The interface functions of esdm/esdm_drng_mgr.c and the consistency of stages and status page.
use esdm.Base.{
  ℕ, zero, suc, Bool, true, false, not, some, List, Result, ok, err, Run, inl, inr, ◌%◌, u32_mod,
  Bool-cases, Result-cases, arith, ◌||◌, ◌==◌, Ensures, blocks, returns, Ensures-bind, Ensures-if,
}
use esdm.System.{Sys, Platform, EntropyBuf, EsState}
use esdm.AuxPool.{get_seed_entropy_osr, pool_insert_aux}
use esdm.AuxPool.Frame.{SameCore-trans, pool_insert_locked-SameCore, notify_need_entropy-SameCore}
use esdm.EsMgr.{fill_seed_buffer, entropy_rate_eb}
use esdm.EsMgr.Stages.{Start, IsSound, SameCore-IsSound}
use esdm.EsMgr.Collect.{fill_seed_buffer-SameCore}
use esdm.DrngMgr.{force_fully_seeded, force_fully_seeded_all_drbgs, seed_fuel}
use esdm.DrngMgr.Sound.{
  trylock-IsSound, unlock-IsSound, force_fully_seeded-IsSound, force_fully_seeded_all_drbgs-IsSound,
}
use esdm.Random.Sound.{Sound2, drng_get-IsSound}
use esdm.Api.{
  choose_drng, alloc_static, mgr_initialize, drng_get_sleep, sleep_while, after_wait,
  sleep_while_nonoperational, sleep_while_non_min_seeded, sleep_while_not_all_nodes_seeded,
  get_random_bytes_pr,
}
use esdm.GetSeed.{poll, get_seed_locked}

module _ {X D H : Type 0} (p : Platform X D H) {c : Start} where
  alloc_static-IsSound : (s : Sys X D H) → IsSound c s → IsSound c (alloc_static p s).1
  unfolding alloc_static
  alloc_static-IsSound s v = ground arith

  pub mgr_initialize-IsSound : (s : Sys X D H) → IsSound c s → IsSound c (mgr_initialize p s).1
  unfolding mgr_initialize
  mgr_initialize-IsSound s v = ground (
    arith,
    alloc_static-IsSound (record s { avail = 1 })
        (record { set_to = v.set_to; floor = v.floor; flags = v.flags; shown = v.shown }),
  )

  pub drng_get_sleep-IsSound :
      (len : ℕ) (pr : Bool) (s : Sys X D H)
      → IsSound c s
      → Ensures (Sound2 c) (drng_get_sleep p len pr s)
  unfolding drng_get_sleep
  drng_get_sleep-IsSound len pr s v = elim (Result-cases (mgr_initialize p s).0) [
    | inl (x, e) ↦ rw (e, drng_get_sleep) (returns (mgr_initialize-IsSound s v))
    | inr (x, e) ↦
        rw (e, drng_get_sleep)
          (drng_get-IsSound p (choose_drng pr s) len _ (mgr_initialize-IsSound s v))
  ]

  sleep_while-IsSound :
      (reached : EsState → Bool) (force : Sys X D H → Run (Sys X D H)) (nonblock : Bool)
      (s : Sys X D H)
      → ((t : Sys X D H) → IsSound c t → Ensures (IsSound c) (force t))
      → IsSound c s
      → Ensures (Sound2 c) (sleep_while reached force nonblock s)
  unfolding sleep_while
  sleep_while-IsSound reached force nonblock s keep v = Ensures-bind _ (keep s v) λ t w.
      Ensures-if (reached t.state) (λ _. returns w)
        (λ _.
          Ensures-if nonblock (λ _. returns w)
            (λ _. Ensures-if t.mgr_terminate (λ _. returns w) (λ _. blocks)))

  pub nonoperational-IsSound :
      (nonblock : Bool) (s : Sys X D H)
      → IsSound c s
      → Ensures (Sound2 c) (sleep_while_nonoperational p nonblock s)
  unfolding sleep_while_nonoperational
  nonoperational-IsSound nonblock s v =
      sleep_while-IsSound _ (force_fully_seeded p) nonblock s (force_fully_seeded-IsSound p) v

  pub non_min_seeded-IsSound :
      (nonblock : Bool) (s : Sys X D H)
      → IsSound c s
      → Ensures (Sound2 c) (sleep_while_non_min_seeded p nonblock s)
  unfolding sleep_while_non_min_seeded
  non_min_seeded-IsSound nonblock s v =
      sleep_while-IsSound _ (force_fully_seeded p) nonblock s (force_fully_seeded-IsSound p) v

  pub after_wait-IsSound :
      (len : ℕ) (pr : Bool) (wait : Run (Result (Unit {0}) × Sys X D H))
      → Ensures (Sound2 c) wait
      → Ensures (Sound2 c) (after_wait p len pr wait)
  unfolding after_wait
  after_wait-IsSound len pr wait v = Ensures-bind _ v waited
    where
      waited :
          (r : Result (Unit {0}) × Sys X D H)
          → IsSound c r.1
          → Ensures (Sound2 c) (elim (r.0) [
            | err e ↦ some (err e, r.1)
            | ok u ↦ drng_get_sleep p (len % u32_mod) pr (r.1)
          ])
      waited (err e, t) w = returns w
      waited (ok u, t) w = drng_get_sleep-IsSound _ pr t w

  pub pr-IsSound :
      (busy : Bool) (len : ℕ) (s : Sys X D H)
      → IsSound c s
      → Ensures (Sound2 c) (get_random_bytes_pr p busy len s)
  unfolding get_random_bytes_pr
  pr-IsSound busy len s v =
      Ensures-bind _ (nonoperational-IsSound false s v)
        λ r w. Ensures-if busy (λ _. returns w) (λ _. drng_get_sleep-IsSound _ true (r.1) w)

  pub pool_insert_aux-IsSound :
      (inbuf : List ℕ) (bits : ℕ) (s : Sys X D H)
      → IsSound c s
      → IsSound c (pool_insert_aux p inbuf bits s).1
  unfolding pool_insert_aux
  pool_insert_aux-IsSound inbuf bits s =
      SameCore-IsSound (
        SameCore-trans (pool_insert_locked-SameCore p inbuf bits s)
          (notify_need_entropy-SameCore _))

  pub not_all_nodes-IsSound :
      (nonblock : Bool) (s : Sys X D H)
      → IsSound c s
      → Ensures (Sound2 c) (sleep_while_not_all_nodes_seeded p nonblock s)
  unfolding sleep_while_not_all_nodes_seeded
  not_all_nodes-IsSound nonblock s v =
      sleep_while-IsSound _ (force_fully_seeded_all_drbgs p) nonblock s
        (force_fully_seeded_all_drbgs-IsSound p) v

  poll-IsSound :
      (fuel : ℕ) (nonblock fully : Bool) (eb : EntropyBuf) (s : Sys X D H)
      → IsSound c s
      → Ensures
          (λ (r : ℕ × EntropyBuf × Sys X D H). IsSound c r.2)
          (poll p fuel nonblock fully eb s)
  unfolding poll
  poll-IsSound zero nonblock fully eb s v = blocks
  poll-IsSound (suc fuel) nonblock fully eb s v =
      let r = fill_seed_buffer p eb (get_seed_entropy_osr fully s) false s in
      let w = SameCore-IsSound (fill_seed_buffer-SameCore p eb _ false s) v in
      elim (Bool-cases (
        not (entropy_rate_eb (r.0) == 0)
        || (not r.1.state.all_online_nodes_seeded || (r.1.mgr_terminate || nonblock)))) [
          | inl e ↦ rw (e, poll) (returns w)
          | inr e ↦ rw (e, poll) (poll-IsSound fuel nonblock fully (r.0) (r.1) w)
        ]

  pub get_seed_locked-IsSound :
      (buflen : ℕ) (nonblock fully : Bool) (eb : EntropyBuf) (s : Sys X D H)
      → IsSound c s
      → Ensures (Sound2 c) (get_seed_locked p buflen nonblock fully eb s)
  unfolding get_seed_locked
  get_seed_locked-IsSound buflen nonblock fully eb s v = Ensures-bind _ (trylock-IsSound s v) λ t w.
      Ensures-if t.state.all_online_nodes_seeded
        (λ _.
          Ensures-bind _ (poll-IsSound seed_fuel nonblock fully eb t w)
            λ r x. returns (unlock-IsSound (r.2) x))
        (λ _. returns (unlock-IsSound t w))

-- ===== src/Tests/Witness.antt =====
-- The theorems with conditions, applied to the concrete systems.
use esdm.Base.{
  ◌+◌, ℕ, ◌≤◌, true, false, not, ◌||◌, Option, some, List, [], ◌∷◌, Result, replicate, length, ◌≡◌,
  refl, arith, All, Ensures, Yields, leb,
}
use esdm.Config.{
  config_online_nodes, compress_osr, reduce_by_osr, sp80090c_compliant, config_sp80090c_compliant,
  min_seed_entropy_bits,
}
use esdm.System.{Sys, EntropyEs, EntropyBuf, DrngRef, drng_init, allocated, deref}
use esdm.AuxPool.{aux_get_pool, extract, collect, cap_request, pool_insert_aux, aux_get_backtrack}
use esdm.AuxPool.Frame.{page}
use esdm.AuxPool.Accounting.{
  Sized, Credited, Extracted, pool_insert_aux-Credited, aux_get_backtrack-Extracted,
}
use esdm.EsMgr.{init_ops, sum_u32, levels, fully_seeded}
use esdm.EsMgr.Stages.{IsSound, init_ops_stages}
use esdm.DrngMgr.{seed_es_nolock, force_fully_seeded}
use esdm.DrngMgr.Ready.{Ready}
use esdm.DrngMgr.Progress.{seed_es_nolock-Yields}
use esdm.Random.{drng_get, must_reseed, check_disable_threshold, online, drng_force_reseed}
use esdm.Random.Length.{Delivered, drng_get-Delivered}
use esdm.Random.Reseed.{drng_force_reseed_lem}
use esdm.Api.{
  esdm_reset, drng_get_sleep, get_random_bytes, get_random_bytes_full,
  get_random_bytes_full_noblock, get_random_bytes_min, get_random_bytes_min_noblock,
}
use esdm.Api.Live.{Serves, get_random_bytes-Serves}
use esdm.Api.Gates.{get_random_bytes_gates}
use esdm.Api.Reset.{esdm_reset_state}
use esdm.Health.{HealthConfig, Health, es_health_init, health_tests}
use esdm.Health.Startup.{IsCounting, missing, health_tests-missing}
use mathlib.Core.Logic.{inr}
use esdm.History.{Call, history, random_full_noblock, insert_aux, force_reseed, add_entropy, random}
use esdm.History.Live.{history-Yields}
use esdm.DrngMgr.Live.{Keeps}
use esdm.Health.{EsHealth, failure, permanent_failure}
use esdm.Health.Startup.{failure-missing}
use mathlib.Core.Logic.{inl}
use esdm.History.Sound.{history-IsSound}
use esdm.Tests.{
  start, platform, settings, seeded, system, operational_system, accepts, within, bounded,
  system-Ready, system-IsSound,
}

abbrev calls : List (Call ℕ)
calls =
    add_entropy ∷ random_full_noblock 16 ∷ insert_aux (1 ∷ 2 ∷ []) 8 ∷ force_reseed ∷ random 40 ∷ []

history-IsSound_example : Ensures (IsSound start) (history platform calls (system 256))
history-IsSound_example = history-IsSound platform calls (system 256) (system-IsSound 256)

history-Yields_example : Yields (Keeps false 1) (history platform calls (system 3))
history-Yields_example =
    history-Yields platform accepts bounded calls (system 3) (tt, (tt, (tt, (tt, (tt, tt)))))
      (system-Ready 3)

get_random_bytes-Serves_example : Yields (Serves 1 40) (get_random_bytes platform 40 (system 3))
get_random_bytes-Serves_example =
    get_random_bytes-Serves platform accepts bounded 40 (system 3) within (system-Ready 3)

seed_es_nolock-Yields_example :
    Yields
      (λ (r : ℕ × Sys ℕ ℕ (List ℕ)). Ready false r.1 × (length r.1.heap ≡ 1))
      (seed_es_nolock platform (allocated 0) true (system 3))
seed_es_nolock-Yields_example =
    seed_es_nolock-Yields platform (allocated 0) true (system 3) accepts bounded (system-Ready 3)
      (omega arith)

abbrev small_buf : EntropyBuf
small_buf = record {
  entropy_es = record { e = []; e_bits = 200 } ∷ record { e = []; e_bits = 100 } ∷ [];
  now = 0;
}

init_ops_stages_example :
    let s = system 3 in
    let seed_bits = sum_u32 0 (levels platform (some small_buf) s) in
    let full = fully_seeded platform false seed_bits (some small_buf) s in
    let t = init_ops platform (some small_buf) s in
    (t.state.operational ≡ false || full)
    × (t.state.min_seeded ≡ false || (t.state.operational || leb min_seed_entropy_bits seed_bits))
    × (t.state.all_online_nodes_seeded ≡ false)
    × (t.state.reseed_in_progress ≡ false)
init_ops_stages_example =
    init_ops_stages platform (some small_buf) (system 3) (system-IsSound 3).flags

system-Sized : Sized platform (system 3)
system-Sized = record { digest = omega arith; counter = omega arith }

pool_insert_aux-Credited_example :
    Credited platform 300 100 2 (pool_insert_aux platform (1 ∷ 2 ∷ []) 100 (system 3))
pool_insert_aux-Credited_example =
    pool_insert_aux-Credited platform (1 ∷ 2 ∷ []) 100 (system 3) system-Sized (omega arith)

abbrev empty_es : EntropyEs
empty_es = record { e = replicate 48 0; e_bits = 0 }

short :
    length (platform.image_es (aux_get_backtrack platform empty_es 256 (system 3)).0) ≤ 268435456
unfolding aux_get_backtrack aux_get_pool extract collect cap_request reduce_by_osr compress_osr
    sp80090c_compliant config_sp80090c_compliant
short = omega arith

aux_get_backtrack-Extracted_example :
    let (es', s') = aux_get_backtrack platform empty_es 256 (system 3) in
    Extracted platform 300 (compress_osr settings) 256 (system 3) es'.e_bits s'
aux_get_backtrack-Extracted_example =
    aux_get_backtrack-Extracted platform empty_es 256 (system 3) system-Sized short

drng_get-Delivered_example :
    Ensures
      (λ (r : Result (List ℕ) × Sys ℕ ℕ (List ℕ)). Delivered (allocated 0) 40 r.0)
      (drng_get platform (allocated 0) 40 (system 3))
drng_get-Delivered_example =
    drng_get-Delivered platform within (allocated 0) 40 (system 3) (omega arith)

-- The forced seeding of the system, as it returns.
force_returns : force_fully_seeded platform operational_system ≡ some operational_system
unfolding force_fully_seeded
force_returns = refl

get_random_bytes_gates_example :
    let s = operational_system in
    let served = drng_get_sleep platform 40 false s in
    (get_random_bytes_full_noblock platform 40 s ≡ served)
    × (get_random_bytes_full platform 40 s ≡ served)
    × (get_random_bytes_min_noblock platform 40 s ≡ served)
    × (get_random_bytes_min platform 40 s ≡ served)
get_random_bytes_gates_example =
    get_random_bytes_gates platform 40 operational_system operational_system force_returns

abbrev node_list : List (Option DrngRef)
node_list = some drng_init ∷ some (allocated 0) ∷ []

below_limits : check_disable_threshold seeded operational_system ≡ false
unfolding check_disable_threshold
below_limits = refl

drng_force_reseed_lem_example :
    let t = drng_force_reseed operational_system in
    All
      (λ r. (not (deref r t).fully_seeded || (must_reseed (deref r t) t).0) ≡ true)
      (online (config_online_nodes settings) node_list)
drng_force_reseed_lem_example =
    drng_force_reseed_lem node_list operational_system (tt, (omega arith, tt)) below_limits

esdm_reset_state_example :
    let t = esdm_reset platform operational_system in
    (t.state.operational ≡ false)
    × (t.state.fully_seeded ≡ false)
    × (t.state.min_seeded ≡ false)
    × (t.state.all_online_nodes_seeded ≡ false)
    × (t.pool.aux_entropy_bits ≡ 0)
    × (t.pr_drng.fully_seeded ≡ false)
    × (page t.shm ≡ some true)
esdm_reset_state_example = esdm_reset_state platform operational_system

abbrev kernel : HealthConfig
kernel = record {
  fips_enabled = true;
  enforce_panic = false;
  rct_cutoff = 31;
  rct_cutoff_permanent = 61;
  apt_cutoff = 325;
  apt_cutoff_permanent = 355;
}

abbrev kernel_start : Health
kernel_start = record {
  health_test_enabled = true;
  es_state = es_health_init;
  stuck_test = record { last_time = 0; last_delta = 0; last_delta2 = 0 };
}

init-IsCounting : IsCounting es_health_init
init-IsCounting = record {
  started = omega arith;
  window = omega arith;
  left = inr (omega arith);
  total = omega arith;
}

health_tests-missing_example :
    Ensures
      (λ (r : Health). IsCounting r.es_state × (1024 ≤ missing r.es_state + 3))
      (health_tests kernel (5 ∷ 11 ∷ 20 ∷ []) kernel_start)
health_tests-missing_example =
    health_tests-missing kernel (5 ∷ 11 ∷ 20 ∷ []) kernel_start init-IsCounting

abbrev window_end : EsHealth
window_end = record es_health_init { apt_trigger = 1; startup_done = true; startup_blocks = 0 }

window_end-IsCounting : IsCounting window_end
window_end-IsCounting = record {
  started = omega arith;
  window = omega arith;
  left = inl refl;
  total = omega arith;
}

failure-missing_example :
    ((failure window_end).startup_done ≡ false)
    × (missing (failure window_end) ≡ 513)
    × (513 ≤ missing (failure window_end))
    × Ensures
        (λ (r : EsHealth). (r.startup_done ≡ false) × (missing r ≡ 1024))
        (permanent_failure kernel window_end)
failure-missing_example = failure-missing kernel window_end window_end-IsCounting

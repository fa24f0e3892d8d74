-- ===== src/Tests/Run.antt =====
-- The definitions run on the concrete systems.
use esdm.Base.{ℕ, true, Option, some, List, [], ◌∷◌, Result, ok, err, eagain, ◌≡◌, refl, Run, ◌>>=◌}
use esdm.System.{Sys, drng_init, drng_pr}
use esdm.ShmStatus
use esdm.Tests.{platform, system, operational_system}
use esdm.EsMgr.{
  set_operational, sum_u32, count_full, entropy_rate_eb, get_available, pool_trylock, pool_unlock,
  set_entropy_thresh, pool_all_nodes_seeded, avail_entropy_thresh, init_entropy_level, unset_flags,
  curr_entropies, avail_entropy, levels, fully_seeded, init_ops_min, init_ops_full, init_ops,
  es_reseed_wanted, reset_sources, reset_state, zero_buf, get_ents, reseed_minimum, clear_bits,
  fill_seed_buffer,
}
use esdm.AuxPool.{
  get_digestsize, aux_avail_entropy, security_strength, get_seed_entropy_osr, need_entropy,
  notify_need_entropy, pool_set_entropy, aux_reset, aux_init, ensure_init, insert_update,
  pool_insert_locked, pool_insert_aux, cap_request, collect, extract, aux_get_pool,
  aux_get_backtrack,
}
use esdm.DrngMgr.{
  drng_reset, count_delivered, add_bits, first_unseeded, pick, alloc_common, inject_handle, inject,
  seed_round, seed_again, seed_loop, seed_start, seed_es_nolock, drng_seed, seed_work_one,
  seed_work_force, seed_work, es_add_entropy, force_fully_seeded, seed_work_all,
  force_fully_seeded_all_drbgs, unset_fully_seeded,
}
use esdm.Random.{
  online, time_after_now, check_disable_threshold, force_one, force_all, drng_force_reseed,
  must_reseed, reset_all, reseed_if_needed, plan_pr, plan, generate_one, account, run_generate,
  run_plan, get_loop, drng_get,
}
use esdm.Api.{
  node_drng, choose_drng, sleep_while, reset_drngs, mgr_selftest, alloc_static, mgr_initialize,
  drng_get_sleep, esdm_reset, sleep_while_not_all_nodes_seeded, sleep_while_nonoperational,
  sleep_while_non_min_seeded, after_wait, get_random_bytes_pr, get_random_bytes_pr_noblock,
  get_random_bytes_full_noblock, get_random_bytes_full, get_random_bytes_min,
  get_random_bytes_min_noblock, get_random_bytes,
}
use esdm.Config.{
  config_sp80090c_compliant, sp80090c_compliant, ntg1_2024_compliant, config_online_nodes,
  curr_node, config_curr_node, compress_osr, reduce_by_osr,
}

-- What a request hands out, and whether the ESDM is operational then.
abbrev handed_out : Run (Result (List ℕ) × Sys ℕ ℕ (List ℕ)) → Option (Result (List ℕ))
handed_out m = m >>= λ r. some (r.0)

abbrev starved : Sys ℕ ℕ (List ℕ)
starved = record (system 0) {
  pool = record { aux_pool = []; aux_entropy_bits = 0; digestsize = 64; initialized = true };
}

-- A request seeds the system from its source and is served; without any entropy it is refused, but a
-- request without conditions is served; each work on the seeding takes the next DRNG that is not
-- fully seeded.
runs :
    (handed_out (get_random_bytes_full_noblock platform 3 (system 256))
      ≡ some (ok (7 ∷ 7 ∷ 7 ∷ [])))
    × (handed_out (get_random_bytes_full_noblock platform 3 starved) ≡ some (err eagain))
    × (handed_out (get_random_bytes platform 2 starved) ≡ some (ok (7 ∷ 7 ∷ [])))
    × (pick (system 0) ≡ some (drng_init, 0))
    × (pick operational_system ≡ some (drng_pr, 0))
unfolding ShmStatus.sem_up ShmStatus.status_up ShmStatus.wake_all set_operational
    ShmStatus.set_need_entropy get_digestsize aux_avail_entropy security_strength
    get_seed_entropy_osr need_entropy notify_need_entropy pool_set_entropy aux_reset aux_init
    ensure_init insert_update pool_insert_locked pool_insert_aux cap_request collect extract
    aux_get_pool aux_get_backtrack sum_u32 count_full entropy_rate_eb get_available pool_trylock
    pool_unlock set_entropy_thresh pool_all_nodes_seeded avail_entropy_thresh init_entropy_level
    unset_flags curr_entropies avail_entropy levels fully_seeded init_ops_min init_ops_full init_ops
    es_reseed_wanted reset_sources reset_state zero_buf get_ents reseed_minimum clear_bits
    fill_seed_buffer drng_reset count_delivered add_bits first_unseeded pick alloc_common
    inject_handle inject seed_round seed_again seed_loop seed_start seed_es_nolock drng_seed
    seed_work_one seed_work_force seed_work es_add_entropy force_fully_seeded seed_work_all
    force_fully_seeded_all_drbgs unset_fully_seeded online time_after_now check_disable_threshold
    force_one force_all drng_force_reseed must_reseed reset_all reseed_if_needed plan_pr plan
    generate_one account run_generate run_plan get_loop drng_get node_drng choose_drng sleep_while
    reset_drngs mgr_selftest alloc_static mgr_initialize drng_get_sleep esdm_reset
    sleep_while_not_all_nodes_seeded sleep_while_nonoperational sleep_while_non_min_seeded
    after_wait get_random_bytes_pr get_random_bytes_pr_noblock get_random_bytes_full_noblock
    get_random_bytes_full get_random_bytes_min get_random_bytes_min_noblock get_random_bytes
    config_sp80090c_compliant sp80090c_compliant ntg1_2024_compliant config_online_nodes curr_node
    config_curr_node compress_osr reduce_by_osr ShmStatus.set_operational
runs = (refl, refl, refl, refl, refl)

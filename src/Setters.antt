-- ===== src/Setters.antt =====
-- The run-time configuration calls of esdm/esdm_config.c: each stores a value and lets the entropy
-- source manager look for a reseed.
pub mod Exclusive
use esdm.Base.{
  ℕ, Bool, true, false, not, Run, ◌>>=◌, some, ltb, if◌then◌else◌, min_uint32, ◌==◌, ◌&&◌,
}
use esdm.Config.{
  Config, Settings, ForceFips, entropy_rate_max, irq_max_kernel_rng_entropy, config_init,
}
use esdm.System.{Sys, Platform}
use esdm.DrngMgr.{es_add_entropy}

module _ {X D H : Type 0} where
  abbrev pub with_config : Config → Sys X D H → Sys X D H
  with_config c s = record s { settings = record (s.settings) { config = c } }

  -- `esdm_config_force_fips_set`
  unfoldable pub force_fips_set : ForceFips → Sys X D H → Sys X D H
  force_fips_set val s = with_config (record (s.settings.config) { force_fips = val }) s

  unfoldable pub es_irq_retry_set : Bool → Sys X D H → Sys X D H
  es_irq_retry_set b s = with_config (record (s.settings.config) { irq_retry = b }) s

  unfoldable pub es_sched_retry_set : Bool → Sys X D H → Sys X D H
  es_sched_retry_set b s = with_config (record (s.settings.config) { sched_retry = b }) s

  unfoldable pub es_jent_async_enabled_set : Bool → Sys X D H → Sys X D H
  es_jent_async_enabled_set b s =
      with_config (record (s.settings.config) { jent_async_enable = b }) s

module _ {X D H : Type 0} (p : Platform X D H) where
  unfoldable pub es_cpu_entropy_rate_set : ℕ → Sys X D H → Run (Sys X D H)
  es_cpu_entropy_rate_set ent s =
      es_add_entropy p
        (with_config (record (s.settings.config) { cpu_rate = entropy_rate_max ent }) s)

  unfoldable pub es_jent_entropy_rate_set : ℕ → Sys X D H → Run (Sys X D H)
  es_jent_entropy_rate_set ent s =
      es_add_entropy p
        (with_config (record (s.settings.config) { jent_rate = entropy_rate_max ent }) s)

  unfoldable pub es_hwrand_entropy_rate_set : ℕ → Sys X D H → Run (Sys X D H)
  es_hwrand_entropy_rate_set ent s =
      es_add_entropy p
        (with_config (record (s.settings.config) { hwrand_rate = entropy_rate_max ent }) s)

  unfoldable pub es_jent_kernel_entropy_rate_set : ℕ → Sys X D H → Run (Sys X D H)
  es_jent_kernel_entropy_rate_set ent s =
      es_add_entropy p
        (with_config (record (s.settings.config) { jent_kernel_rate = entropy_rate_max ent }) s)

  -- `irq_open`: the device of the interrupt source is open, as `esdm_irq_enabled` asks.
  unfoldable pub es_krng_entropy_rate_set : Bool → ℕ → Sys X D H → Run (Sys X D H)
  es_krng_entropy_rate_set irq_open ent s =
      let enabled = irq_open && not (s.settings.config.irq_rate == 0) in
      let ent' = if enabled then min_uint32 irq_max_kernel_rng_entropy ent else ent in
      es_add_entropy p
        (with_config (record (s.settings.config) { krng_rate = entropy_rate_max ent' }) s)

  -- The store of the interrupt and of the scheduler rate, with the call that follows it.
  unfoldable pub store_irq_rate : ℕ → Sys X D H → Run (Sys X D H)
  store_irq_rate val s =
      es_add_entropy p (with_config (record (s.settings.config) { irq_rate = val }) s)

  unfoldable pub store_sched_rate : ℕ → Sys X D H → Run (Sys X D H)
  store_sched_rate val s =
      es_add_entropy p (with_config (record (s.settings.config) { sched_rate = val }) s)

  -- The two sources depend on one another: a rate above zero sets the other to zero. The nested call
  -- is made with zero, so that it makes none itself.
  unfoldable pub es_irq_entropy_rate_set : ℕ → Sys X D H → Run (Sys X D H)
  unfolding store_irq_rate store_sched_rate
  es_irq_entropy_rate_set ent s =
      let val = entropy_rate_max ent in
      (if ltb 0 val then store_sched_rate 0 s else some s) >>= λ s'. store_irq_rate val s'

  unfoldable pub es_sched_entropy_rate_set : ℕ → Sys X D H → Run (Sys X D H)
  unfolding store_irq_rate store_sched_rate
  es_sched_entropy_rate_set ent s =
      let val = entropy_rate_max ent in
      (if ltb 0 val then store_irq_rate 0 s else some s) >>= λ s'. store_sched_rate val s'

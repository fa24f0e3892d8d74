-- ===== src/Health.antt =====
-- The SP800-90B health tests of the kernel's entropy sources, addon/linux_esdm_es/esdm_health.c, for
-- one of the sources. The atomic counters are modelled by their 32-bit patterns; a call is atomic.
pub mod Startup
pub mod Repetition
use esdm.Base.{
  ℕ, ◌+◌, ◌%◌, Bool, true, false, not, ◌&&◌, ◌||◌, none, some, List, [], ◌∷◌, Run, ◌>>=◌, leb, ◌==◌,
  if◌then◌else◌, add_u32, sub_u32,
}

abbrev pub apt_window_size : ℕ
apt_window_size = 512

abbrev pub apt_lsb : ℕ
apt_lsb = 16

-- `ESDM_SP80090B_STARTUP_BLOCKS`: two windows for 1024 samples.
abbrev pub startup_blocks_total : ℕ
startup_blocks_total = 2

-- The kernel's FIPS mode, its configuration options, and what
-- `esdm_enforce_panic_on_permanent_health_failure` says.
pub record HealthConfig : Type 0 where
  pub fips_enabled : Bool
  pub enforce_panic : Bool
  pub rct_cutoff : ℕ
  pub rct_cutoff_permanent : ℕ
  pub apt_cutoff : ℕ
  pub apt_cutoff_permanent : ℕ

-- `struct esdm_health_es_state`; `entropy_resets` counts the calls of `esdm_reset_state`, which throw
-- away the entropy of the source.
pub record EsHealth : Type 0 where
  pub rct_count : ℕ
  pub apt_count : ℕ
  pub apt_base : ℕ
  pub apt_trigger : ℕ
  pub apt_base_set : Bool
  pub startup_done : Bool
  pub startup_blocks : ℕ
  pub entropy_resets : ℕ

-- `struct esdm_stuck_test`.
pub record StuckTest : Type 0 where
  pub last_time : ℕ
  pub last_delta : ℕ
  pub last_delta2 : ℕ

pub record Health : Type 0 where
  pub health_test_enabled : Bool
  pub es_state : EsHealth
  pub stuck_test : StuckTest

pub data HealthRes : Type 0 where
  health_pass health_fail_use health_fail_drop : HealthRes

-- `ESDM_HEALTH_ES_INIT`
abbrev pub es_health_init : EsHealth
es_health_init = record {
  rct_count = 0;
  apt_count = 0;
  apt_base = 4294967295;
  apt_trigger = apt_window_size;
  apt_base_set = false;
  startup_done = false;
  startup_blocks = startup_blocks_total;
  entropy_resets = 0;
}

-- `esdm_sp80090b_startup`: a window has passed.
unfoldable pub startup : EsHealth → EsHealth
startup h =
    let blocks = sub_u32 h.startup_blocks 1 in
    if h.startup_done then h else record h { startup_blocks = blocks; startup_done = blocks == 0 }

unfoldable pub startup_failure : EsHealth → EsHealth
startup_failure h = record h {
  entropy_resets = h.entropy_resets + 1;
  startup_blocks = startup_blocks_total;
}

unfoldable pub runtime_failure : EsHealth → EsHealth
unfolding startup_failure
runtime_failure h = record (startup_failure h) { startup_done = false }

unfoldable pub rct_reset : EsHealth → EsHealth
rct_reset h = record h { rct_count = 0 }

unfoldable pub apt_reset : ℕ → EsHealth → EsHealth
apt_reset time_masked h = record h { apt_count = 0; apt_base = time_masked }

unfoldable pub apt_restart : EsHealth → EsHealth
apt_restart h = record h { apt_trigger = apt_window_size }

-- `esdm_sp80090b_permanent_failure`; none for a panic.
unfoldable pub permanent_failure : HealthConfig → EsHealth → Run EsHealth
unfolding runtime_failure rct_reset apt_reset apt_restart
permanent_failure c h =
    if c.enforce_panic
    then none
    else some (apt_restart (apt_reset 0 (rct_reset (runtime_failure h))))

unfoldable pub failure : EsHealth → EsHealth
unfolding runtime_failure startup_failure
failure h = if h.startup_done then runtime_failure h else startup_failure h

-- A count against the two cutoffs.
unfoldable pub check_cutoffs : HealthConfig → ℕ → ℕ → ℕ → EsHealth → Run EsHealth
unfolding permanent_failure failure
check_cutoffs c permanent cutoff count h =
    if leb permanent count
    then permanent_failure c h
    else some (if leb cutoff count then failure h else h)

-- The comparison of `esdm_apt_insert` with the base of the window.
unfoldable pub apt_compare : HealthConfig → ℕ → EsHealth → Run EsHealth
unfolding check_cutoffs
apt_compare c now_time h =
    let apt_val = add_u32 h.apt_count 1 in
    if now_time == h.apt_base
    then check_cutoffs c c.apt_cutoff_permanent c.apt_cutoff apt_val
        (record h { apt_count = apt_val })
    else some h

-- The end of a window.
unfoldable pub apt_window : ℕ → EsHealth → EsHealth
unfolding startup apt_reset apt_restart
apt_window now_time h =
    let trigger = sub_u32 h.apt_trigger 1 in
    let h1 : EsHealth = record h { apt_trigger = trigger } in
    if trigger == 0 then startup (apt_reset now_time (apt_restart h1)) else h1

unfoldable pub apt_insert : HealthConfig → ℕ → EsHealth → Run EsHealth
unfolding apt_compare apt_window
apt_insert c now_time h =
    let masked = now_time % apt_lsb in
    if not c.fips_enabled
    then some h
    else if not h.apt_base_set
    then some (record h { apt_base = masked; apt_base_set = true })
    else apt_compare c masked h >>= λ h'. some (apt_window masked h')

-- `esdm_rct`
unfoldable pub rct : HealthConfig → Bool → EsHealth → Run EsHealth
unfolding check_cutoffs rct_reset
rct c stuck h =
    let count = add_u32 h.rct_count 1 in
    if not c.fips_enabled
    then some h
    else if stuck
    then check_cutoffs c c.rct_cutoff_permanent c.rct_cutoff count (record h { rct_count = count })
    else some (rct_reset h)

unfoldable pub delta : ℕ → ℕ → ℕ
delta prev next = sub_u32 next prev

-- `esdm_irq_stuck`
unfoldable pub irq_stuck : ℕ → StuckTest → Bool × StuckTest
unfolding delta
irq_stuck now_time s =
    let d = delta s.last_time now_time in
    let d2 = delta s.last_delta d in
    let d3 = delta s.last_delta2 d2 in
    (
      (d == 0) || ((d2 == 0) || (d3 == 0)),
      record { last_time = now_time; last_delta = d; last_delta2 = d2 },
    )

unfoldable pub health_disable : Health → Health
health_disable h = record h { health_test_enabled = false }

-- `esdm_sp80090b_startup_complete_es` and `esdm_sp80090b_compliant`.
unfoldable pub startup_complete : HealthConfig → Health → Bool
startup_complete c h =
    if c.fips_enabled && h.health_test_enabled then h.es_state.startup_done else true

unfoldable pub sp80090b_compliant : HealthConfig → Health → Bool
sp80090b_compliant c h = (c.fips_enabled && h.health_test_enabled) && h.es_state.startup_done

-- `esdm_health_test`
unfoldable pub health_test : HealthConfig → ℕ → Health → Run (HealthRes × Health)
unfolding irq_stuck
health_test c now_time h =
    let (stuck, st) = irq_stuck now_time h.stuck_test in
    if not h.health_test_enabled then some (health_pass, h) else do
      e1 ← apt_insert c now_time h.es_state
      e2 ← rct c stuck e1
      let h' : Health = record h { es_state = e2; stuck_test = st }
      some (
        if stuck
            then (if c.fips_enabled then health_fail_drop else health_fail_use)
            else health_pass,
        h',
      )

-- The tests of a sequence of time stamps.
unfoldable pub health_tests : HealthConfig → List ℕ → Health → Run Health
health_tests c [] h = some h
health_tests c (time ∷ times) h = health_test c time h >>= λ r. health_tests c times (r.1)

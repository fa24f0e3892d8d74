-- ===== src/Health/Repetition.antt =====
-- The repetition count test of addon/linux_esdm_es/esdm_health.c.
use esdm.Base.{
  ℕ, zero, suc, ◌+◌, ◌≤◌, ◌<◌, true, false, some, Run, ◌>>=◌, ◌≡◌, ap, ◌∙◌, arith, u32_mod,
}
use esdm.Health.{
  HealthConfig, EsHealth, startup_failure, runtime_failure, failure, check_cutoffs, rct,
}

-- The test of so many stuck samples in a row.
pub stuck_run : HealthConfig → ℕ → EsHealth → Run EsHealth
stuck_run c zero h = some h
stuck_run c (suc n) h = stuck_run c n h >>= rct c true

-- Below the cutoff.
rct-below :
    (c : HealthConfig) (h : EsHealth)
    → c.fips_enabled ≡ true
    → h.rct_count + 1 < c.rct_cutoff
    → h.rct_count + 1 < c.rct_cutoff_permanent
    → h.rct_count + 1 < u32_mod
    → rct c true h ≡ some (record h { rct_count = h.rct_count + 1 })
unfolding rct check_cutoffs
rct-below c h fips low perm fits = ground arith

failure_lem :
    (h : EsHealth)
    → some (failure h)
      ≡ some (record h {
        entropy_resets = h.entropy_resets + 1;
        startup_blocks = 2;
        startup_done = false;
      })
unfolding failure runtime_failure startup_failure
failure_lem h = ground arith

-- At the cutoff.
rct-at :
    (c : HealthConfig) (h : EsHealth)
    → c.fips_enabled ≡ true
    → c.rct_cutoff < c.rct_cutoff_permanent
    → c.rct_cutoff_permanent < u32_mod
    → h.rct_count + 1 ≡ c.rct_cutoff
    → rct c true h ≡ some (failure (record h { rct_count = c.rct_cutoff }))
unfolding rct check_cutoffs
rct-at c h fips order fits at = ground arith

-- In FIPS mode, fewer stuck samples in a row than the cutoff only raise the repetition counter,
-- where the permanent cutoff is at least the other and both fit into 32 bits.
pub stuck_run_below :
    (c : HealthConfig) (n : ℕ) (h : EsHealth)
    → c.fips_enabled ≡ true
    → c.rct_cutoff ≤ c.rct_cutoff_permanent
    → c.rct_cutoff_permanent < u32_mod
    → h.rct_count + n < c.rct_cutoff
    → stuck_run c n h ≡ some (record h { rct_count = h.rct_count + n })
unfolding stuck_run
stuck_run_below c zero h fips order fits low =
    ap (λ k. some (record h { rct_count = k })) (omega arith)
stuck_run_below c (suc n) h fips order fits low =
    rw (stuck_run_below c n h fips order fits (omega (arith, low))) (
      rct-below c (record h { rct_count = h.rct_count + n }) fips (omega (arith, low))
        (omega (arith, low, order)) (omega (arith, low, order, fits))
      ∙ ap (λ k. some (record h { rct_count = k })) (omega arith))

-- In FIPS mode, the stuck sample that takes the repetition counter to the cutoff is a failure,
-- where the permanent cutoff is larger and fits into 32 bits: the entropy of the source is thrown
-- away once and the startup test begins anew.
pub stuck_run_cutoff :
    (c : HealthConfig) (n : ℕ) (h : EsHealth)
    → c.fips_enabled ≡ true
    → c.rct_cutoff < c.rct_cutoff_permanent
    → c.rct_cutoff_permanent < u32_mod
    → h.rct_count + suc n ≡ c.rct_cutoff
    → stuck_run c (suc n) h
      ≡ some (record h {
        rct_count = c.rct_cutoff;
        entropy_resets = h.entropy_resets + 1;
        startup_blocks = 2;
        startup_done = false;
      })
unfolding stuck_run
stuck_run_cutoff c n h fips order fits at =
    rw (stuck_run_below c n h fips (omega (arith, order)) fits (omega (arith, at))) (
      rct-at c (record h { rct_count = h.rct_count + n }) fips order fits (omega (arith, at))
      ∙ failure_lem _)

-- ===== src/Health/Startup.antt =====
-- The samples of the startup test of addon/linux_esdm_es/esdm_health.c.
use esdm.Base.{
  ℕ, ◌+◌, ◌-◌, ◌*◌, ◌≤◌, Bool, true, not, List, [], ◌∷◌, ◌≡◌, false, refl, ◌⊎◌, arith, length,
  if◌then◌else◌, leb, ◌==◌, Ensures, blocks, returns, Ensures-bind, Ensures-if, Ensures-map,
  if_both, ◌%◌,
}
use esdm.Health.{
  HealthConfig, HealthRes, EsHealth, Health, startup, startup_failure, runtime_failure, failure,
  permanent_failure, rct_reset, apt_reset, apt_restart, check_cutoffs, apt_compare, apt_window,
  apt_insert, rct, health_test, health_tests,
}

-- The samples that are missing before the startup test is done: the rest of the window, and the
-- windows after it.
abbrev pub missing : EsHealth → ℕ
missing h = if h.startup_done then 0 else 512 * (h.startup_blocks - 1) + h.apt_trigger

-- The counters lie in their ranges.
pub record IsCounting (h : EsHealth) : Type 0 where
  pub started : 1 ≤ h.apt_trigger
  pub window : h.apt_trigger ≤ 512
  pub left : (h.startup_done ≡ true) ⊎ (1 ≤ h.startup_blocks)
  pub total : h.startup_blocks ≤ 2

-- A step to a state in range that brings the end of the startup test nearer by at most so many
-- samples.
abbrev Nearer : ℕ → EsHealth → EsHealth → Type 0
Nearer n h h' = IsCounting h' × (missing h ≤ missing h' + n)

failure-Nearer : (h : EsHealth) → IsCounting h → Nearer 0 h (failure h)
unfolding failure runtime_failure startup_failure
failure-Nearer h v = ground arith

permanent_failure-Nearer :
    (c : HealthConfig) (h : EsHealth) → IsCounting h → Ensures (Nearer 0 h) (permanent_failure c h)
unfolding permanent_failure runtime_failure startup_failure rct_reset apt_reset apt_restart
permanent_failure-Nearer c h v =
    Ensures-if c.enforce_panic (λ _. blocks) (λ _. returns (ground arith))

check_cutoffs-Nearer :
    (c : HealthConfig) (permanent cutoff count : ℕ) (h : EsHealth)
    → IsCounting h
    → Ensures (Nearer 0 h) (check_cutoffs c permanent cutoff count h)
unfolding check_cutoffs
check_cutoffs-Nearer c permanent cutoff count h v =
    Ensures-if (leb permanent count) (λ _. permanent_failure-Nearer c h v)
      (λ _. returns (if_both (Nearer 0 h) (leb cutoff count) (failure-Nearer h v) (v, omega arith)))

apt_compare-Nearer :
    (c : HealthConfig) (now_time : ℕ) (h : EsHealth)
    → IsCounting h
    → Ensures (Nearer 0 h) (apt_compare c now_time h)
unfolding apt_compare
apt_compare-Nearer c now_time h v =
    Ensures-if (now_time == h.apt_base)
      (λ _. check_cutoffs-Nearer c _ _ _ (record h { apt_count = _ }) (ground arith))
      (λ _. returns (v, omega arith))

apt_window-Nearer :
    (now_time : ℕ) (h : EsHealth) → IsCounting h → Nearer 1 h (apt_window now_time h)
unfolding apt_window startup apt_reset apt_restart
apt_window-Nearer now_time h v = ground arith

apt_insert-Nearer :
    (c : HealthConfig) (now_time : ℕ) (h : EsHealth)
    → IsCounting h
    → Ensures (Nearer 1 h) (apt_insert c now_time h)
unfolding apt_insert
apt_insert-Nearer c now_time h v =
    Ensures-if (not c.fips_enabled) (λ _. returns (v, omega arith))
      (λ _.
        Ensures-if (not h.apt_base_set) (λ _. returns (ground arith))
          (λ _. Ensures-bind _ (apt_compare-Nearer c _ h v) λ h' w.
            let x = apt_window-Nearer (now_time % 16) h' w.0 in
            returns (x.0, omega (arith, x.1, w.1))))

rct-Nearer :
    (c : HealthConfig) (stuck : Bool) (h : EsHealth)
    → IsCounting h
    → Ensures (Nearer 0 h) (rct c stuck h)
unfolding rct rct_reset
rct-Nearer c stuck h v =
    Ensures-if (not c.fips_enabled) (λ _. returns (v, omega arith))
      (λ _.
        Ensures-if stuck
          (λ _. check_cutoffs-Nearer c _ _ _ (record h { rct_count = _ }) (ground arith))
          (λ _. returns (ground arith)))

health_test-Nearer :
    (c : HealthConfig) (now_time : ℕ) (h : Health)
    → IsCounting h.es_state
    → Ensures
        (λ (r : HealthRes × Health). Nearer 1 h.es_state r.1.es_state)
        (health_test c now_time h)
unfolding health_test
health_test-Nearer c now_time h v =
    Ensures-if (not h.health_test_enabled) (λ _. returns (v, omega arith))
      (λ _. Ensures-bind _ (apt_insert-Nearer c now_time h.es_state v) λ e1 w.
        Ensures-bind _ (rct-Nearer c _ e1 w.0) λ e2 x. returns (x.0, omega (arith, x.1, w.1)))

-- Over any sequence of time stamps that does not end in a panic, the startup test comes nearer to
-- its end by at most one sample for each time stamp, where the counters lie in their ranges at
-- the start; they do so at the end. At the initial state 1024 samples are missing.
pub health_tests-missing :
    (c : HealthConfig) (times : List ℕ) (h : Health)
    → IsCounting h.es_state
    → Ensures
        (λ (r : Health).
          IsCounting r.es_state × (missing h.es_state ≤ missing r.es_state + length times))
        (health_tests c times h)
unfolding health_tests
health_tests-missing c [] h v = returns (v, omega arith)
health_tests-missing c (time ∷ times) h v = Ensures-bind _ (health_test-Nearer c time h v) λ r w.
    Ensures-map (health_tests-missing c times (r.1) w.0) λ u x. (x.0, omega (arith, x.1, w.1))

-- After a failure the startup test is under way, and it lacks one whole window and the rest of the
-- current one: at least 513 samples, and 1024 only where the failure falls on the start of a window.
-- A permanent failure that does not panic always restarts it with 1024 samples. The counters lie in
-- their ranges before.
pub failure-missing :
    (c : HealthConfig) (h : EsHealth)
    → IsCounting h
    → ((failure h).startup_done ≡ false)
      × (missing (failure h) ≡ 512 + h.apt_trigger)
      × (513 ≤ missing (failure h))
      × Ensures
          (λ (r : EsHealth). (r.startup_done ≡ false) × (missing r ≡ 1024))
          (permanent_failure c h)
unfolding failure permanent_failure runtime_failure startup_failure rct_reset apt_reset apt_restart
failure-missing c h v = (
  ground arith,
  ground arith,
  ground arith,
  Ensures-if c.enforce_panic (λ _. blocks) (λ _. returns (refl, omega arith)),
)

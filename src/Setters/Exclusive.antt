-- ===== src/Setters/Exclusive.antt =====
-- The rates of the interrupt and the scheduler source of esdm/esdm_config.c.
use esdm.Base.{ℕ, ◌≤◌, min, true, ltb, ◌≡◌, ap, arith, Ensures, Ensures-bind}
use esdm.Config.{Settings, entropy_rate_max}
use esdm.Config.Bounds.{entropy_rate_max-min}
use esdm.System.{Sys, Platform}
use esdm.EsMgr.Stages.{Start, IsSound}
use esdm.DrngMgr.Sound.{es_add_entropy-IsSound}
use esdm.Setters.{
  store_irq_rate, store_sched_rate, es_irq_entropy_rate_set, es_sched_entropy_rate_set,
}

-- The settings with these two rates.
abbrev rates_of : ℕ → ℕ → Settings → Settings
rates_of irq sched c = record c {
  config = record (c.config) { irq_rate = irq; sched_rate = sched };
}

abbrev pub rates : ℕ → ℕ → Start → Start
rates irq sched c = record c { settings = rates_of irq sched c.settings }

module _ {X D H : Type 0} (p : Platform X D H) where
  store_irq_rate-IsSound :
      (val : ℕ) (c : Start) (s : Sys X D H)
      → IsSound c s
      → Ensures (IsSound (rates val c.settings.config.sched_rate c)) (store_irq_rate p val s)
  unfolding store_irq_rate
  store_irq_rate-IsSound val c s v = es_add_entropy-IsSound p _ (record {
    set_to = ap (λ (d : Settings). rates_of val d.config.sched_rate d) v.set_to;
    floor = v.floor;
    flags = v.flags;
    shown = v.shown;
  })

  store_sched_rate-IsSound :
      (val : ℕ) (c : Start) (s : Sys X D H)
      → IsSound c s
      → Ensures (IsSound (rates c.settings.config.irq_rate val c)) (store_sched_rate p val s)
  unfolding store_sched_rate
  store_sched_rate-IsSound val c s v = es_add_entropy-IsSound p _ (record {
    set_to = ap (λ (d : Settings). rates_of d.config.irq_rate val d) v.set_to;
    floor = v.floor;
    flags = v.flags;
    shown = v.shown;
  })

  -- Setting the interrupt or the scheduler rate to a value above zero stores it, capped at 256
  -- bits, and sets the other of the two to zero; if the seeding that may follow returns, it has
  -- left all other settings, and the consistency of the ESDM's stages, as they were.
  pub es_entropy_rate_set_lem :
      (ent : ℕ) (c : Start) (s : Sys X D H)
      → 1 ≤ ent
      → IsSound c s
      → Ensures (IsSound (rates (min 256 ent) 0 c)) (es_irq_entropy_rate_set p ent s)
        × Ensures (IsSound (rates 0 (min 256 ent) c)) (es_sched_entropy_rate_set p ent s)
  unfolding es_irq_entropy_rate_set es_sched_entropy_rate_set
  es_entropy_rate_set_lem ent c s pos v =
      let e : entropy_rate_max ent ≡ min 256 ent = entropy_rate_max-min ent in
      let positive : ltb 0 (entropy_rate_max ent) ≡ true = rw e (ground arith) in
      (
        rw (positive, e)
            (Ensures-bind _ (store_sched_rate-IsSound 0 c s v)
              λ t w. store_irq_rate-IsSound (min 256 ent) _ t w),
        rw (positive, e)
            (Ensures-bind _ (store_irq_rate-IsSound 0 c s v)
              λ t w. store_sched_rate-IsSound (min 256 ent) _ t w),
      )

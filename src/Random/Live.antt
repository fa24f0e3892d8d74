-- ===== src/Random/Live.antt =====
-- Whether `esdm_drng_get` returns.
use esdm.Base.{
  ℕ, zero, suc, ◌-◌, ◌≤◌, ◌<◌, true, false, not, Option, none, some, List, [], ◌∷◌, refl, ◌∙◌, inl,
  inr, ◌==◌, Bool-cases, arith, length, Yields, yields, option_both, Yields-bind, Yields-if,
  if_both,
}
use esdm.System.{Sys, Platform, DrngRef, drng_init, drng_pr, allocated, deref}
use esdm.EsMgr.{get_available}
use esdm.DrngMgr.Levels.{BoundedSources}
use esdm.DrngMgr.Ready.{Valid, Accepts}
use esdm.DrngMgr.Live.{
  Keeps, store-Keeps, update-Keeps, unlock-Keeps, drng_seed-Yields, unset_fully_seeded-Yields,
  trylocked-Yields,
}
use esdm.DrngMgr.Progress.{seed_es_nolock-Yields}
use esdm.Random.{
  Plan, generate, again, stop, must_reseed, reseed_if_needed, plan_pr, plan, generate_one, account,
  Rest, run_generate, run_plan, get_loop, drng_get, check_disable_threshold,
}

-- A plan that makes progress: it does not just try again.
abbrev Proceeds : Plan → Type 0
Proceeds (generate n) = Unit
Proceeds again = ⊥
Proceeds stop = Unit

-- The system that a call returns, whatever its result.
abbrev pub Keeps2 : {A X D H : Type 0} → ℕ → A × Sys X D H → Type 0
Keeps2 n r = Keeps false n r.1

abbrev Planned : {X D H : Type 0} → ℕ → Plan × Sys X D H → Type 0
Planned n r = Proceeds r.0 × Keeps false n r.1

-- Bytes that a generate call hands out are some bytes.
abbrev SomeBytes : Option (List ℕ) → Type 0
SomeBytes none = Unit
SomeBytes (some bytes) = 1 ≤ length bytes

abbrev Generated : {X D H : Type 0} → ℕ → Option (List ℕ) × Sys X D H → Type 0
Generated n g = SomeBytes g.0 × Keeps false n g.1

handed :
    {X D H : Type 0} {n : ℕ} (ret : Option (List ℕ)) (s : Sys X D H)
    → Keeps false n s
    → let g : Option (List ℕ) × Sys X D H = elim ret [
      | none ↦ (none, s)
      | some [] ↦ (none, s)
      | some (x ∷ xs) ↦ (some (x ∷ xs), s)
    ] in
      Generated n g
handed none s k = (tt, k)
handed (some []) s k = (tt, k)
handed (some (x ∷ xs)) s k = (omega arith, k)

-- What is left of a request of up to so many bytes.
abbrev RestYields : {X D H : Type 0} → ℕ → ℕ → Rest X D H → Type 0
RestYields {X} {D} {H} bound n rest =
    (len : ℕ) (out : List ℕ) (s : Sys X D H)
    → len ≤ bound
    → Keeps false n s
    → Yields (Keeps2 n) (rest len out s)

module _ {X D H : Type 0} (p : Platform X D H) (a : Accepts p) (b : BoundedSources p) where
  reseed_if_needed-Yields :
      {n : ℕ} (ref : DrngRef) (s : Sys X D H)
      → Valid ref n
      → Keeps false n s
      → Yields (Keeps false n) (reseed_if_needed p ref s)
  unfolding reseed_if_needed must_reseed
  reseed_if_needed-Yields ref s h k =
      let k1 = update-Keeps ref (must_reseed (deref ref s) s).1 s refl k in
      Yields-if (must_reseed (deref ref s) s).0
        (λ _.
          trylocked-Yields p a b _
            (λ t w.
              Yields-bind _ (drng_seed-Yields p a b ref t h w) λ u x. yields (unlock-Keeps u x))
            k1)
        (λ _. yields k1)

  plan_pr-Yields :
      {n : ℕ} (todo : ℕ) (s : Sys X D H) → Keeps false n s → Yields (Planned n) (plan_pr p todo s)
  unfolding plan_pr
  plan_pr-Yields todo s k =
      Yields-if s.pr_drng.fully_seeded (λ _. yields (tt, k))
        (λ _.
          trylocked-Yields p a b _
            (λ t w. Yields-bind _ (seed_es_nolock-Yields p drng_pr true t a b w.0 tt) λ r x.
              let k2 = unlock-Keeps (r.1) (x.0, x.1 ∙ w.1) in
              yields (if_both (Planned _) (r.0 == 0) (tt, k2) (tt, k2)))
            k)

  plan-Yields :
      {n : ℕ} (ref : DrngRef) (todo : ℕ) (s : Sys X D H)
      → Valid ref n
      → Keeps false n s
      → Yields (Planned n) (plan p ref todo s)
  unfolding plan
  plan-Yields drng_pr todo s h k = plan_pr-Yields todo s k
  plan-Yields drng_init todo s h k =
      Yields-bind _ (reseed_if_needed-Yields drng_init s h k) λ t w. yields (tt, w)
  plan-Yields (allocated i) todo s h k =
      Yields-bind _ (reseed_if_needed-Yields (allocated i) s h k) λ t w. yields (tt, w)

  generated :
      {n : ℕ} (ref : DrngRef) (todo : ℕ) (s : Sys X D H)
      → Keeps false n s
      → Generated n (generate_one p ref todo s)
  unfolding generate_one
  generated {n} ref todo s k =
      option_both (Generated n) (deref ref s).handle (tt, k)
        λ h. handed (p.drng_generate h todo).0 _ (store-Keeps ref _ s refl k)

  account-Yields :
      {n : ℕ} (ref : DrngRef) (ret : ℕ) (s : Sys X D H)
      → Keeps false n s
      → Yields (Keeps false n) (account p ref ret s)
  unfolding account
  account-Yields drng_init ret s k = yields (update-Keeps drng_init _ s refl k)
  account-Yields drng_pr ret s k =
      unset_fully_seeded-Yields p a b drng_pr _ (update-Keeps drng_pr _ s refl k)
  account-Yields (allocated i) ret s k = yields (update-Keeps (allocated i) _ s refl k)

  run_generate-Yields :
      {bound n : ℕ} (rest : Rest X D H) (ref : DrngRef) (len : ℕ) (out : List ℕ)
      (g : Option (List ℕ) × Sys X D H)
      → RestYields bound n rest
      → len ≤ suc bound
      → SomeBytes g.0
      → Keeps false n g.1
      → Yields (Keeps2 n) (run_generate p rest ref len out g)
  unfolding run_generate
  run_generate-Yields rest ref len out (none, s) keep fits h k = yields k
  run_generate-Yields rest ref len out (some bytes, s) keep fits h k =
      Yields-bind _ (account-Yields ref _ s k) λ t w. keep _ _ t (omega arith) w

  run_plan-Yields :
      {bound n : ℕ} (rest : Rest X D H) (ref : DrngRef) (len : ℕ) (out : List ℕ)
      (r : Plan × Sys X D H)
      → RestYields bound n rest
      → len ≤ suc bound
      → Planned n r
      → Yields (Keeps2 n) (run_plan p rest ref len out r)
  unfolding run_plan
  run_plan-Yields rest ref len out (again, s) keep fits k = absurd (k.0)
  run_plan-Yields rest ref len out (stop, s) keep fits k = yields k.1
  run_plan-Yields rest ref len out (generate todo, s) keep fits k =
      let g = generated ref todo s k.1 in run_generate-Yields rest ref len out _ keep fits g.0 g.1

  get_loop-Yields :
      {n : ℕ} (fuel : ℕ) (ref : DrngRef) (len : ℕ) (out : List ℕ) (s : Sys X D H)
      → Valid ref n
      → len < fuel
      → Keeps false n s
      → Yields (Keeps2 n) (get_loop p fuel ref len out s)
  unfolding get_loop
  get_loop-Yields zero ref len out s h fits k = absurd (omega arith)
  get_loop-Yields (suc fuel) ref len out s h fits k = elim (Bool-cases (len == 0)) [
    | inl e ↦ rw (e, get_loop) (yields k)
    | inr e ↦
        rw (e, get_loop)
          (Yields-bind _ (plan-Yields ref _ s h k) λ r w.
            run_plan-Yields {bound = fuel - 1} _ ref len out r
              (λ l o t m. get_loop-Yields fuel ref l o t h (ground (arith, e, m, fits)))
              (ground (arith, e, fits)) w)
  ]

  -- A request on an allocated DRNG returns, with bytes or an error.
  pub drng_get-Yields :
      {n : ℕ} (ref : DrngRef) (len : ℕ) (s : Sys X D H)
      → Valid ref n
      → Keeps false n s
      → Yields (Keeps2 n) (drng_get p ref len s)
  unfolding drng_get
  drng_get-Yields ref len s h k =
      Yields-if (len == 0) (λ _. yields k)
        (λ _.
          Yields-if (not (get_available s)) (λ _. yields k)
            (λ _.
              Yields-bind _
                (Yields-if (check_disable_threshold (deref ref s) s)
                  (λ _. unset_fully_seeded-Yields p a b ref s k) (λ _. yields k))
                λ t w. get_loop-Yields _ ref _ [] t h (omega arith) w))

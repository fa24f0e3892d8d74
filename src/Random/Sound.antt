-- ===== src/Random/Sound.antt =====
-- The generation of random bytes and the consistency of stages and status page.
use esdm.Base.{
  ℕ, zero, suc, true, not, Option, none, some, List, [], ◌∷◌, inl, inr, ◌==◌, Bool-cases,
  Option-cases, arith, Ensures, blocks, returns, Ensures-bind, Ensures-if, Ensures-some, if_both,
  option_both,
}
use esdm.System.{Sys, Platform, DrngRef, drng_init, drng_pr, allocated, deref, store}
use esdm.EsMgr.{pool_trylock, get_available}
use esdm.EsMgr.Stages.{Start, IsSound}
use esdm.DrngMgr.Sound.{
  store-IsSound, trylock-IsSound, unlock-IsSound, drng_seed-IsSound, seed_es_nolock-IsSound,
  unset_fully_seeded-IsSound,
}
use esdm.Random.{
  Plan, generate, again, stop, must_reseed, reseed_if_needed, plan_pr, plan, generate_one, account,
  Rest, run_generate, run_plan, get_loop, drng_get, online, force_one, force_all, drng_force_reseed,
  check_disable_threshold,
}

-- The second component of what a run returns is sound.
abbrev pub Sound2 : {A X D H : Type 0} → Start → A × Sys X D H → Type 0
Sound2 c r = IsSound c r.1

module _ {X D H : Type 0} {c : Start} where
  force_all-IsSound :
      (refs : List DrngRef) (s : Sys X D H) → IsSound c s → IsSound c (force_all refs s)
  unfolding force_all force_one
  force_all-IsSound [] s v = v
  force_all-IsSound (ref ∷ refs) s v = force_all-IsSound refs _ (store-IsSound ref _ s v)

  pub drng_force_reseed-IsSound : (s : Sys X D H) → IsSound c s → IsSound c (drng_force_reseed s)
  unfolding drng_force_reseed
  drng_force_reseed-IsSound s v =
      option_both (IsSound c) s.instances (store-IsSound drng_init _ s v) (λ l.
        if_both (IsSound c) (check_disable_threshold s.init_drng s) (store-IsSound drng_init _ s v)
          (force_all-IsSound (online _ l) s v))

-- What is left of a request keeps the system sound.
abbrev RestIsSound : {X D H : Type 0} → Start → Rest X D H → Type 0
RestIsSound {X} {D} {H} c rest =
    (len : ℕ) (out : List ℕ) (s : Sys X D H) → IsSound c s → Ensures (Sound2 c) (rest len out s)

module _ {X D H : Type 0} (p : Platform X D H) {c : Start} where
  reseed_if_needed-IsSound :
      (ref : DrngRef) (s : Sys X D H) → IsSound c s → Ensures (IsSound c) (reseed_if_needed p ref s)
  unfolding reseed_if_needed
  reseed_if_needed-IsSound ref s v =
      let r = must_reseed (deref ref s) s in
      let s1 = store ref (r.1) s in
      let v1 : IsSound c s1 = store-IsSound ref (r.1) s v in
      Ensures-if (r.0)
        (λ _. elim (Option-cases (pool_trylock s1)) [
          | inl e ↦ rw (e, reseed_if_needed) (returns (store-IsSound ref _ s1 v1))
          | inr (t, e) ↦
              rw (e, reseed_if_needed)
                (Ensures-bind _ (drng_seed-IsSound p ref t (Ensures-some (trylock-IsSound s1 v1) e))
                  λ u w. returns (unlock-IsSound u w))
        ])
        (λ _. returns v1)

  plan_pr-IsSound : (todo : ℕ) (s : Sys X D H) → IsSound c s → Ensures (Sound2 c) (plan_pr p todo s)
  unfolding plan_pr
  plan_pr-IsSound todo s v =
      Ensures-if s.pr_drng.fully_seeded (λ _. returns v)
        (λ _. elim (Option-cases (pool_trylock s)) [
          | inl e ↦ rw (e, plan_pr) (returns v)
          | inr (t, e) ↦
              rw (e, plan_pr)
                (Ensures-bind _
                  (seed_es_nolock-IsSound p drng_pr true t (Ensures-some (trylock-IsSound s v) e))
                  λ r w. returns (
                    if_both (Sound2 c) (r.0 == 0) (unlock-IsSound (r.1) w)
                      (unlock-IsSound (r.1) w)))
        ])

  plan-IsSound :
      (ref : DrngRef) (todo : ℕ) (s : Sys X D H)
      → IsSound c s
      → Ensures (Sound2 c) (plan p ref todo s)
  unfolding plan
  plan-IsSound drng_pr todo s v = plan_pr-IsSound todo s v
  plan-IsSound drng_init todo s v =
      Ensures-bind _ (reseed_if_needed-IsSound drng_init s v) λ t w. returns w
  plan-IsSound (allocated k) todo s v =
      Ensures-bind _ (reseed_if_needed-IsSound (allocated k) s v) λ t w. returns w

  generate_one-IsSound :
      (ref : DrngRef) (todo : ℕ) (s : Sys X D H)
      → IsSound c s
      → IsSound c (generate_one p ref todo s).1
  unfolding generate_one
  generate_one-IsSound drng_init todo s v = ground arith
  generate_one-IsSound drng_pr todo s v = ground arith
  generate_one-IsSound (allocated k) todo s v = ground arith

  account-IsSound :
      (ref : DrngRef) (ret : ℕ) (s : Sys X D H)
      → IsSound c s
      → Ensures (IsSound c) (account p ref ret s)
  unfolding account
  account-IsSound drng_init ret s v = returns (store-IsSound drng_init _ s v)
  account-IsSound drng_pr ret s v =
      unset_fully_seeded-IsSound p drng_pr _ (store-IsSound drng_pr _ s v)
  account-IsSound (allocated k) ret s v = returns (store-IsSound (allocated k) _ s v)

  run_generate-IsSound :
      (rest : Rest X D H) (ref : DrngRef) (len : ℕ) (out : List ℕ) (g : Option (List ℕ) × Sys X D H)
      → RestIsSound c rest
      → IsSound c g.1
      → Ensures (Sound2 c) (run_generate p rest ref len out g)
  unfolding run_generate
  run_generate-IsSound rest ref len out (none, s) keep v = returns v
  run_generate-IsSound rest ref len out (some bytes, s) keep v =
      Ensures-bind _ (account-IsSound ref _ s v) λ t w. keep _ _ t w

  run_plan-IsSound :
      (rest : Rest X D H) (ref : DrngRef) (len : ℕ) (out : List ℕ) (r : Plan × Sys X D H)
      → RestIsSound c rest
      → IsSound c r.1
      → Ensures (Sound2 c) (run_plan p rest ref len out r)
  unfolding run_plan
  run_plan-IsSound rest ref len out (again, s) keep v = keep len out s v
  run_plan-IsSound rest ref len out (stop, s) keep v = returns v
  run_plan-IsSound rest ref len out (generate todo, s) keep v =
      run_generate-IsSound rest ref len out _ keep (generate_one-IsSound ref todo s v)

  get_loop-IsSound :
      (fuel : ℕ) (ref : DrngRef) (len : ℕ) (out : List ℕ) (s : Sys X D H)
      → IsSound c s
      → Ensures (Sound2 c) (get_loop p fuel ref len out s)
  unfolding get_loop
  get_loop-IsSound zero ref len out s v = blocks
  get_loop-IsSound (suc fuel) ref len out s v = elim (Bool-cases (len == 0)) [
    | inl e ↦ rw (e, get_loop) (returns v)
    | inr e ↦
        rw (e, get_loop)
          (Ensures-bind _ (plan-IsSound ref _ s v)
            λ r w. run_plan-IsSound _ ref len out r (get_loop-IsSound fuel ref) w)
  ]

  pub drng_get-IsSound :
      (ref : DrngRef) (len : ℕ) (s : Sys X D H)
      → IsSound c s
      → Ensures (Sound2 c) (drng_get p ref len s)
  unfolding drng_get
  drng_get-IsSound ref len s v =
      Ensures-if (len == 0) (λ _. returns v)
        (λ _.
          Ensures-if (not (get_available s)) (λ _. returns v)
            (λ _.
              Ensures-bind {P = IsSound c} _
                (Ensures-if (check_disable_threshold (deref ref s) s)
                  (λ _. unset_fully_seeded-IsSound p ref s v) (λ _. returns v))
                λ t w. get_loop-IsSound _ ref _ [] t w))

-- ===== src/Random/Length.antt =====
-- How many bytes `esdm_drng_get` hands out.
use esdm.Base.{
  ℕ, zero, suc, ◌+◌, ◌-◌, ◌%◌, ◌≤◌, ◌<◌, true, not, Option, none, some, List, [], ◌∷◌, ◌++◌, Result,
  ok, err, ◌≡◌, refl, subst, inl, inr, ◌==◌, Bool-cases, Option-cases, arith, length, length-append,
  Ensures, blocks, returns, Ensures-bind, Ensures-if, Ensures-any, if_both, option_both, min_uint32,
  u32_mod,
}
use esdm.Config.{drng_max_reqsize}
use esdm.System.{Sys, Platform, DrngRef, drng_init, drng_pr, allocated, deref}
use esdm.EsMgr.{pool_trylock, get_available}
use esdm.DrngMgr.{seed_es_nolock}
use esdm.Random.{
  Plan, generate, again, stop, reseed_if_needed, plan_pr, plan, generate_one, account, Rest,
  run_generate, run_plan, get_loop, drng_get, ssize_max,
}

abbrev pub Fits : ℕ → Option (List ℕ) → Type 0
Fits n none = Unit
Fits n (some bytes) = length bytes ≤ n

-- A backend whose generate call never returns more than it was asked for.
abbrev pub WithinRequest : {X D H : Type 0} → Platform X D H → Type 0
WithinRequest {D} p = (h : D) (n : ℕ) → Fits n (p.drng_generate h n).0

-- What a request for so many bytes may return: an error, or all of them; with prediction resistance
-- also fewer.
abbrev pub Delivered : DrngRef → ℕ → Result (List ℕ) → Type 0
Delivered ref total (err e) = Unit
Delivered drng_pr total (ok out) = length out ≤ total
Delivered drng_init total (ok out) = length out ≡ total
Delivered (allocated k) total (ok out) = length out ≡ total

-- A plan for at most so many bytes; only prediction resistance stops early.
abbrev Within : DrngRef → ℕ → Plan → Type 0
Within ref todo (generate n) = n ≤ todo
Within ref todo again = Unit
Within drng_pr todo stop = Unit
Within drng_init todo stop = ⊥
Within (allocated k) todo stop = ⊥

Fits-le : {m n : ℕ} (o : Option (List ℕ)) → Fits m o → m ≤ n → Fits n o
Fits-le none h k = tt
Fits-le (some bytes) h k = omega arith

all-Delivered : (ref : DrngRef) (out : List ℕ) → Delivered ref (length out) (ok out)
all-Delivered drng_pr out = omega arith
all-Delivered drng_init out = refl
all-Delivered (allocated k) out = refl

some-Delivered :
    (ref : DrngRef) (todo len : ℕ) (out : List ℕ)
    → Within ref todo stop
    → Delivered ref (length out + len) (ok out)
some-Delivered drng_pr todo len out h = omega arith
some-Delivered drng_init todo len out h = absurd h
some-Delivered (allocated k) todo len out h = absurd h

handed :
    (n : ℕ) {A : Type 0} (ret : Option (List ℕ)) (s : A)
    → Fits n ret
    → let g : Option (List ℕ) × A = elim ret [
      | none ↦ (none, s)
      | some [] ↦ (none, s)
      | some (x ∷ xs) ↦ (some (x ∷ xs), s)
    ] in
      Fits n g.0
handed n none s k = tt
handed n (some []) s k = tt
handed n (some (x ∷ xs)) s k = k

-- What is left of a request delivers the rest.
abbrev RestDelivers : {X D H : Type 0} → DrngRef → Rest X D H → Type 0
RestDelivers {X} {D} {H} ref rest =
    (len : ℕ) (out : List ℕ) (s : Sys X D H)
    → Ensures (λ (r : Result (List ℕ) × Sys X D H). Delivered ref (length out + len) r.0)
        (rest len out s)

module _ {X D H : Type 0} (p : Platform X D H) (w : WithinRequest p) where
  plan_pr-Within :
      (todo : ℕ) (s : Sys X D H)
      → Ensures (λ (r : Plan × Sys X D H). Within drng_pr todo r.0) (plan_pr p todo s)
  unfolding plan_pr
  plan_pr-Within todo s =
      Ensures-if s.pr_drng.fully_seeded (λ _. returns (ground arith))
        (λ _. elim (Option-cases (pool_trylock s)) [
          | inl e ↦ rw (e, plan_pr) (returns tt)
          | inr (t, e) ↦
              rw (e, plan_pr)
                (Ensures-bind _ (Ensures-any (seed_es_nolock p drng_pr true t)) λ r u. returns (
                  if_both (λ (x : Plan × Sys X D H). Within drng_pr todo x.0) (r.0 == 0) tt
                    (ground arith)))
        ])

  plan-Within :
      (ref : DrngRef) (todo : ℕ) (s : Sys X D H)
      → Ensures (λ (r : Plan × Sys X D H). Within ref todo r.0) (plan p ref todo s)
  unfolding plan
  plan-Within drng_pr todo s = plan_pr-Within todo s
  plan-Within drng_init todo s =
      Ensures-bind _ (Ensures-any (reseed_if_needed p drng_init s)) λ t u. returns (omega arith)
  plan-Within (allocated k) todo s =
      Ensures-bind _ (Ensures-any (reseed_if_needed p (allocated k) s)) λ t u. returns (omega arith)

  generate_one-Fits :
      (ref : DrngRef) (todo : ℕ) (s : Sys X D H) → Fits todo (generate_one p ref todo s).0
  unfolding generate_one
  generate_one-Fits ref todo s =
      option_both (λ (g : Option (List ℕ) × Sys X D H). Fits todo g.0) (deref ref s).handle tt
        λ h. handed todo (p.drng_generate h todo).0 _ (w h todo)

  run_generate-Delivered :
      (rest : Rest X D H) (ref : DrngRef) (len : ℕ) (out : List ℕ) (g : Option (List ℕ) × Sys X D H)
      → RestDelivers ref rest
      → Fits len g.0
      → Ensures
          (λ (r : Result (List ℕ) × Sys X D H). Delivered ref (length out + len) r.0)
          (run_generate p rest ref len out g)
  unfolding run_generate
  run_generate-Delivered rest ref len out (none, s) keep fits = returns tt
  run_generate-Delivered rest ref len out (some bytes, s) keep fits =
      Ensures-bind _ (Ensures-any (account p ref (length bytes) s)) λ t u.
        let total : length (out ++ bytes) + (len - length bytes) ≡ length out + len =
          omega (arith, length-append out bytes, fits) in
        subst
          (λ n.
            Ensures (λ (r : Result (List ℕ) × Sys X D H). Delivered ref n r.0)
              (rest (len - length bytes) (out ++ bytes) t))
          total (keep (len - length bytes) (out ++ bytes) t)

  run_plan-Delivered :
      (rest : Rest X D H) (ref : DrngRef) (todo len : ℕ) (out : List ℕ) (r : Plan × Sys X D H)
      → RestDelivers ref rest
      → todo ≤ len
      → Within ref todo r.0
      → Ensures
          (λ (r : Result (List ℕ) × Sys X D H). Delivered ref (length out + len) r.0)
          (run_plan p rest ref len out r)
  unfolding run_plan
  run_plan-Delivered rest ref todo len out (again, s) keep few h = keep len out s
  run_plan-Delivered rest ref todo len out (stop, s) keep few h =
      returns (some-Delivered ref todo len out h)
  run_plan-Delivered rest ref todo len out (generate n, s) keep few h =
      run_generate-Delivered rest ref len out _ keep
        (Fits-le _ (generate_one-Fits ref n s) (omega arith))

  get_loop-Delivered : (fuel : ℕ) (ref : DrngRef) → RestDelivers ref (get_loop p fuel ref)
  unfolding get_loop
  get_loop-Delivered zero ref len out s = blocks
  get_loop-Delivered (suc fuel) ref len out s = elim (Bool-cases (len == 0)) [
    | inl e ↦
        rw (e, get_loop)
          (returns
            (subst (λ n. Delivered ref n (ok out)) (ground (arith, e)) (all-Delivered ref out)))
    | inr e ↦
        rw (e, get_loop)
          (Ensures-bind _ (plan-Within ref (min_uint32 (len % u32_mod) drng_max_reqsize) s) λ r h.
            run_plan-Delivered _ ref (min_uint32 (len % u32_mod) drng_max_reqsize) len out r
              (get_loop-Delivered fuel ref) (ground arith) h)
  ]

  -- A request for fewer than 2^32 bytes that returns has handed out all of them or reports an error,
  -- where the backend never generates more than it is asked for; with prediction resistance it may
  -- hand out fewer.
  pub drng_get-Delivered :
      (ref : DrngRef) (len : ℕ) (s : Sys X D H)
      → len < u32_mod
      → Ensures (λ (r : Result (List ℕ) × Sys X D H). Delivered ref len r.0) (drng_get p ref len s)
  unfolding drng_get
  drng_get-Delivered ref len s small =
      Ensures-if (len == 0)
        (λ e.
          returns (subst (λ n. Delivered ref n (ok [])) (ground (arith, e)) (all-Delivered ref [])))
        (λ _.
          Ensures-if (not (get_available s)) (λ _. returns tt)
            (λ _. Ensures-bind _ (Ensures-any _) λ t u.
              subst
                (λ n.
                  Ensures (λ (r : Result (List ℕ) × Sys X D H). Delivered ref n r.0)
                    (get_loop p (suc (min_uint32 len ssize_max)) ref (min_uint32 len ssize_max) []
                      t))
                {x = length {A = ℕ} [] + min_uint32 len ssize_max} (ground (arith, small))
                (get_loop-Delivered _ ref _ [] t)))

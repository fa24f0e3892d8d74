-- ===== src/Random/Codes.antt =====
-- The errors of `esdm_drng_get`.
use esdm.Base.{
  ℕ, zero, suc, ◌%◌, true, false, not, Option, none, some, List, [], Result, ok, err, efault,
  eopnotsupp, ◌≡◌, ◌⊎◌, refl, inl, inr, ◌==◌, length, ◌>>=◌, Ensures, blocks, returns, Ensures-bind,
  Ensures-if, Ensures-any, min_uint32, u32_mod, if◌then◌else◌,
}
use esdm.Config.{drng_max_reqsize}
use esdm.System.{Sys, Platform, DrngRef, deref}
use esdm.EsMgr.{get_available}
use esdm.DrngMgr.{unset_fully_seeded}
use esdm.Random.{
  check_disable_threshold, Plan, generate, again, stop, plan, generate_one, account, Rest,
  run_generate, run_plan, get_loop, drng_get, ssize_max,
}

-- EFAULT, for a DRNG that does not generate, and EOPNOTSUPP, for a manager that is not available.
abbrev pub OnlyRefuses : Result (List ℕ) → Type 0
OnlyRefuses (ok bytes) = Unit
OnlyRefuses (err e) = (e ≡ efault) ⊎ (e ≡ eopnotsupp)

module _ {X D H : Type 0} (p : Platform X D H) where
  abbrev Refuses2 : Result (List ℕ) × Sys X D H → Type 0
  Refuses2 r = OnlyRefuses r.0

  abbrev RestRefuses : Rest X D H → Type 0
  RestRefuses rest = (n : ℕ) (out : List ℕ) (s : Sys X D H) → Ensures Refuses2 (rest n out s)

  run_generate-OnlyRefuses :
      (rest : Rest X D H) (ref : DrngRef) (n : ℕ) (out : List ℕ) (g : Option (List ℕ) × Sys X D H)
      → RestRefuses rest
      → Ensures Refuses2 (run_generate p rest ref n out g)
  unfolding run_generate
  run_generate-OnlyRefuses rest ref n out (none, s) h = returns (inl refl)
  run_generate-OnlyRefuses rest ref n out (some bytes, s) h =
      Ensures-bind _ (Ensures-any (account p ref (length bytes) s)) λ t u. h _ _ t

  run_plan-OnlyRefuses :
      (rest : Rest X D H) (ref : DrngRef) (n : ℕ) (out : List ℕ) (r : Plan × Sys X D H)
      → RestRefuses rest
      → Ensures Refuses2 (run_plan p rest ref n out r)
  unfolding run_plan
  run_plan-OnlyRefuses rest ref n out (again, s) h = h n out s
  run_plan-OnlyRefuses rest ref n out (stop, s) h = returns tt
  run_plan-OnlyRefuses rest ref n out (generate todo, s) h =
      run_generate-OnlyRefuses rest ref n out (generate_one p ref todo s) h

  get_loop-OnlyRefuses : (fuel : ℕ) (ref : DrngRef) → RestRefuses (get_loop p fuel ref)
  unfolding get_loop
  get_loop-OnlyRefuses zero ref n out s = blocks
  get_loop-OnlyRefuses (suc fuel) ref n out s =
      elim (n == 0)
        as (λ x. Ensures Refuses2 (elim x [
          | true ↦ some (ok out, s)
          | false ↦ plan p ref (min_uint32 (n % u32_mod) drng_max_reqsize) s >>= λ r.
              run_plan p (get_loop p fuel ref) ref n out r
        ])) [
          | true ↦ returns tt
          | false ↦ Ensures-bind _ (Ensures-any _) λ r u.
              run_plan-OnlyRefuses (get_loop p fuel ref) ref n out r (get_loop-OnlyRefuses fuel ref)
        ]

  pub drng_get-OnlyRefuses :
      (ref : DrngRef) (n : ℕ) (s : Sys X D H) → Ensures Refuses2 (drng_get p ref n s)
  unfolding drng_get
  drng_get-OnlyRefuses ref n s =
      Ensures-if (n == 0) (λ _. returns tt)
        (λ _.
          Ensures-if (not (get_available s)) (λ _. returns (inr refl))
            (λ _.
              Ensures-bind
                (get_loop p (suc (min_uint32 n ssize_max)) ref (min_uint32 n ssize_max) [])
                (Ensures-any (
                  if check_disable_threshold (deref ref s) s
                  then unset_fully_seeded p ref s
                  else some s))
                λ t u.
                  get_loop-OnlyRefuses (suc (min_uint32 n ssize_max)) ref (min_uint32 n ssize_max)
                    [] t))

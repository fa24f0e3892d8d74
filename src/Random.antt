-- ===== src/Random.antt =====
-- The DRNG manager, esdm/esdm_drng_mgr.c: forced reseeds, the generation of random bytes, the reset
-- of the ESDM, and the interface functions.
pub mod Sound
pub mod Live
pub mod Length
pub mod Reseed
pub mod Codes
pub mod Pick
use esdm.Base.{
  ℕ, zero, suc, ◌+◌, ◌-◌, ◌/◌, ◌%◌, Bool, true, false, not, ◌&&◌, ◌||◌, Option, none, some, List,
  [], ◌∷◌, ◌++◌, Result, ok, err, efault, eopnotsupp, Run, ◌>>=◌, ltb, leb, ◌==◌, if◌then◌else◌,
  add_u32, sub_u32, mul_u32, min_uint32, length, uint32_max, u32_mod,
}
use esdm.Config.{drng_max_reqsize, config_online_nodes}
use esdm.System.{
  Sys, Platform, Timespec, DrngRef, drng_init, drng_pr, allocated, Drng, deref, store,
}
use esdm.AuxPool.{security_strength}
use esdm.EsMgr.{get_available, pool_trylock, pool_unlock}
use esdm.DrngMgr.{drng_reset, drng_seed, seed_es_nolock, unset_fully_seeded}

abbrev pub ssize_max : ℕ
ssize_max = 9223372036854775807

-- The nodes' pointers that a loop over the online nodes visits.
unfoldable pub online : ℕ → List (Option DrngRef) → List DrngRef
online zero insts = []
online (suc n) [] = []
online (suc n) (none ∷ rest) = online n rest
online (suc n) (some ref ∷ rest) = ref ∷ online n rest

-- `esdm_time_after_now`: the whole seconds by which the clock is past a point in time.
unfoldable pub time_after_now : Timespec → Timespec → ℕ
time_after_now curr timeout =
    if ltb timeout.tv_sec curr.tv_sec
      || (timeout.tv_sec == curr.tv_sec && ltb timeout.tv_nsec curr.tv_nsec)
    then curr.tv_sec - timeout.tv_sec
    else 0

-- What the loop of `esdm_drng_get` does up to the generate call: go on with so many bytes, try
-- again, or stop.
pub data Plan : Type 0 where
  generate : ℕ → Plan
  again stop : Plan

module _ {X D H : Type 0} where
  unfoldable pub check_disable_threshold : Drng D → Sys X D H → Bool
  check_disable_threshold d s =
      let max_bits = s.settings.config.max_wo_reseed_bits in
      leb s.settings.config.max_wo_reseed d.requests_since_fully_seeded
      || (not (max_bits == uint32_max) && leb max_bits d.request_bits_since_fully_seeded)

  -- `drng->force_reseed = drng->fully_seeded`
  unfoldable pub force_one : DrngRef → Sys X D H → Sys X D H
  force_one ref s = let d = deref ref s in store ref (record d { force_reseed = d.fully_seeded }) s

  unfoldable pub force_all : List DrngRef → Sys X D H → Sys X D H
  force_all [] s = s
  force_all (ref ∷ rest) s = force_all rest (force_one ref s)

  -- `esdm_drng_force_reseed`
  unfoldable pub drng_force_reseed : Sys X D H → Sys X D H
  unfolding force_one force_all online
  drng_force_reseed s = elim s.instances [
    | none ↦ force_one drng_init s
    | some insts ↦
        if check_disable_threshold s.init_drng s
        then force_one drng_init s
        else force_all (online (config_online_nodes s.settings) insts) s
  ]

  -- `esdm_drng_must_reseed`: it counts the request down, also where another test decides.
  unfoldable pub must_reseed : Drng D → Sys X D H → Bool × Drng D
  unfolding time_after_now
  must_reseed d s =
      let thresh_bits = s.settings.build.reseed_thresh_bits in
      let bits_reached =
        not (thresh_bits == uint32_max) && leb thresh_bits d.request_bits_since_fully_seeded in
      let check_time : Timespec = record (d.last_seeded) {
        tv_sec = d.last_seeded.tv_sec + s.reseed_max_time;
      } in
      let requests = sub_u32 d.requests 1 in
      (
        (requests == 0)
            || (d.force_reseed || (bits_reached || not (time_after_now s.clock check_time == 0))),
        record d { requests = requests },
      )

  -- `esdm_set_reseed_max_time`
  unfoldable pub set_reseed_max_time : ℕ → Sys X D H → Sys X D H
  set_reseed_max_time seconds s =
      if seconds == 0 then s else record s { reseed_max_time = min_uint32 seconds 3600 }

  unfoldable pub reset_all : List DrngRef → Sys X D H → Sys X D H
  reset_all [] s = s
  reset_all (ref ∷ rest) s = reset_all rest (store ref (drng_reset (deref ref s) s.clock) s)

-- The rest of a request: from the bytes left, and those so far.
abbrev pub Rest : Type 0 → Type 0 → Type 0 → Type 0
Rest X D H = ℕ → List ℕ → Sys X D H → Run (Result (List ℕ) × Sys X D H)

module _ {X D H : Type 0} (p : Platform X D H) where
  -- The check before a generate call of a DRNG without prediction resistance.
  unfoldable pub reseed_if_needed : DrngRef → Sys X D H → Run (Sys X D H)
  reseed_if_needed ref s =
      let (wanted, d) = must_reseed (deref ref s) s in
      let s1 = store ref d s in
      if wanted
      then elim (pool_trylock s1) [
        | none ↦ some (store ref (record d { force_reseed = true }) s1)
        | some s2 ↦ do s3 ← drng_seed p ref s2; some (pool_unlock s3)
      ]
      else some s1

  unfoldable pub plan_pr : ℕ → Sys X D H → Run (Plan × Sys X D H)
  plan_pr todo s =
      let cap = security_strength s / 8 in
      if s.pr_drng.fully_seeded
      then some (generate (min_uint32 todo cap), s)
      else elim (pool_trylock s) [
        | none ↦ some (again, s)
        | some s1 ↦ do
          r ← seed_es_nolock p drng_pr true s1
          let s2 = pool_unlock (r.1)
          some (
              if r.0 == 0 then (stop, s2) else (
                generate (min_uint32 (min_uint32 todo (r.0 / 8)) (security_strength s2 / 8)),
                s2,
              ))
      ]

  unfoldable pub plan : DrngRef → ℕ → Sys X D H → Run (Plan × Sys X D H)
  unfolding plan_pr reseed_if_needed
  plan drng_pr todo s = plan_pr todo s
  plan drng_init todo s = reseed_if_needed drng_init s >>= λ s'. some (generate todo, s')
  plan (allocated k) todo s = reseed_if_needed (allocated k) s >>= λ s'. some (generate todo, s')

  -- The generate call: the bytes, or none for a return value of at most 0. Without an allocated DRNG
  -- the backend refuses the call.
  unfoldable pub generate_one : DrngRef → ℕ → Sys X D H → Option (List ℕ) × Sys X D H
  generate_one ref todo s =
      let d = deref ref s in
      elim d.handle [
        | none ↦ (none, s)
        | some h ↦
            let (ret, h') = p.drng_generate h todo in
            let s' = store ref (record d { handle = some h' }) s in
            elim ret [
              | none ↦ (none, s')
              | some [] ↦ (none, s')
              | some (b ∷ bs) ↦ (some (b ∷ bs), s')
            ]
      ]

  -- The bookkeeping after it.
  unfoldable pub account : DrngRef → ℕ → Sys X D H → Run (Sys X D H)
  account ref ret s =
      let d = deref ref s in
      let s' =
        store ref
          (record d {
            request_bits_since_fully_seeded =
                add_u32 d.request_bits_since_fully_seeded (mul_u32 ret 8);
          })
          s in
      elim ref [ drng_pr ↦ unset_fully_seeded p drng_pr s' | _ ↦ some s' ]

  unfoldable pub run_generate :
      Rest X D H
      → DrngRef
      → ℕ
      → List ℕ
      → Option (List ℕ) × Sys X D H
      → Run (Result (List ℕ) × Sys X D H)
  run_generate rest ref outbuflen out (none, s) = some (err efault, s)
  run_generate rest ref outbuflen out (some bytes, s) =
      account ref (length bytes) s >>= λ s'. rest (outbuflen - length bytes) (out ++ bytes) s'

  unfoldable pub run_plan :
      Rest X D H → DrngRef → ℕ → List ℕ → Plan × Sys X D H → Run (Result (List ℕ) × Sys X D H)
  unfolding run_generate
  run_plan rest ref outbuflen out (again, s) = rest outbuflen out s
  run_plan rest ref outbuflen out (stop, s) = some (ok out, s)
  run_plan rest ref outbuflen out (generate todo, s) =
      run_generate rest ref outbuflen out (generate_one ref todo s)

  -- The loop of `esdm_drng_get`, on fuel, with the bytes so far.
  unfoldable pub get_loop : ℕ → DrngRef → ℕ → List ℕ → Sys X D H → Run (Result (List ℕ) × Sys X D H)
  get_loop zero ref outbuflen out s = none
  get_loop (suc fuel) ref outbuflen out s = elim (outbuflen == 0) [
    | true ↦ some (ok out, s)
    | false ↦ plan ref (min_uint32 (outbuflen % u32_mod) drng_max_reqsize) s >>= λ r.
        run_plan (get_loop fuel ref) ref outbuflen out r
  ]

  -- `esdm_drng_get`. Each iteration that generates takes at least one byte off the request.
  unfoldable pub drng_get : DrngRef → ℕ → Sys X D H → Run (Result (List ℕ) × Sys X D H)
  drng_get ref outbuflen s =
      if outbuflen == 0
      then some (ok [], s)
      else if not (get_available s)
      then some (err eopnotsupp, s)
      else do
        s1 ← if check_disable_threshold (deref ref s) s then unset_fully_seeded p ref s else some s
        let len = min_uint32 outbuflen ssize_max
        get_loop (suc len) ref len [] s1

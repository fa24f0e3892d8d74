-- ===== src/DrngMgr.antt =====
-- The DRNG manager, esdm/esdm_drng_mgr.c: life cycle and seeding of the DRNGs. The per-DRNG locks
-- are held for the whole of each operation; ESDM_DRNG_ATOMIC is set by no build file, so the
-- atomic DRNG is the empty stub of esdm/esdm_drng_atomic.h.
pub mod Sound
pub mod Levels
pub mod Ready
pub mod Progress
pub mod Live
use esdm.Base.{
  ℕ, zero, suc, ◌+◌, Bool, true, false, not, ◌&&◌, ◌||◌, Option, none, some, List, [], ◌∷◌, Result,
  ok, err, Run, ◌>>=◌, leb, ◌==◌, if◌then◌else◌, add_u32, sub_u32, mul_u32,
}
use esdm.Config.{
  drng_reseed_thresh, security_strength_bytes, config_online_nodes, ntg1_2024_compliant,
}
use esdm.System.{
  Sys, Platform, Timespec, EntropyEs, EntropyBuf, DrngRef, drng_init, drng_pr, Drng, deref, store,
}
use esdm.AuxPool.{get_seed_entropy_osr}
use esdm.EsMgr.{
  bits_of, entropy_rate_eb, fully_seeded, fill_seed_buffer, init_ops, zero_buf, get_available,
  pool_trylock, pool_unlock, pool_all_nodes_seeded, es_reseed_wanted, unset_flags,
}

-- `esdm_drng_reset`; the second argument is what the monotonic clock says.
unfoldable pub drng_reset : {D : Type 0} → Drng D → Timespec → Drng D
drng_reset d now = record d {
  requests = 1;
  requests_since_fully_seeded = 0;
  request_bits_since_fully_seeded = 0;
  last_seeded = now;
  fully_seeded = false;
  force_reseed = false;
}

-- How many sources delivered entropy.
unfoldable pub count_delivered : List ℕ → ℕ
count_delivered [] = 0
count_delivered (x ∷ xs) = (if x == 0 then 0 else 1) + count_delivered xs

-- The levels summed up over the iterations, source by source.
unfoldable pub add_bits : List EntropyEs → List EntropyEs → List EntropyEs
add_bits [] ys = []
add_bits (x ∷ xs) [] = x ∷ xs
add_bits (x ∷ xs) (y ∷ ys) = record x { e_bits = add_u32 x.e_bits y.e_bits } ∷ add_bits xs ys

-- Iterations after which a run of a seeding loop counts as one that does not end.
abbrev pub seed_fuel : ℕ
seed_fuel = 65536

-- The local variables of `esdm_drng_seed_es_nolock`, with the system that it changes.
pub record Seeding (X D H : Type 0) : Type 0 where
  pub seedbuf : EntropyBuf
  pub collected_seedbuf : EntropyBuf
  pub collected_entropy : ℕ
  pub num_es_delivered : ℕ
  pub sys : Sys X D H

module _ {X D H : Type 0} where
  -- The loop of `for_each_online_node` in `__esdm_drng_seed_work`: the first DRNG that is not fully
  -- seeded, with its node.
  unfoldable pub first_unseeded : ℕ → ℕ → List (Option DrngRef) → Sys X D H → Option (DrngRef × ℕ)
  first_unseeded zero node insts s = none
  first_unseeded (suc n) node [] s = none
  first_unseeded (suc n) node (none ∷ rest) s = first_unseeded n (node + 1) rest s
  first_unseeded (suc n) node (some ref ∷ rest) s =
      let later = first_unseeded n (node + 1) rest s in
      if (deref ref s).fully_seeded then later else some (ref, node)

  -- The DRNG that `__esdm_drng_seed_work` picks, if any: the nodes' in order, then that for
  -- prediction resistance.
  unfoldable pub pick : Sys X D H → Option (DrngRef × ℕ)
  unfolding first_unseeded
  pick s =
      let last : Option (DrngRef × ℕ) =
        if s.pr_drng.fully_seeded then none else some (drng_pr, 0) in
      elim s.instances [
        | some insts ↦ elim (first_unseeded (config_online_nodes s.settings) 0 insts s) [
          | some found ↦ some found
          | none ↦ last
        ]
        | none ↦ if s.init_drng.fully_seeded then last else some (drng_init, 0)
      ]

module _ {X D H : Type 0} (p : Platform X D H) where
  unfoldable pub alloc_common : Drng D → Timespec → Result (Drng D)
  unfolding drng_reset
  alloc_common d now = elim d.handle [
    | some h ↦ ok d
    | none ↦ elim (p.drng_alloc security_strength_bytes) [
      | err e ↦ err e
      | ok h ↦ ok (drng_reset (record d { handle = some h }) now)
    ]
  ]

  -- `esdm_drng_inject`, on a DRNG that is allocated.
  unfoldable pub inject_handle : D → Drng D → List ℕ → Bool → Timespec → Drng D
  inject_handle h d inbuf fully now =
      let (accepted, h') = p.drng_seed h inbuf in
      let gc = sub_u32 drng_reseed_thresh d.requests in
      if accepted
      then record d {
        handle = some h';
        requests_since_fully_seeded = if fully then 0 else add_u32 d.requests_since_fully_seeded gc;
        request_bits_since_fully_seeded = if fully then 0 else d.request_bits_since_fully_seeded;
        last_seeded = now;
        requests = drng_reseed_thresh;
        force_reseed = false;
        fully_seeded = d.fully_seeded || fully;
      }
      else record d { handle = some h'; force_reseed = true }

  unfoldable pub inject : Drng D → List ℕ → Bool → Timespec → Drng D
  unfolding inject_handle
  inject d inbuf fully now = elim d.handle [ none ↦ d | some h ↦ inject_handle h d inbuf fully now ]

  -- One iteration of the loop of `esdm_drng_seed_es_nolock`.
  unfoldable pub seed_round : DrngRef → Bool → Bool → Seeding X D H → Seeding X D H
  seed_round ref forced ops st =
      let d = deref ref st.sys in
      let (buf, s1) =
        fill_seed_buffer p st.seedbuf (get_seed_entropy_osr d.fully_seeded st.sys)
          (forced && not d.fully_seeded) st.sys in
      let collected = add_u32 st.collected_entropy (entropy_rate_eb buf) in
      let sums : EntropyBuf = record (st.collected_seedbuf) {
        entropy_es = add_bits st.collected_seedbuf.entropy_es buf.entropy_es;
      } in
      let d1 = deref ref s1 in
      let fully = fully_seeded p d1.fully_seeded collected (some sums) s1 in
      let s2 = store ref (inject d1 (p.image buf) fully s1.clock) s1 in
      record {
        seedbuf = buf;
        collected_seedbuf = sums;
        collected_entropy = collected;
        num_es_delivered = count_delivered (bits_of buf.entropy_es);
        sys = if ops then init_ops p (some sums) s2 else s2;
      }

  -- The loop's condition after an iteration.
  unfoldable pub seed_again : DrngRef → Bool → Seeding X D H → Bool
  seed_again ref forced st =
      forced
      && (not (deref ref st.sys).fully_seeded
          && leb (if ntg1_2024_compliant st.sys.settings then 2 else 1) st.num_es_delivered)

  unfoldable pub seed_loop : ℕ → DrngRef → Bool → Bool → Seeding X D H → Run (Seeding X D H)
  seed_loop zero ref forced ops st = none
  seed_loop (suc fuel) ref forced ops st =
      let st' = seed_round ref forced ops st in
      elim (seed_again ref forced st') [
        | true ↦ seed_loop fuel ref forced ops st'
        | false ↦ some st'
      ]

  unfoldable pub seed_start : Sys X D H → Seeding X D H
  seed_start s = record {
    seedbuf = zero_buf p s;
    collected_seedbuf = zero_buf p s;
    collected_entropy = 0;
    num_es_delivered = 0;
    sys = s;
  }

  -- `esdm_drng_seed_es_nolock`: the collected entropy, and the system.
  unfoldable pub seed_es_nolock : DrngRef → Bool → Sys X D H → Run (ℕ × Sys X D H)
  unfolding seed_start
  seed_es_nolock ref ops s = do
    st ← seed_loop seed_fuel ref (deref ref s).force_reseed ops (seed_start s)
    some (st.collected_entropy, st.sys)

  -- `esdm_drng_seed`
  unfoldable pub drng_seed : DrngRef → Sys X D H → Run (Sys X D H)
  drng_seed ref s = do r ← seed_es_nolock ref true s; some (r.1)

  unfoldable pub seed_work_one : DrngRef → ℕ → Sys X D H → Run (Sys X D H)
  seed_work_one ref node s = do
    s' ← drng_seed ref s
    let d = deref ref s'
    some (
        if d.fully_seeded
        then store ref
            (record d {
              last_seeded = record (d.last_seeded) {
                tv_sec = d.last_seeded.tv_sec + mul_u32 node 60;
              };
            })
            s'
        else s')

  unfoldable pub seed_work_force : Bool → DrngRef → ℕ → Sys X D H → Run (Sys X D H)
  unfolding seed_work_one
  seed_work_force force ref node s =
      let d = deref ref s in
      seed_work_one ref node (store ref (record d { force_reseed = d.force_reseed || force }) s)

  -- `__esdm_drng_seed_work`
  unfoldable pub seed_work : Bool → Sys X D H → Run (Sys X D H)
  unfolding seed_work_force
  seed_work force s =
      if get_available s
      then elim (pick s) [
        | some (ref, node) ↦ seed_work_force force ref node s
        | none ↦ some (pool_all_nodes_seeded true s)
      ]
      else some (if s.init_wait_sleeper then init_ops p none s else s)

  -- `esdm_es_add_entropy` of esdm/esdm_es_mgr.c, with `esdm_drng_seed_work`.
  unfoldable pub es_add_entropy : Sys X D H → Run (Sys X D H)
  es_add_entropy s =
      if es_reseed_wanted p s
      then elim (pool_trylock s) [
        | none ↦ some s
        | some s1 ↦ do s2 ← seed_work false s1; some (pool_unlock s2)
      ]
      else some s

  unfoldable pub force_fully_seeded : Sys X D H → Run (Sys X D H)
  force_fully_seeded s =
      if s.state.all_online_nodes_seeded
      then some s
      else do s1 ← pool_trylock s; s2 ← seed_work true s1; some (pool_unlock s2)

  -- The loop of `esdm_force_fully_seeded_all_drbgs`.
  unfoldable pub seed_work_all : ℕ → Sys X D H → Run (Sys X D H)
  seed_work_all zero s = none
  seed_work_all (suc fuel) s = seed_work true s >>= λ s'. elim (es_reseed_wanted p s') [
    | true ↦ seed_work_all fuel s'
    | false ↦ some s'
  ]

  unfoldable pub force_fully_seeded_all_drbgs : Sys X D H → Run (Sys X D H)
  unfolding seed_work_all
  force_fully_seeded_all_drbgs s =
      if s.state.all_online_nodes_seeded
      then some s
      else do s1 ← pool_trylock s; s2 ← seed_work_all seed_fuel s1; some (pool_unlock s2)

  -- `esdm_unset_fully_seeded` of esdm/esdm_es_mgr.c.
  unfoldable pub unset_fully_seeded : DrngRef → Sys X D H → Run (Sys X D H)
  unset_fully_seeded ref s = force_fully_seeded (unset_flags ref s)

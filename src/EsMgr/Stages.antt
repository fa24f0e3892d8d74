-- ===== src/EsMgr/Stages.antt =====
-- The seeding stages of the ESDM in `struct esdm_state`, and the status page.
use esdm.Base.{Bool, true, false, ◌||◌, Option, none, some, ◌≡◌, ◌∙◌, ◌⊎◌, arith, leb}
use esdm.Config.{Settings, min_seed_entropy_bits}
use esdm.System.{Sys, Platform, EntropyBuf, EsState, Shm, DrngRef, drng_init, drng_pr, allocated}
use esdm.ShmStatus
use esdm.AuxPool.Frame.{page, SameCore}
use esdm.EsMgr.{
  sum_u32, levels, fully_seeded, init_ops, init_ops_full, init_ops_min, set_operational,
  set_entropy_thresh, unset_flags, pool_all_nodes_seeded,
}

-- The page shows the given flag, where a page is attached.
abbrev pub Shows : Option Bool → Bool → Type 0
Shows none b = Unit
Shows (some c) b = c ≡ b

-- "Operational" and "fully seeded" go together, and imply "minimally seeded".
pub record IsConsistent (st : EsState) : Type 0 where
  pub operational_full : st.operational ≡ st.fully_seeded
  pub full_min : (st.fully_seeded ≡ false) ⊎ (st.min_seeded ≡ true)

pub page-set_operational : (b : Bool) (m : Shm) → Shows (page (ShmStatus.set_operational b m)) b
unfolding ShmStatus.set_operational
page-set_operational b m = ground arith

-- What a sound system keeps: its settings, and, if it holds, that the ESDM is minimally seeded.
pub record Start : Type 0 where
  pub settings : Settings
  pub min_seeded : Bool

-- The page and the stage flags of a system agree, its settings are the given ones, and it is
-- minimally seeded where that is given.
pub record IsSound {X D H : Type 0} (c : Start) (s : Sys X D H) : Type 0 where
  pub set_to : s.settings ≡ c.settings
  pub floor : (c.min_seeded ≡ false) ⊎ (s.state.min_seeded ≡ true)
  pub flags : IsConsistent s.state
  pub shown : Shows (page s.shm) s.state.operational

module _ {X D H : Type 0} {c : Start} where
  pub SameCore-IsSound : {s t : Sys X D H} → SameCore s t → IsSound c s → IsSound c t
  SameCore-IsSound {s} {t} f v = record {
    set_to = f.settings ∙ v.set_to;
    floor = rw f.state v.floor;
    flags = rw f.state v.flags;
    shown = rw (f.shm_page, f.state) v.shown;
  }

  pub unset_flags-IsSound :
      (ref : DrngRef) (s : Sys X D H) → IsSound c s → IsSound c (unset_flags ref s)
  unfolding unset_flags pool_all_nodes_seeded
  unset_flags-IsSound drng_init s v = ground (arith, page-set_operational false s.shm)
  unset_flags-IsSound drng_pr s v = ground arith
  unset_flags-IsSound (allocated k) s v = ground arith

module _ {X D H : Type 0} (p : Platform X D H) {c : Start} where
  pub init_ops-IsSound :
      (eb : Option EntropyBuf) (s : Sys X D H) → IsSound c s → IsSound c (init_ops p eb s)
  unfolding init_ops init_ops_full init_ops_min set_operational set_entropy_thresh
  init_ops-IsSound eb s v = ground (arith, page-set_operational true s.shm)

module _ {X D H : Type 0} (p : Platform X D H) where
  -- What `esdm_init_ops` makes of the stages, on all its branches, where the ESDM is operational
  -- exactly if it is fully seeded, and then minimally seeded: it makes the ESDM operational
  -- exactly if it is so already or the entropy is that of a full seed, and minimally seeded
  -- exactly if it is so already, or is operational then, or at least 128 bits were collected; it
  -- touches neither the mark of fully seeded nodes nor the lock.
  pub init_ops_stages :
      (eb : Option EntropyBuf) (s : Sys X D H)
      → IsConsistent s.state
      → let seed_bits = sum_u32 0 (levels p eb s) in
        let full = fully_seeded p s.state.all_online_nodes_seeded seed_bits eb s in
        let t = init_ops p eb s in
        (t.state.operational ≡ s.state.operational || full)
        × (t.state.min_seeded
            ≡ s.state.min_seeded || (t.state.operational || leb min_seed_entropy_bits seed_bits))
        × (t.state.all_online_nodes_seeded ≡ s.state.all_online_nodes_seeded)
        × (t.state.reseed_in_progress ≡ s.state.reseed_in_progress)
  unfolding init_ops init_ops_full init_ops_min set_operational set_entropy_thresh
  init_ops_stages eb s v = ground arith

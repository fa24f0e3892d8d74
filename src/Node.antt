-- ===== src/Node.antt =====
-- The DRNGs of the nodes, esdm/esdm_node.c. A new DRNG is a cell at the end of the heap; the
-- compare-and-swap succeeds, since the caller holds the crypto callback lock.
pub mod Alloc
pub mod Free
use esdm.Base.{
  ℕ, zero, suc, false, Option, none, some, List, [], ◌∷◌, ◌++◌, Result, ok, err, Run, ◌>>=◌, length,
}
use esdm.Config.{config_online_nodes}
use esdm.System.{
  Sys, Platform, Timespec, DrngRef, drng_init, drng_pr, allocated, Drng, deref, store,
}
use esdm.Random.{online}
use esdm.EsMgr.{pool_all_nodes_seeded}
use esdm.DrngMgr.{alloc_common, es_add_entropy}
use esdm.Api.{mgr_initialize}

-- The cell that `calloc` returns.
abbrev pub fresh_drng : {D : Type 0} → Option D → Drng D
fresh_drng h = record {
  handle = h;
  requests = 0;
  requests_since_fully_seeded = 0;
  request_bits_since_fully_seeded = 0;
  last_seeded = record { tv_sec = 0; tv_nsec = 0 };
  fully_seeded = false;
  force_reseed = false;
}

module _ {X D H : Type 0} where
  -- `esdm_drngs_node_dealloc`: a freed cell keeps its place in the heap, without a DRNG.
  unfoldable pub node_dealloc : List DrngRef → Sys X D H → Sys X D H
  node_dealloc [] s = s
  node_dealloc (drng_init ∷ rest) s = node_dealloc rest s
  node_dealloc (drng_pr ∷ rest) s =
      node_dealloc rest (store drng_pr (record (s.pr_drng) { handle = none }) s)
  node_dealloc (allocated k ∷ rest) s =
      let d = deref (allocated k) s in
      node_dealloc rest (store (allocated k) (record d { handle = none }) s)

  unfoldable pub node_fini : Sys X D H → Sys X D H
  unfolding node_dealloc
  node_fini s = elim s.instances [
    | none ↦ s
    | some insts ↦
        node_dealloc (online (config_online_nodes s.settings) insts) (record s { instances = none })
  ]

module _ {X D H : Type 0} (p : Platform X D H) where
  -- The loop over the nodes after the first: so many more DRNGs behind those of the heap. None if an
  -- allocation fails.
  unfoldable pub alloc_nodes :
      ℕ → Timespec → List (Drng D) → Option (List (Option DrngRef) × List (Drng D))
  unfolding alloc_common
  alloc_nodes zero now heap = some ([], heap)
  alloc_nodes (suc n) now heap = elim (alloc_common p (fresh_drng none) now) [
    | err e ↦ none
    | ok d ↦
        alloc_nodes n now (heap ++ d ∷ []) >>= λ r. some (some (allocated (length heap)) ∷ r.0, r.1)
  ]

  -- The instances of `esdm_drngs_node_alloc`: the first node takes the initial DRNG.
  unfoldable pub alloc_instances :
      ℕ → Timespec → List (Drng D) → Option (List (Option DrngRef) × List (Drng D))
  unfolding alloc_nodes
  alloc_instances zero now heap = some ([], heap)
  alloc_instances (suc n) now heap =
      alloc_nodes n now heap >>= λ r. some (some drng_init ∷ r.0, r.1)

  -- The instances are published, or dropped if an allocation failed.
  unfoldable pub publish :
      Option (List (Option DrngRef) × List (Drng D)) → Sys X D H → Run (Sys X D H)
  publish none s = some s
  publish (some (insts, heap)) s =
      es_add_entropy p
        (pool_all_nodes_seeded false (record s { instances = some insts; heap = heap }))

  unfoldable pub alloc_initialized : Result (Unit {0}) × Sys X D H → Run (Sys X D H)
  unfolding alloc_instances publish
  alloc_initialized (err e, s) = some s
  alloc_initialized (ok u, s) =
      publish (alloc_instances (config_online_nodes s.settings) s.clock s.heap) s

  unfoldable pub drngs_node_alloc : Sys X D H → Run (Sys X D H)
  unfolding alloc_initialized
  drngs_node_alloc s = elim s.instances [
    | none ↦ alloc_initialized (mgr_initialize p s)
    | some insts ↦ some s
  ]

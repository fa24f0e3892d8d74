-- ===== src/Node/Alloc.antt =====
-- The DRNGs that `esdm_drngs_node_alloc` hands to the nodes.
use esdm.Base.{
  ℕ, zero, suc, false, Option, none, some, List, [], ◌∷◌, ◌++◌, ok, ◌≡◌, refl, sym, ap, ◌∙◌, inl,
  inr, Result-cases, arith, length, length-append, All, Ensures, blocks, returns, Ensures-bind,
}
use esdm.Config.{security_strength_bytes}
use esdm.System.{Platform, Timespec, DrngRef, drng_init, allocated, Drng}
use esdm.DrngMgr.{alloc_common, drng_reset}
use esdm.DrngMgr.Ready.{HasHandle}
use esdm.Node.{fresh_drng, alloc_nodes, alloc_instances}

-- The pointers to the cells from a first one on.
abbrev pub from : ℕ → ℕ → List (Option DrngRef)
from k zero = []
from k (suc n) = some (allocated k) ∷ from (suc k) n

-- An allocated DRNG that is not seeded yet and asks for a seeding at its first request.
abbrev pub Unseeded : {D : Type 0} → Drng D → Type 0
Unseeded d = HasHandle d × (d.fully_seeded ≡ false) × (d.requests ≡ 1)

-- The heap grown by so many unseeded DRNGs.
abbrev pub Grown : {D : Type 0} → ℕ → List (Drng D) → List (Drng D) → Type 0
Grown {D} n heap heap' =
    (more : List (Drng D)) × (heap' ≡ heap ++ more) × (length more ≡ n) × All Unseeded more

++-[] : {A : Type 0} (xs : List A) → xs ++ [] ≡ xs
++-[] [] = refl
++-[] (x ∷ xs) = ap (λ l. x ∷ l) (++-[] xs)

++-assoc : {A : Type 0} (xs ys zs : List A) → (xs ++ ys) ++ zs ≡ xs ++ (ys ++ zs)
++-assoc [] ys zs = refl
++-assoc (x ∷ xs) ys zs = ap (λ l. x ∷ l) (++-assoc xs ys zs)

module _ {X D H : Type 0} (p : Platform X D H) where
  alloc_common-Unseeded :
      (now : Timespec) {d : Drng D} → alloc_common p (fresh_drng none) now ≡ ok d → Unseeded d
  unfolding alloc_common drng_reset
  alloc_common-Unseeded now {d} e = elim (Result-cases (p.drng_alloc security_strength_bytes)) [
    | inl (x, f) ↦ cc
    | inr (h, f) ↦ ground (arith, e, f)
  ]

  alloc_nodes_lem :
      (n : ℕ) (now : Timespec) (heap : List (Drng D))
      → Ensures
          (λ (r : List (Option DrngRef) × List (Drng D)).
            (r.0 ≡ from (length heap) n) × Grown n heap r.1)
          (alloc_nodes p n now heap)
  unfolding alloc_nodes
  alloc_nodes_lem zero now heap = returns (refl, ([], sym (++-[] heap), refl, tt))
  alloc_nodes_lem (suc n) now heap = elim (Result-cases (alloc_common p (fresh_drng none) now)) [
    | inl (x, e) ↦ rw (e, alloc_nodes) blocks
    | inr (d, e) ↦
        rw (e, alloc_nodes)
          (Ensures-bind _ (alloc_nodes_lem n now (heap ++ d ∷ [])) λ r h.
            let (more, grown, count, good) = h.1 in
            returns (
              ap (λ l. some (allocated (length heap)) ∷ l)
                  (h.0 ∙ ap (λ k. from k n) (omega (arith, length-append heap (d ∷ [])))),
              (
                d ∷ more,
                grown ∙ ++-assoc heap (d ∷ []) more,
                ap suc count,
                (alloc_common-Unseeded now e, good),
              ),
            ))
  ]

  -- If no allocation fails, the first node gets the initial DRNG and every other node a DRNG of
  -- its own, in new cells behind those of the heap, which stay as they are; each new DRNG is
  -- allocated, is not fully seeded and asks for a seeding at its first request.
  pub alloc_instances_lem :
      (nodes : ℕ) (now : Timespec) (heap : List (Drng D))
      → Ensures
          (λ (r : List (Option DrngRef) × List (Drng D)).
            (r.0 ≡ some drng_init ∷ from (length heap) nodes) × Grown nodes heap r.1)
          (alloc_instances p (suc nodes) now heap)
  unfolding alloc_instances
  alloc_instances_lem nodes now heap =
      Ensures-bind _ (alloc_nodes_lem nodes now heap)
        λ r h. returns (ap (λ l. some drng_init ∷ l) h.0, h.1)

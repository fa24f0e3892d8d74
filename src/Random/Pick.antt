-- ===== src/Random/Pick.antt =====
-- Which DRNG the seeding work of `__esdm_drng_seed_work` takes.
use esdm.Base.{
  ℕ, zero, suc, ◌+◌, true, false, Option, none, some, List, [], ◌∷◌, ◌≡◌, All, if◌then◌else◌,
  if_cases,
}
use esdm.Config.{config_online_nodes}
use esdm.System.{Sys, DrngRef, drng_pr, deref}
use esdm.DrngMgr.{first_unseeded, pick}
use esdm.Random.{online}

-- A choice among DRNGs: one that is not fully seeded, or none where all are.
abbrev pub Chosen : {X D H : Type 0} → Sys X D H → List DrngRef → Option (DrngRef × ℕ) → Type 0
Chosen s refs none = All (λ r. (deref r s).fully_seeded ≡ true) refs
Chosen s refs (some found) = (deref (found.0) s).fully_seeded ≡ false

module _ {X D H : Type 0} where
  Chosen-cons :
      (ref : DrngRef) (refs : List DrngRef) (s : Sys X D H) (found : Option (DrngRef × ℕ))
      → (deref ref s).fully_seeded ≡ true
      → Chosen s refs found
      → Chosen s (ref ∷ refs) found
  Chosen-cons ref refs s none e h = (e, h)
  Chosen-cons ref refs s (some found) e h = h

  first_unseeded-Chosen :
      (nodes node : ℕ) (insts : List (Option DrngRef)) (s : Sys X D H)
      → Chosen s (online nodes insts) (first_unseeded nodes node insts s)
  unfolding online first_unseeded
  first_unseeded-Chosen zero node insts s = tt
  first_unseeded-Chosen (suc nodes) node [] s = tt
  first_unseeded-Chosen (suc nodes) node (none ∷ insts) s =
      first_unseeded-Chosen nodes (node + 1) insts s
  first_unseeded-Chosen (suc nodes) node (some ref ∷ insts) s =
      if_cases (Chosen s (ref ∷ online nodes insts)) (deref ref s).fully_seeded
        (λ e.
          Chosen-cons ref (online nodes insts) s _ e
            (first_unseeded-Chosen nodes (node + 1) insts s))
        (λ e. e)

  -- The one for prediction resistance comes after the others.
  then_pr :
      (refs : List DrngRef) (s : Sys X D H) (found : Option (DrngRef × ℕ))
      → Chosen s refs found
      → let last : Option (DrngRef × ℕ) =
          if s.pr_drng.fully_seeded then none else some (drng_pr, 0) in
        let all : Option (DrngRef × ℕ) = elim found [ some x ↦ some x | none ↦ last ] in
        Chosen s (drng_pr ∷ refs) all
  then_pr refs s none h =
      if_cases (Chosen s (drng_pr ∷ refs)) s.pr_drng.fully_seeded (λ e. (e, h)) (λ e. e)
  then_pr refs s (some found) h = h

-- The seeding work takes a DRNG that is not fully seeded, and takes none only where those of all
-- online nodes and the one for prediction resistance are fully seeded.
pub pick-Chosen :
    {X D H : Type 0} (insts : List (Option DrngRef)) (s : Sys X D H)
    → let t = record s { instances = some insts } in
      Chosen t (drng_pr ∷ online (config_online_nodes s.settings) insts) (pick t)
unfolding pick
pick-Chosen insts s =
    let t = record s { instances = some insts } in
    then_pr (online (config_online_nodes s.settings) insts) t _
      (first_unseeded-Chosen (config_online_nodes s.settings) 0 insts t)

-- ===== src/Node/Free.antt =====
-- What `esdm_node_fini` leaves behind.
use esdm.Base.{Bool, true, false, Option, none, some, List, [], ◌∷◌, ◌≡◌, refl, if◌then◌else◌}
use esdm.System.{Sys, DrngRef, drng_init, drng_pr, allocated}
use esdm.Config.{config_online_nodes}
use esdm.Random.{online}
use esdm.Node.{node_dealloc, node_fini}
use esdm.Api.{choose_drng, node_drng}

-- The loop leaves the initial DRNG and the table of the nodes alone.
node_dealloc-frame :
    {X D H : Type 0} (refs : List DrngRef) (s : Sys X D H)
    → ((node_dealloc refs s).init_drng ≡ s.init_drng)
      × ((node_dealloc refs s).instances ≡ s.instances)
unfolding node_dealloc
node_dealloc-frame [] s = (refl, refl)
node_dealloc-frame (drng_init ∷ refs) s = node_dealloc-frame refs s
node_dealloc-frame (drng_pr ∷ refs) s = node_dealloc-frame refs _
node_dealloc-frame (allocated k ∷ refs) s = node_dealloc-frame refs _

fini-frame :
    {X D H : Type 0} (insts : Option (List (Option DrngRef))) (s : Sys X D H)
    → let t = node_fini (record s { instances = insts }) in
      (t.init_drng ≡ s.init_drng) × (t.instances ≡ none)
unfolding node_fini
fini-frame none s = (refl, refl)
fini-frame (some insts) s =
    node_dealloc-frame (online (config_online_nodes s.settings) insts)
      (record s { instances = none })

none_drng :
    {X D H : Type 0} (insts : Option (List (Option DrngRef))) (s : Sys X D H)
    → insts ≡ none
    → choose_drng false (record s { instances = insts }) ≡ drng_init
unfolding choose_drng node_drng
none_drng none s e = refl
none_drng (some insts) s e = cc

-- After the nodes' DRNGs are gone, a request without prediction resistance takes the initial DRNG,
-- which is as it was before, and with it the one for prediction resistance, so that none uses a
-- freed cell.
pub node_fini_lem :
    {X D H : Type 0} (pr : Bool) (s : Sys X D H)
    → let t = node_fini s in
      (choose_drng pr t ≡ (if pr then drng_pr else drng_init)) × (t.init_drng ≡ s.init_drng)
unfolding choose_drng node_drng
node_fini_lem true s = (refl, (fini-frame s.instances s).0)
node_fini_lem false s = (
  none_drng (node_fini s).instances (node_fini s) (fini-frame s.instances s).1,
  (fini-frame s.instances s).0,
)

-- ===== src/Api/Reset.antt =====
-- What `esdm_reset` leaves of the ESDM.
use esdm.Base.{
  ℕ, true, false, Option, some, List, [], ◌∷◌, ◌≡◌, refl, sym, ap, ◌∙◌, arith, length, All,
  option_both,
}
use esdm.Config.{config_online_nodes}
use esdm.System.{
  Sys, Platform, Timespec, DrngRef, drng_init, drng_pr, allocated, Drng, deref, store,
}
use esdm.AuxPool.{aux_reset}
use esdm.AuxPool.Frame.{page, pool_set_entropy-SameCore}
use esdm.AuxPool.Accounting.{bits-pool_set_entropy}
use esdm.EsMgr.{reset_state, reset_sources, set_entropy_thresh}
use esdm.DrngMgr.{drng_reset}
use esdm.DrngMgr.Ready.{NodeRef, NodeRef-Valid, ValidNode, store-keeps, length-store, deref-store}
use esdm.Random.{online, reset_all, must_reseed}
use esdm.Random.Reseed.{online-NodeRef}
use esdm.Api.{reset_drngs, esdm_reset}

-- A DRNG that is not seeded and asks for a seeding at its next request.
abbrev Fresh : {D : Type 0} → Drng D → Type 0
Fresh d = (d.fully_seeded ≡ false) × (d.requests ≡ 1)

drng_reset-Fresh : {D : Type 0} (d : Drng D) (now : Timespec) → Fresh (drng_reset d now)
unfolding drng_reset
drng_reset-Fresh d now = (refl, refl)

module _ {X D H : Type 0} where
  reset_all-keeps :
      (refs : List DrngRef) (r : DrngRef) (s : Sys X D H)
      → Fresh (deref r s)
      → Fresh (deref r (reset_all refs s))
  unfolding reset_all
  reset_all-keeps [] r s h = h
  reset_all-keeps (q ∷ refs) r s h =
      reset_all-keeps refs r _ (store-keeps Fresh q r _ s (drng_reset-Fresh (deref q s) s.clock) h)

  reset_all-Fresh :
      {n : ℕ} (refs : List DrngRef) (s : Sys X D H)
      → n ≡ length s.heap
      → All (NodeRef n) refs
      → All (λ r. Fresh (deref r (reset_all refs s))) refs
  unfolding reset_all
  reset_all-Fresh [] s e v = tt
  reset_all-Fresh {n} (q ∷ refs) s e v =
      let d = drng_reset (deref q s) s.clock in
      let t = store q d s in
      (
        reset_all-keeps refs q t (
            rw (deref-store q d s (rw (sym e) (NodeRef-Valid n q v.0)))
              (drng_reset-Fresh (deref q s) s.clock)),
        reset_all-Fresh refs t (e ∙ sym (length-store q d s)) v.1,
      )

  store-shm : (q : DrngRef) (d : Drng D) (s : Sys X D H) → (store q d s).shm ≡ s.shm
  store-shm drng_init d s = refl
  store-shm drng_pr d s = refl
  store-shm (allocated k) d s = refl

  reset_all-shm : (refs : List DrngRef) (s : Sys X D H) → (reset_all refs s).shm ≡ s.shm
  unfolding reset_all
  reset_all-shm [] s = refl
  reset_all-shm (q ∷ refs) s = reset_all-shm refs _ ∙ store-shm q _ s

  reset_drngs-shm : (s : Sys X D H) → (reset_drngs s).shm ≡ s.shm
  unfolding reset_drngs
  reset_drngs-shm s =
      option_both (λ (t : Sys X D H). t.shm ≡ s.shm) s.instances refl
        λ l. reset_all-shm (online _ l) s

Fresh-must_reseed :
    {X D H : Type 0} (d : Drng D) (s : Sys X D H)
    → Fresh d
    → (d.fully_seeded ≡ false) × ((must_reseed d s).0 ≡ true)
unfolding must_reseed
Fresh-must_reseed d s h = ground (arith, h.0, h.1)

Fresh-All :
    {X D H : Type 0} (refs : List DrngRef) (s : Sys X D H)
    → All (λ r. Fresh (deref r s)) refs
    → All (λ r. ((deref r s).fully_seeded ≡ false) × ((must_reseed (deref r s) s).0 ≡ true)) refs
Fresh-All [] s h = tt
Fresh-All (r ∷ refs) s h = (Fresh-must_reseed (deref r s) s h.0, Fresh-All refs s h.1)

module _ {X D H : Type 0} (p : Platform X D H) where
  reset_state_lem :
      (s : Sys X D H)
      → let t = reset_state p s in
        (t.init_drng ≡ s.init_drng)
        × (t.pr_drng ≡ s.pr_drng)
        × (t.heap ≡ s.heap)
        × (t.pool.aux_entropy_bits ≡ 0)
        × (page t.shm ≡ page s.shm)
        × (t.state.operational ≡ false)
        × (t.state.fully_seeded ≡ false)
        × (t.state.min_seeded ≡ false)
        × (t.state.all_online_nodes_seeded ≡ false)
  unfolding reset_state aux_reset
  reset_state_lem s =
      let f = pool_set_entropy-SameCore 0 (record s { ext = reset_sources p p.sources s.ext }) in
      (
        f.init_drng,
        f.pr_drng,
        f.heap,
        bits-pool_set_entropy 0 (record s { ext = reset_sources p p.sources s.ext }),
        f.shm_page,
        refl,
        refl,
        refl,
        refl,
      )

  -- The state that is reset last.
  reset_last :
      (s : Sys X D H)
      → (u : Sys X D H) × (esdm_reset p s ≡ reset_state p u)
        × (u.init_drng ≡ (reset_drngs s).init_drng)
        × (u.heap ≡ (reset_drngs s).heap)
        × (u.shm ≡ (reset_drngs s).shm)
        × Fresh u.pr_drng
  unfolding esdm_reset set_entropy_thresh drng_reset
  reset_last s = (_, refl, refl, refl, refl, (refl, refl))

  -- A reset clears all seeding stages and the entropy of the auxiliary pool, and leaves the DRNG
  -- for prediction resistance unseeded. The flag of the status page that says whether the ESDM is
  -- operational stays as it was, so that the page may show an operational ESDM after the reset.
  pub esdm_reset_state :
      (s : Sys X D H)
      → let t = esdm_reset p s in
        (t.state.operational ≡ false)
        × (t.state.fully_seeded ≡ false)
        × (t.state.min_seeded ≡ false)
        × (t.state.all_online_nodes_seeded ≡ false)
        × (t.pool.aux_entropy_bits ≡ 0)
        × (t.pr_drng.fully_seeded ≡ false)
        × (page t.shm ≡ page s.shm)
  esdm_reset_state s =
      let (u, e, i, h, m, (pr, one)) = reset_last s in
      let (f_init, f_pr, f_heap, f_bits, f_page, operational, fully, min, all_nodes) =
        reset_state_lem u in
      rw e (
        operational,
        fully,
        min,
        all_nodes,
        f_bits,
        ap (λ (d : Drng D). d.fully_seeded) f_pr ∙ pr,
        f_page ∙ ap page (m ∙ reset_drngs-shm s),
      )

  reset_cells :
      (s : Sys X D H)
      → let t = esdm_reset p s in
        (t.init_drng ≡ (reset_drngs s).init_drng) × (t.heap ≡ (reset_drngs s).heap)
  reset_cells s =
      let (u, e, i, h, m, pr) = reset_last s in let f = reset_state_lem u in rw e (f.0 ∙ i, f.2 ∙ h)

  reset-deref :
      (ref : DrngRef) (n : ℕ) (s : Sys X D H)
      → NodeRef n ref
      → deref ref (esdm_reset p s) ≡ deref ref (reset_drngs s)
  reset-deref drng_init n s v = (reset_cells s).0
  reset-deref drng_pr n s v = absurd v
  reset-deref (allocated k) n s v = rw ((reset_cells s).0, (reset_cells s).1) refl

  reset_each :
      (n : ℕ) (refs : List DrngRef) (s : Sys X D H)
      → All (NodeRef n) refs
      → All (λ r. Fresh (deref r (reset_drngs s))) refs
      → All (λ r. Fresh (deref r (esdm_reset p s))) refs
  reset_each n [] s v h = tt
  reset_each n (r ∷ refs) s v h = (rw (reset-deref r n s v.0) h.0, reset_each n refs s v.1 h.1)

  -- After a reset the DRNG of each online node is not fully seeded and asks for a reseed at its
  -- next request, where the DRNGs of the nodes are in place.
  pub esdm_reset-Fresh :
      (insts : List (Option DrngRef)) (s : Sys X D H)
      → All (ValidNode (length s.heap)) insts
      → let t = esdm_reset p (record s { instances = some insts }) in
        All
          (λ r. ((deref r t).fully_seeded ≡ false) × ((must_reseed (deref r t) t).0 ≡ true))
          (online (config_online_nodes s.settings) insts)
  unfolding reset_drngs
  esdm_reset-Fresh insts s v =
      let u : Sys X D H = record s { instances = some insts } in
      let refs = online (config_online_nodes s.settings) insts in
      let v' = online-NodeRef (length s.heap) _ insts v in
      Fresh-All refs _ (reset_each (length s.heap) refs u v' (reset_all-Fresh refs u refl v'))

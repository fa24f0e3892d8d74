-- ===== src/Random/Reseed.antt =====
-- When `esdm_drng_get` asks for a reseed, and what seeding, a reset and `esdm_drng_force_reseed` mean
-- for that.
use esdm.Base.{
  ℕ, zero, suc, ◌+◌, ◌-◌, ◌≤◌, ◌<◌, Bool, true, false, not, ◌&&◌, ◌||◌, Option, none, some, List,
  [], ◌∷◌, ◌≡◌, refl, sym, ◌∙◌, ◌==◌, ltb, leb, arith, length, All, uint32_max, u32_mod,
}
use esdm.Config.{config_online_nodes}
use esdm.System.{Sys, Platform, Timespec, DrngRef, Drng, deref, store}
use esdm.DrngMgr.{drng_reset, inject, inject_handle}
use esdm.DrngMgr.Ready.{
  Accepts, HasHandle, some_only, store-keeps, length-store, deref-store, NodeRef, NodeRef-Valid,
  ValidNode,
}
use esdm.Random.{
  time_after_now, check_disable_threshold, force_one, force_all, online, drng_force_reseed,
  must_reseed,
}

module _ {X D H : Type 0} where
  -- Where the request counter lies between one and 2^32 - 1, a reseed is asked for exactly if the
  -- counter is at one, a reseed is forced, the bits generated since the last full seeding have
  -- reached their threshold, where it is not the largest one, or the whole seconds of the clock
  -- are past those of the last seeding plus the maximal time: fractions of a second do not count.
  -- The counter goes down by one in each case; the handle and the mark of a full seeding stay.
  pub must_reseed_lem :
      (d : Drng D) (s : Sys X D H)
      → 1 ≤ d.requests
      → d.requests < u32_mod
      → let thresh_bits = s.settings.build.reseed_thresh_bits in
        let (wanted, d') = must_reseed d s in
        (wanted
          ≡ (d.requests == 1)
            || (d.force_reseed
                || (not (thresh_bits == uint32_max)
                      && leb thresh_bits d.request_bits_since_fully_seeded
                    || ltb (d.last_seeded.tv_sec + s.reseed_max_time) s.clock.tv_sec)))
        × (d'.requests ≡ d.requests - 1)
        × (d'.handle ≡ d.handle)
        × (d'.fully_seeded ≡ d.fully_seeded)
  unfolding must_reseed time_after_now
  must_reseed_lem d s low high = ground arith

  -- A DRNG that was reset asks for a reseed at its next request.
  pub must_reseed-drng_reset :
      (d : Drng D) (now : Timespec) (s : Sys X D H)
      → ((must_reseed (drng_reset d now) s).0 ≡ true) × ((drng_reset d now).fully_seeded ≡ false)
  unfolding must_reseed drng_reset
  must_reseed-drng_reset d now s = ground arith

module _ {X D H : Type 0} (p : Platform X D H) where
  -- After a full seed that the backend accepts, an allocated DRNG is fully seeded and stays below
  -- the limits on use without a reseed, and its next request at the same time asks for no reseed,
  -- where the limits and the threshold on generated bits are at least one.
  pub inject_fresh :
      (d : Drng D) (inbuf : List ℕ) (s : Sys X D H)
      → Accepts p
      → HasHandle d
      → 1 ≤ s.settings.config.max_wo_reseed
      → 1 ≤ s.settings.config.max_wo_reseed_bits
      → 1 ≤ s.settings.build.reseed_thresh_bits
      → let d' = inject p d inbuf true s.clock in
        (d'.fully_seeded ≡ true)
        × (check_disable_threshold d' s ≡ false)
        × ((must_reseed d' s).0 ≡ false)
  unfolding inject inject_handle must_reseed time_after_now check_disable_threshold
  inject_fresh d inbuf s a h requests bits thresh =
      some_only
        (λ (e : Drng D).
          (e.fully_seeded ≡ true)
          × (check_disable_threshold e s ≡ false)
          × ((must_reseed e s).0 ≡ false))
        d.handle _ h λ x. ground (arith, a x inbuf)

  -- Where the backend rejects a seed, an allocated DRNG is seeded as before, with its request
  -- counter and its time of seeding unchanged, and asks for a reseed at its next request.
  pub inject_rejected :
      (d : Drng D) (inbuf : List ℕ) (fully : Bool) (s : Sys X D H)
      → ((h : D) → (p.drng_seed h inbuf).0 ≡ false)
      → HasHandle d
      → let d' = inject p d inbuf fully s.clock in
        (d'.fully_seeded ≡ d.fully_seeded)
        × (d'.requests ≡ d.requests)
        × (d'.last_seeded ≡ d.last_seeded)
        × ((must_reseed d' s).0 ≡ true)
  unfolding inject inject_handle must_reseed
  inject_rejected d inbuf fully s r h =
      some_only
        (λ (e : Drng D).
          (e.fully_seeded ≡ d.fully_seeded)
          × (e.requests ≡ d.requests)
          × (e.last_seeded ≡ d.last_seeded)
          × ((must_reseed e s).0 ≡ true))
        d.handle _ h λ x. ground (arith, r x)

-- A DRNG that is forced to reseed, where it is fully seeded.
abbrev Forced : {D : Type 0} → Drng D → Type 0
Forced d = d.force_reseed ≡ d.fully_seeded

module _ {X D H : Type 0} where
  force_all-keeps :
      (refs : List DrngRef) (r : DrngRef) (s : Sys X D H)
      → Forced (deref r s)
      → Forced (deref r (force_all refs s))
  unfolding force_all force_one
  force_all-keeps [] r s h = h
  force_all-keeps (q ∷ refs) r s h = force_all-keeps refs r _ (store-keeps Forced q r _ s refl h)

  force_all-length :
      (refs : List DrngRef) (s : Sys X D H) → length (force_all refs s).heap ≡ length s.heap
  unfolding force_all force_one
  force_all-length [] s = refl
  force_all-length (q ∷ refs) s = force_all-length refs _ ∙ length-store q _ s

  force_all-Forced :
      {n : ℕ} (refs : List DrngRef) (s : Sys X D H)
      → n ≡ length s.heap
      → All (NodeRef n) refs
      → All (λ r. Forced (deref r (force_all refs s))) refs
  unfolding force_all force_one
  force_all-Forced [] s e v = tt
  force_all-Forced {n} (q ∷ refs) s e v =
      let d = deref q s in
      let t = store q (record d { force_reseed = d.fully_seeded }) s in
      (
        force_all-keeps refs q t (
            rw
              (deref-store q (record d { force_reseed = d.fully_seeded }) s
                (rw (sym e) (NodeRef-Valid n q v.0)))
              refl),
        force_all-Forced refs t (e ∙ sym (length-store q _ s)) v.1,
      )

pub online-NodeRef :
    (n k : ℕ) (insts : List (Option DrngRef))
    → All (ValidNode n) insts
    → All (NodeRef n) (online k insts)
unfolding online
online-NodeRef n zero insts v = tt
online-NodeRef n (suc k) [] v = tt
online-NodeRef n (suc k) (none ∷ rest) v = online-NodeRef n k rest v.1
online-NodeRef n (suc k) (some ref ∷ rest) v = (v.0, online-NodeRef n k rest v.1)

Forced-must_reseed :
    {X D H : Type 0} (d : Drng D) (s : Sys X D H)
    → Forced d
    → (not d.fully_seeded || (must_reseed d s).0) ≡ true
unfolding must_reseed
Forced-must_reseed d s h = ground (arith, h)

Forced-All :
    {X D H : Type 0} (refs : List DrngRef) (s : Sys X D H)
    → All (λ r. Forced (deref r s)) refs
    → All (λ r. (not (deref r s).fully_seeded || (must_reseed (deref r s) s).0) ≡ true) refs
Forced-All [] s h = tt
Forced-All (r ∷ refs) s h = (Forced-must_reseed (deref r s) s h.0, Forced-All refs s h.1)

-- A forced reseed reaches the DRNG of each online node: every one that is fully seeded asks for a
-- reseed at its next request. This holds where the DRNGs of the nodes are in place and the
-- initial DRNG is below the limits on use without a reseed; at a limit the code forces the
-- initial DRNG alone.
pub drng_force_reseed_lem :
    {X D H : Type 0} (insts : List (Option DrngRef)) (s : Sys X D H)
    → All (ValidNode (length s.heap)) insts
    → check_disable_threshold s.init_drng s ≡ false
    → let t = drng_force_reseed (record s { instances = some insts }) in
      All
        (λ r. (not (deref r t).fully_seeded || (must_reseed (deref r t) t).0) ≡ true)
        (online (config_online_nodes s.settings) insts)
unfolding drng_force_reseed check_disable_threshold
drng_force_reseed_lem insts s v c =
    let refs = online (config_online_nodes s.settings) insts in
    let u : Sys _ _ _ = record s { instances = some insts } in
    rw c (
      Forced-All refs (force_all refs u)
        (force_all-Forced refs u refl (online-NodeRef _ _ insts v)))

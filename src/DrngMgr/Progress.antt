-- ===== src/DrngMgr/Progress.antt =====
-- The iterations of the seeding loop of `esdm_drng_seed_es_nolock` and the entropy they collect.
use esdm.Base.{
  ℕ, zero, suc, ◌+◌, ◌≤◌, ◌<◌, Bool, true, false, not, ◌&&◌, Option, some, List, ◌≡◌, ap, sym, ◌∙◌,
  inl, inr, Bool-cases, if_both, arith, if◌then◌else◌, length, All-replicate, length-replicate,
  Yields, yields, Yields-bind, Yields-map,
}
use mathlib.Core.Bool.{false≢true}
use esdm.Config.{ntg1_2024_compliant}
use esdm.System.{Sys, Platform, EntropyBuf, EntropyEs, DrngRef, Drng, deref, store}
use esdm.AuxPool.{get_seed_entropy_osr}
use esdm.EsMgr.{init_ops, fill_seed_buffer, zero_buf, fully_seeded}
use esdm.EsMgr.Collect.{fill_seed_buffer-SameCore}
use esdm.DrngMgr.{
  Seeding, seed_round, seed_again, seed_loop, seed_start, seed_es_nolock, seed_fuel, inject,
}
use esdm.DrngMgr.Levels.{
  BoundedSources, Small, entropy_rate_eb_bounds, fill_seed_buffer-Small, get_seed_entropy_osr-le,
}
use esdm.DrngMgr.Ready.{
  Ready, Valid, Accepts, SameCore-Ready, SameDrngs, SameDrngs-refl, init_ops-Ready, SameDrngs-deref,
  init_ops-SameDrngs, deref-HasHandle, store-Ready, deref-store, length-store, inject-HasHandle,
  inject_fully,
}

-- A seed buffer with few entries, each with a small level.
abbrev pub SmallBuf : EntropyBuf → Type 0
SmallBuf eb = Small eb.entropy_es × (length eb.entropy_es ≤ 8)

module _ {X D H : Type 0} (p : Platform X D H) where
  seed_start-SmallBuf : (s : Sys X D H) → BoundedSources p → SmallBuf (zero_buf p s)
  unfolding zero_buf
  seed_start-SmallBuf s b = (
    (
      omega arith,
      All-replicate (λ (es : EntropyEs). es.e_bits ≤ 1024) (length p.sources) (omega arith),
    ),
    omega (arith, b.few, length-replicate {A = EntropyEs} (length p.sources) _),
  )

  -- The DRNG, and the entropy, after an iteration that makes another one necessary.
  again_lacks :
      (ref : DrngRef) (forced : Bool) (st : Seeding X D H)
      → ntg1_2024_compliant st.sys.settings ≡ false
      → seed_again p ref forced st ≡ true
      → ((deref ref st.sys).fully_seeded ≡ false) × (1 ≤ st.num_es_delivered)
  unfolding seed_again
  again_lacks ref forced st o h = ground arith

  not_fully_lacks :
      (fully : Bool) (collected : ℕ) (eb : Option EntropyBuf) (s : Sys X D H)
      → ntg1_2024_compliant s.settings ≡ false
      → fully_seeded p fully collected eb s ≡ false
      → collected < 384
  unfolding fully_seeded
  not_fully_lacks fully collected eb s o h = ground (arith, get_seed_entropy_osr-le fully s)

  ops-SameDrngs :
      (ops : Bool) (eb : Option EntropyBuf) (s : Sys X D H)
      → SameDrngs s (if ops then init_ops p eb s else s)
  ops-SameDrngs true eb s = init_ops-SameDrngs p eb s
  ops-SameDrngs false eb s = SameDrngs-refl s

  filled-Ready :
      {l : Bool} (ref : DrngRef) (buf : List ℕ) (fully : Bool) (s : Sys X D H)
      → Ready l s
      → Ready l (store ref (inject p (deref ref s) buf fully s.clock) s)
  filled-Ready ref buf fully s v =
      store-Ready ref _ s (inject-HasHandle p _ buf fully s.clock (deref-HasHandle ref s v)) v

  -- The seed lands in the DRNG.
  injected-Ready :
      {l : Bool} (ref : DrngRef) (buf : List ℕ) (fully ops : Bool) (eb : Option EntropyBuf)
      (s : Sys X D H)
      → Ready l s
      → let s2 = store ref (inject p (deref ref s) buf fully s.clock) s in
        Ready l (if ops then init_ops p eb s2 else s2)
  injected-Ready ref buf fully ops eb s v =
      if_both (Ready _) ops (init_ops-Ready p eb _ (filled-Ready ref buf fully s v))
        (filled-Ready ref buf fully s v)

  injected-deref :
      (ref : DrngRef) (d : Drng D) (ops : Bool) (eb : Option EntropyBuf) (s : Sys X D H)
      → Valid ref (length s.heap)
      → let s2 = store ref d s in deref ref (if ops then init_ops p eb s2 else s2) ≡ d
  injected-deref ref d ops eb s h =
      SameDrngs-deref ref (ops-SameDrngs ops eb _) ∙ deref-store ref d s h

  injected-length :
      (ref : DrngRef) (d : Drng D) (ops : Bool) (eb : Option EntropyBuf) (s : Sys X D H)
      → let s2 = store ref d s in length (if ops then init_ops p eb s2 else s2).heap ≡ length s.heap
  injected-length ref d ops eb s = ap length (ops-SameDrngs ops eb _).heap ∙ length-store ref d s

  seed_round-Ready :
      {l : Bool} (ref : DrngRef) (forced ops : Bool) (st : Seeding X D H)
      → Ready l st.sys
      → Ready l (seed_round p ref forced ops st).sys
  unfolding seed_round
  seed_round-Ready ref forced ops st v =
      injected-Ready ref _ _ ops _ _
        (SameCore-Ready (fill_seed_buffer-SameCore p st.seedbuf _ _ st.sys) v)

  seed_round-length :
      (ref : DrngRef) (forced ops : Bool) (st : Seeding X D H)
      → length (seed_round p ref forced ops st).sys.heap ≡ length st.sys.heap
  unfolding seed_round
  seed_round-length ref forced ops st =
      injected-length ref _ ops _ _
      ∙ ap length (fill_seed_buffer-SameCore p st.seedbuf _ _ st.sys).heap

  seed_round-SmallBuf :
      (ref : DrngRef) (forced ops : Bool) (st : Seeding X D H)
      → BoundedSources p
      → SmallBuf st.seedbuf
      → SmallBuf (seed_round p ref forced ops st).seedbuf
  unfolding seed_round
  seed_round-SmallBuf ref forced ops st b h =
      let x = fill_seed_buffer-Small p b st.seedbuf _ _ st.sys h.0 in (x.0, omega (arith, x.1, h.1))

  -- The entropy of an iteration.
  seed_round_collects :
      (ref : DrngRef) (forced ops : Bool) (st : Seeding X D H)
      → BoundedSources p
      → SmallBuf st.seedbuf
      → st.collected_entropy < 384
      → let st' = seed_round p ref forced ops st in
        st.collected_entropy + st'.num_es_delivered ≤ st'.collected_entropy
  unfolding seed_round
  seed_round_collects ref forced ops st b h low =
      let d = deref ref st.sys in
      let bits = get_seed_entropy_osr d.fully_seeded st.sys in
      let force = forced && not d.fully_seeded in
      let x = fill_seed_buffer-Small p b st.seedbuf bits force st.sys h.0 in
      let eb = (fill_seed_buffer p st.seedbuf bits force st.sys).0 in
      omega (arith, entropy_rate_eb_bounds eb x.0 (omega (arith, x.1, h.1)))

  injected_lacks :
      {l : Bool} (ref : DrngRef) (buf : List ℕ) (fully : Bool) (collected : ℕ) (ops : Bool)
      (eb : EntropyBuf) (s : Sys X D H)
      → Accepts p
      → Ready l s
      → Valid ref (length s.heap)
      → let s2 =
          store ref
            (inject p (deref ref s) buf (fully_seeded p fully collected (some eb) s) s.clock)
            s in
        (deref ref (if ops then init_ops p (some eb) s2 else s2)).fully_seeded ≡ false
        → collected < 384
  injected_lacks ref buf fully collected ops eb s a v h unfilled =
      elim (Bool-cases (fully_seeded p fully collected (some eb) s)) [
        | inl e ↦
            let seeded = inject_fully p (deref ref s) buf s.clock a (deref-HasHandle ref s v) in
            let d =
              inject p (deref ref s) buf (fully_seeded p fully collected (some eb) s) s.clock in
            let filled : d.fully_seeded ≡ true = rw e seeded in
            let same = injected-deref ref d ops (some eb) s h in
            absurd (false≢true (sym unfilled ∙ ap (λ (x : Drng D). x.fully_seeded) same ∙ filled))
        | inr e ↦ not_fully_lacks fully collected (some eb) s v.old_strategy e
      ]

  seed_round_lacks :
      {l : Bool} (ref : DrngRef) (forced ops : Bool) (st : Seeding X D H)
      → Accepts p
      → Ready l st.sys
      → Valid ref (length st.sys.heap)
      → let st' = seed_round p ref forced ops st in
        (deref ref st'.sys).fully_seeded ≡ false → st'.collected_entropy < 384
  unfolding seed_round
  seed_round_lacks ref forced ops st a v h unfilled =
      let same = fill_seed_buffer-SameCore p st.seedbuf _ _ st.sys in
      injected_lacks ref _ _ _ ops _ _ a (SameCore-Ready same v) (rw same.heap h) unfilled

  -- With fuel for the missing entropy the loop ends.
  seed_loop-Yields :
      {l : Bool} (fuel : ℕ) (ref : DrngRef) (forced ops : Bool) (st : Seeding X D H)
      → Accepts p
      → BoundedSources p
      → Ready l st.sys
      → Valid ref (length st.sys.heap)
      → SmallBuf st.seedbuf
      → st.collected_entropy < 384
      → 384 ≤ fuel + st.collected_entropy
      → Yields
          (λ (r : Seeding X D H). Ready l r.sys × (length r.sys.heap ≡ length st.sys.heap))
          (seed_loop p fuel ref forced ops st)
  unfolding seed_loop
  seed_loop-Yields zero ref forced ops st a b v h small low enough = absurd (omega arith)
  seed_loop-Yields {l} (suc fuel) ref forced ops st a b v h small low enough =
      let st' = seed_round p ref forced ops st in
      let v' = seed_round-Ready ref forced ops st v in
      let same = seed_round-length ref forced ops st in
      elim (Bool-cases (seed_again p ref forced st')) [
        | inr e ↦ rw (e, seed_loop) (yields (v', same))
        | inl e ↦
            let x = again_lacks ref forced st' v'.old_strategy e in
            let low' = seed_round_lacks ref forced ops st a v h x.0 in
            let more = seed_round_collects ref forced ops st b small low in
            let rest =
              seed_loop-Yields fuel ref forced ops st' a b v' (rw same h)
                (seed_round-SmallBuf ref forced ops st b small) low'
                (omega (arith, x.1, more, enough)) in
            rw (e, seed_loop) (Yields-map rest λ r w. (w.0, w.1 ∙ same))
      ]

  -- The seeding of a DRNG returns, whatever the entropy sources deliver: where all DRNGs are
  -- allocated, the pointer is in place, the backend accepts every seed, each of at most seven sources
  -- reports at most 1024 bits per call, and the NTG.1 seeding strategy is off. It leaves all DRNGs
  -- allocated, the heap as large as before and the pool's lock as it was.
  pub seed_es_nolock-Yields :
      {l : Bool} (ref : DrngRef) (ops : Bool) (s : Sys X D H)
      → Accepts p
      → BoundedSources p
      → Ready l s
      → Valid ref (length s.heap)
      → Yields
          (λ (r : ℕ × Sys X D H). Ready l r.1 × (length r.1.heap ≡ length s.heap))
          (seed_es_nolock p ref ops s)
  unfolding seed_es_nolock
  seed_es_nolock-Yields ref ops s a b v h =
      Yields-bind _
        (seed_loop-Yields seed_fuel ref _ ops (seed_start p s) a b v h (seed_start-SmallBuf s b)
          (omega arith) (omega arith))
        λ st w. yields w

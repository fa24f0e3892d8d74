-- ===== src/DrngMgr/Live.antt =====
-- Whether the seeding operations of esdm/esdm_drng_mgr.c return, and what state they leave.
use esdm.Base.{
  ℕ, zero, suc, ◌+◌, Bool, true, false, Option, none, some, List, [], ◌∷◌, ◌≡◌, refl, sym, ap, ◌∙◌,
  inl, inr, Run, ◌>>=◌, Option-cases, arith, if◌then◌else◌, length, All, Yields, yields,
  Yields-bind, Yields-if, if_both, Ensures, blocks, returns, Ensures-if, Ensures-some, Yields-value,
}
use mathlib.Core.Bool.{false≢true}
use esdm.Config.{config_online_nodes}
use esdm.System.{Sys, Platform, DrngRef, drng_init, drng_pr, allocated, Drng, deref, store}
use esdm.EsMgr.{
  pool_trylock, pool_unlock, pool_all_nodes_seeded, get_available, unset_flags, es_reseed_wanted,
}
use esdm.DrngMgr.{
  drng_seed, first_unseeded, pick, seed_work_one, seed_work_force, seed_work, es_add_entropy,
  force_fully_seeded, unset_fully_seeded,
}
use esdm.DrngMgr.Levels.{BoundedSources}
use esdm.DrngMgr.Ready.{
  Ready, HasHandle, Valid, ValidNode, NodeRef-Valid, ValidNodes, Accepts, SameDrngs-Ready,
  init_ops-Ready, init_ops-SameDrngs, deref-HasHandle, store-Ready, length-store,
}
use esdm.DrngMgr.Progress.{seed_es_nolock-Yields}

-- A ready system with a heap of so many DRNGs.
abbrev pub Keeps : {X D H : Type 0} → Bool → ℕ → Sys X D H → Type 0
Keeps l n s = Ready l s × (length s.heap ≡ n)

last-Valid :
    {n : ℕ} (seeded : Bool) (ref : DrngRef) {m : Option (DrngRef × ℕ)}
    → Valid ref n
    → Ensures (λ (r : DrngRef × ℕ). Valid r.0 n) m
    → Ensures (λ (r : DrngRef × ℕ). Valid r.0 n) (if seeded then m else some (ref, 0))
last-Valid seeded ref v h = Ensures-if seeded (λ e. h) (λ e. returns v)

found-Valid :
    {n : ℕ} {m later : Option (DrngRef × ℕ)}
    → Ensures (λ (r : DrngRef × ℕ). Valid r.0 n) m
    → Ensures (λ (r : DrngRef × ℕ). Valid r.0 n) later
    → Ensures (λ (r : DrngRef × ℕ). Valid r.0 n) (elim m [ some r ↦ some r | none ↦ later ])
found-Valid blocks h = h
found-Valid (returns v) h = returns v

module _ {X D H : Type 0} where
  pub store-Keeps :
      {l : Bool} {n : ℕ} (ref : DrngRef) (d : Drng D) (s : Sys X D H)
      → HasHandle d
      → Keeps l n s
      → Keeps l n (store ref d s)
  store-Keeps ref d s h k = (store-Ready ref d s h k.0, length-store ref d s ∙ k.1)

  -- A new value of a DRNG that keeps its handle.
  pub update-Keeps :
      {l : Bool} {n : ℕ} (ref : DrngRef) (d : Drng D) (s : Sys X D H)
      → d.handle ≡ (deref ref s).handle
      → Keeps l n s
      → Keeps l n (store ref d s)
  update-Keeps ref d s h k = store-Keeps ref d s (rw h (deref-HasHandle ref s k.0)) k

  pub unlock-Keeps : {n : ℕ} (s : Sys X D H) → Keeps true n s → Keeps false n (pool_unlock s)
  unfolding pool_unlock
  unlock-Keeps s k = (SameDrngs-Ready (ground arith) refl k.0, k.1)

  -- The lock is free, so it is taken.
  pub trylock-Yields :
      {n : ℕ} (s : Sys X D H) → Keeps false n s → Yields (Keeps true n) (pool_trylock s)
  unfolding pool_trylock
  trylock-Yields s k =
      Yields-if s.state.reseed_in_progress (λ e. absurd (false≢true (sym k.0.lock ∙ e)))
        (λ e. yields (SameDrngs-Ready (ground arith) refl k.0, k.1))

  nodes_seeded-Keeps :
      {l : Bool} {n : ℕ} (b : Bool) (s : Sys X D H)
      → Keeps l n s
      → Keeps l n (pool_all_nodes_seeded b s)
  unfolding pool_all_nodes_seeded
  nodes_seeded-Keeps b s k = (SameDrngs-Ready (ground arith) k.0.lock k.0, k.1)

  first_unseeded-Valid :
      {n : ℕ} (nodes node : ℕ) (insts : List (Option DrngRef)) (s : Sys X D H)
      → All (ValidNode n) insts
      → Ensures (λ (r : DrngRef × ℕ). Valid r.0 n) (first_unseeded nodes node insts s)
  unfolding first_unseeded
  first_unseeded-Valid zero node insts s v = blocks
  first_unseeded-Valid (suc nodes) node [] s v = blocks
  first_unseeded-Valid (suc nodes) node (none ∷ insts) s v =
      first_unseeded-Valid nodes (node + 1) insts s v.1
  first_unseeded-Valid (suc nodes) node (some ref ∷ insts) s v =
      Ensures-if (deref ref s).fully_seeded (λ e. first_unseeded-Valid nodes (node + 1) insts s v.1)
        (λ e. returns (NodeRef-Valid _ ref v.0))

  pick_nodes-Valid :
      {n : ℕ} (insts : Option (List (Option DrngRef))) (s : Sys X D H)
      → ValidNodes n insts
      → Ensures (λ (r : DrngRef × ℕ). Valid r.0 n) (pick (record s { instances = insts }))
  unfolding pick
  pick_nodes-Valid none s v =
      last-Valid s.init_drng.fully_seeded drng_init tt
        (last-Valid s.pr_drng.fully_seeded drng_pr tt blocks)
  pick_nodes-Valid (some insts) s v =
      found-Valid (first_unseeded-Valid (config_online_nodes s.settings) 0 insts _ v)
        (last-Valid s.pr_drng.fully_seeded drng_pr tt blocks)

  pick-Valid :
      {n : ℕ} (s : Sys X D H)
      → ValidNodes n s.instances
      → Ensures (λ (r : DrngRef × ℕ). Valid r.0 n) (pick s)
  pick-Valid s v = pick_nodes-Valid s.instances s v

  unset_drng-Keeps :
      {l : Bool} {n : ℕ} (ref : DrngRef) (s : Sys X D H)
      → Keeps l n s
      → Keeps l n (store ref (record (deref ref s) { fully_seeded = false }) s)
  unset_drng-Keeps ref s k = update-Keeps ref _ s refl k

  unset_flags-Keeps :
      {l : Bool} {n : ℕ} (ref : DrngRef) (s : Sys X D H)
      → Keeps l n s
      → Keeps l n (unset_flags ref s)
  unfolding unset_flags
  unset_flags-Keeps drng_init s k =
      let k' = nodes_seeded-Keeps false _ (unset_drng-Keeps drng_init s k) in
      if_both (Keeps _ _) _ (SameDrngs-Ready (ground arith) k'.0.lock k'.0, k'.1) k'
  unset_flags-Keeps drng_pr s k = nodes_seeded-Keeps false _ (unset_drng-Keeps drng_pr s k)
  unset_flags-Keeps (allocated i) s k =
      nodes_seeded-Keeps false _ (unset_drng-Keeps (allocated i) s k)

module _ {X D H : Type 0} (p : Platform X D H) (a : Accepts p) (b : BoundedSources p) where
  pub drng_seed-Yields :
      {l : Bool} {n : ℕ} (ref : DrngRef) (s : Sys X D H)
      → Valid ref n
      → Keeps l n s
      → Yields (Keeps l n) (drng_seed p ref s)
  unfolding drng_seed
  drng_seed-Yields ref s h k =
      Yields-bind _ (seed_es_nolock-Yields p ref true s a b k.0 (rw k.1 h))
        λ r w. yields (w.0, w.1 ∙ k.1)

  seed_work_one-Yields :
      {l : Bool} {n : ℕ} (ref : DrngRef) (node : ℕ) (s : Sys X D H)
      → Valid ref n
      → Keeps l n s
      → Yields (Keeps l n) (seed_work_one p ref node s)
  unfolding seed_work_one
  seed_work_one-Yields ref node s h k =
      Yields-bind _ (drng_seed-Yields ref s h k) λ t w.
        yields (if_both (Keeps _ _) (deref ref t).fully_seeded (update-Keeps ref _ t refl w) w)

  seed_work_force-Yields :
      {l : Bool} {n : ℕ} (force : Bool) (ref : DrngRef) (node : ℕ) (s : Sys X D H)
      → Valid ref n
      → Keeps l n s
      → Yields (Keeps l n) (seed_work_force p force ref node s)
  unfolding seed_work_force
  seed_work_force-Yields force ref node s h k =
      seed_work_one-Yields ref node _ h (update-Keeps ref _ s refl k)

  seed_work-Yields :
      {l : Bool} {n : ℕ} (force : Bool) (s : Sys X D H)
      → Keeps l n s
      → Yields (Keeps l n) (seed_work p force s)
  unfolding seed_work
  seed_work-Yields force s k =
      Yields-if (get_available s)
        (λ _. elim (Option-cases (pick s)) [
          | inl e ↦ rw (e, seed_work) (yields (nodes_seeded-Keeps true s k))
          | inr ((ref, node), e) ↦
              rw (e, seed_work)
                (seed_work_force-Yields force ref node s
                  (Ensures-some (pick-Valid s (rw (sym k.1) k.0.nodes)) e) k)
        ])
        (λ _. yields (
          if_both (Keeps _ _) s.init_wait_sleeper
            (init_ops-Ready p none s k.0, ap length (init_ops-SameDrngs p none s).heap ∙ k.1) k))

  locked-Yields :
      {n : ℕ} (f : Sys X D H → Run (Sys X D H)) (s : Sys X D H)
      → ((t : Sys X D H) → Keeps true n t → Yields (Keeps true n) (f t))
      → Keeps false n s
      → Yields (Keeps false n) (pool_trylock s >>= λ t. f t >>= λ u. some (pool_unlock u))
  locked-Yields f s keep k =
      Yields-bind _ (trylock-Yields s k)
        λ t w. Yields-bind _ (keep t w) λ u x. yields (unlock-Keeps u x)

  pub force_fully_seeded-Yields :
      {n : ℕ} (s : Sys X D H) → Keeps false n s → Yields (Keeps false n) (force_fully_seeded p s)
  unfolding force_fully_seeded
  force_fully_seeded-Yields s k =
      Yields-if s.state.all_online_nodes_seeded (λ _. yields k)
        (λ _. locked-Yields (seed_work p true) s (seed_work-Yields true) k)

  pub unset_fully_seeded-Yields :
      {n : ℕ} (ref : DrngRef) (s : Sys X D H)
      → Keeps false n s
      → Yields (Keeps false n) (unset_fully_seeded p ref s)
  unfolding unset_fully_seeded
  unset_fully_seeded-Yields ref s k = force_fully_seeded-Yields _ (unset_flags-Keeps ref s k)

  -- The work under the lock, or the other way out where another call holds it.
  pub trylocked-Yields :
      {n : ℕ} {A : Type 0} {P : A → Type 0} {s : Sys X D H} {f : Sys X D H → Run A} (m : Run A)
      → ((t : Sys X D H) → Keeps true n t → Yields P (f t))
      → Keeps false n s
      → Yields P (elim (pool_trylock s) [ none ↦ m | some t ↦ f t ])
  trylocked-Yields {s} m keep k =
      let (t, e, w) = Yields-value (trylock-Yields s k) in rw e (keep t w)

  pub es_add_entropy-Yields :
      {n : ℕ} (s : Sys X D H) → Keeps false n s → Yields (Keeps false n) (es_add_entropy p s)
  unfolding es_add_entropy
  es_add_entropy-Yields s k =
      Yields-if (es_reseed_wanted p s)
        (λ _.
          trylocked-Yields (some s)
            (λ t w. Yields-bind _ (seed_work-Yields false t w) λ u x. yields (unlock-Keeps u x)) k)
        (λ _. yields k)

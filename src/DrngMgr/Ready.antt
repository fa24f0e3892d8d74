-- ===== src/DrngMgr/Ready.antt =====
-- A system whose DRNGs are all allocated, with the state of the pool's lock: what the seeding of
-- esdm/esdm_drng_mgr.c needs to run to its end.
use esdm.Base.{
  ℕ, ◌<◌, Bool, true, false, Option, none, some, List, ◌≡◌, refl, ◌∙◌, arith, length, All, All-set,
  get_or-set_both, get_or-default, All-get_or, get_or-set_self, length-set,
}
use esdm.Config.{ntg1_2024_compliant}
use esdm.System.{
  Sys, Platform, EntropyBuf, Timespec, DrngRef, drng_init, drng_pr, allocated, Drng, deref, store,
}
use esdm.AuxPool.Frame.{SameCore}
use esdm.EsMgr.{init_ops, init_ops_full, init_ops_min, set_operational, set_entropy_thresh}
use esdm.DrngMgr.{inject, inject_handle}

abbrev has : {A : Type 0} → Option A → Bool
has none = false
has (some a) = true

abbrev pub HasHandle : {D : Type 0} → Drng D → Type 0
HasHandle d = has d.handle ≡ true

-- A choice on an option that holds something.
pub some_only {ℓ} :
    {A B : Type 0} (P : B → Type ℓ) (o : Option A) (b : B) {f : A → B}
    → has o ≡ true
    → ((a : A) → P (f a))
    → P (elim o [ none ↦ b | some a ↦ f a ])
some_only P none b h k = cc
some_only P (some a) b h k = k a

-- A pointer into a heap of so many cells.
abbrev pub Valid : DrngRef → ℕ → Type 0
Valid drng_init n = Unit
Valid drng_pr n = Unit
Valid (allocated k) n = k < n

-- A pointer that a node may have: not that for prediction resistance.
abbrev pub NodeRef : ℕ → DrngRef → Type 0
NodeRef n drng_init = Unit
NodeRef n drng_pr = ⊥
NodeRef n (allocated k) = k < n

pub NodeRef-Valid : (n : ℕ) (ref : DrngRef) → NodeRef n ref → Valid ref n
NodeRef-Valid n drng_init h = tt
NodeRef-Valid n drng_pr h = absurd h
NodeRef-Valid n (allocated k) h = h

abbrev pub ValidNode : ℕ → Option DrngRef → Type 0
ValidNode n none = Unit
ValidNode n (some ref) = NodeRef n ref

abbrev pub ValidNodes : ℕ → Option (List (Option DrngRef)) → Type 0
ValidNodes n none = Unit
ValidNodes n (some insts) = All (ValidNode n) insts

-- The DRNG manager is available, with the lock held or free.
pub record Ready {X D H : Type 0} (locked : Bool) (s : Sys X D H) : Type 0 where
  pub old_strategy : ntg1_2024_compliant s.settings ≡ false
  pub avail : s.avail ≡ 2
  pub lock : s.state.reseed_in_progress ≡ locked
  pub init : HasHandle s.init_drng
  pub pr : HasHandle s.pr_drng
  pub heap : All HasHandle s.heap
  pub nodes : ValidNodes (length s.heap) s.instances

module _ {X D H : Type 0} where
  pub SameCore-Ready : {l : Bool} {s t : Sys X D H} → SameCore s t → Ready l s → Ready l t
  SameCore-Ready {s} {t} f v = record {
    old_strategy = rw f.settings v.old_strategy;
    avail = f.avail ∙ v.avail;
    lock = rw f.state v.lock;
    init = rw f.init_drng v.init;
    pr = rw f.pr_drng v.pr;
    heap = rw f.heap v.heap;
    nodes = rw (f.heap, f.instances) v.nodes;
  }

  pub deref-HasHandle :
      {l : Bool} (ref : DrngRef) (s : Sys X D H) → Ready l s → HasHandle (deref ref s)
  deref-HasHandle drng_init s v = v.init
  deref-HasHandle drng_pr s v = v.pr
  deref-HasHandle (allocated k) s v = All-get_or HasHandle s.heap k v.init v.heap

  pub store-Ready :
      {l : Bool} (ref : DrngRef) (d : Drng D) (s : Sys X D H)
      → HasHandle d
      → Ready l s
      → Ready l (store ref d s)
  store-Ready drng_init d s h v = record {
    old_strategy = v.old_strategy;
    avail = v.avail;
    lock = v.lock;
    init = h;
    pr = v.pr;
    heap = v.heap;
    nodes = v.nodes;
  }
  store-Ready drng_pr d s h v = record {
    old_strategy = v.old_strategy;
    avail = v.avail;
    lock = v.lock;
    init = v.init;
    pr = h;
    heap = v.heap;
    nodes = v.nodes;
  }
  store-Ready (allocated k) d s h v = record {
    old_strategy = v.old_strategy;
    avail = v.avail;
    lock = v.lock;
    init = v.init;
    pr = v.pr;
    heap = All-set HasHandle s.heap k h v.heap;
    nodes = rw length-set v.nodes;
  }

  pub deref-store :
      (ref : DrngRef) (d : Drng D) (s : Sys X D H)
      → Valid ref (length s.heap)
      → deref ref (store ref d s) ≡ d
  deref-store drng_init d s h = refl
  deref-store drng_pr d s h = refl
  deref-store (allocated k) d s h = get_or-set_self s.heap k d s.init_drng h

  -- What holds of a new value, and of an old one behind another pointer, holds after the write.
  pub store-keeps :
      (P : Drng D → Type 0) (q r : DrngRef) (d : Drng D) (s : Sys X D H)
      → P d
      → P (deref r s)
      → P (deref r (store q d s))
  store-keeps P drng_init drng_init d s h k = h
  store-keeps P drng_init drng_pr d s h k = k
  store-keeps P drng_init (allocated j) d s h k = get_or-default P s.heap j _ h k
  store-keeps P drng_pr drng_init d s h k = k
  store-keeps P drng_pr drng_pr d s h k = h
  store-keeps P drng_pr (allocated j) d s h k = k
  store-keeps P (allocated i) drng_init d s h k = k
  store-keeps P (allocated i) drng_pr d s h k = k
  store-keeps P (allocated i) (allocated j) d s h k = get_or-set_both P s.heap i j _ h k

  pub length-store :
      (ref : DrngRef) (d : Drng D) (s : Sys X D H) → length (store ref d s).heap ≡ length s.heap
  length-store drng_init d s = refl
  length-store drng_pr d s = refl
  length-store (allocated k) d s = length-set s.heap k d

-- What `esdm_init_ops` and the lock leave alone.
pub record SameDrngs {X D H : Type 0} (s t : Sys X D H) : Type 0 where
  pub settings : t.settings ≡ s.settings
  pub avail : t.avail ≡ s.avail
  pub init_drng : t.init_drng ≡ s.init_drng
  pub pr_drng : t.pr_drng ≡ s.pr_drng
  pub heap : t.heap ≡ s.heap
  pub instances : t.instances ≡ s.instances

module _ {X D H : Type 0} where
  pub SameDrngs-refl : (s : Sys X D H) → SameDrngs s s
  SameDrngs-refl s = ground arith

  pub SameDrngs-Ready :
      {l m : Bool} {s t : Sys X D H}
      → SameDrngs s t
      → t.state.reseed_in_progress ≡ m
      → Ready l s
      → Ready m t
  SameDrngs-Ready {s} {t} f e v = record {
    old_strategy = rw f.settings v.old_strategy;
    avail = f.avail ∙ v.avail;
    lock = e;
    init = rw f.init_drng v.init;
    pr = rw f.pr_drng v.pr;
    heap = rw f.heap v.heap;
    nodes = rw (f.heap, f.instances) v.nodes;
  }

  pub SameDrngs-deref :
      (ref : DrngRef) {s t : Sys X D H} → SameDrngs s t → deref ref t ≡ deref ref s
  SameDrngs-deref drng_init f = f.init_drng
  SameDrngs-deref drng_pr f = f.pr_drng
  SameDrngs-deref (allocated k) f = rw (f.heap, f.init_drng) refl

module _ {X D H : Type 0} (p : Platform X D H) where
  pub init_ops-SameDrngs : (eb : Option EntropyBuf) (s : Sys X D H) → SameDrngs s (init_ops p eb s)
  unfolding init_ops init_ops_full init_ops_min set_operational set_entropy_thresh
  init_ops-SameDrngs eb s = ground arith

  init_ops-lock :
      (eb : Option EntropyBuf) (s : Sys X D H)
      → (init_ops p eb s).state.reseed_in_progress ≡ s.state.reseed_in_progress
  unfolding init_ops init_ops_full init_ops_min set_operational set_entropy_thresh
  init_ops-lock eb s = ground arith

  pub init_ops-Ready :
      {l : Bool} (eb : Option EntropyBuf) (s : Sys X D H) → Ready l s → Ready l (init_ops p eb s)
  init_ops-Ready eb s v = SameDrngs-Ready (init_ops-SameDrngs eb s) (init_ops-lock eb s ∙ v.lock) v

  pub inject-HasHandle :
      (d : Drng D) (buf : List ℕ) (fully : Bool) (now : Timespec)
      → HasHandle d
      → HasHandle (inject p d buf fully now)
  unfolding inject inject_handle
  inject-HasHandle d buf fully now h = some_only HasHandle d.handle _ h λ x. ground arith

  -- A backend that accepts every seed.
  abbrev pub Accepts : Type 0
  Accepts = (h : D) (seed : List ℕ) → (p.drng_seed h seed).0 ≡ true

  pub inject_fully :
      (d : Drng D) (buf : List ℕ) (now : Timespec)
      → Accepts
      → HasHandle d
      → (inject p d buf true now).fully_seeded ≡ true
  unfolding inject inject_handle
  inject_fully d buf now a h =
      some_only (λ (e : Drng D). e.fully_seeded ≡ true) d.handle _ h λ x. ground (arith, a x buf)

-- ===== src/Api/Live.antt =====
-- Whether the calls of esdm/esdm_drng_mgr.c return.
use esdm.Base.{
  ℕ, zero, suc, ◌%◌, Bool, true, false, Option, none, some, List, [], ◌∷◌, Result, ok, err, ◌≡◌,
  refl, sym, Run, arith, length, get_elem?, All, if◌then◌else◌, Yields, yields, Yields-bind,
  Yields-if, Yields-map, Yields-and, u32_mod, if_both,
}
use esdm.Config.{config_curr_node}
use esdm.System.{Sys, Platform, DrngRef, drng_init, drng_pr, allocated, deref, EsState}
use esdm.DrngMgr.{force_fully_seeded}
use esdm.DrngMgr.Levels.{BoundedSources}
use esdm.DrngMgr.Ready.{Ready, Valid, NodeRef, NodeRef-Valid, ValidNode, ValidNodes, Accepts}
use esdm.DrngMgr.Live.{Keeps, force_fully_seeded-Yields}
use esdm.Random.Live.{Keeps2, drng_get-Yields}
use esdm.Random.Length.{WithinRequest, Delivered, drng_get-Delivered}
use esdm.Api.{
  node_drng, choose_drng, sleep_while, mgr_initialize, drng_get_sleep, sleep_while_nonoperational,
  sleep_while_non_min_seeded, after_wait, get_random_bytes_pr_noblock,
  get_random_bytes_full_noblock, get_random_bytes_min_noblock, get_random_bytes,
}

elem-ValidNode :
    (n : ℕ) (insts : List (Option DrngRef)) (i : ℕ)
    → All (ValidNode n) insts
    → ValidNode n (elim (get_elem? insts i) [ none ↦ none | some r ↦ r ])
elem-ValidNode n [] i v = tt
elem-ValidNode n (x ∷ xs) zero v = v.0
elem-ValidNode n (x ∷ xs) (suc i) v = elem-ValidNode n xs i v.1

-- An error, or as many bytes.
abbrev pub Exactly : ℕ → Result (List ℕ) → Type 0
Exactly total (err e) = Unit
Exactly total (ok out) = length out ≡ total

-- A ready system, with a result of as many bytes.
abbrev pub Serves : {X D H : Type 0} → ℕ → ℕ → Result (List ℕ) × Sys X D H → Type 0
Serves n total r = Keeps false n r.1 × Exactly total r.0

Exactly-Delivered :
    (n : ℕ) (ref : DrngRef) (total : ℕ) (ret : Result (List ℕ))
    → NodeRef n ref
    → Delivered ref total ret
    → Exactly total ret
Exactly-Delivered n ref total (err e) h d = tt
Exactly-Delivered n drng_init total (ok out) h d = d
Exactly-Delivered n drng_pr total (ok out) h d = absurd h
Exactly-Delivered n (allocated k) total (ok out) h d = d

module _ {X D H : Type 0} where
  node_drng-ValidNode :
      (n : ℕ) (insts : Option (List (Option DrngRef))) (s : Sys X D H)
      → ValidNodes n insts
      → ValidNode n (node_drng (record s { instances = insts }))
  unfolding node_drng
  node_drng-ValidNode n none s v = tt
  node_drng-ValidNode n (some insts) s v = elem-ValidNode n insts (config_curr_node s.settings) v

  or_init-NodeRef :
      (n : ℕ) (found : Option DrngRef) (s : Sys X D H)
      → ValidNode n found
      → NodeRef n (elim found [
        | none ↦ drng_init
        | some ref ↦ if (deref ref s).fully_seeded then ref else drng_init
      ])
  or_init-NodeRef n none s v = tt
  or_init-NodeRef n (some ref) s v = if_both (NodeRef n) (deref ref s).fully_seeded v tt

  pub choose_drng-NodeRef :
      (n : ℕ) (s : Sys X D H) → ValidNodes n s.instances → NodeRef n (choose_drng false s)
  unfolding choose_drng
  choose_drng-NodeRef n s v =
      or_init-NodeRef n (node_drng s) s (node_drng-ValidNode n s.instances s v)

  choose_drng-Valid :
      (n : ℕ) (pr : Bool) (s : Sys X D H) → ValidNodes n s.instances → Valid (choose_drng pr s) n
  unfolding choose_drng
  choose_drng-Valid n true s v = tt
  choose_drng-Valid n false s v = NodeRef-Valid n _ (choose_drng-NodeRef n s v)

module _ {X D H : Type 0} (p : Platform X D H) (a : Accepts p) (b : BoundedSources p) where
  pub initialized :
      {l : Bool} (s : Sys X D H)
      → Ready l s
      → ((mgr_initialize p s).0 ≡ ok tt) × ((mgr_initialize p s).1 ≡ s)
  unfolding mgr_initialize
  initialized s v = ground (arith, v.avail)

  pub drng_get_sleep-Yields :
      {n : ℕ} (len : ℕ) (pr : Bool) (s : Sys X D H)
      → Keeps false n s
      → Yields (Keeps2 n) (drng_get_sleep p len pr s)
  unfolding drng_get_sleep
  drng_get_sleep-Yields len pr s k =
      rw ((initialized s k.0).0, (initialized s k.0).1, drng_get_sleep)
        (drng_get-Yields p a b (choose_drng pr s) len s
          (choose_drng-Valid _ pr s (rw (sym k.1) k.0.nodes)) k)

  sleep_while-Yields :
      {n : ℕ} (reached : EsState → Bool) (s : Sys X D H)
      → Keeps false n s
      → Yields (Keeps2 n) (sleep_while reached (force_fully_seeded p) true s)
  unfolding sleep_while
  sleep_while-Yields reached s k =
      Yields-bind _ (force_fully_seeded-Yields p a b s k)
        λ t w. Yields-if (reached t.state) (λ _. yields w) (λ _. yields w)

  after_result-Yields :
      {n : ℕ} (len : ℕ) (pr : Bool) (ret : Result (Unit {0})) (s : Sys X D H)
      → Keeps false n s
      → Yields
          (Keeps2 n)
          (elim ret [ err e ↦ some (err e, s) | ok u ↦ drng_get_sleep p (len % u32_mod) pr s ])
  after_result-Yields len pr (err e) s k = yields k
  after_result-Yields len pr (ok u) s k = drng_get_sleep-Yields _ pr s k

  after_wait-Yields :
      {n : ℕ} (len : ℕ) (pr : Bool) (m : Run (Result (Unit {0}) × Sys X D H))
      → Yields (Keeps2 n) m
      → Yields (Keeps2 n) (after_wait p len pr m)
  unfolding after_wait
  after_wait-Yields len pr m h = Yields-bind _ h λ r w. after_result-Yields len pr (r.0) (r.1) w

  -- A request on a ready system: all the bytes.
  drng_get_sleep-Serves :
      (n len : ℕ) (s : Sys X D H)
      → WithinRequest p
      → Keeps false n s
      → Yields (Serves n (len % u32_mod)) (drng_get_sleep p (len % u32_mod) false s)
  unfolding drng_get_sleep
  drng_get_sleep-Serves n len s w k =
      let h = choose_drng-NodeRef n s (rw (sym k.1) k.0.nodes) in
      let ref = choose_drng false s in
      rw ((initialized s k.0).0, (initialized s k.0).1, drng_get_sleep)
        (Yields-map
          (Yields-and (drng_get-Yields p a b ref _ s (NodeRef-Valid n ref h) k)
            (drng_get-Delivered p w ref _ s (omega arith)))
          λ r x. (x.0, Exactly-Delivered n ref _ (r.0) h x.1))

  -- Where the DRNGs are allocated and the lock is free, the NTG.1 seeding strategy is off, the backend
  -- accepts every seed and never generates more than it is asked for, and each of at most seven sources
  -- reports at most 1024 bits per call, a request for random bytes returns, whatever the entropy
  -- sources deliver: with an error or with exactly the bytes asked for (their number modulo 2^32),
  -- with the DRNGs allocated and the lock free again.
  pub get_random_bytes-Serves :
      (nbytes : ℕ) (s : Sys X D H)
      → WithinRequest p
      → Ready false s
      → Yields (Serves (length s.heap) (nbytes % u32_mod)) (get_random_bytes p nbytes s)
  unfolding get_random_bytes
  get_random_bytes-Serves nbytes s w v = drng_get_sleep-Serves _ nbytes s w (v, refl)

  pub noblock_calls :
      {n : ℕ} (nbytes : ℕ) (s : Sys X D H)
      → Keeps false n s
      → Yields (Keeps2 n) (get_random_bytes p nbytes s)
        × Yields (Keeps2 n) (get_random_bytes_full_noblock p nbytes s)
        × Yields (Keeps2 n) (get_random_bytes_min_noblock p nbytes s)
        × Yields (Keeps2 n) (get_random_bytes_pr_noblock p nbytes s)
  unfolding get_random_bytes get_random_bytes_full_noblock get_random_bytes_min_noblock
      get_random_bytes_pr_noblock sleep_while_nonoperational sleep_while_non_min_seeded
  noblock_calls nbytes s k = (
    drng_get_sleep-Yields _ false s k,
    after_wait-Yields nbytes false _ (sleep_while-Yields _ s k),
    after_wait-Yields nbytes false _ (sleep_while-Yields _ s k),
    after_wait-Yields nbytes true _ (sleep_while-Yields _ s k),
  )

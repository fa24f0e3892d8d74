-- ===== src/EsMgr.antt =====
-- The entropy source manager, esdm/esdm_es_mgr.c: the entropy levels, the seeding stages of the
-- ESDM, and the collection of a seed buffer.
-- The auxiliary pool is the last entropy source; a wake-up of a wait queue changes no state here.
pub mod Stages
pub mod Collect
use esdm.Base.{
  ℕ, suc, ◌+◌, Bool, true, false, not, ◌&&◌, Option, none, some, List, [], ◌∷◌, ◌++◌, map, ltb, leb,
  ◌==◌, if◌then◌else◌, add_u32, replicate, length,
}
use esdm.Config.{
  sp80090c_compliant, ntg1_2024_compliant, seed_buffer_init_add_bits, nptrng_min_entropy,
  min_seed_entropy_bits, init_entropy_bits, init_seed_size_bytes,
}
use esdm.System.{
  Sys, Platform, Source, EntropyEs, EntropyBuf, DrngRef, drng_init, deref, store, with_state,
}
use esdm.AuxPool.{
  security_strength, get_seed_entropy_osr, aux_avail_entropy, notify_need_entropy, aux_reset,
  aux_get_backtrack,
}
use esdm.ShmStatus

-- `x += …` over the entropy sources, in a `uint32_t`.
unfoldable pub sum_u32 : ℕ → List ℕ → ℕ
sum_u32 acc [] = acc
sum_u32 acc (x ∷ xs) = sum_u32 (add_u32 acc x) xs

-- How many sources hold at least the minimum entropy of AIS 20/31.
unfoldable pub count_full : List ℕ → ℕ
count_full [] = 0
count_full (x ∷ xs) = (if leb nptrng_min_entropy x then 1 else 0) + count_full xs

abbrev pub bits_of : List EntropyEs → List ℕ
bits_of = map (λ es. es.e_bits)

unfoldable pub entropy_rate_eb : EntropyBuf → ℕ
unfolding sum_u32
entropy_rate_eb eb = sum_u32 0 (bits_of eb.entropy_es)

module _ {X D H : Type 0} where
  unfoldable pub get_available : Sys X D H → Bool
  get_available s = s.avail == 2

  -- `esdm_pool_trylock` and `esdm_pool_lock`: the lock is taken, or is held by someone else.
  unfoldable pub pool_trylock : Sys X D H → Option (Sys X D H)
  pool_trylock s =
      if s.state.reseed_in_progress
      then none
      else some (with_state (record (s.state) { reseed_in_progress = true }) s)

  unfoldable pub pool_unlock : Sys X D H → Sys X D H
  pool_unlock s = with_state (record (s.state) { reseed_in_progress = false }) s

  unfoldable pub set_entropy_thresh : ℕ → Sys X D H → Sys X D H
  set_entropy_thresh bits s = with_state (record (s.state) { boot_entropy_thresh = bits }) s

  unfoldable pub pool_all_nodes_seeded : Bool → Sys X D H → Sys X D H
  pool_all_nodes_seeded b s = with_state (record (s.state) { all_online_nodes_seeded = b }) s

  unfoldable pub avail_entropy_thresh : Sys X D H → ℕ
  avail_entropy_thresh s =
      if sp80090c_compliant s.settings && not s.state.all_online_nodes_seeded
      then add_u32 (security_strength s) (seed_buffer_init_add_bits s.settings.build)
      else security_strength s

  unfoldable pub init_entropy_level : Bool → Sys X D H → ℕ
  init_entropy_level fully_seeded s =
      if ntg1_2024_compliant s.settings then 480 else get_seed_entropy_osr fully_seeded s

  -- `esdm_set_operational`
  unfoldable pub set_operational : Sys X D H → Sys X D H
  set_operational s =
      if s.state.fully_seeded
      then record s {
        state = record (s.state) { operational = true };
        shm = ShmStatus.set_operational true s.shm;
      }
      else s

  -- What `esdm_unset_fully_seeded` does before it asks for a new seeding.
  unfoldable pub unset_flags : DrngRef → Sys X D H → Sys X D H
  unset_flags ref s =
      let s' =
        pool_all_nodes_seeded false (store ref (record (deref ref s) { fully_seeded = false }) s) in
      elim ref [
        | drng_init ↦
            if s'.state.operational
            then record s' {
              state = record (s'.state) { operational = false; fully_seeded = false };
              shm = ShmStatus.set_operational false s'.shm;
            }
            else s'
        | _ ↦ s'
      ]

module _ {X D H : Type 0} (p : Platform X D H) where
  -- What each entropy source reports at a threshold, in the order of `esdm_es`.
  unfoldable pub curr_entropies : ℕ → Sys X D H → List ℕ
  curr_entropies thresh s =
      map (λ src. src.curr_entropy s.settings s.ext thresh) p.sources ++ aux_avail_entropy s ∷ []

  unfoldable pub avail_entropy : Sys X D H → ℕ
  unfolding curr_entropies avail_entropy_thresh
  avail_entropy s = sum_u32 0 (curr_entropies (avail_entropy_thresh s) s)

  -- The levels that `esdm_fully_seeded` and `esdm_init_ops` read: those of the buffer, or, with no
  -- buffer, those of the sources.
  unfoldable pub levels : Option EntropyBuf → Sys X D H → List ℕ
  levels (some eb) s = bits_of eb.entropy_es
  levels none s = curr_entropies (avail_entropy_thresh s) s

  unfoldable pub fully_seeded : Bool → ℕ → Option EntropyBuf → Sys X D H → Bool
  unfolding levels
  fully_seeded fully collected_entropy eb s =
      if ntg1_2024_compliant s.settings
      then leb 2 (count_full (levels eb s))
      else leb (get_seed_entropy_osr fully s) collected_entropy

  -- The stages below "fully seeded" of `esdm_init_ops`.
  unfoldable pub init_ops_min : ℕ → ℕ → Sys X D H → Sys X D H
  init_ops_min seed_bits requested_bits s =
      if s.state.min_seeded
      then s
      else if leb min_seed_entropy_bits seed_bits
      then set_entropy_thresh requested_bits (with_state (record (s.state) { min_seeded = true }) s)
      else if leb init_entropy_bits seed_bits
      then set_entropy_thresh min_seed_entropy_bits s
      else s

  -- The stage "fully seeded" of `esdm_init_ops`.
  unfoldable pub init_ops_full : ℕ → Sys X D H → Sys X D H
  init_ops_full requested_bits s =
      let s1 = set_operational (with_state (record (s.state) { fully_seeded = true }) s) in
      set_entropy_thresh requested_bits (with_state (record (s1.state) { min_seeded = true }) s1)

  unfoldable pub init_ops : Option EntropyBuf → Sys X D H → Sys X D H
  unfolding levels sum_u32
  init_ops eb s =
      let requested_bits = init_entropy_level s.state.all_online_nodes_seeded s in
      let seed_bits = sum_u32 0 (levels eb s) in
      if s.state.operational
      then s
      else if s.state.fully_seeded
      then set_entropy_thresh requested_bits (set_operational s)
      else if fully_seeded s.state.all_online_nodes_seeded seed_bits eb s
      then init_ops_full requested_bits s
      else init_ops_min seed_bits requested_bits s

  unfoldable pub es_reseed_wanted : Sys X D H → Bool
  unfolding avail_entropy
  es_reseed_wanted s =
      get_available s
      && (not s.state.all_online_nodes_seeded
          && not (ltb (avail_entropy s) s.state.boot_entropy_thresh))

  unfoldable pub reset_sources : List (Source X) → X → X
  reset_sources [] x = x
  reset_sources (src ∷ rest) x = reset_sources rest (src.reset x)

  unfoldable pub reset_state : Sys X D H → Sys X D H
  unfolding reset_sources
  reset_state s =
      let s' = aux_reset (record s { ext = reset_sources p.sources s.ext }) in
      with_state
        (record (s'.state) {
          operational = false;
          fully_seeded = false;
          min_seeded = false;
          all_online_nodes_seeded = false;
        })
        s'

  -- The buffer as `memset` leaves it, with an entry for each source.
  unfoldable pub zero_buf : Sys X D H → EntropyBuf
  zero_buf s = record {
    entropy_es =
        replicate (suc (length p.sources))
          (record { e = replicate (init_seed_size_bytes s.settings.build) 0; e_bits = 0 });
    now = 0;
  }

  -- The calls of `get_ent` over the table, the auxiliary pool last.
  unfoldable pub get_ents :
      List (Source X) → List EntropyEs → ℕ → Sys X D H → List EntropyEs × Sys X D H
  get_ents srcs [] bits s = ([], s)
  get_ents [] (es ∷ rest) bits s = let (es', s') = aux_get_backtrack p es bits s in (es' ∷ rest, s')
  get_ents (src ∷ srcs) (es ∷ rest) bits s =
      let (es', x') = src.get_ent s.settings s.ext es bits s.state.fully_seeded in
      let (rest', s') = get_ents srcs rest bits (record s { ext = x' }) in (es' ∷ rest', s')

  -- The entropy below which an unforced reseed of a seeded ESDM takes nothing.
  unfoldable pub reseed_minimum : Sys X D H → ℕ
  reseed_minimum s =
      if sp80090c_compliant s.settings then security_strength s else min_seed_entropy_bits

  unfoldable pub clear_bits : List EntropyEs → List EntropyEs
  clear_bits = map {A = EntropyEs} {B = EntropyEs} (λ es. record { e = es.e; e_bits = 0 })

  unfoldable pub fill_seed_buffer : EntropyBuf → ℕ → Bool → Sys X D H → EntropyBuf × Sys X D H
  unfolding avail_entropy get_ents reseed_minimum clear_bits
  fill_seed_buffer eb requested_bits force s =
      if not force && (s.state.fully_seeded && ltb (avail_entropy s) (reseed_minimum s))
      then (
        record { entropy_es = clear_bits eb.entropy_es; now = s.wall_time },
        notify_need_entropy s,
      )
      else (let (es, s') = get_ents p.sources eb.entropy_es requested_bits s in
          (record { entropy_es = es; now = s.wall_time }, notify_need_entropy s'))

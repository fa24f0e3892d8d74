-- ===== src/System.antt =====
-- The state that the managers share: the DRNG handles of esdm/esdm_drng_mgr.h, the seed buffer and
-- the entropy source callbacks of esdm/esdm_es_mgr_cb.h, `struct esdm_state` of esdm/esdm_es_mgr.c,
-- `struct esdm_pool` of esdm/esdm_es_aux.c and the status page of esdm/esdm_shm_status.c.
-- `X` is the state of the entropy sources outside the auxiliary pool, `D` that of one DRNG of the
-- cryptographic backend, `H` that of its hash.
use esdm.Base.{ℕ, Bool, Option, List, Result, get_or, set}
use esdm.Config.{Settings}

pub record Timespec : Type 0 where
  pub tv_sec : ℕ
  pub tv_nsec : ℕ

-- `struct entropy_es` and `struct entropy_buf`.
pub record EntropyEs : Type 0 where
  pub e : List ℕ
  pub e_bits : ℕ

pub record EntropyBuf : Type 0 where
  pub entropy_es : List EntropyEs
  pub now : ℕ

-- `struct esdm_es_cb`, as far as the managers call it for an entropy source other than the
-- auxiliary pool.
pub record Source (X : Type 0) : Type 0 where
  pub get_ent : Settings → X → EntropyEs → ℕ → Bool → EntropyEs × X
  pub curr_entropy : Settings → X → ℕ → ℕ
  pub reset : X → X

-- The callbacks of the cryptographic backend (`struct esdm_drng_cb`, `struct esdm_hash_cb`), the
-- table of entropy sources, and the memory image of a seed buffer.
pub record Platform (X D H : Type 0) : Type 0 where
  pub sources : List (Source X)
  pub image : EntropyBuf → List ℕ
  pub image_es : EntropyEs → List ℕ
  pub drng_alloc : ℕ → Result D
  pub drng_selftest : Result (Unit {0})
  -- True for a return value of at least 0.
  pub drng_seed : D → List ℕ → Bool × D
  -- The bytes returned; none for a negative return value.
  pub drng_generate : D → ℕ → Option (List ℕ) × D
  pub hash_selftest : Result (Unit {0})
  pub hash_alloc : Result H
  pub hash_digestsize : ℕ
  pub hash_init : H → Result H
  pub hash_update : H → List ℕ → Result H
  pub hash_final : H → Result (List ℕ)

-- `struct esdm_drng`. The counters are the bit patterns of `int` values.
pub record Drng (D : Type 0) : Type 0 where
  pub handle : Option D
  pub requests : ℕ
  pub requests_since_fully_seeded : ℕ
  pub request_bits_since_fully_seeded : ℕ
  pub last_seeded : Timespec
  pub fully_seeded : Bool
  pub force_reseed : Bool

-- A pointer to a DRNG: to one of the two static ones, or to an allocated one.
pub data DrngRef : Type 0 where
  drng_init drng_pr : DrngRef
  allocated : ℕ → DrngRef

-- `struct esdm_pool` with its hash state.
pub record Pool (H : Type 0) : Type 0 where
  pub aux_pool : H
  pub aux_entropy_bits : ℕ
  pub digestsize : ℕ
  pub initialized : Bool

-- `struct esdm_state`.
pub record EsState : Type 0 where
  pub operational : Bool
  pub fully_seeded : Bool
  pub min_seeded : Bool
  pub all_online_nodes_seeded : Bool
  pub boot_entropy_thresh : ℕ
  pub reseed_in_progress : Bool

-- The attached status page, and the semaphores' values; none for SEM_FAILED.
pub record ShmStatus : Type 0 where
  pub operational : Bool
  pub need_entropy : Bool
  pub suspend_trigger : Bool

pub record Shm : Type 0 where
  pub status : Option ShmStatus
  pub sem_random : Option ℕ
  pub sem_urandom : Option ℕ
  pub sem_need_entropy_level : Option ℕ

pub record Sys (X D H : Type 0) : Type 0 where
  pub settings : Settings
  pub ext : X
  pub pool : Pool H
  pub state : EsState
  pub shm : Shm
  pub init_drng : Drng D
  pub pr_drng : Drng D
  pub heap : List (Drng D)
  -- `esdm_drng` of esdm/esdm_node.c: none before `esdm_drngs_node_alloc`.
  pub instances : Option (List (Option DrngRef))
  pub avail : ℕ
  pub mgr_terminate : Bool
  pub init_wait_sleeper : Bool
  pub reseed_max_time : ℕ
  pub write_wakeup_bits : ℕ
  pub clock : Timespec
  pub wall_time : ℕ

module _ {X D H : Type 0} where
  -- Reading and writing through a pointer; a pointer past the heap reads the initial DRNG.
  abbrev pub deref : DrngRef → Sys X D H → Drng D
  deref drng_init s = s.init_drng
  deref drng_pr s = s.pr_drng
  deref (allocated k) s = get_or s.heap k s.init_drng

  abbrev pub store : DrngRef → Drng D → Sys X D H → Sys X D H
  store drng_init d s = record s { init_drng = d }
  store drng_pr d s = record s { pr_drng = d }
  store (allocated k) d s = record s { heap = set s.heap k d }

  abbrev pub with_state : EsState → Sys X D H → Sys X D H
  with_state st s = record s { state = st }

-- ===== src/Tests.antt =====
-- Concrete systems, on which the definitions are run and the theorems are applied.
mod Run
mod Remote
mod Device
mod Kernel
mod Witness
use esdm.Base.{
  ℕ, zero, suc, ◌+◌, ◌≤◌, Bool, true, false, Option, none, some, List, [], ◌∷◌, ◌++◌, Result, ok,
  replicate, length, length-replicate, ◌≡◌, refl, arith, All, if◌then◌else◌, leb, inl, inr,
}
use esdm.Config.{Build, Config, Settings, unset, ntg1_2024_compliant}
use esdm.System.{
  Timespec, EntropyEs, EntropyBuf, Source, Platform, Drng, DrngRef, drng_init, allocated, Pool,
  EsState, ShmStatus, Shm, Sys,
}
use esdm.DrngMgr.Levels.{BoundedSources}
use esdm.DrngMgr.Ready.{Ready, Accepts}
use esdm.Random.Length.{WithinRequest}
use esdm.EsMgr.Stages.{Start, IsSound}

-- A source whose state is the entropy that it delivers with each call.
abbrev fast_source : Source ℕ
fast_source = record {
  get_ent = λ c x es bits full. (record { e = es.e; e_bits = if leb x 1024 then x else 1024 }, x);
  curr_entropy = λ c x thresh. x;
  reset = λ x. x;
}

-- A backend whose DRNG counts its seeds and generates sevens; the hash collects its input.
abbrev pub platform : Platform ℕ ℕ (List ℕ)
platform = record {
  sources = fast_source ∷ [];
  image = λ eb. [];
  image_es = λ es. es.e;
  drng_alloc = λ strength. ok 0;
  drng_selftest = ok tt;
  drng_seed = λ h seed. (true, h + 1);
  drng_generate = λ h n. (some (replicate n 7), h);
  hash_selftest = ok tt;
  hash_alloc = ok [];
  hash_digestsize = 64;
  hash_init = λ h. ok [];
  hash_update = λ h bytes. ok (h ++ bytes);
  hash_final = λ h. ok (replicate 64 9);
}

-- The same backend, but every seed is rejected.
abbrev pub rejecting : Platform ℕ ℕ (List ℕ)
rejecting = record platform { drng_seed = λ h seed. (false, h) }

abbrev build : Build
build = record {
  oversample = true;
  ntg1_2024 = false;
  fips140 = false;
  reseed_thresh_bits = 4294967295;
}

abbrev pub config : Config
config = record {
  cpu_rate = 8;
  jent_rate = 256;
  irq_rate = 0;
  krng_rate = 4;
  sched_rate = 300;
  hwrand_rate = 0;
  jent_kernel_rate = 300;
  max_wo_reseed = 1073741824;
  max_wo_reseed_bits = 4294967295;
  max_nodes = 2;
  force_fips = unset;
  irq_retry = false;
  sched_retry = false;
  jent_async_enable = false;
}

abbrev pub settings : Settings
settings = record { build = build; config = config; fips = false; online_cpus = 4; curr_cpu = 3 }

abbrev pub unseeded : Option ℕ → Drng ℕ
unseeded h = record {
  handle = h;
  requests = 1;
  requests_since_fully_seeded = 0;
  request_bits_since_fully_seeded = 0;
  last_seeded = record { tv_sec = 100; tv_nsec = 0 };
  fully_seeded = false;
  force_reseed = false;
}

abbrev pub seeded : Drng ℕ
seeded = record (unseeded (some 1)) { requests = 1048576; fully_seeded = true }

-- Two nodes with allocated DRNGs, and sources that deliver so many bits per call.
abbrev pub system : ℕ → Sys ℕ ℕ (List ℕ)
system rate = record {
  settings = settings;
  ext = rate;
  pool = record { aux_pool = []; aux_entropy_bits = 300; digestsize = 64; initialized = true };
  state = record {
    operational = false;
    fully_seeded = false;
    min_seeded = false;
    all_online_nodes_seeded = false;
    boot_entropy_thresh = 256;
    reseed_in_progress = false;
  };
  shm = record {
    status = some (record { operational = false; need_entropy = false; suspend_trigger = false });
    sem_random = some 0;
    sem_urandom = none;
    sem_need_entropy_level = some 0;
  };
  init_drng = unseeded (some 0);
  pr_drng = unseeded (some 0);
  heap = unseeded (some 0) ∷ [];
  instances = some (some drng_init ∷ some (allocated 0) ∷ []);
  avail = 2;
  mgr_terminate = false;
  init_wait_sleeper = false;
  reseed_max_time = 600;
  write_wakeup_bits = 512;
  clock = record { tv_sec = 200; tv_nsec = 5 };
  wall_time = 77;
}

-- A system that is operational, with little entropy in its pool.
abbrev pub operational_system : Sys ℕ ℕ (List ℕ)
operational_system = record (system 0) {
  pool = record { aux_pool = []; aux_entropy_bits = 0; digestsize = 64; initialized = true };
  state = record {
    operational = true;
    fully_seeded = true;
    min_seeded = true;
    all_online_nodes_seeded = true;
    boot_entropy_thresh = 256;
    reseed_in_progress = false;
  };
  shm = record {
    status = some (record { operational = true; need_entropy = false; suspend_trigger = false });
    sem_random = some 1;
    sem_urandom = none;
    sem_need_entropy_level = some 0;
  };
  init_drng = seeded;
  heap = seeded ∷ [];
}

pub accepts : Accepts platform
accepts h seed = refl

pub within : WithinRequest platform
within h n = omega (arith, length-replicate {A = ℕ} n 7)

pub bounded : BoundedSources platform
bounded = record {
  few = omega arith;
  digest = omega arith;
  bounded = (λ c x es bits full. ground arith, tt);
}

pub system-Ready : (rate : ℕ) → Ready false (system rate)
unfolding ntg1_2024_compliant
system-Ready rate = record {
  old_strategy = refl;
  avail = refl;
  lock = refl;
  init = refl;
  pr = refl;
  heap = (refl, tt);
  nodes = (tt, (omega arith, tt));
}

abbrev pub start : Start
start = record { settings = settings; min_seeded = false }

pub system-IsSound : (rate : ℕ) → IsSound start (system rate)
system-IsSound rate = record {
  set_to = refl;
  floor = inl refl;
  flags = record { operational_full = refl; full_min = inl refl };
  shown = refl;
}

-- ===== src/Sources/Slow.antt =====
-- The drivers of the interrupt and the scheduler source, esdm/esdm_es_irq.c and esdm/esdm_es_sched.c,
-- which differ in the end of their initialisation only. The system calls' results are arguments.
pub mod Initialize
use esdm.Base.{
  ℕ, ◌+◌, ◌*◌, ◌/◌, Bool, true, false, not, ◌&&◌, Option, none, some, Result, ok, err, eagain,
  efault, einval, eopnotsupp, Run, ◌>>=◌, leb, ◌==◌, if◌then◌else◌, uint32_max,
}
use esdm.Config.{
  Build, init_seed_size_bytes, security_strength_bits, security_strength_bytes,
  irq_max_kernel_rng_entropy,
}
use esdm.System.{Sys, Platform, EntropyEs}
use esdm.DrngMgr.{es_add_entropy}
use esdm.Setters.{es_krng_entropy_rate_set}
use esdm.Sources.{
  DataSize, data_equal, data_large, data_small, oversample_seed_size_bytes, kernel_read,
  kernel_set_requested_bits,
}

-- A file descriptor: -1, that of an open file, or the number that is left of a closed one.
pub data Descriptor : Type 0 where
  absent opened closed : Descriptor

-- The static variables of a driver.
pub record SlowSource : Type 0 where
  pub fd : Descriptor
  pub requested_bits_set : ℕ
  pub data_size : DataSize

-- `fd >= 0`
unfoldable pub is_present : SlowSource → Bool
is_present d = elim d.fd [ absent ↦ false | _ ↦ true ]

unfoldable pub slow_enabled : ℕ → SlowSource → Bool
unfolding is_present
slow_enabled rate d = is_present d && not (rate == 0)

unfoldable pub slow_active : Bool → SlowSource → Bool
unfolding is_present
slow_active retry d = if retry then true else is_present d

-- The number of events for the rate: how many make up 256 bits of entropy.
unfoldable pub rate_events : ℕ → ℕ
rate_events rate =
    if rate == 0 then uint32_max else security_strength_bits * security_strength_bits / rate

-- `conf` says whether the kernel takes the bits and the events.
unfoldable pub set_entropy_rate :
    ℕ → (ℕ → ℕ → Bool) → ℕ → SlowSource → Result (Unit {0}) × SlowSource
unfolding is_present rate_events
set_entropy_rate rate conf requested_bits d =
    if is_present d
    then (if conf (if d.requested_bits_set == requested_bits then 0 else requested_bits)
          (rate_events rate)
        then (ok tt, record d { requested_bits_set = requested_bits })
        else (err einval, d))
    else (err eopnotsupp, d)

-- `avail` is what the kernel reports, none for an error.
unfoldable pub slow_entropylevel : ℕ → (ℕ → ℕ → Bool) → Option ℕ → SlowSource → ℕ × SlowSource
unfolding is_present set_entropy_rate
slow_entropylevel rate conf avail d =
    if is_present d
    then (let (ret, d') = set_entropy_rate rate conf d.requested_bits_set d in
        (elim ret [ err e ↦ 0 | ok u ↦ elim avail [ none ↦ 0 | some entropy ↦ entropy ] ], d'))
    else (0, d)

-- The kernel's buffer by its size; 4 is the size of its counter.
unfoldable pub size_of : Build → ℕ → Option DataSize
size_of b status =
    if status == init_seed_size_bytes b + 4
    then some data_equal
    else if status == security_strength_bytes + 4
    then some data_small
    else if status == oversample_seed_size_bytes + 4
    then some data_large
    else none

-- What the driver knows of its file after `close(fd)` where it has had one before.
unfoldable pub left_open : SlowSource → SlowSource
left_open d = elim d.fd [ absent ↦ d | _ ↦ record d { fd = closed } ]

-- `esdm_sched_initialize`: `opens` says whether the device can be opened, `status` is the size of the
-- kernel's buffer, none for an error.
unfoldable pub slow_initialize :
    Build → Bool → Option ℕ → SlowSource → Result (Unit {0}) × SlowSource
unfolding is_present size_of left_open
slow_initialize b opens status d =
    if not (is_present d) && not opens then (ok tt, d) else elim status [
      | none ↦ (err eagain, left_open d)
      | some size ↦ elim (size_of b size) [
        | none ↦ (err efault, left_open d)
        | some data_size ↦ (
          ok tt,
          record d { fd = elim d.fd [ absent ↦ opened | other ↦ other ]; data_size = data_size },
        )
      ]
    ]

-- `esdm_sched_get`
unfoldable pub slow_get :
    Build → (ℕ → Bool) → Option EntropyEs → EntropyEs → ℕ → SlowSource → EntropyEs × SlowSource
unfolding is_present kernel_set_requested_bits kernel_read
slow_get b conf read eb_es requested_bits d =
    if is_present d
    then (
      kernel_read b true read d.data_size eb_es,
      record d {
        requested_bits_set =
            kernel_set_requested_bits d.requested_bits_set requested_bits true conf;
      },
    )
    else (record eb_es { e_bits = 0 }, d)

module _ {X D H : Type 0} (p : Platform X D H) where
  -- `esdm_irq_initialize`: the interrupt source takes the place of the kernel's own, whose rate is
  -- capped.
  unfoldable pub irq_initialize :
      Build
      → Bool
      → Option ℕ
      → SlowSource × Sys X D H
      → Run (Result (Unit {0}) × SlowSource × Sys X D H)
  unfolding slow_initialize is_present
  irq_initialize b opens status (d, s) =
      let (ret, d') = slow_initialize b opens status d in
      elim ret [
        | err e ↦ some (err e, d', s)
        | ok u ↦
            if is_present d'
            then (es_krng_entropy_rate_set p true irq_max_kernel_rng_entropy s >>= λ s1.
                es_add_entropy p s1 >>= λ s2. some (ok tt, d', s2))
            else some (ok tt, d', s)
      ]

  -- The end of the monitors, with a source that may be there.
  unfoldable pub monitor_level :
      ℕ
      → (ℕ → ℕ → Bool)
      → Option ℕ
      → SlowSource × Sys X D H
      → Run (Result (Unit {0}) × SlowSource × Sys X D H)
  unfolding is_present slow_entropylevel
  monitor_level rate conf avail (d, s) =
      if is_present d
      then (let (ent, d') = slow_entropylevel rate conf avail d in
          if not (rate == 0) && leb rate ent
          then (es_add_entropy p s >>= λ s'. some (ok tt, d', s'))
          else some (ok tt, d', s))
      else some (ok tt, d, s)

  -- `esdm_sched_seed_monitor` and `esdm_irq_seed_monitor`, which differ in `initialize`; `root` says
  -- whether the user of the process is root.
  unfoldable pub seed_monitor :
      (SlowSource × Sys X D H → Run (Result (Unit {0}) × SlowSource × Sys X D H))
      → Bool
      → Bool
      → ℕ
      → (ℕ → ℕ → Bool)
      → Option ℕ
      → SlowSource × Sys X D H
      → Run (Result (Unit {0}) × SlowSource × Sys X D H)
  unfolding is_present monitor_level
  seed_monitor initialize retry root rate conf avail (d, s) =
      if s.state.all_online_nodes_seeded
      then some (ok tt, d, s)
      else if retry && not (is_present d)
      then (initialize (d, s) >>= λ r. elim (r.0) [
        | err e ↦ some r
        | ok u ↦
            if is_present (r.1)
            then monitor_level rate conf avail (r.1, r.2)
            else some (if root then err eagain else ok tt, r.1, r.2)
      ])
      else monitor_level rate conf avail (d, s)

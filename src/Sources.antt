-- ===== src/Sources.antt =====
-- What the drivers of the entropy sources share: the exchange with a kernel entropy source
-- (`esdm_kernel_read` and `esdm_kernel_set_requested_bits` of esdm/esdm_es_mgr.c), and the hardware
-- RNG source of esdm/esdm_es_hwrand.c. The system calls' results are arguments.
pub mod Kernel
pub mod Slow
use esdm.Base.{
  ℕ, ◌+◌, ◌/◌, Bool, true, false, not, ◌&&◌, Option, none, some, List, ◌++◌, take, drop, min,
  if◌then◌else◌, min_uint32, ◌==◌,
}
use esdm.Config.{
  Build, Settings, init_seed_size_bytes, seed_buffer_init_add_bits, security_strength_bits,
  security_strength_bytes, fast_noise_entropylevel,
}
use esdm.System.{Sys, EntropyEs}
use esdm.AuxPool.{security_strength}

-- `enum esdm_es_data_size`
pub data DataSize : Type 0 where
  data_equal data_large data_small : DataSize

-- `ESDM_DRNG_OVERSAMPLE_SEED_SIZE_BYTES`
abbrev pub oversample_seed_size_bytes : ℕ
oversample_seed_size_bytes = 48

-- `memcpy` to the front of a buffer.
abbrev pub copy_front : ℕ → List ℕ → List ℕ → List ℕ
copy_front n src dst = take n src ++ drop n dst

-- The data that the system call filled in, moved to the caller's buffer.
unfoldable pub kernel_store : Build → DataSize → EntropyEs → EntropyEs → EntropyEs
kernel_store b data_equal got eb_es = got
kernel_store b data_large got eb_es = record {
  e = copy_front (min (init_seed_size_bytes b) oversample_seed_size_bytes) got.e eb_es.e;
  e_bits = min_uint32 (security_strength_bits + seed_buffer_init_add_bits b) got.e_bits;
}
kernel_store b data_small got eb_es = record {
  e = copy_front security_strength_bytes got.e eb_es.e;
  e_bits = got.e_bits;
}

-- `esdm_kernel_read`: `fd_open` for a descriptor of at least 0, `ioctl` for what the call delivers, or
-- none for an error.
unfoldable pub kernel_read : Build → Bool → Option EntropyEs → DataSize → EntropyEs → EntropyEs
unfolding kernel_store
kernel_read b fd_open ioctl data_size eb_es =
    if fd_open
    then elim ioctl [
      | none ↦ record eb_es { e_bits = 0 }
      | some got ↦ kernel_store b data_size got eb_es
    ]
    else record eb_es { e_bits = 0 }

-- `esdm_kernel_set_requested_bits`: the configured bits after the call; `accepts` says whether the
-- system call succeeds for a value.
unfoldable pub kernel_set_requested_bits : ℕ → ℕ → Bool → (ℕ → Bool) → ℕ
kernel_set_requested_bits configured_bits requested_bits fd_open accepts =
    if not (configured_bits == requested_bits) && fd_open
    then (if accepts requested_bits then requested_bits else configured_bits)
    else configured_bits

-- The hardware RNG; `fd_open` says whether its device is there.
unfoldable pub hwrand_entropylevel : Settings → Bool → ℕ → ℕ
hwrand_entropylevel s fd_open requested_bits =
    if fd_open then fast_noise_entropylevel s.config.hwrand_rate requested_bits else 0

unfoldable pub hwrand_poolsize : {X D H : Type 0} → Bool → Sys X D H → ℕ
hwrand_poolsize fd_open s =
    if fd_open then hwrand_entropylevel s.settings fd_open (security_strength s) else 0

-- `read` is what the device delivers for a number of bytes; none for an error.
unfoldable pub hwrand_get : Settings → Bool → (ℕ → Option (List ℕ)) → EntropyEs → ℕ → EntropyEs
unfolding hwrand_entropylevel
hwrand_get s fd_open read eb_es requested_bits =
    if fd_open
    then elim (read (requested_bits / 8)) [
      | none ↦ record eb_es { e_bits = 0 }
      | some bytes ↦ record {
        e = copy_front (requested_bits / 8) bytes eb_es.e;
        e_bits = hwrand_entropylevel s fd_open requested_bits;
      }
    ]
    else record eb_es { e_bits = 0 }

-- The CPU source of esdm/esdm_es_cpu.c.
unfoldable pub cpu_entropylevel : Settings → ℕ → ℕ
cpu_entropylevel s requested_bits = fast_noise_entropylevel s.config.cpu_rate requested_bits

unfoldable pub cpu_poolsize : {X D H : Type 0} → Sys X D H → ℕ
unfolding cpu_entropylevel
cpu_poolsize s = cpu_entropylevel s.settings (security_strength s)

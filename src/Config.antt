-- ===== src/Config.antt =====
-- Compile-time and run-time configuration: esdm/esdm_config.c, the constants of
-- esdm/esdm_definitions.h, and the oversampling helpers of esdm/esdm_drng_mgr.h.
pub mod Bounds
use esdm.Base.{
  ℕ, ◌+◌, ◌-◌, ◌/◌, ◌%◌, Bool, false, if◌then◌else◌, leb, ◌==◌, min_uint32, mul_u32, add_u32,
}

-- The preprocessor switches and build options that the modelled code tests.
pub record Build : Type 0 where
  -- ESDM_OVERSAMPLE_ENTROPY_SOURCES
  pub oversample : Bool
  -- ESDM_AIS2031_NTG1_SEEDING_STRATEGY
  pub ntg1_2024 : Bool
  -- ESDM_FIPS140
  pub fips140 : Bool
  -- ESDM_DRNG_RESEED_THRESH_BITS
  pub reseed_thresh_bits : ℕ

pub data ForceFips : Type 0 where
  unset disabled sp80090c_enabled fips_forced : ForceFips

-- `struct esdm_config`.
pub record Config : Type 0 where
  pub cpu_rate : ℕ
  pub jent_rate : ℕ
  pub irq_rate : ℕ
  pub krng_rate : ℕ
  pub sched_rate : ℕ
  pub hwrand_rate : ℕ
  pub jent_kernel_rate : ℕ
  pub max_wo_reseed : ℕ
  pub max_wo_reseed_bits : ℕ
  pub max_nodes : ℕ
  pub force_fips : ForceFips
  pub irq_retry : Bool
  pub sched_retry : Bool
  pub jent_async_enable : Bool

-- What all parts read and only the configuration calls change; `fips` is what `fips_enabled` says
-- of the environment, `online_cpus` and `curr_cpu` what the platform says.
pub record Settings : Type 0 where
  pub build : Build
  pub config : Config
  pub fips : Bool
  pub online_cpus : ℕ
  pub curr_cpu : ℕ

abbrev pub security_strength_bytes : ℕ
security_strength_bytes = 32

abbrev pub security_strength_bits : ℕ
security_strength_bits = 256

abbrev pub full_seed_entropy_bits : ℕ
full_seed_entropy_bits = 256

abbrev pub min_seed_entropy_bits : ℕ
min_seed_entropy_bits = 128

abbrev pub init_entropy_bits : ℕ
init_entropy_bits = 32

abbrev pub nptrng_min_entropy : ℕ
nptrng_min_entropy = 240

abbrev pub drng_max_reqsize : ℕ
drng_max_reqsize = 4096

abbrev pub drng_reseed_thresh : ℕ
drng_reseed_thresh = 1048576

-- `ESDM_MAX_DIGESTSIZE`, in bytes.
abbrev pub max_digestsize : ℕ
max_digestsize = 64

-- `ESDM_ES_IRQ_MAX_KERNEL_RNG_ENTROPY`
abbrev pub irq_max_kernel_rng_entropy : ℕ
irq_max_kernel_rng_entropy = 4

-- common/meson.build sets both by the oversampling option.
abbrev pub seed_buffer_init_add_bits : Build → ℕ
seed_buffer_init_add_bits b = if b.oversample then 128 else 0

abbrev pub oversample_es_bits : Build → ℕ
oversample_es_bits b = if b.oversample then 64 else 0

-- `ESDM_DRNG_INIT_SEED_SIZE_BYTES`
abbrev pub init_seed_size_bytes : Build → ℕ
init_seed_size_bytes b = (security_strength_bits + seed_buffer_init_add_bits b) / 8

unfoldable pub fast_noise_entropylevel : ℕ → ℕ → ℕ
fast_noise_entropylevel ent_bits requested_bits =
    let level = mul_u32 ent_bits requested_bits / security_strength_bits in
    min_uint32 level requested_bits

unfoldable pub entropy_rate_max : ℕ → ℕ
entropy_rate_max val = min_uint32 security_strength_bits val

-- The order of the enumeration's members.
abbrev pub fips_rank : ForceFips → ℕ
fips_rank unset = 0
fips_rank disabled = 1
fips_rank sp80090c_enabled = 2
fips_rank fips_forced = 3

unfoldable pub config_fips_enabled : Settings → Bool
config_fips_enabled s =
    if s.build.fips140
    then (if fips_rank s.config.force_fips == 0
        then s.fips
        else leb 3 (fips_rank s.config.force_fips))
    else false

unfoldable pub config_sp80090c_compliant : Settings → Bool
config_sp80090c_compliant s =
    if s.build.oversample
    then (if fips_rank s.config.force_fips == 0
        then s.fips
        else leb 2 (fips_rank s.config.force_fips))
    else false

-- `esdm_sp80090c_compliant` of esdm/esdm_drng_mgr.c.
unfoldable pub sp80090c_compliant : Settings → Bool
unfolding config_sp80090c_compliant
sp80090c_compliant s = if s.build.oversample then config_sp80090c_compliant s else false

unfoldable pub ntg1_2024_compliant : Settings → Bool
ntg1_2024_compliant s = s.build.ntg1_2024

unfoldable pub config_online_nodes : Settings → ℕ
config_online_nodes s = min_uint32 s.online_cpus s.config.max_nodes

-- `esdm_curr_node` of common/helper.c.
unfoldable pub curr_node : Settings → ℕ
curr_node s = s.curr_cpu % s.online_cpus

unfoldable pub config_curr_node : Settings → ℕ
unfolding curr_node
config_curr_node s = curr_node s % s.config.max_nodes

unfoldable pub compress_osr : Settings → ℕ
compress_osr s = if sp80090c_compliant s then oversample_es_bits s.build else 0

unfoldable pub reduce_by_osr : Settings → ℕ → ℕ
reduce_by_osr s entropy_bits =
    let osr_bits = compress_osr s in
    if leb osr_bits entropy_bits then entropy_bits - osr_bits else 0

-- `esdm_config_init`: the sanity checks on the configured rates, in the order of the source, with
-- the sum that decides on the warning.
unfoldable pub config_init : Config → ℕ × Config
unfolding entropy_rate_max
config_init c =
    let c' = record c {
      cpu_rate = entropy_rate_max c.cpu_rate;
      jent_rate = entropy_rate_max c.jent_rate;
      krng_rate = entropy_rate_max c.krng_rate;
      sched_rate = entropy_rate_max c.sched_rate;
      irq_rate = entropy_rate_max c.irq_rate;
      hwrand_rate = entropy_rate_max c.hwrand_rate;
    } in
    (
      add_u32
          (add_u32 (add_u32 (add_u32 (add_u32 c'.cpu_rate c'.jent_rate) c'.krng_rate) c'.sched_rate)
            c'.irq_rate)
          c'.hwrand_rate,
      c',
    )

-- ===== src/Config/Bounds.antt =====
-- What the configuration functions of esdm/esdm_config.c bound.
use esdm.Base.{ℕ, ◌+◌, ◌*◌, ◌/◌, ◌%◌, ◌≤◌, ◌<◌, min, ◌≡◌, refl, arith}
use native.Mathlib.Nat.{mod-lt, mod-le, mul-le-mul_right}
use esdm.Config.{
  Config, Settings, fast_noise_entropylevel, entropy_rate_max, config_init, config_online_nodes,
  config_curr_node, curr_node,
}

pub entropy_rate_max-min : (n : ℕ) → entropy_rate_max n ≡ min 256 n
unfolding entropy_rate_max
entropy_rate_max-min n = ground arith

-- The sum that decides on the warning is that of the six rates that are capped at 256 bits,
-- without overflow. The CPU and the interrupt rate are capped; the rate of the kernel's jitter
-- source is not.
pub config_init_rates :
    (c : Config)
    → let (sum, c') = config_init c in
      (sum
        ≡ min 256 c.cpu_rate
          + min 256 c.jent_rate
          + min 256 c.krng_rate
          + min 256 c.sched_rate
          + min 256 c.irq_rate
          + min 256 c.hwrand_rate)
      × (c'.cpu_rate ≡ min 256 c.cpu_rate)
      × (c'.irq_rate ≡ min 256 c.irq_rate)
      × (c'.jent_kernel_rate ≡ c.jent_kernel_rate)
unfolding config_init
config_init_rates c = (
  omega (
    arith,
    entropy_rate_max-min c.cpu_rate,
    entropy_rate_max-min c.jent_rate,
    entropy_rate_max-min c.krng_rate,
    entropy_rate_max-min c.sched_rate,
    entropy_rate_max-min c.irq_rate,
    entropy_rate_max-min c.hwrand_rate,
  ),
  entropy_rate_max-min c.cpu_rate,
  entropy_rate_max-min c.irq_rate,
  refl,
)

-- The node of the caller is one of the online nodes, where there is a CPU and at least one node
-- is configured.
pub config_curr_node-lt :
    (s : Settings)
    → 1 ≤ s.online_cpus
    → 1 ≤ s.config.max_nodes
    → config_curr_node s < config_online_nodes s
unfolding config_curr_node curr_node config_online_nodes
config_curr_node-lt s cpus nodes =
    let by_cpus = mod-lt s.curr_cpu {m = s.online_cpus} (omega (arith, cpus)) in
    let by_nodes =
      mod-lt (s.curr_cpu % s.online_cpus) {m = s.config.max_nodes} (omega (arith, nodes)) in
    let least = mod-le (s.curr_cpu % s.online_cpus) s.config.max_nodes in
    ground (arith, by_cpus, by_nodes, least)

-- For a rate of at most 256 bits and a request of less than 2^24 bits, the entropy of a fast
-- noise source is the rate's share of the request, without overflow, and never more than the
-- request.
pub fast_noise_entropylevel_lem :
    (rate request : ℕ)
    → rate ≤ 256
    → request ≤ 16777215
    → (fast_noise_entropylevel rate request ≡ rate * request / 256)
      × (fast_noise_entropylevel rate request ≤ request)
unfolding fast_noise_entropylevel
fast_noise_entropylevel_lem rate request low small =
    let product = mul-le-mul_right request low in ground (arith, product)

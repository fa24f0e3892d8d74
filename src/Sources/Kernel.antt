-- ===== src/Sources/Kernel.antt =====
-- What a driver reports of the entropy that it read.
use esdm.Base.{
  ℕ, zero, suc, ◌+◌, ◌*◌, ◌/◌, ◌≤◌, min, Bool, true, false, Option, none, some, List, [], ◌∷◌, ◌≡◌,
  refl, sym, ◌∙◌, arith, length, take, drop, length-append, length-take,
}
use esdm.Config.{Build, Settings, init_seed_size_bytes, seed_buffer_init_add_bits}
use esdm.Config.Bounds.{fast_noise_entropylevel_lem}
use esdm.System.{EntropyEs}
use esdm.Sources.{
  DataSize, data_equal, data_large, data_small, copy_front, kernel_store, kernel_read, hwrand_get,
  hwrand_entropylevel,
}

length-drop :
    {A : Type 0} (n : ℕ) (xs : List A) → length (drop n xs) + min n (length xs) ≡ length xs
length-drop zero xs = omega arith
length-drop (suc n) [] = omega arith
length-drop (suc n) (x ∷ xs) = omega (arith, length-drop n xs)

length-copy_front :
    (n : ℕ) (src dst : List ℕ)
    → n ≤ length src
    → n ≤ length dst
    → length (copy_front n src dst) ≡ length dst
length-copy_front n src dst long fits = omega (
  arith,
  length-append (take n src) (drop n dst),
  length-take n src,
  length-drop n dst,
  long,
  fits,
)

-- The buffer keeps its size, and reports no more than the caller's bits, or nothing.
abbrev pub Reports : ℕ → EntropyEs → EntropyEs → Type 0
Reports bits before after = (length after.e ≡ length before.e) × (after.e_bits ≤ bits)

-- A read that succeeds delivers so many bytes.
abbrev pub AtLeast : ℕ → Option (List ℕ) → Type 0
AtLeast n none = Unit
AtLeast n (some bytes) = n ≤ length bytes

read-Reports :
    (s : Settings) (got : Option (List ℕ)) (eb_es : EntropyEs) (bits : ℕ)
    → s.config.hwrand_rate ≤ 256
    → bits ≤ 16777215
    → bits / 8 ≤ length eb_es.e
    → AtLeast (bits / 8) got
    → let after : EntropyEs = elim got [
      | none ↦ record eb_es { e_bits = 0 }
      | some bytes ↦ record {
        e = copy_front (bits / 8) bytes eb_es.e;
        e_bits = hwrand_entropylevel s true bits;
      }
    ] in
      Reports (min bits (s.config.hwrand_rate * bits / 256)) eb_es after
unfolding hwrand_entropylevel
read-Reports s none eb_es bits rate small fits full = (refl, omega arith)
read-Reports s (some bytes) eb_es bits rate small fits full =
    let level = fast_noise_entropylevel_lem s.config.hwrand_rate bits rate small in
    (length-copy_front (bits / 8) bytes eb_es.e full fits, omega (arith, level))

-- Whatever the hardware RNG delivers, the buffer keeps its size and reports at most the requested
-- bits and at most the configured rate's share of them; nothing is reported where the device is
-- missing or the read fails. The rate is at most 256 bits, the buffer holds the request of less
-- than 2^24 bits, and a read that succeeds delivers all the bytes.
pub hwrand_get-Reports :
    (s : Settings) (fd_open : Bool) (read : ℕ → Option (List ℕ)) (eb_es : EntropyEs) (bits : ℕ)
    → s.config.hwrand_rate ≤ 256
    → bits ≤ 16777215
    → bits / 8 ≤ length eb_es.e
    → ((n : ℕ) → AtLeast n (read n))
    → Reports
        (min bits (s.config.hwrand_rate * bits / 256))
        eb_es
        (hwrand_get s fd_open read eb_es bits)
unfolding hwrand_get hwrand_entropylevel
hwrand_get-Reports s false read eb_es bits rate small fits full = (refl, omega arith)
hwrand_get-Reports s true read eb_es bits rate small fits full =
    read-Reports s (read (bits / 8)) eb_es bits rate small fits (full (bits / 8))

seed_size :
    (b : Build)
    → (init_seed_size_bytes b ≤ 48)
      × (32 ≤ init_seed_size_bytes b)
      × (256 + seed_buffer_init_add_bits b ≡ 8 * init_seed_size_bytes b)
seed_size b = ground arith

-- The size of what a source delivers, by the detected size.
abbrev pub Detected : Build → DataSize → Option EntropyEs → Type 0
Detected b size none = Unit
Detected b data_equal (some got) = length got.e ≡ init_seed_size_bytes b
Detected b data_large (some got) = length got.e ≡ 48
Detected b data_small (some got) = length got.e ≡ 32

-- The bits that are reported at most.
abbrev pub reported : Build → Bool → Option EntropyEs → DataSize → ℕ
reported b false ioctl size = 0
reported b true none size = 0
reported b true (some got) data_equal = got.e_bits
reported b true (some got) data_large = min (8 * init_seed_size_bytes b) got.e_bits
reported b true (some got) data_small = got.e_bits

-- The exchange with a kernel source keeps the size of the buffer, where the source delivers a buffer
-- of the size that was detected for it. It reports nothing where the source is missing or the call
-- fails; a large source's report is capped at the size of the seed, any other is taken as it is.
pub kernel_read-Reports :
    (b : Build) (fd_open : Bool) (ioctl : Option EntropyEs) (size : DataSize) (eb_es : EntropyEs)
    → length eb_es.e ≡ init_seed_size_bytes b
    → Detected b size ioctl
    → Reports (reported b fd_open ioctl size) eb_es (kernel_read b fd_open ioctl size eb_es)
unfolding kernel_read kernel_store
kernel_read-Reports b false ioctl size eb_es whole found = (refl, omega arith)
kernel_read-Reports b true none size eb_es whole found = (refl, omega arith)
kernel_read-Reports b true (some got) data_equal eb_es whole found =
    (found ∙ sym whole, omega arith)
kernel_read-Reports b true (some got) data_large eb_es whole found =
    let z = seed_size b in
    (
      length-copy_front (min (init_seed_size_bytes b) 48) got.e eb_es.e (omega (arith, found))
          (omega (arith, whole)),
      ground (arith, z.2),
    )
kernel_read-Reports b true (some got) data_small eb_es whole found = (
  length-copy_front 32 got.e eb_es.e (omega (arith, found)) (omega (arith, whole, (seed_size b).1)),
  omega arith,
)

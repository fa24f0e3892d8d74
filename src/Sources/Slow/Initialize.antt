-- ===== src/Sources/Slow/Initialize.antt =====
-- The descriptor of a driver over its initialisations.
use esdm.Base.{ℕ, Option, none, some, Result, ok, ◌≡◌, ◌⊎◌}
use esdm.Config.{Build}
use esdm.Sources.{DataSize}
use esdm.Sources.Slow.{Descriptor, absent, opened, closed, SlowSource, size_of}

-- The kernel reported the size of this kind of buffer.
abbrev pub Known : Build → Option ℕ → DataSize → Type 0
Known b none data_size = ⊥
Known b (some size) data_size = size_of b size ≡ some data_size

-- A source that was not there is unchanged, or open with the kernel's buffer known; one that was open
-- is still so, its buffer known, or its file is closed; a closed file stays.
abbrev pub Tracks : Build → Option ℕ → Descriptor → Result (Unit {0}) × SlowSource → Type 0
Tracks b status absent (ret, d) =
    (d.fd ≡ absent) ⊎ ((ret ≡ ok tt) × (d.fd ≡ opened) × Known b status d.data_size)
Tracks b status opened (ret, d) =
    ((ret ≡ ok tt) × (d.fd ≡ opened) × Known b status d.data_size) ⊎ (d.fd ≡ closed)
Tracks b status closed (ret, d) = d.fd ≡ closed

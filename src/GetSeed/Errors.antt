-- ===== src/GetSeed/Errors.antt =====
-- `esdm_get_seed` of esdm/esdm_drng_mgr.c and the caller's buffer.
use esdm.Base.{ℕ, ◌≤◌, Option, none, some, Result, ok, err, ◌≡◌, ◌⊎◌}
use esdm.GetSeed.{Seed}

-- The word at an offset is written only into a buffer that holds it.
abbrev WrittenWithin : Option ℕ → ℕ → ℕ → Type 0
WrittenWithin none end nbytes = Unit
WrittenWithin (some word) end nbytes = end ≤ nbytes

abbrev RetWithin : Result ℕ → ℕ → ℕ → Type 0
RetWithin (err e) buflen nbytes = Unit
RetWithin (ok n) buflen nbytes = ((n ≡ 0) ⊎ (n ≡ buflen)) × (buflen ≤ nbytes)

-- What a call leaves behind lies in a buffer of so many bytes.
abbrev pub Within : ℕ → ℕ → Seed → Type 0
Within buflen nbytes r =
    RetWithin r.ret buflen nbytes
    × WrittenWithin r.word0 8 nbytes
    × WrittenWithin r.word1 buflen nbytes

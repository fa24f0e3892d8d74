-- ===== src/Api/Gates.antt =====
-- Which requests for random bytes are served.
use esdm.Base.{
  ℕ, ◌%◌, ◌||◌, false, none, some, List, Result, err, eagain, ◌≡◌, arith, if◌then◌else◌, u32_mod,
}
use esdm.System.{Sys, Platform}
use esdm.DrngMgr.{force_fully_seeded}
use esdm.Api.{
  sleep_while, sleep_while_nonoperational, sleep_while_non_min_seeded, after_wait, drng_get_sleep,
  get_random_bytes_full_noblock, get_random_bytes_full, get_random_bytes_min,
  get_random_bytes_min_noblock,
}

module _ {X D H : Type 0} (p : Platform X D H) where
  -- Once the forced seeding has returned, a call for full security is served if the ESDM is then
  -- operational, and a call for minimal security if it is minimally seeded; else a call that must not
  -- block returns EAGAIN, and one that may block waits, unless the manager terminates: then it is
  -- served as well.
  pub get_random_bytes_gates :
      (nbytes : ℕ) (s t : Sys X D H)
      → force_fully_seeded p s ≡ some t
      → let refused : Result (List ℕ) × Sys X D H = (err eagain, t) in
        let served = drng_get_sleep p (nbytes % u32_mod) false t in
        (get_random_bytes_full_noblock p nbytes s
          ≡ (if t.state.operational then served else some refused))
        × (get_random_bytes_full p nbytes s
            ≡ (if t.state.operational || t.mgr_terminate then served else none))
        × (get_random_bytes_min_noblock p nbytes s
            ≡ (if t.state.min_seeded then served else some refused))
        × (get_random_bytes_min p nbytes s
            ≡ (if t.state.min_seeded || t.mgr_terminate then served else none))
  unfolding get_random_bytes_full_noblock get_random_bytes_full get_random_bytes_min_noblock
      get_random_bytes_min sleep_while_nonoperational sleep_while_non_min_seeded sleep_while
      after_wait
  get_random_bytes_gates nbytes s t e = rw e (ground arith)

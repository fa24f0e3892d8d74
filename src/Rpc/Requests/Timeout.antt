-- ===== src/Rpc/Requests/Timeout.antt =====
-- A request with a timeout that runs out.
use esdm.Base.{
  ℕ, suc, true, false, some, List, [], ok, err, eagain, Run, ◌≡◌, refl, arith, ◌==◌, min_uint32,
}
use esdm.System.{Timespec}
use esdm.Rpc.Client.{Reply, answer}
use esdm.Rpc.Methods.{RandomResponse}
use esdm.Rpc.Requests.{
  random_cb, random_step, random_loop, time_after, deadline, rpcc_get_random_bytes_full_timeout,
}

module _ {S : Type 0} (call : ℕ → S → Run (Reply RandomResponse × S)) (clock : S → Timespec) where
  -- A request with a timeout for at least one byte, whose first call is answered with EAGAIN after
  -- the deadline has passed, returns the number of bytes asked for, though it has written none.
  pub full_timeout_expired :
      (fuel k : ℕ) (randval : List ℕ) (ts : Timespec) (s t : S)
      → call (suc k) s ≡ some (answer (record { ret = err eagain; randval = randval }), t)
      → time_after (clock t) (deadline (clock s) ts) ≡ true
      → rpcc_get_random_bytes_full_timeout call clock (suc fuel) (ok tt) ts (suc k) s
        ≡ some (ok (suc k), [], t)
  unfolding rpcc_get_random_bytes_full_timeout random_loop random_step random_cb
  full_timeout_expired fuel k randval ts s t e late =
      let more : (suc k == 0) ≡ false = ground arith in
      let all : min_uint32 (suc k) (suc k) ≡ suc k = ground arith in
      rw (more, random_loop) (rw (all, e, late) refl)

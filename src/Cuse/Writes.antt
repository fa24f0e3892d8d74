-- ===== src/Cuse/Writes.antt =====
-- What `esdm_cuse_write_internal` reports.
use esdm.Base.{
  ℕ, suc, ◌+◌, ◌-◌, ◌<◌, ◌≤◌, false, Option, some, List, [], ◌∷◌, Result, ok, err, Errno, code,
  lt→ltb, efault, Run, ◌>>=◌, ◌≡◌, refl, ◌∙◌, arith, ltb, ◌==◌, min, length, take, drop,
}
use esdm.Rpc.{max_msg_size}
use esdm.Cuse.{reply_write, is_interrupted, write_loop, write_fallback, write_internal}

nonzero : (n : ℕ) → (suc n == 0) ≡ false
nonzero n = ground arith

module _ {S : Type 0} (call : List ℕ → S → Run (Result (Unit {0}) × S)) where
  -- One round of the loop, by what its call returned.
  round_ok :
      (fuel : ℕ) (bytes : List ℕ) (written todo : ℕ) (ret : Result (Unit {0})) (s t : S)
      → written < length bytes
      → min max_msg_size (length bytes - written) ≡ todo
      → call (take todo (drop written bytes)) s ≡ some (ok tt, t)
      → write_loop call (suc fuel) bytes written ret s
        ≡ write_loop call fuel bytes (written + todo) (ok tt) t
  unfolding write_loop is_interrupted
  round_ok fuel bytes written todo ret s t more size took =
      rw (write_loop, lt→ltb _ _ more, size) (rw took (rw size refl))

  round_err :
      (fuel : ℕ) (bytes : List ℕ) (written todo : ℕ) (ret : Result (Unit {0})) (e : Errno) (s t : S)
      → written < length bytes
      → min max_msg_size (length bytes - written) ≡ todo
      → call (take todo (drop written bytes)) s ≡ some (err e, t)
      → (code e == 4) ≡ false
      → write_loop call (suc fuel) bytes written ret s ≡ some (err e, written, t)
  unfolding write_loop is_interrupted
  round_err fuel bytes written todo ret e s t more size refused other =
      rw (write_loop, lt→ltb _ _ more, size) (rw refused (ground (arith, other)))

  pieces_refused :
      (fuel : ℕ) (bytes : List ℕ) (e : Errno) (s t u : S)
      → max_msg_size < length bytes
      → call (take max_msg_size bytes) s ≡ some (ok tt, t)
      → call (take (min max_msg_size (length bytes - max_msg_size)) (drop max_msg_size bytes)) t
        ≡ some (err e, u)
      → (code e == 4) ≡ false
      → write_loop call (suc (suc fuel)) bytes 0 (err efault) s ≡ some (err e, max_msg_size, u)
  pieces_refused fuel bytes e s t u long first second other =
      round_ok (suc fuel) bytes 0 max_msg_size (err efault) s t (omega arith) (omega arith) first
      ∙ round_err fuel bytes max_msg_size (min max_msg_size (length bytes - max_msg_size)) (ok tt) e
          t u long refl second other

  fallback_whole :
      (device : List ℕ → S → Run (Option ℕ × S)) (fuel : ℕ) (bytes : List ℕ) (at n : ℕ) (u v : S)
      → device bytes u ≡ some (some (suc n), v)
      → length bytes ≤ suc n
      → write_fallback device (suc fuel) bytes at u ≡ some (reply_write (at + suc n), v)
  unfolding write_fallback
  fallback_whole device fuel bytes at n u v taken whole =
      let over : ltb (at + suc n) (length bytes) ≡ false = ground arith in
      rw (write_fallback, taken) (rw (◌>>=◌, over) refl)

  -- A write of more than 65536 bytes whose first 65536 the server takes, whose next piece it refuses
  -- with an error other than EINTR, and which the kernel's device then takes as a whole: these first
  -- bytes go to both, and the reply counts them twice, so that it is larger than the write.
  pub write_internal_twice :
      (device : List ℕ → S → Run (Option ℕ × S)) (bytes : List ℕ) (e : Errno) (s t u v : S)
      → max_msg_size < length bytes
      → call (take max_msg_size bytes) s ≡ some (ok tt, t)
      → call (take (min max_msg_size (length bytes - max_msg_size)) (drop max_msg_size bytes)) t
        ≡ some (err e, u)
      → (code e == 4) ≡ false
      → device bytes u ≡ some (some (length bytes), v)
      → write_internal call (some device) bytes s
        ≡ some (reply_write (max_msg_size + length bytes), v)
  unfolding write_internal write_fallback
  write_internal_twice device [] e s t u v long first second other taken = absurd (omega arith)
  write_internal_twice device (b ∷ []) e s t u v long first second other taken =
      absurd (omega arith)
  write_internal_twice device (b ∷ c ∷ bytes) e s t u v long first second other taken =
      let some_byte : (length (b ∷ c ∷ bytes) == 0) ≡ false = nonzero (suc (length bytes)) in
      rw (pieces_refused (suc (length bytes)) (b ∷ c ∷ bytes) e s t u long first second other) (
        rw (◌>>=◌, some_byte)
          (fallback_whole device (length (b ∷ c ∷ bytes)) (b ∷ c ∷ bytes) max_msg_size
            (suc (length bytes)) u v taken (omega arith)))

-- ===== src/Cuse.antt =====
-- The CUSE devices, frontends/cuse/cuse_device.c. A request to the library fuse is answered by a
-- reply, which is a value here; the client library's calls are parameters.
pub mod Poll
pub mod Ioctl
pub mod Buffer
pub mod Reads
pub mod Urandom
pub mod Writes
use esdm.Base.{
  ℕ, zero, suc, ◌+◌, ◌-◌, Bool, true, false, not, ◌&&◌, Option, none, some, List, [], ◌++◌, Result,
  ok, err, efault, errno, code, Run, ◌>>=◌, ltb, ◌==◌, if◌then◌else◌, min, length, take, drop,
  replicate,
}
use esdm.Rpc.{max_msg_size}

-- The calls that end a request. `reply_retry` asks for as many bytes of input and of output.
pub data FuseReply : Type 0 where
  reply_err : ℕ → FuseReply
  reply_buf : List ℕ → FuseReply
  reply_write : ℕ → FuseReply
  reply_ioctl : List ℕ → FuseReply
  reply_retry : ℕ → ℕ → FuseReply
  reply_poll : ℕ → FuseReply

-- EINTR is 4.
unfoldable pub is_interrupted : {A : Type 0} → Result A → Bool
is_interrupted (ok a) = false
is_interrupted (err e) = code e == 4

-- `esdm_invoke`, with as many further calls as are left.
unfoldable pub invoke : {A S : Type 0} → ℕ → (S → Run (Result A × S)) → S → Run (Result A × S)
unfolding is_interrupted
invoke zero call s = call s
invoke (suc left) call s =
    call s >>= λ r. elim (is_interrupted (r.0)) [ true ↦ invoke left call (r.1) | false ↦ some r ]

-- Bytes written to an offset of a buffer.
abbrev pub store : ℕ → List ℕ → List ℕ → List ℕ
store at bytes buf = take at buf ++ (bytes ++ drop (at + length bytes) buf)

module _ {S : Type 0} where
  -- A call that fills the buffer from an offset on, as one on the buffer and the state.
  abbrev pub filling :
      (ℕ → S → Run (Result ℕ × List ℕ × S)) → ℕ → ℕ → List ℕ × S → Run (Result ℕ × (List ℕ × S))
  filling get at todo (buf, s) = get todo s >>= λ r. some (r.0, (store at (r.1) buf, r.2))

  -- What the read handler does after the call of the client library: an error has it read from the
  -- kernel's device, whose failure is -1.
  unfoldable pub or_fallback :
      Option (ℕ → S → Run (Option (List ℕ) × S))
      → ℕ
      → ℕ
      → Result ℕ × (List ℕ × S)
      → Run (Result ℕ × (List ℕ × S))
  or_fallback fallback at todo (ok n, (buf, s)) = some (ok n, (buf, s))
  or_fallback none at todo (err e, (buf, s)) = some (err e, (buf, s))
  or_fallback (some read) at todo (err e, (buf, s)) = read todo s >>= λ r. some (elim (r.0) [
    | none ↦ (err (errno 1), (buf, r.1))
    | some bytes ↦ (ok (length bytes), (store at bytes buf, r.1))
  ])

  -- The loop of `esdm_cuse_read_internal`, on fuel.
  unfoldable pub read_loop :
      (ℕ → S → Run (Result ℕ × List ℕ × S))
      → Option (ℕ → S → Run (Option (List ℕ) × S))
      → ℕ
      → ℕ
      → ℕ
      → List ℕ × S
      → Run (FuseReply × S)
  unfolding invoke or_fallback
  read_loop get fallback zero size read_bytes b = none
  read_loop get fallback (suc fuel) size read_bytes b = elim (ltb read_bytes size) [
    | false ↦ some (reply_buf (take size (b.0)), b.1)
    | true ↦
        let todo = min max_msg_size (size - read_bytes) in
        invoke 5 (filling get read_bytes todo) b >>= or_fallback fallback read_bytes todo >>= λ r.
        elim (r.0) [
          | err e ↦ some (reply_err (code e), (r.1).1)
          | ok n ↦ read_loop get fallback fuel size (read_bytes + n) (r.1)
        ]
  ]

  -- `esdm_cuse_read_internal`: O_SYNC asks for prediction resistance; more than 64 bytes need
  -- memory.
  unfoldable pub read_internal :
      Bool
      → Bool
      → (ℕ → S → Run (Result ℕ × List ℕ × S))
      → (ℕ → S → Run (Result ℕ × List ℕ × S))
      → Option (ℕ → S → Run (Option (List ℕ) × S))
      → ℕ
      → S
      → Run (FuseReply × S)
  unfolding read_loop
  read_internal memory o_sync get get_pr fallback size s =
      if ltb 64 size && not memory
      then some (reply_err 12, s)
      else read_loop (if o_sync then get_pr else get) fallback (suc size) size 0
          (replicate (if ltb 64 size then size else 64) 0, s)

  -- The loop that hands the data to the server, on fuel: the bytes written and the last result.
  unfoldable pub write_loop :
      (List ℕ → S → Run (Result (Unit {0}) × S))
      → ℕ
      → List ℕ
      → ℕ
      → Result (Unit {0})
      → S
      → Run (Result (Unit {0}) × ℕ × S)
  unfolding invoke
  write_loop call zero bytes written ret s = none
  write_loop call (suc fuel) bytes written ret s = elim (ltb written (length bytes)) [
    | false ↦ some (ret, written, s)
    | true ↦
        let todo = min max_msg_size (length bytes - written) in
        invoke 5 (call (take todo (drop written bytes))) s >>= λ r. elim (r.0) [
          | ok u ↦ write_loop call fuel bytes (written + todo) (ok tt) (r.1)
          | err e ↦ some (err e, written, r.1)
        ]
  ]

  -- The loop that writes all the data to the kernel's device, on fuel. A write that takes nothing
  -- ends it.
  unfoldable pub write_fallback :
      (List ℕ → S → Run (Option ℕ × S)) → ℕ → List ℕ → ℕ → S → Run (FuseReply × S)
  write_fallback device zero bytes written s = none
  write_fallback device (suc fuel) bytes written s = device bytes s >>= λ r. elim (r.0) [
    | none ↦ some (reply_err 1, r.1)
    | some zero ↦ some (reply_write written, r.1)
    | some (suc n) ↦ elim (ltb (written + suc n) (length bytes)) [
      | true ↦ write_fallback device fuel bytes (written + suc n) (r.1)
      | false ↦ some (reply_write (written + suc n), r.1)
    ]
  ]

  -- `esdm_cuse_write_internal`
  unfoldable pub write_internal :
      (List ℕ → S → Run (Result (Unit {0}) × S))
      → Option (List ℕ → S → Run (Option ℕ × S))
      → List ℕ
      → S
      → Run (FuseReply × S)
  unfolding write_loop write_fallback
  write_internal call fallback bytes s =
      write_loop call (suc (length bytes)) bytes 0 (err efault) s >>= λ r. elim (r.0) [
        | ok u ↦ some (reply_write (r.1), r.2)
        | err e ↦ elim fallback [
          | none ↦ some (reply_err (code e), r.2)
          | some device ↦ elim (length bytes == 0) [
            | true ↦ some (reply_err (code e), r.2)
            | false ↦ write_fallback device (suc (length bytes)) bytes (r.1) (r.2)
          ]
        ]
      ]

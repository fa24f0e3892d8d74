-- ===== src/Rpc/Requests.antt =====
-- The functions of the RPC client library, service-rpc/client/esdm_rpc_*_c.c. The call of a method
-- over the connection is a parameter: from the request to what the closure is given. `service` is
-- the result of taking the connection. The sleep between two polls does not appear.
pub mod Random
pub mod Serves
pub mod Seed
pub mod Write
pub mod Timeout
use esdm.Base.{
  ℕ, zero, suc, ◌+◌, ◌-◌, ◌/◌, ◌%◌, Bool, true, false, not, ◌&&◌, ◌||◌, List, [], ◌∷◌, ◌++◌, Result,
  ok, err, Errno, errno, code, einval, none, some, Run, ◌>>=◌, ltb, ◌==◌, if◌then◌else◌, min_uint32,
  length, take, drop,
}
use esdm.System.{Timespec}
use esdm.Rpc.{max_data}
use esdm.Rpc.Client.{Reply, lost, error_pointer, answer}
use esdm.Rpc.Methods.{RandomResponse}

-- The callbacks of the requests for random bytes: `buffer->ret` and the bytes copied. The return
-- value is set to -ETIMEDOUT (110) before the call.
unfoldable pub random_cb : ℕ → Reply RandomResponse → Result (List ℕ)
random_cb buflen lost = err (errno 110)
random_cb buflen (error_pointer e) = err e
random_cb buflen (answer response) = elim response.ret [
  | err e ↦ err e
  | ok n ↦ ok (take buflen response.randval)
]

-- `esdm_time_after`
unfoldable pub time_after : Timespec → Timespec → Bool
time_after curr timeout =
    if ltb timeout.tv_sec curr.tv_sec
    then true
    else curr.tv_sec == timeout.tv_sec && ltb timeout.tv_nsec curr.tv_nsec

-- The time at which the request with a timeout gives up.
unfoldable pub deadline : Timespec → Timespec → Timespec
deadline now ts =
    let tv_sec = now.tv_sec + ts.tv_sec in
    let tv_nsec = now.tv_nsec + ts.tv_nsec in
    if ltb 1000000000 tv_nsec
    then record { tv_sec = tv_sec + tv_nsec / 1000000000; tv_nsec = tv_nsec % 1000000000 }
    else record { tv_sec = tv_sec; tv_nsec = tv_nsec }

-- The return value of a request for `buflen` bytes, with the bytes written and the state.
abbrev pub finish :
    {S : Type 0} → ℕ → Run (Result (Unit {0}) × List ℕ × S) → Run (Result ℕ × List ℕ × S)
finish buflen m = m >>= λ r. some (elim (r.0) [ err e ↦ err e | ok u ↦ ok buflen ], r.1, r.2)

module _ {S : Type 0} (call : ℕ → S → Run (Reply RandomResponse × S)) where
  -- The rest of a round: `waiting` says what an EAGAIN leads to, none for an error as any other.
  unfoldable pub random_step :
      (S → Run Bool)
      → (ℕ → ℕ → List ℕ → S → Run (Result (Unit {0}) × List ℕ × S))
      → ℕ
      → ℕ
      → List ℕ
      → Result (List ℕ)
      → S
      → Run (Result (Unit {0}) × List ℕ × S)
  random_step waiting again maxbuflen buflen out (ok bytes) s =
      again maxbuflen (buflen - length bytes) (out ++ bytes) s
  random_step waiting again maxbuflen buflen out (err e) s =
      if ltb 255 (code e)
      then again (code e) buflen out s
      else if code e == 11
      then elim (waiting s) [
        | none ↦ some (err e, out, s)
        | some expired ↦ if expired then some (ok tt, out, s) else again maxbuflen buflen out s
      ]
      else some (err e, out, s)

  -- The loops of the requests for random bytes, on fuel, with the bytes so far.
  unfoldable pub random_loop :
      (S → Run Bool) → ℕ → ℕ → ℕ → List ℕ → S → Run (Result (Unit {0}) × List ℕ × S)
  unfolding random_step random_cb
  random_loop waiting zero maxbuflen buflen out s = none
  random_loop waiting (suc fuel) maxbuflen buflen out s = elim (buflen == 0) [
    | true ↦ some (ok tt, out, s)
    | false ↦ call (min_uint32 maxbuflen buflen) s >>= λ r.
        random_step waiting (random_loop waiting fuel) maxbuflen buflen out (random_cb buflen (r.0))
          (r.1)
  ]

  -- `esdm_rpcc_get_random_bytes_int`: EAGAIN is an error.
  unfoldable pub rpcc_get_random_bytes : ℕ → Result (Unit {0}) → ℕ → S → Run (Result ℕ × List ℕ × S)
  unfolding random_loop
  rpcc_get_random_bytes fuel (err e) buflen s = some (err e, [], s)
  rpcc_get_random_bytes fuel (ok u) buflen s =
      finish buflen (random_loop (λ t. none) fuel buflen buflen [] s)

  -- The requests with full or minimal security and with prediction resistance poll on EAGAIN.
  unfoldable pub rpcc_get_random_bytes_full :
      ℕ → Result (Unit {0}) → ℕ → S → Run (Result ℕ × List ℕ × S)
  unfolding random_loop
  rpcc_get_random_bytes_full fuel (err e) buflen s = some (err e, [], s)
  rpcc_get_random_bytes_full fuel (ok u) buflen s =
      finish buflen (random_loop (λ t. some false) fuel buflen buflen [] s)

  unfoldable pub rpcc_get_random_bytes_min :
      ℕ → Result (Unit {0}) → ℕ → S → Run (Result ℕ × List ℕ × S)
  unfolding random_loop
  rpcc_get_random_bytes_min fuel (err e) buflen s = some (err e, [], s)
  rpcc_get_random_bytes_min fuel (ok u) buflen s =
      finish buflen (random_loop (λ t. some false) fuel buflen buflen [] s)

  unfoldable pub rpcc_get_random_bytes_pr :
      ℕ → Result (Unit {0}) → ℕ → S → Run (Result ℕ × List ℕ × S)
  unfolding random_loop
  rpcc_get_random_bytes_pr fuel (err e) buflen s = some (err e, [], s)
  rpcc_get_random_bytes_pr fuel (ok u) buflen s =
      finish buflen (random_loop (λ t. some false) fuel buflen buflen [] s)

  -- `clock` reads the monotonic clock. Where the deadline has passed, an EAGAIN ends the loop.
  unfoldable pub rpcc_get_random_bytes_full_timeout :
      (S → Timespec) → ℕ → Result (Unit {0}) → Timespec → ℕ → S → Run (Result ℕ × List ℕ × S)
  unfolding random_loop time_after deadline
  rpcc_get_random_bytes_full_timeout clock fuel (err e) ts buflen s = some (err e, [], s)
  rpcc_get_random_bytes_full_timeout clock fuel (ok u) ts buflen s =
      let timeout = deadline (clock s) ts in
      finish buflen (random_loop (λ t. some (time_after (clock t) timeout)) fuel buflen buflen [] s)

-- The buffer of `esdm_rpcc_get_seed_int`: its return value, its length and the bytes written.
pub record SeedBuf : Type 0 where
  pub ret : Result ℕ
  pub buflen : ℕ
  pub buf : List ℕ

unfoldable pub seed_cb : Reply RandomResponse → SeedBuf → SeedBuf
seed_cb lost b = b
seed_cb (error_pointer e) b = record b { ret = err e }
seed_cb (answer response) b =
    let len = min_uint32 (length response.randval) b.buflen in
    record { ret = response.ret; buflen = len; buf = take len response.randval ++ drop len b.buf }

unfoldable pub is_again : Result ℕ → Bool
is_again (ok n) = false
is_again (err e) = code e == 11

module _ {S : Type 0} (call : S → Run (Reply RandomResponse × S)) where
  -- The loop, on fuel; the same buffer serves each of its rounds.
  unfoldable pub seed_poll : ℕ → Bool → SeedBuf → S → Run (SeedBuf × S)
  unfolding seed_cb is_again
  seed_poll zero noblock b s = none
  seed_poll (suc fuel) noblock b s = call s >>= λ r.
      let b' = seed_cb (r.0) b in
      elim (noblock || not (is_again b'.ret)) [
        | true ↦ some (b', r.1)
        | false ↦ seed_poll fuel noblock b' (r.1)
      ]

  unfoldable pub rpcc_get_seed : ℕ → Result (Unit {0}) → Bool → ℕ → S → Run (SeedBuf × S)
  unfolding seed_poll
  rpcc_get_seed fuel (err e) noblock buflen s =
      some (record { ret = err e; buflen = buflen; buf = [] }, s)
  rpcc_get_seed fuel (ok u) noblock buflen s =
      seed_poll fuel noblock (record { ret = err (errno 110); buflen = buflen; buf = [] }) s

-- The callbacks of the requests that only return a status.
unfoldable pub status_cb : Reply (Result (Unit {0})) → Result (Unit {0})
status_cb lost = err (errno 110)
status_cb (error_pointer e) = err e
status_cb (answer ret) = ret

module _ {S : Type 0} (call : List ℕ → S → Run (Reply (Result (Unit {0})) × S)) where
  -- The loop of `esdm_rpcc_write_data_int`, on fuel: the return value with the state.
  unfoldable pub write_chunks : ℕ → List ℕ → S → Run (Result (Unit {0}) × S)
  unfolding status_cb
  write_chunks zero bytes s = none
  write_chunks (suc fuel) bytes s = elim (length bytes == 0) [
    | true ↦ some (ok tt, s)
    | false ↦
        let todo = min_uint32 (length bytes) max_data in
        call (take todo bytes) s >>= λ r. elim (status_cb (r.0)) [
          | err e ↦ some (err e, r.1)
          | ok u ↦ write_chunks fuel (drop todo bytes) (r.1)
        ]
  ]

  -- Each round takes at least a byte.
  unfoldable pub rpcc_write_data : Result (Unit {0}) → List ℕ → S → Run (Result (Unit {0}) × S)
  unfolding write_chunks
  rpcc_write_data (err e) bytes s = some (err e, s)
  rpcc_write_data (ok u) bytes s = write_chunks (suc (length bytes)) bytes s

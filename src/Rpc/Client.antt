-- ===== src/Rpc/Client.antt =====
-- The client's side of one call, service-rpc/client/esdm_rpc_client.c: writing the request, reading
-- the response and handing it to the closure, and doing it again after a timeout.
use esdm.Base.{
  ℕ, ◌+◌, Bool, true, ◌&&◌, Option, none, some, List, [], ◌∷◌, ◌++◌, Result, ok, err, Errno, einval,
  eagain, efault, errno, Run, ◌>>=◌, ltb, leb, ◌==◌, if◌then◌else◌, min, length, take, drop,
}
use esdm.Rpc.{
  ReadEvent, Received, complete, end_of_file, read_error, receive, read32, header_length,
  client_pack,
}

-- The result of one `write` of the client. A timeout asks the caller's interrupt function, and a
-- broken pipe connects anew.
pub data ClientWrite : Type 0 where
  wrote : ℕ → ClientWrite
  timed_out : Bool → ClientWrite
  reconnected : Result (Unit {0}) → ClientWrite
  write_failed : Errno → ClientWrite

-- The loop of `esdm_rpc_client_write_data_fd`, with what has gone over the wire. The test compares
-- what has been written with what is left. An error other than success of a new connection ends it.
unfoldable pub client_write_loop :
    List ClientWrite → List ℕ → ℕ → List ℕ → Run (Result (Unit {0}) × List ℕ)
client_write_loop [] bytes written sent = none
client_write_loop (timed_out interrupt ∷ events) bytes written sent =
    let rest = client_write_loop events bytes written sent in
    if interrupt
    then some (err eagain, sent)
    else if ltb written (length bytes)
    then rest
    else some (ok tt, sent)
client_write_loop (reconnected (err e) ∷ events) bytes written sent = some (err e, sent)
client_write_loop (reconnected (ok u) ∷ events) bytes written sent =
    let rest = client_write_loop events bytes written sent in
    if ltb written (length bytes) then rest else some (ok tt, sent)
client_write_loop (write_failed e ∷ events) bytes written sent = some (err e, sent)
client_write_loop (wrote n ∷ events) bytes written sent =
    let k = min n (length bytes) in
    let left = drop k bytes in
    let rest = client_write_loop events left (written + k) (sent ++ take k bytes) in
    if ltb (written + k) (length left) then rest else some (ok tt, sent ++ take k bytes)

unfoldable pub client_write_data :
    Bool → List ClientWrite → List ℕ → Run (Result (Unit {0}) × List ℕ)
unfolding client_write_loop
client_write_data connected events bytes =
    if connected then client_write_loop events bytes 0 [] else some (err einval, [])

-- What the closure of a call is given: no call at all, an error pointer, or the unpacked response.
pub data Reply (A : Type 0) : Type 0 where
  lost : Reply A
  error_pointer : Errno → Reply A
  answer : A → Reply A

-- The return value of the read handler: again for a timeout, which has the request sent anew.
pub data Return : Type 0 where
  again : Return
  returned : Result (Unit {0}) → Return

module _ {Resp : Type 0} (unpack : List ℕ → Option Resp) where
  -- The closure's argument for a header with the status of a success.
  unfoldable pub unpacked : List ℕ → Reply Resp
  unpacked bytes = elim (unpack bytes) [
    | none ↦ error_pointer efault
    | some response ↦ answer response
  ]

  -- The closure's argument after the loop. `stack` is what the stack buffer holds behind the bytes
  -- that were received; EINTR is 4.
  unfoldable pub closure_argument : List ℕ → List ℕ → Reply Resp
  unfolding unpacked read32 header_length
  closure_argument stack buf =
      if leb 16 (length buf) && read32 0 buf == 0
      then unpacked (take (header_length 8 buf) (drop 16 (buf ++ stack)))
      else error_pointer (errno 4)

  -- `esdm_rpc_client_read_handler`. `interrupt` is the answer of the caller's interrupt function.
  unfoldable pub stopped : Bool → List ℕ → Received → Return × Reply Resp
  unfolding closure_argument
  stopped interrupt stack r = elim r.stop [
    | complete ↦ (returned (ok tt), closure_argument stack r.buf)
    | end_of_file ↦ (returned (ok tt), closure_argument stack r.buf)
    | read_error e ↦ elim e [
      | eagain ↦
          if interrupt then (returned (ok tt), closure_argument stack r.buf) else (again, lost)
      | other ↦ (returned (err other), closure_argument stack r.buf)
    ]
  ]

  unfoldable pub client_read : Bool → List ℕ → List ReadEvent → Run (Return × Reply Resp)
  unfolding receive stopped
  client_read interrupt stack events =
      receive 16 8 events [] 0 >>= λ r. some (stopped interrupt stack r)

-- What happens in one round of `esdm_client_invoke`: the connection, if there is none, the results
-- of its writes and reads, the interrupt function's answer and the stack's old contents.
pub record Round : Type 0 where
  pub connection : Result (Unit {0})
  pub writes : List ClientWrite
  pub reads : List ReadEvent
  pub interrupt : Bool
  pub stack : List ℕ

module _ {Resp : Type 0} (unpack : List ℕ → Option Resp) (memory : Bool) (message : List (List ℕ))
    (method_index : ℕ) where
  -- One round up to the read handler's return: no reply is handed over where it cannot be read.
  unfoldable pub client_round : Round → Run (Return × Reply Resp)
  unfolding client_write_data client_read
  client_round r = elim r.connection [
    | err e ↦ some (returned (err e), lost)
    | ok u ↦ elim (client_pack memory message method_index) [
      | err e ↦ some (returned (err e), lost)
      | ok bytes ↦ client_write_data true r.writes bytes >>= λ w. elim (w.0) [
        | err e ↦ some (returned (err e), lost)
        | ok v ↦ client_read unpack r.interrupt r.stack r.reads
      ]
    ]
  ]

  -- The closure's argument of a call.
  unfoldable pub client_invoke : List Round → Run (Reply Resp)
  unfolding client_round
  client_invoke [] = none
  client_invoke (r ∷ rounds) = client_round r >>= λ x. elim (x.0) [
    | again ↦ client_invoke rounds
    | returned ret ↦ some (x.1)
  ]

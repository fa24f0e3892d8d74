-- ===== src/Rpc/Server.antt =====
-- The server's handling of one request, service-rpc/server/esdm_rpc_server.c: unpacking, the call of
-- the method, and the response. The methods are a parameter, since the protobuf library calls them.
use esdm.Base.{
  ℕ, ◌+◌, Bool, true, Option, none, some, List, [], ◌∷◌, ◌++◌, Result, ok, err, Errno, einval,
  enomem, errno, Run, ◌>>=◌, ltb, leb, ◌==◌, if◌then◌else◌, min, length, take,
}
use esdm.Rpc.{Request, ReadEvent, rpcs_read, rpcs_pack}

-- The result of one `write`.
pub data WriteEvent : Type 0 where
  wrote : ℕ → WriteEvent
  write_failed : Errno → WriteEvent

-- The loop of `esdm_rpcs_write_data`, with what has gone over the wire. A round after a short write
-- hands over the data from its start again.
unfoldable pub rpcs_write_loop :
    List WriteEvent → List ℕ → ℕ → List ℕ → Run (Result (Unit {0}) × List ℕ)
rpcs_write_loop [] bytes written sent = none
rpcs_write_loop (write_failed e ∷ events) bytes written sent = some (err e, sent)
rpcs_write_loop (wrote n ∷ events) bytes written sent =
    let k = min n (length bytes) in
    let rest = rpcs_write_loop events bytes (written + k) (sent ++ take k bytes) in
    if ltb (written + k) (length bytes) then rest else some (ok tt, sent ++ take k bytes)

unfoldable pub rpcs_write_data : Bool → List WriteEvent → List ℕ → Run (Result (Unit {0}) × List ℕ)
unfolding rpcs_write_loop
rpcs_write_data connected events bytes =
    if connected then rpcs_write_loop events bytes 0 [] else some (err einval, [])

-- After a write that failed with EPIPE, which closes the connection, the request ends with EPIPE;
-- other failures of the response are only logged.
unfoldable pub after_response : Result (Unit {0}) → Result (Unit {0})
after_response (ok u) = ok tt
after_response (err (errno n)) = if n == 32 then err (errno 32) else ok tt
after_response (err e) = ok tt

-- What `service->invoke` does with a message of the method: the response, in pieces, none for one
-- that the protobuf library refuses to pack. `descriptor` is the number of methods and the
-- library's unpacking for each.
module _ {S Msg : Type 0} (n_methods : ℕ) (unpack : ℕ → List ℕ → Option Msg)
    (invoke : ℕ → Msg → S → Run (Option (List (List ℕ)) × S)) where
  -- `esdm_rpcs_response_closure`: the response is packed and written.
  unfoldable pub response_closure :
      Bool → List WriteEvent → Request → Option (List (List ℕ)) → Run (Result (Unit {0}) × List ℕ)
  unfolding rpcs_write_data
  response_closure memory writes request response =
      elim (rpcs_pack memory response request.method_index request.request_id) [
        | err e ↦ some (err e, [])
        | ok bytes ↦ rpcs_write_data true writes bytes
      ]

  -- `esdm_rpcs_unpack`
  unfoldable pub rpcs_unpack :
      Bool → List WriteEvent → Request → S → Run (Result (Unit {0}) × List ℕ × S)
  unfolding response_closure after_response
  rpcs_unpack memory writes request s =
      if leb n_methods request.method_index
      then some (err einval, [], s)
      else elim (unpack request.method_index request.payload) [
        | none ↦ some (err enomem, [], s)
        | some message ↦ invoke request.method_index message s >>= λ r.
            response_closure memory writes request (r.0) >>= λ w.
            some (after_response (w.0), w.1, r.1)
      ]

  -- `esdm_rpcs_read` with the request's processing: its return value and what was sent.
  unfoldable pub serve_one :
      Bool → List WriteEvent → List ReadEvent → S → Run (Result (Unit {0}) × List ℕ × S)
  unfolding rpcs_unpack
  serve_one memory writes reads s = rpcs_read reads >>= λ r. elim r [
    | err e ↦ some (err e, [], s)
    | ok request ↦ rpcs_unpack memory writes request s
  ]

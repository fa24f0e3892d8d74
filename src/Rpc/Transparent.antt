-- ===== src/Rpc/Transparent.antt =====
-- A call of a method over a connection, both sides together.
use esdm.Base.{
  ℕ, ◌+◌, ◌≤◌, ◌<◌, Bool, true, false, Option, some, List, [], ◌∷◌, ◌++◌, ok, Run, ◌≡◌, refl, ap,
  arith, ltb, min, length, drop, All, map,
}
use esdm.Rpc.{max_msg_size, packed_size, client_pack, ReadEvent, got}
use esdm.Rpc.Receive.{concat, IsNonempty, take_all}
use esdm.Rpc.Server
use esdm.Rpc.Server.{serve_one}
use esdm.Rpc.Client.{
  ClientWrite, wrote, client_write_loop, client_write_data, answer, returned, Round, client_round,
  client_invoke,
}
use esdm.Rpc.Exchange.{response_bytes, client_read-response, serve_one-request}

drop_all {ℓ} : {A : Type ℓ} (xs : List A) → drop (length xs) xs ≡ []
drop_all [] = refl
drop_all (x ∷ xs) = drop_all xs

client_write_data-whole :
    (n : ℕ) (events : List ClientWrite) (bytes : List ℕ)
    → length bytes ≤ n
    → client_write_data true (wrote n ∷ events) bytes ≡ some (ok tt, bytes)
unfolding client_write_data client_write_loop
client_write_data-whole n events bytes h =
    let all : min n (length bytes) ≡ length bytes = omega arith in
    let last : ltb (0 + length bytes) 0 ≡ false = ground arith in
    rw (all, drop_all bytes, last)
      (ap (λ l. some (ok tt, l)) (take_all (length bytes) bytes (omega arith)))

-- The results of one round, where the request is written at once.
abbrev pub whole_round : ℕ → List (List ℕ) → List ReadEvent → Bool → List ℕ → Round
whole_round n responses after interrupt stack = record {
  connection = ok tt;
  writes = wrote n ∷ [];
  reads = map got responses ++ after;
  interrupt = interrupt;
  stack = stack;
}

client_round-whole :
    {Resp : Type 0} (unpack : List ℕ → Option Resp) (m : ℕ) (message requests : List (List ℕ))
    (response responses : List (List ℕ)) (after : List ReadEvent) (n : ℕ) (interrupt : Bool)
    (stack : List ℕ) (answered : Resp)
    → client_pack true message m ≡ ok (concat requests)
    → length (concat requests) ≤ n
    → packed_size response ≤ max_msg_size
    → concat responses ≡ response_bytes m 0 response
    → All IsNonempty responses
    → unpack (concat response) ≡ some answered
    → client_round unpack true message m (whole_round n responses after interrupt stack)
      ≡ some (returned (ok tt), answer answered)
unfolding client_round
client_round-whole unpack m message requests response responses after n interrupt stack answered
      packed sent small back some_responses u =
    rw (packed, client_round)
      (rw (client_write_data-whole n [] (concat requests) sent) (
        client_read-response unpack m 0 response responses after interrupt stack answered small back
          some_responses u))

module _ {S Msg Resp : Type 0} (n_methods : ℕ) (unpack : ℕ → List ℕ → Option Msg)
    (invoke : ℕ → Msg → S → Run (Option (List (List ℕ)) × S))
    (unpack_response : List ℕ → Option Resp) where
  -- Let the client pack a request, the server know its method and the protobuf library unpack it to
  -- a message, on which the method returns a response of at most 65536 bytes, which the library
  -- unpacks again. Then, in whatever nonempty chunks request and response arrive, whatever follows
  -- them, where each is written at once, the server runs the method once on that message and sends its response, and
  -- the closure of the client's call is given that response.
  pub client_invoke-serve_one :
      (m : ℕ) (message requests response responses : List (List ℕ)) (n k : ℕ)
      (later after : List ReadEvent) (interrupt : Bool) (stack : List ℕ) (s t : S) (received : Msg)
      (answered : Resp)
      → client_pack true message m ≡ ok (concat requests)
      → All IsNonempty requests
      → length (concat requests) ≤ n
      → m < n_methods
      → n_methods ≤ 4294967295
      → unpack m (concat message) ≡ some received
      → invoke m received s ≡ some (some response, t)
      → packed_size response ≤ max_msg_size
      → concat responses ≡ response_bytes m 0 response
      → All IsNonempty responses
      → length (concat responses) ≤ k
      → unpack_response (concat response) ≡ some answered
      → (serve_one n_methods unpack invoke true (Server.wrote k ∷ []) (map got requests ++ later) s
          ≡ some (ok tt, concat responses, t))
        × (client_invoke unpack_response true message m
              (whole_round n responses after interrupt stack ∷ [])
            ≡ some (answer answered))
  unfolding client_invoke
  client_invoke-serve_one m message requests response responses n k later after interrupt stack s t
        received answered packed some_requests sent known few u call small back some_responses
        replied u' =
      (
        rw back (
            serve_one-request n_methods unpack invoke m message requests response later k [] s t
              received packed some_requests known (omega arith) u call small (rw (← back) replied)),
        rw
            (client_round-whole unpack_response m message requests response responses after n
              interrupt stack answered packed sent small back some_responses u')
            refl,
      )

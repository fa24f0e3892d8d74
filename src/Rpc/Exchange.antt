-- ===== src/Rpc/Exchange.antt =====
-- A call over a connection is a call of the method: what the client packs is what the server
-- unpacks, and the response comes back the same way.
use esdm.Base.{
  ℕ, zero, suc, ◌+◌, ◌≤◌, ◌<◌, ◌&&◌, ◌||◌, Bool, true, false, Option, some, List, [], ◌∷◌, ◌++◌,
  Bool-cases, inl, inr, ltb_false→le, ok, Run, ◌≡◌, refl, ap, arith, ltb, leb, ◌==◌, length, min,
  take, drop, All, map,
}
use mathlib.Core.List.{append_assoc}
use esdm.Rpc.{
  max_msg_size, read32, cs_header, sc_header, packed_size, client_pack, pack_internal, rpcs_pack,
  ReadEvent, got, complete, header_length, check_received, rpcs_read,
}
use esdm.Rpc.Headers.{length-concat, append_data-concat, cs_fields, sc_fields}
use esdm.Rpc.Receive.{concat, IsNonempty, IsMessage, take_all, expected-le, receive-complete}
use esdm.Rpc.Server.{
  WriteEvent, wrote, rpcs_write_loop, rpcs_write_data, response_closure, after_response,
  rpcs_unpack, serve_one,
}
use esdm.Rpc.Client.{returned, answer, unpacked, closure_argument, client_read}

-- What a successful packing of the client holds.
pub client_pack-ok :
    (message : List (List ℕ)) (m : ℕ) (bytes : List ℕ)
    → client_pack true message m ≡ ok bytes
    → (packed_size message ≤ max_msg_size)
      × (bytes ≡ cs_header m (packed_size message) 0 ++ concat message)
unfolding client_pack
client_pack-ok message m bytes e = elim (Bool-cases (ltb max_msg_size (packed_size message))) [
  | inl long ↦ absurd (ground arith)
  | inr short ↦
      let fits = ltb_false→le _ _ short in
      (fits, ground (arith, append_data-concat message [] (omega arith)))
]

module _ (m : ℕ) (message : List (List ℕ)) (small : packed_size message ≤ max_msg_size)
    (word : m < 4294967296) where
  abbrev request : List ℕ
  request = cs_header m (packed_size message) 0 ++ concat message

  request-IsMessage : IsMessage 12 4 request × (length request ≡ 12 + packed_size message)
  unfolding cs_header
  request-IsMessage =
      let fields =
        cs_fields m (packed_size message) 0 (concat message) word (omega arith) (omega arith) in
      let len : length request ≡ 12 + packed_size message = omega (arith, length-concat message) in
      (
        record {
          offset = omega arith;
          size = omega (arith, fields.1, len);
          small = omega (arith, fields.1);
        },
        len,
      )

  request_payload : take (header_length 4 request) (drop 12 request) ≡ concat message
  unfolding header_length
  request_payload =
      let fields =
        cs_fields m (packed_size message) 0 (concat message) word (omega arith) (omega arith) in
      let len : header_length 4 request ≡ packed_size message = ground (arith, fields.1) in
      rw (len, fields.3) (take_all _ (concat message) (omega (arith, length-concat message)))

  check_received-request :
      (fetch : ℕ)
      → fetch ≤ length request
      → check_received (record { stop = complete; buf = request; data_to_fetch = fetch })
        ≡ ok (record { method_index = m; request_id = 0; payload = concat message })
  unfolding check_received
  check_received-request fetch h =
      let fields =
        cs_fields m (packed_size message) 0 (concat message) word (omega arith) (omega arith) in
      let long : (ltb (length request) 12 || ltb (length request) fetch) ≡ false =
        ground (arith, request-IsMessage.1) in
      rw (long, fields.0, fields.2, request_payload) refl

-- What the server reads of a request that the client packed.
pub rpcs_read-client_pack :
    (m : ℕ) (message chunks : List (List ℕ)) (after : List ReadEvent)
    → client_pack true message m ≡ ok (concat chunks)
    → m < 4294967296
    → All IsNonempty chunks
    → rpcs_read (map got chunks ++ after)
      ≡ some (ok (record { method_index = m; request_id = 0; payload = concat message }))
unfolding rpcs_read
rpcs_read-client_pack m message chunks after e word some_bytes =
    let (small, bytes) = client_pack-ok message m (concat chunks) e in
    let (v, len) = request-IsMessage m message small word in
    rw
      (receive-complete 12 4 (request m message small word) v chunks after [] 0 0 bytes
        (omega (arith, len)) some_bytes (omega arith) refl)
      (ap some (check_received-request m message small word _ (expected-le 12 4 _ v)))

-- A response of success: the bytes that `pack_internal` makes.
abbrev pub response_bytes : ℕ → ℕ → List (List ℕ) → List ℕ
response_bytes method_index request_id response =
    sc_header 0 method_index (packed_size response) request_id ++ concat response

pack_internal-ok :
    (m r : ℕ) (response : List (List ℕ))
    → packed_size response ≤ max_msg_size
    → rpcs_pack true (some response) m r ≡ ok (response_bytes m r response)
unfolding rpcs_pack pack_internal
pack_internal-ok m r response small =
    let fits : ltb max_msg_size (packed_size response) ≡ false = ground arith in
    rw (fits, append_data-concat response [] (omega arith)) refl

module _ (m r : ℕ) (response : List (List ℕ)) (small : packed_size response ≤ max_msg_size) where
  response-IsMessage :
      IsMessage 16 8 (response_bytes m r response)
      × (length (response_bytes m r response) ≡ 16 + packed_size response)
  unfolding sc_header
  response-IsMessage =
      let fields =
        sc_fields 0 m (packed_size response) r (concat response) (omega arith) (omega arith) in
      let len : length (response_bytes m r response) ≡ 16 + packed_size response =
        omega (arith, length-concat response) in
      (
        record {
          offset = omega arith;
          size = omega (arith, fields.1, len);
          small = omega (arith, fields.1);
        },
        len,
      )

take-append_left {ℓ} :
    {A : Type ℓ} (n : ℕ) (xs ys : List A) → length xs ≡ n → take n (xs ++ ys) ≡ xs
take-append_left zero [] ys h = refl
take-append_left zero (x ∷ xs) ys h = absurd (omega arith)
take-append_left (suc n) [] ys h = absurd (omega arith)
take-append_left (suc n) (x ∷ xs) ys h = ap (λ t. x ∷ t) (take-append_left n xs ys (omega arith))

module _ {Resp : Type 0} (unpack : List ℕ → Option Resp) where
  closure_argument-response :
      (m r : ℕ) (response : List (List ℕ)) (stack : List ℕ) (answered : Resp)
      → packed_size response ≤ max_msg_size
      → unpack (concat response) ≡ some answered
      → closure_argument unpack stack (response_bytes m r response) ≡ answer answered
  unfolding closure_argument header_length unpacked
  closure_argument-response m r response stack answered small u =
      let size = packed_size response in
      let fields = sc_fields 0 m size r (concat response) (omega arith) (omega arith) in
      let behind = sc_fields 0 m size r (concat response ++ stack) (omega arith) (omega arith) in
      let (v, len) = response-IsMessage m r response small in
      let success : (leb 16 (length (response_bytes m r response))
            && (read32 0 (response_bytes m r response) == 0))
          ≡ true =
        ground (arith, fields.0) in
      let whole : header_length 8 (response_bytes m r response) ≡ size = ground (arith, fields.1) in
      rw (success, whole, append_assoc (sc_header 0 m size r) (concat response) stack, behind.2)
        (rw (take-append_left size (concat response) stack (length-concat response), u, unpacked)
          refl)

  -- The client hands a whole response to the closure, whatever its method index and request number.
  pub client_read-response :
      (m r : ℕ) (response chunks : List (List ℕ)) (after : List ReadEvent) (interrupt : Bool)
      (stack : List ℕ) (answered : Resp)
      → packed_size response ≤ max_msg_size
      → concat chunks ≡ response_bytes m r response
      → All IsNonempty chunks
      → unpack (concat response) ≡ some answered
      → client_read unpack interrupt stack (map got chunks ++ after)
        ≡ some (returned (ok tt), answer answered)
  unfolding client_read
  client_read-response m r response chunks after interrupt stack answered small e some_bytes u =
      let (v, len) = response-IsMessage m r response small in
      rw
        (receive-complete 16 8 (response_bytes m r response) v chunks after [] 0 0 e
          (omega (arith, len)) some_bytes (omega arith) refl)
        (ap (λ t. some (returned (ok tt), t))
          (closure_argument-response m r response stack answered small u))

-- What the server does with the request.
module _ {S Msg : Type 0} (n_methods : ℕ) (unpack : ℕ → List ℕ → Option Msg)
    (invoke : ℕ → Msg → S → Run (Option (List (List ℕ)) × S)) where
  pub serve_one-request :
      (m : ℕ) (message chunks response : List (List ℕ)) (after : List ReadEvent) (n : ℕ)
      (writes : List WriteEvent) (s t : S) (received : Msg)
      → client_pack true message m ≡ ok (concat chunks)
      → All IsNonempty chunks
      → m < n_methods
      → m < 4294967296
      → unpack m (concat message) ≡ some received
      → invoke m received s ≡ some (some response, t)
      → packed_size response ≤ max_msg_size
      → length (response_bytes m 0 response) ≤ n
      → serve_one n_methods unpack invoke true (wrote n ∷ writes) (map got chunks ++ after) s
        ≡ some (ok tt, response_bytes m 0 response, t)
  unfolding serve_one rpcs_unpack response_closure rpcs_write_data rpcs_write_loop after_response
  serve_one-request m message chunks response after n writes s t received e some_bytes known word u
        call small all_written =
      let bytes = response_bytes m 0 response in
      let method : leb n_methods m ≡ false = ground arith in
      let all : min n (length bytes) ≡ length bytes = omega arith in
      let last : ltb (0 + length bytes) (length bytes) ≡ false = ground arith in
      rw
        (
          rpcs_read-client_pack m message chunks after e word some_bytes,
          method,
          u,
          rpcs_unpack,
          call,
        )
        (rw (pack_internal-ok m 0 response small, response_closure)
          (rw (all, last)
            (ap (λ l. some (ok tt, l, t)) (take_all (length bytes) bytes (omega arith)))))

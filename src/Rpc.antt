-- ===== src/Rpc.antt =====
-- The transport of the RPC layer: service-rpc/service/esdm_rpc_protocol.h and
-- esdm_rpc_protocol_helper.c, the client's side in service-rpc/client/esdm_rpc_client.c and the
-- server's in service-rpc/server/esdm_rpc_server.c, built with ESDM_RPCC_BUF_WRITE and
-- ESDM_RPCS_BUF_WRITE (the default) on a little-endian machine. The protobuf library is a
-- parameter: a packed message is the list of the pieces that it appends to a buffer.
pub mod Receive
pub mod Server
pub mod Client
pub mod Headers
pub mod Exchange
pub mod Transparent
pub mod Startup
pub mod Connections
pub mod Limits
pub mod Methods
pub mod Requests
pub mod Writes
use esdm.Base.{
  ℕ, ◌+◌, ◌*◌, ◌-◌, ◌/◌, ◌%◌, Bool, true, false, ◌&&◌, ◌||◌, Option, none, some, List, [], ◌∷◌,
  ◌++◌, Result, ok, err, Errno, einval, eagain, efault, enomem, errno, Run, ◌>>=◌, ltb, leb, ◌==◌,
  if◌then◌else◌, min_uint32, length, get_or, take, drop,
}

-- ESDM_RPC_MAX_MSG_SIZE and ESDM_RPC_MAX_DATA.
abbrev pub max_msg_size : ℕ
max_msg_size = 65536

abbrev pub max_data : ℕ
max_data = 65520

-- The memory image of a uint32_t, and the one read back from an offset of a buffer.
unfoldable pub image32 : ℕ → List ℕ
image32 v = v % 256 ∷ v / 256 % 256 ∷ v / 65536 % 256 ∷ v / 16777216 % 256 ∷ []

unfoldable pub read32 : ℕ → List ℕ → ℕ
read32 at buf =
    get_or buf at 0
    + get_or buf (at + 1) 0 * 256
    + get_or buf (at + 2) 0 * 65536
    + get_or buf (at + 3) 0 * 16777216

-- `struct esdm_rpc_proto_cs_header` and `struct esdm_rpc_proto_sc_header` in memory.
unfoldable pub cs_header : ℕ → ℕ → ℕ → List ℕ
unfolding image32
cs_header method_index message_length request_id =
    image32 method_index ++ (image32 message_length ++ image32 request_id)

unfoldable pub sc_header : ℕ → ℕ → ℕ → ℕ → List ℕ
unfolding image32
sc_header status_code method_index message_length request_id =
    image32 status_code ++ (image32 method_index ++ (image32 message_length ++ image32 request_id))

-- `esdm_rpc_write_data_to_buf`: EOVERFLOW where the piece does not fit.
unfoldable pub write_data_to_buf : List ℕ → List ℕ → Result (List ℕ)
write_data_to_buf written piece =
    if ltb max_msg_size (length written + length piece)
    then err (errno 75)
    else ok (written ++ piece)

-- `esdm_rpc_append_data` for each piece: one that does not fit is left out.
unfoldable pub append_data : List (List ℕ) → List ℕ → List ℕ
unfolding write_data_to_buf
append_data [] written = written
append_data (piece ∷ pieces) written =
    append_data pieces
      (elim (write_data_to_buf written piece) [ err e ↦ written | ok written' ↦ written' ])

-- `protobuf_c_message_get_packed_size`: the pieces' bytes.
abbrev pub packed_size : List (List ℕ) → ℕ
packed_size [] = 0
packed_size (piece ∷ pieces) = length piece + packed_size pieces

-- `esdm_rpc_client_pack` up to the write; `memory`: the allocation succeeds.
unfoldable pub client_pack : Bool → List (List ℕ) → ℕ → Result (List ℕ)
unfolding append_data cs_header
client_pack memory message method_index =
    let message_length = packed_size message in
    if ltb max_msg_size message_length
    then err efault
    else if memory
    then ok (cs_header method_index message_length 0 ++ append_data message [])
    else err enomem

-- `esdm_rpcs_pack_internal` up to the write.
unfoldable pub pack_internal : Bool → List (List ℕ) → ℕ → ℕ → Result (List ℕ)
unfolding append_data sc_header
pack_internal memory message method_index request_id =
    let message_length = packed_size message in
    if ltb max_msg_size message_length
    then err efault
    else if memory
    then ok (sc_header 0 method_index message_length request_id ++ append_data message [])
    else err enomem

-- `esdm_rpcs_pack`: no message stands for one that `protobuf_c_message_check` refuses.
unfoldable pub rpcs_pack : Bool → Option (List (List ℕ)) → ℕ → ℕ → Result (List ℕ)
unfolding pack_internal sc_header
rpcs_pack memory none method_index request_id = ok (sc_header 1 method_index 0 request_id)
rpcs_pack memory (some message) method_index request_id =
    pack_internal memory message method_index request_id

-- The result of one `read`: no bytes at the end of the connection.
pub data ReadEvent : Type 0 where
  got : List ℕ → ReadEvent
  failed : Errno → ReadEvent

-- Why a receive loop stops.
pub data Stop : Type 0 where
  complete end_of_file : Stop
  read_error : Errno → Stop

pub record Received : Type 0 where
  pub stop : Stop
  pub buf : List ℕ
  pub data_to_fetch : ℕ

-- The message length of the header, truncated, and the bytes to fetch with the header.
unfoldable pub header_length : ℕ → List ℕ → ℕ
unfolding read32
header_length at buf = min_uint32 (read32 at buf) max_msg_size

unfoldable pub to_fetch : ℕ → ℕ → List ℕ → ℕ → ℕ
unfolding header_length
to_fetch header at buf data_to_fetch =
    if ltb (length buf) header
    then data_to_fetch
    else if data_to_fetch == 0
    then (if header_length at buf == 0 then 0 else header_length at buf + header)
    else data_to_fetch

-- Whether the loop is over with what has been received.
unfoldable pub enough : ℕ → List ℕ → ℕ → Bool
enough header buf fetch =
    if ltb (length buf) header
    then false
    else fetch == 0 || leb fetch (length buf) || leb (max_msg_size + header) (length buf)

-- The end of a round that has received something: the loop is over, or goes on with `more`.
unfoldable pub next : (List ℕ → ℕ → Run Received) → List ℕ → ℕ → Bool → Run Received
next more buf fetch true = some (record { stop = complete; buf = buf; data_to_fetch = fetch })
next more buf fetch false = more buf fetch

-- The rest of a round, with the bytes of its `read`.
unfoldable pub absorb : ℕ → ℕ → (List ℕ → ℕ → Run Received) → List ℕ → ℕ → List ℕ → Run Received
unfolding next
absorb header at more buf fetch chunk =
    let fetch' = to_fetch header at (buf ++ chunk) fetch in
    if length chunk == 0
    then some (record { stop = end_of_file; buf = buf; data_to_fetch = fetch })
    else next more (buf ++ chunk) fetch' (enough header (buf ++ chunk) fetch')

-- The receive loops of `esdm_rpc_client_read_handler` and `esdm_rpcs_read`, which differ in the size
-- of the header and the offset `at` of the message length. A `read` returns at most as many bytes as
-- are left in the buffer; one that waits for ever is a run that does not return.
unfoldable pub receive : ℕ → ℕ → List ReadEvent → List ℕ → ℕ → Run Received
receive header at [] buf fetch = none
receive header at (failed e ∷ events) buf fetch =
    some (record { stop = read_error e; buf = buf; data_to_fetch = fetch })
receive header at (got bytes ∷ events) buf fetch =
    absorb header at (λ buf' fetch'. receive header at events buf' fetch') buf fetch
      (take (max_msg_size + header - length buf) bytes)

-- What the server reads off a connection.
pub record Request : Type 0 where
  pub method_index : ℕ
  pub request_id : ℕ
  pub payload : List ℕ

-- The end of `esdm_rpcs_read` before `esdm_rpcs_unpack`.
unfoldable pub check_received : Received → Result Request
unfolding read32 header_length
check_received r = elim r.stop [
  | read_error e ↦ err e
  | end_of_file ↦ err eagain
  | complete ↦
      if ltb (length r.buf) 12 || ltb (length r.buf) r.data_to_fetch
      then err einval
      else ok (record {
        method_index = read32 0 r.buf;
        request_id = read32 8 r.buf;
        payload = take (header_length 4 r.buf) (drop 12 r.buf);
      })
]

unfoldable pub rpcs_read : List ReadEvent → Run (Result Request)
unfolding receive check_received
rpcs_read events = receive 12 4 events [] 0 >>= λ r. some (check_received r)

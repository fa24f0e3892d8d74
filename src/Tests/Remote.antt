-- ===== src/Tests/Remote.antt =====
-- The theorems on the RPC layer and the hexadecimal coder, applied to concrete data.
use esdm.Base.{
  ◌+◌, ℕ, ◌%◌, ◌*◌, zero, suc, true, false, Option, none, some, List, [], ◌∷◌, ◌++◌, ok, err,
  eagain, length, ◌≡◌, ◌≢◌, ◌⊎◌, refl, arith, Run, Ensures, Yields, map,
}
use esdm.Hex.{bin2hex_alloc, hex2bin_alloc}
use esdm.Hex.RoundTrip.{hex2bin_alloc-bin2hex_alloc}
use esdm.Rpc.{
  got, failed, receive, client_pack, append_data, write_data_to_buf, cs_header, sc_header, image32,
}
use esdm.Rpc.Limits.{Contained, receive-Contained}
use esdm.Rpc.Server
use esdm.Rpc.Server.{serve_one}
use esdm.Rpc.Client.{Reply, answer, wrote, client_invoke}
use esdm.Rpc.Transparent.{whole_round, client_invoke-serve_one}
use esdm.Rpc.Receive.{concat}
use esdm.Rpc.Methods.{RandomResponse, rpc_get_random_bytes, rpc_write_data}
use esdm.Rpc.Requests.{SeedBuf, rpcc_get_seed, rpcc_get_random_bytes, rpcc_write_data}
use esdm.Rpc.Requests.Random.{over}
use esdm.Rpc.Requests.Serves.{Received, rpcc_get_random_bytes-Received}
use esdm.Rpc.Requests.Seed.{rpcc_get_seed_unfilled}
use esdm.Rpc.Requests.Write.{IsPiece, each, answering, rpcc_write_data-each}
use esdm.Rpc.Startup.{
  world, priv_init_complete, Master, Unpriv, outside, monitor_tests, monitor_sets, init_seen, here,
  later,
}
use esdm.Rpc.Startup.Order.{Follows, stage, serving, has_root, startup-Follows}
use esdm.Rpc.Connections.{
  absent, init_service, get_service, put_service, rpcc_get_online_nodes, rpcc_curr_node,
  rpcc_set_max_online_nodes,
}
use esdm.Rpc.Connections.Take.{held, with_one, get_service-put_service}
use esdm.Base.{All}
use esdm.Tests.{platform, system, accepts, bounded, within, system-Ready}

hex2bin_alloc-bin2hex_alloc_example :
    (hex : List ℕ) × (bin2hex_alloc true (1 ∷ 255 ∷ []) ≡ ok hex)
    × (length hex ≡ length {A = ℕ} (1 ∷ 255 ∷ []) * 2)
    × (hex2bin_alloc true hex ≡ ok (1 ∷ 255 ∷ []))
hex2bin_alloc-bin2hex_alloc_example =
    hex2bin_alloc-bin2hex_alloc (1 ∷ 255 ∷ []) (omega arith) (omega arith)

receive-Contained_example :
    Ensures (Contained 12 4) (receive 12 4 (got (1 ∷ 0 ∷ 0 ∷ []) ∷ failed eagain ∷ []) [] 0)
receive-Contained_example =
    receive-Contained 12 4 (omega arith) (got (1 ∷ 0 ∷ 0 ∷ []) ∷ failed eagain ∷ [])

rpcc_get_random_bytes-Received_example : Yields (Received 70000) (
    rpcc_get_random_bytes
      (over (λ n. rpc_get_random_bytes platform (some n)))
      70003
      (ok tt)
      70000
      (system 256))
rpcc_get_random_bytes-Received_example =
    rpcc_get_random_bytes-Received platform accepts bounded within 70000 (system 256)
      (system-Ready 256)

rpcc_write_data-each_example :
    (parts : List (List ℕ)) × (concat parts ≡ 1 ∷ 2 ∷ [])
    × All IsPiece parts
    × (rpcc_write_data
          (answering (λ piece t. rpc_write_data platform (some piece) t))
          (ok tt)
          (1 ∷ 2 ∷ [])
          (system 0)
        ≡ some (each (λ piece t. rpc_write_data platform (some piece) t) parts (system 0)))
rpcc_write_data-each_example = rpcc_write_data-each platform (1 ∷ 2 ∷ []) (system 0)

-- The number of calls before the seed is there.
abbrev seed_call : ℕ → Run (Reply RandomResponse × ℕ)
seed_call zero = some (answer (record { ret = ok 3; randval = 7 ∷ 8 ∷ 9 ∷ [] }), 0)
seed_call (suc k) = some (answer (record { ret = err eagain; randval = [] }), k)

rpcc_get_seed_unfilled_example :
    Ensures (λ (r : SeedBuf × ℕ). (r.0).buf ≡ []) (rpcc_get_seed seed_call 5 (ok tt) false 3 1)
rpcc_get_seed_unfilled_example = rpcc_get_seed_unfilled seed_call 5 3 1 0 refl

startup-Follows_example :
    Follows
      (stage (world priv_init_complete Master.awaits_init Unpriv.absent outside true))
      (stage (world priv_init_complete Master.starts Unpriv.absent outside true))
    × ((stage (world priv_init_complete Master.starts Unpriv.absent outside true) ≢ serving)
        ⊎ (has_root (world priv_init_complete Master.starts Unpriv.absent outside true) ≡ false))
startup-Follows_example = startup-Follows (later (later here monitor_tests) monitor_sets) init_seen

get_service-put_service_example :
    let n = rpcc_get_online_nodes 8 4 in
    let node = rpcc_curr_node (rpcc_set_max_online_nodes 2 8) (7 % 4) in
    let (ret, s) = init_service true (ok tt) n absent in
    (ret ≡ ok tt)
    × (get_service node 5 s ≡ some (ok node, with_one n node (held true 5)))
    × (get_service node 6 (with_one n node (held true 5)) ≡ none)
    × (put_service (ok node) (with_one n node (held true 5)) ≡ with_one n node (held false 5))
get_service-put_service_example =
    get_service-put_service 8 2 7 4 5 6 (omega arith) (omega arith) (omega arith)

-- One method, which returns the bytes of its message in reverse; a message is its bytes.
abbrev echo : ℕ → List ℕ → ℕ → Run (Option (List (List ℕ)) × ℕ)
echo method message calls = some (some (message ∷ []), calls + 1)

abbrev request_chunks : List (List ℕ)
request_chunks = (0 ∷ 0 ∷ 0 ∷ 0 ∷ 2 ∷ []) ∷ (0 ∷ 0 ∷ 0 ∷ 0 ∷ 0 ∷ 0 ∷ 0 ∷ 5 ∷ []) ∷ (6 ∷ []) ∷ []

abbrev response_chunks : List (List ℕ)
response_chunks =
    (0 ∷ 0 ∷ 0 ∷ 0 ∷ 0 ∷ 0 ∷ 0 ∷ 0 ∷ 2 ∷ 0 ∷ []) ∷ (0 ∷ 0 ∷ 0 ∷ 0 ∷ 0 ∷ 0 ∷ 5 ∷ 6 ∷ []) ∷ []

client_invoke-serve_one_example :
    (serve_one 1
        (λ m bytes. some bytes)
        echo
        true
        (Server.wrote 99 ∷ [])
        (map got request_chunks ++ [])
        0
      ≡ some (ok tt, concat response_chunks, 1))
    × (client_invoke
          (λ bytes. some bytes)
          true
          ((5 ∷ 6 ∷ []) ∷ [])
          0
          (whole_round 99 response_chunks [] false [] ∷ [])
        ≡ some (answer (5 ∷ 6 ∷ [])))
unfolding client_pack append_data write_data_to_buf cs_header sc_header image32
client_invoke-serve_one_example =
    client_invoke-serve_one 1 (λ m bytes. some bytes) echo (λ bytes. some bytes) 0
      ((5 ∷ 6 ∷ []) ∷ []) request_chunks ((5 ∷ 6 ∷ []) ∷ []) response_chunks 99 99 [] [] false [] 0
      1 (5 ∷ 6 ∷ []) (5 ∷ 6 ∷ []) refl (omega arith) (omega arith) (omega arith) (omega arith) refl
      refl (omega arith) refl (omega arith) (omega arith) refl

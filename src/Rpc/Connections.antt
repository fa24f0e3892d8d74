-- ===== src/Rpc/Connections.antt =====
-- The client's connections, one per node, of service-rpc/client/esdm_rpc_client.c: their set-up, the
-- choice of one for a call, and its return. The sockets, the memory and the status page of the test
-- build are parameters where they can fail.
pub mod Take
use esdm.Base.{
  ℕ, zero, suc, ◌%◌, Bool, true, false, Option, none, some, List, [], ◌∷◌, Result, ok, err, efault,
  enomem, eagain, errno, not, Run, ◌>>=◌, ltb, leb, if◌then◌else◌, min_uint32, get_elem?, set,
  replicate, map,
}

-- `esdm_rpcc_initialized` and `esdm_rpcc_in_termination`.
pub data ConnState : Type 0 where
  initialized in_termination : ConnState

-- `ref_cnt`: the lock that one caller holds. `data` of the interrupt function is a number.
pub record Connection : Type 0 where
  pub connected : Bool
  pub ref_cnt : Bool
  pub state : ConnState
  pub interrupt_data : ℕ

-- The pointer to the connections: dangling where what it points to has been freed.
pub data Pointer : Type 0 where
  null dangling : Pointer
  live : List Connection → Pointer

-- `unpriv_rpc_conn` with `unpriv_rpc_conn_num`, or the privileged ones.
pub record Service : Type 0 where
  pub conns : Pointer
  pub num_conn : ℕ

abbrev pub absent : Service
absent = record { conns = null; num_conn = 0 }

-- `esdm_init_proto_service` on a zeroed connection.
abbrev pub fresh : Connection
fresh = record { connected = false; ref_cnt = false; state = initialized; interrupt_data = 0 }

-- `esdm_rpcc_get_online_nodes` and `esdm_rpcc_curr_node`, of `esdm_rpcc_max_nodes`.
unfoldable pub rpcc_get_online_nodes : ℕ → ℕ → ℕ
rpcc_get_online_nodes max_nodes online = min_uint32 max_nodes online

unfoldable pub rpcc_curr_node : ℕ → ℕ → ℕ
rpcc_curr_node max_nodes curr = curr % max_nodes

-- `esdm_rpcc_set_max_online_nodes`
unfoldable pub rpcc_set_max_online_nodes : ℕ → ℕ → ℕ
rpcc_set_max_online_nodes nodes max_nodes = min_uint32 max_nodes nodes

-- The part of `esdm_rpcc_init_service` that allocates: the new connections are exchanged for a null
-- pointer only. `status` is the result of the test build's status page.
unfoldable pub allocate : Bool → Result (Unit {0}) → ℕ → Service → Result (Unit {0}) × Service
allocate memory status nodes s = if not memory then (err enomem, s) else elim status [
  | err e ↦ (err e, s)
  | ok u ↦ elim s.conns [
    | null ↦ (ok tt, record { conns = live (replicate nodes fresh); num_conn = nodes })
    | _ ↦ (err eagain, s)
  ]
]

-- `esdm_rpcc_init_service` for as many nodes. Connections that are too few are freed first.
unfoldable pub init_service : Bool → Result (Unit {0}) → ℕ → Service → Result (Unit {0}) × Service
unfolding allocate
init_service memory status nodes s = elim s.conns [
  | null ↦ allocate memory status nodes s
  | _ ↦
      if leb nodes s.num_conn
      then (ok tt, s)
      else allocate memory status nodes (record { conns = dangling; num_conn = 0 })
]

-- `esdm_rpcc_fini_service`; the connections are waited for and freed.
unfoldable pub fini_service : Service → Service
fini_service s = absent

-- The rest of `esdm_rpcc_get_service` on the chosen connection. One in use blocks the call.
unfoldable pub take_conn : List Connection → ℕ → ℕ → Connection → Run (Result ℕ × List Connection)
take_conn conns node int_data c = if c.ref_cnt then none else elim c.state [
  | initialized ↦
      some (ok node, set conns node (record c { ref_cnt = true; interrupt_data = int_data }))
  | in_termination ↦ some (err (errno 108), conns)
]

-- `esdm_rpcc_get_service` for the caller's node: the index of its connection. A read past the
-- connections or of freed ones is a run that does not return.
unfoldable pub get_service : ℕ → ℕ → Service → Run (Result ℕ × Service)
unfolding take_conn
get_service curr int_data s =
    let node = min_uint32 curr s.num_conn in
    elim s.conns [
      | null ↦ some (err efault, s)
      | dangling ↦ none
      | live conns ↦ elim (get_elem? conns node) [
        | none ↦ none
        | some c ↦
            take_conn conns node int_data c >>= λ r. some (r.0, record s { conns = live (r.1) })
      ]
    ]

unfoldable pub put_one : ℕ → List Connection → List Connection
put_one node conns = elim (get_elem? conns node) [
  | none ↦ conns
  | some c ↦ set conns node (record c { ref_cnt = false })
]

-- `esdm_rpcc_put_service`, without effect where no connection was taken.
unfoldable pub put_service : Result ℕ → Service → Service
unfolding put_one
put_service (err e) s = s
put_service (ok node) s = elim s.conns [
  | live conns ↦ record s { conns = live (put_one node conns) }
  | _ ↦ s
]

-- ===== src/Rpc/Connections/Take.antt =====
-- A connection for each node, taken and given back.
use esdm.Base.{
  ℕ, zero, suc, ◌%◌, ◌<◌, Bool, true, false, none, some, List, [], ◌∷◌, ok, ◌≡◌, refl, ap, arith,
  min_uint32, length, get_elem?, set, replicate, length-replicate,
}
use esdm.Rpc.Connections.{
  initialized, Connection, live, Service, absent, fresh, rpcc_get_online_nodes, rpcc_curr_node,
  rpcc_set_max_online_nodes, allocate, init_service, take_conn, get_service, put_one, put_service,
}

-- The connection of every node is in bounds, also after the number of nodes was lowered.
pub node_bounds :
    (max_nodes nodes cpu online : ℕ)
    → 0 < max_nodes
    → 0 < nodes
    → 0 < online
    → rpcc_curr_node (rpcc_set_max_online_nodes nodes max_nodes) (cpu % online)
      < rpcc_get_online_nodes max_nodes online
unfolding rpcc_curr_node rpcc_get_online_nodes rpcc_set_max_online_nodes
node_bounds max_nodes nodes cpu online h k l = grind arith

get_elem?-replicate : {A : Type 0} (n i : ℕ) (a : A) → i < n → get_elem? (replicate n a) i ≡ some a
get_elem?-replicate zero i a h = absurd (omega arith)
get_elem?-replicate (suc n) zero a h = refl
get_elem?-replicate (suc n) (suc i) a h = get_elem?-replicate n i a (omega arith)

get_elem?-set_self :
    {A : Type 0} (xs : List A) (i : ℕ) (a : A) → i < length xs → get_elem? (set xs i a) i ≡ some a
get_elem?-set_self [] i a h = absurd (omega arith)
get_elem?-set_self (x ∷ xs) zero a h = refl
get_elem?-set_self (x ∷ xs) (suc i) a h = get_elem?-set_self xs i a (omega arith)

set-set : {A : Type 0} (xs : List A) (i : ℕ) (a b : A) → set (set xs i a) i b ≡ set xs i b
set-set [] i a b = refl
set-set (x ∷ xs) zero a b = refl
set-set (x ∷ xs) (suc i) a b = ap (λ t. x ∷ t) (set-set xs i a b)

-- A connection that is held, and one that was given back, with the interrupt data of its caller.
abbrev pub held : Bool → ℕ → Connection
held taken int_data = record {
  connected = false;
  ref_cnt = taken;
  state = initialized;
  interrupt_data = int_data;
}

-- New connections of which that of one node is changed.
abbrev pub with_one : ℕ → ℕ → Connection → Service
with_one n node c = record { conns = live (set (replicate n fresh) node c); num_conn = n }

get_service_free :
    (n node int_data : ℕ)
    → node < n
    → get_service node int_data (record { conns = live (replicate n fresh); num_conn = n })
      ≡ some (ok node, with_one n node (held true int_data))
unfolding get_service take_conn
get_service_free n node int_data h =
    let index : min_uint32 node n ≡ node = ground arith in
    rw (index, get_service, get_elem?-replicate n node fresh h) (rw index refl)

get_service-held :
    (n node int_data again : ℕ)
    → node < n
    → get_service node again (with_one n node (held true int_data)) ≡ none
unfolding get_service take_conn
get_service-held n node int_data again h =
    let index : min_uint32 node n ≡ node = ground arith in
    rw
      (
        index,
        get_service,
        get_elem?-set_self (replicate n fresh) node (held true int_data)
            (omega (arith, length-replicate n fresh)),
      )
      refl

put_one-held :
    (n node int_data : ℕ)
    → node < n
    → put_one node (set (replicate n fresh) node (held true int_data))
      ≡ set (replicate n fresh) node (held false int_data)
unfolding put_one
put_one-held n node int_data h =
    rw
      (
        get_elem?-set_self (replicate n fresh) node (held true int_data)
            (omega (arith, length-replicate n fresh)),
        put_one,
        set-set,
      )
      refl

put_service-held :
    (n node int_data : ℕ)
    → node < n
    → put_service (ok node) (with_one n node (held true int_data))
      ≡ with_one n node (held false int_data)
unfolding put_service
put_service-held n node int_data h =
    ap (λ (t : List Connection). let s : Service = record { conns = live t; num_conn = n } in s)
      (put_one-held n node int_data h)

-- After the set-up for `max_nodes` nodes at most, a caller on any CPU takes a connection within the
-- bounds, also where the number of nodes has been lowered since; nobody else can take it until it
-- is given back, and giving it back frees it.
pub get_service-put_service :
    (max_nodes nodes cpu online int_data again : ℕ)
    → 0 < max_nodes
    → 0 < nodes
    → 0 < online
    → let n = rpcc_get_online_nodes max_nodes online in
      let node = rpcc_curr_node (rpcc_set_max_online_nodes nodes max_nodes) (cpu % online) in
      let (ret, s) = init_service true (ok tt) n absent in
      (ret ≡ ok tt)
      × (get_service node int_data s ≡ some (ok node, with_one n node (held true int_data)))
      × (get_service node again (with_one n node (held true int_data)) ≡ none)
      × (put_service (ok node) (with_one n node (held true int_data))
          ≡ with_one n node (held false int_data))
unfolding init_service allocate
get_service-put_service max_nodes nodes cpu online int_data again h k l =
    let n = rpcc_get_online_nodes max_nodes online in
    let node = rpcc_curr_node (rpcc_set_max_online_nodes nodes max_nodes) (cpu % online) in
    let inside = node_bounds max_nodes nodes cpu online h k l in
    (
      refl,
      get_service_free n node int_data inside,
      get_service-held n node int_data again inside,
      put_service-held n node int_data inside,
    )

-- ===== src/Rpc/Startup.antt =====
-- The start of the RPC server, service-rpc/server/esdm_rpc_server.c: the monitor thread, the thread
-- of the privileged interface, which starts the other one and drops the privileges, and the thread of
-- the unprivileged interface. They meet at `esdm_rpc_init_state`. Every interleaving of their
-- steps is a sequence of steps of the relation; a wait is a step that only its condition enables.
pub mod Order
use esdm.Base.{Bool, true, false}

-- `enum esdm_rpcs_init_state`
pub data InitState : Type 0 where
  uninitialized priv_init_complete unpriv_init perm_dropped : InitState

-- Where the main thread of the server process stands: `esdm_rpc_server_init` up to the wait for the
-- privileged initialisation, then `esdm_rpcs_interfaces_init`.
pub data Master : Type 0 where
  awaits_init starts spawns awaits_unpriv drops announces serves stopped : Master

-- Where `esdm_rpcs_unpriv_init` stands; `absent` before its thread is there.
pub data Unpriv : Type 0 where
  absent starts announces awaits_drop serves stopped : Unpriv

-- `esdm_rpc_priv_init_complete`: between its test and its assignment, or not in it.
pub data Monitor : Type 0 where
  outside tested : Monitor

-- The last component: the process still has the privileges of root.
pub data World : Type 0 where
  world : InitState → Master → Unpriv → Monitor → Bool → World

abbrev pub boot : World
boot = world uninitialized Master.awaits_init Unpriv.absent outside true

pub data Step : World → World → Type 0 where
  monitor_tests :
      {m : Master} {u : Unpriv} {r : Bool}
      → Step (world uninitialized m u outside r) (world uninitialized m u tested r)
  monitor_sets :
      {i : InitState} {m : Master} {u : Unpriv} {r : Bool}
      → Step (world i m u tested r) (world priv_init_complete m u outside r)
  init_seen :
      {u : Unpriv} {o : Monitor} {r : Bool}
      → Step
          (world priv_init_complete Master.awaits_init u o r)
          (world priv_init_complete Master.starts u o r)
  priv_started :
      {i : InitState} {u : Unpriv} {o : Monitor} {r : Bool}
      → Step (world i Master.starts u o r) (world i Master.spawns u o r)
  priv_fails :
      {i : InitState} {u : Unpriv} {o : Monitor} {r : Bool}
      → Step (world i Master.starts u o r) (world i Master.stopped u o r)
  thread_started :
      {i : InitState} {o : Monitor} {r : Bool}
      → Step
          (world i Master.spawns Unpriv.absent o r)
          (world i Master.awaits_unpriv Unpriv.starts o r)
  thread_fails :
      {i : InitState} {u : Unpriv} {o : Monitor} {r : Bool}
      → Step (world i Master.spawns u o r) (world i Master.stopped u o r)
  unpriv_started :
      {i : InitState} {m : Master} {o : Monitor} {r : Bool}
      → Step (world i m Unpriv.starts o r) (world i m Unpriv.announces o r)
  unpriv_fails :
      {i : InitState} {m : Master} {o : Monitor} {r : Bool}
      → Step (world i m Unpriv.starts o r) (world i m Unpriv.stopped o r)
  unpriv_announces :
      {i : InitState} {m : Master} {o : Monitor} {r : Bool}
      → Step (world i m Unpriv.announces o r) (world unpriv_init m Unpriv.awaits_drop o r)
  unpriv_seen :
      {u : Unpriv} {o : Monitor} {r : Bool}
      → Step (world unpriv_init Master.awaits_unpriv u o r) (world unpriv_init Master.drops u o r)
  dropped :
      {i : InitState} {u : Unpriv} {o : Monitor} {r : Bool}
      → Step (world i Master.drops u o r) (world i Master.announces u o false)
  drop_fails :
      {i : InitState} {u : Unpriv} {o : Monitor} {r : Bool}
      → Step (world i Master.drops u o r) (world i Master.stopped u o r)
  drop_announced :
      {i : InitState} {u : Unpriv} {o : Monitor} {r : Bool}
      → Step (world i Master.announces u o r) (world perm_dropped Master.serves u o r)
  drop_seen :
      {m : Master} {o : Monitor} {r : Bool}
      → Step (world perm_dropped m Unpriv.awaits_drop o r) (world perm_dropped m Unpriv.serves o r)

pub data Reach : World → Type 0 where
  here : Reach boot
  later : {w v : World} → Reach w → Step w v → Reach v

-- ===== src/Rpc/Startup/Order.antt =====
-- No client is served with the privileges of root, and the start does not come to a standstill.
use esdm.Base.{Bool, true, false, ◌≡◌, ◌≢◌, refl, ◌⊎◌, inl, inr}
use esdm.Rpc.Startup.{
  uninitialized, priv_init_complete, unpriv_init, perm_dropped, Master, Unpriv, Monitor, outside,
  World, world, Step, monitor_tests, monitor_sets, init_seen, priv_started, priv_fails,
  thread_started, thread_fails, unpriv_started, unpriv_fails, unpriv_announces, unpriv_seen,
  dropped, drop_fails, drop_announced, drop_seen, Reach, here, later,
}

-- The combinations of the threads' positions that occur.
data Phase : World → Type 0 where
  booting : {o : Monitor} → Phase (world uninitialized Master.awaits_init Unpriv.absent o true)
  complete : Phase (world priv_init_complete Master.awaits_init Unpriv.absent outside true)
  starting : Phase (world priv_init_complete Master.starts Unpriv.absent outside true)
  spawning : Phase (world priv_init_complete Master.spawns Unpriv.absent outside true)
  never_started : Phase (world priv_init_complete Master.stopped Unpriv.absent outside true)
  unpriv_starting : Phase (world priv_init_complete Master.awaits_unpriv Unpriv.starts outside true)
  unpriv_announcing :
      Phase (world priv_init_complete Master.awaits_unpriv Unpriv.announces outside true)
  unpriv_failed : Phase (world priv_init_complete Master.awaits_unpriv Unpriv.stopped outside true)
  announced : Phase (world unpriv_init Master.awaits_unpriv Unpriv.awaits_drop outside true)
  dropping : Phase (world unpriv_init Master.drops Unpriv.awaits_drop outside true)
  not_dropped : Phase (world unpriv_init Master.stopped Unpriv.awaits_drop outside true)
  announcing : Phase (world unpriv_init Master.announces Unpriv.awaits_drop outside false)
  one_serves : Phase (world perm_dropped Master.serves Unpriv.awaits_drop outside false)
  both_serve : Phase (world perm_dropped Master.serves Unpriv.serves outside false)

Step-Phase : {w v : World} → Step w v → Phase w → Phase v
Step-Phase monitor_tests booting = booting
Step-Phase monitor_sets booting = complete
Step-Phase init_seen complete = starting
Step-Phase priv_started starting = spawning
Step-Phase priv_fails starting = never_started
Step-Phase thread_started spawning = unpriv_starting
Step-Phase thread_fails spawning = never_started
Step-Phase unpriv_started unpriv_starting = unpriv_announcing
Step-Phase unpriv_fails unpriv_starting = unpriv_failed
Step-Phase unpriv_announces unpriv_announcing = announced
Step-Phase unpriv_seen announced = dropping
Step-Phase dropped dropping = announcing
Step-Phase drop_fails dropping = not_dropped
Step-Phase drop_announced announcing = one_serves
Step-Phase drop_seen one_serves = both_serve

Reach-Phase : {w : World} → Reach w → Phase w
Reach-Phase here = booting
Reach-Phase (later r s) = Step-Phase s (Reach-Phase r)

-- What an administrator relies on: root without clients, then no privileges, then clients.
pub data Stage : Type 0 where
  privileged unprivileged serving : Stage

pub data Advance : Stage → Stage → Type 0 where
  drop : Advance privileged unprivileged
  open_up : Advance unprivileged serving

abbrev by_privilege : Bool → Stage
by_privilege true = privileged
by_privilege false = unprivileged

-- The stage of the two threads: clients are served once one of the two serves.
abbrev pub stage : World → Stage
stage (world i Master.serves u o r) = serving
stage (world i m Unpriv.serves o r) = serving
stage (world i m u o r) = by_privilege r

abbrev pub has_root : World → Bool
has_root (world i m u o r) = r

-- A step of the threads is a step of the stages, or changes none of them.
abbrev pub Follows : Stage → Stage → Type 0
Follows a b = (b ≡ a) ⊎ Advance a b

Step-Follows : {w v : World} → Step w v → Phase w → Follows (stage w) (stage v)
Step-Follows monitor_tests booting = inl refl
Step-Follows monitor_sets booting = inl refl
Step-Follows init_seen complete = inl refl
Step-Follows priv_started starting = inl refl
Step-Follows priv_fails starting = inl refl
Step-Follows thread_started spawning = inl refl
Step-Follows thread_fails spawning = inl refl
Step-Follows unpriv_started unpriv_starting = inl refl
Step-Follows unpriv_fails unpriv_starting = inl refl
Step-Follows unpriv_announces unpriv_announcing = inl refl
Step-Follows unpriv_seen announced = inl refl
Step-Follows dropped dropping = inr drop
Step-Follows drop_fails dropping = inl refl
Step-Follows drop_announced announcing = inr open_up
Step-Follows drop_seen one_serves = inl refl

serves_bare : {w : World} → Phase w → (stage w ≢ serving) ⊎ (has_root w ≡ false)
serves_bare booting = inl (λ e. cc)
serves_bare complete = inl (λ e. cc)
serves_bare starting = inl (λ e. cc)
serves_bare spawning = inl (λ e. cc)
serves_bare never_started = inl (λ e. cc)
serves_bare unpriv_starting = inl (λ e. cc)
serves_bare unpriv_announcing = inl (λ e. cc)
serves_bare unpriv_failed = inl (λ e. cc)
serves_bare announced = inl (λ e. cc)
serves_bare dropping = inl (λ e. cc)
serves_bare not_dropped = inl (λ e. cc)
serves_bare announcing = inl (λ e. cc)
serves_bare one_serves = inr refl
serves_bare both_serve = inr refl

-- In every interleaving of the server's start, the threads follow three stages: the process is
-- privileged and serves nobody, then it has dropped the privileges and serves nobody yet, then it
-- serves clients. No step goes back or skips a stage, so that no client is ever served while the
-- process has the privileges of root.
pub startup-Follows :
    {w v : World}
    → Reach w
    → Step w v
    → Follows (stage w) (stage v) × ((stage v ≢ serving) ⊎ (has_root v ≡ false))
startup-Follows r s = (Step-Follows s (Reach-Phase r), serves_bare (Step-Phase s (Reach-Phase r)))

-- Both threads serve, or one has failed.
abbrev pub is_settled : World → Bool
is_settled (world i Master.stopped u o r) = true
is_settled (world i m Unpriv.stopped o r) = true
is_settled (world i Master.serves Unpriv.serves o r) = true
is_settled w = false

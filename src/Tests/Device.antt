-- ===== src/Tests/Device.antt =====
-- The theorems on the CUSE devices, applied to concrete data.
use esdm.Base.{
  ◌+◌, ℕ, ◌<◌, suc, true, false, Option, none, some, List, [], ◌∷◌, ◌++◌, Result, ok, err, eagain,
  length, length-replicate, replicate, ◌≡◌, refl, arith, Run, Yields, ◌==◌, if◌then◌else◌,
}
use esdm.System.{Sys}
use esdm.AuxPool.{pool_insert_aux}
use esdm.Rpc.{max_msg_size}
use esdm.Cuse.{reply_write, read_internal, write_internal}
use esdm.Cuse.Poll.{
  PollFlags, HandleCall, no_polls, cuse_poll, poll_check, get_pollmask, cleanup, register,
}
use esdm.Cuse.Poll.Handles.{held, destroyed}
use esdm.Cuse.Poll.History.{PollOp, polls, checks, releases, history, dropped, given}
use esdm.Cuse.Poll.Order.{late, history-accounted_once}
use esdm.Cuse.Poll.Wake.{notified, poll_check-cuse_poll}
use esdm.Cuse.Ioctl.{IoctlCalls, Daemon, ioctl, rnd_clear_pool}
use esdm.Cuse.Ioctl.Guards.{Refused, ioctl-Refused}
use esdm.Cuse.Reads.{Served}
use esdm.Cuse.Urandom.{AnyByte, client_get, urandom_read-Served}
use esdm.Cuse.Writes.{write_internal_twice}
use esdm.DrngMgr.Ready.{Ready}
use esdm.Sources.{data_equal}
use esdm.Sources.Slow.{SlowSource, absent}
use esdm.Tests.{platform, system, accepts, bounded, within, system-Ready}

abbrev quiet : PollFlags
quiet = record {
  operational = false;
  need_entropy = false;
  suspend_trigger = false;
  poll_thread_shutdown = false;
}

abbrev seeded_flags : PollFlags
seeded_flags = record quiet { operational = true }

-- Two files wait to read; one is closed before the ESDM is operational.
abbrev ops : List PollOp
ops = polls 2 65 (some 7) quiet ∷ polls 3 65 (some 8) quiet ∷ releases 3 ∷ checks seeded_flags ∷ []

history-accounted_once_example :
    let p = history ops no_polls in
    (destroyed 7 p.calls + held 7 p.slots + dropped 7 ops no_polls ≡ given 7 ops)
    × (late 7 p.calls ≡ 0)
history-accounted_once_example = history-accounted_once 7 ops (omega arith)

poll_check-cuse_poll_example :
    (calls : List HandleCall) × ((poll_check seeded_flags
        (cuse_poll 2 65 (some 7) quiet no_polls).2).1.calls
      ≡ (cuse_poll 2 65 (some 7) quiet no_polls).2.calls ++ calls)
    × (0 < notified 7 calls)
unfolding cuse_poll get_pollmask register cleanup
poll_check-cuse_poll_example =
    poll_check-cuse_poll 2 65 7 quiet seeded_flags no_polls refl refl refl

-- Calls that count how often they are made.
abbrev counting : IoctlCalls ℕ
counting = record {
  get_ent_cnt = λ s. some (ok s, s);
  add_to_ent_cnt = λ level n s. some (ok tt, suc s);
  add_entropy = λ level bytes n s. some (ok tt, suc s);
  clear_pool = λ level s. some (ok tt, suc s);
  reseed_crng = λ level s. some (ok tt, suc s);
  backend = some (λ cmd s. some (ok tt, suc s));
  info = [];
}

abbrev daemon : {S : Type 0} → S → Daemon S
daemon s = record { privileged = false; outside = s }

ioctl-Refused_example :
    Refused (daemon {S = ℕ} 0) (ioctl counting false false rnd_clear_pool [] 0 (daemon 0))
ioctl-Refused_example = ioctl-Refused counting false rnd_clear_pool [] 0 (daemon 0) refl

abbrev after_insert : Sys ℕ ℕ (List ℕ)
after_insert = (pool_insert_aux platform (1 ∷ 2 ∷ []) 8 (system 3)).1

abbrev sevens : ℕ → ℕ → Run (Result ℕ × List ℕ × ℕ)
sevens n s = some (ok n, replicate n 7, s)

abbrev IsSeven : ℕ → Type 0
IsSeven b = b ≡ 7

urandom_read-Served_example :
    Yields
      (Served (Ready false) AnyByte 100)
      (read_internal true false (client_get platform) (client_get platform) none 100 (system 3))
urandom_read-Served_example =
    urandom_read-Served platform accepts bounded within true (client_get platform) 100 (system 3)
      (system-Ready 3)

-- The server takes one piece.
abbrev one_piece : List ℕ → ℕ → Run (Result (Unit {0}) × ℕ)
one_piece bytes s = if s == 0 then some (ok tt, 1) else some (err eagain, 2)

abbrev takes_all : List ℕ → ℕ → Run (Option ℕ × ℕ)
takes_all bytes s = some (some (length bytes), 3)

write_internal_twice_example :
    write_internal one_piece (some takes_all) (replicate 65537 1) 0
    ≡ some (reply_write (max_msg_size + length {A = ℕ} (replicate 65537 1)), 3)
write_internal_twice_example =
    write_internal_twice one_piece takes_all (replicate 65537 1) eagain 0 1 2 3
      (omega (arith, length-replicate {A = ℕ} 65537 1)) refl refl refl refl

abbrev no_source : SlowSource
no_source = record { fd = absent; requested_bits_set = 0; data_size = data_equal }

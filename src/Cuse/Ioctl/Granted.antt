-- ===== src/Cuse/Ioctl/Granted.antt =====
-- What root can do, and what is left of the privileges afterwards.
use esdm.Base.{ℕ, false, Option, some, List, ok, ◌≡◌}
use esdm.System.{Sys, Platform}
use esdm.Rpc.Methods.{
  rpc_rnd_get_ent_cnt, rpc_rnd_add_to_ent_cnt, rpc_rnd_add_entropy, rpc_rnd_clear_pool,
  rpc_rnd_reseed_crng,
}
use esdm.Cuse.{FuseReply}
use esdm.Cuse.Ioctl.{KernelCmd, IoctlCalls, Call, Daemon}

abbrev pub Bare : {S : Type 0} → FuseReply × Daemon S → Type 0
Bare r = r.1.privileged ≡ false

module _ {X D H : Type 0} (p : Platform X D H) where
  -- Calls that reach the server.
  abbrev pub server_calls :
      Option (KernelCmd → Call (Sys X D H) (Unit {0})) → List ℕ → IoctlCalls (Sys X D H)
  server_calls device text = record {
    get_ent_cnt = λ s. some (ok (rpc_rnd_get_ent_cnt s), s);
    add_to_ent_cnt = λ level n s. some (rpc_rnd_add_to_ent_cnt level (some n) s);
    add_entropy = λ level bytes n s. some (rpc_rnd_add_entropy p level (some bytes) n s);
    clear_pool = λ level s. some (rpc_rnd_clear_pool level s);
    reseed_crng = λ level s. some (rpc_rnd_reseed_crng level s);
    backend = device;
    info = text;
  }

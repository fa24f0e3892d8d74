-- ===== src/Cuse/Ioctl/Guards.antt =====
-- What a client can do to the state outside the daemon.
use esdm.Base.{
  ℕ, ◌-◌, Bool, true, false, some, List, Run, ◌≡◌, refl, ltb, leb, ◌==◌, if◌then◌else◌, length,
}
use esdm.Rpc.{read32}
use esdm.Cuse.{FuseReply, reply_err, reply_retry}
use esdm.Cuse.Ioctl.{
  IoctlCmd, rnd_get_ent_cnt, rnd_add_to_ent_cnt, rnd_add_entropy, rnd_zap_ent_cnt, rnd_clear_pool,
  rnd_reseed_crng, esdm_info, esdm_reseed_kernel, other, IoctlCalls, Daemon, with_privilege,
  with_pool_info, ioctl,
}

-- The commands that change the ESDM or the kernel.
abbrev pub changes : IoctlCmd → Bool
changes rnd_get_ent_cnt = false
changes esdm_info = false
changes other = false
changes cmd = true

-- A reply that grants nothing: an error, or the call for more data.
pub data IsRefusal : FuseReply → Type 0 where
  by_error : {e : ℕ} → IsRefusal (reply_err e)
  by_retry : {i o : ℕ} → IsRefusal (reply_retry i o)

abbrev pub Refused : {S : Type 0} → Daemon S → Run (FuseReply × Daemon S) → Type 0
Refused d m = (reply : FuseReply) × (m ≡ some (reply, d)) × IsRefusal reply

Refused-if :
    {S : Type 0} (d : Daemon S) (b : Bool) {m n : Run (FuseReply × Daemon S)}
    → Refused d m
    → Refused d n
    → Refused d (if b then m else n)
Refused-if d true x y = x
Refused-if d false x y = y

module _ {S : Type 0} (d : Daemon S) where
  denied : Refused d (some (reply_err 1, d))
  denied = (reply_err 1, refl, by_error)

  with_pool_info-Refused :
      (in_buf : List ℕ) {m : Run (FuseReply × Daemon S)}
      → Refused d m
      → Refused d (with_pool_info in_buf (λ reply. some (reply, d)) m)
  unfolding with_pool_info
  with_pool_info-Refused in_buf x =
      Refused-if d (ltb (length in_buf) 8) (_, refl, by_retry)
        (Refused-if d (leb 2147483648 (read32 4 in_buf)) (_, refl, by_error)
          (Refused-if d (read32 4 in_buf == length in_buf - 8) x (_, refl, by_retry)))

-- A client that is not root is refused every command that changes the ESDM or the kernel, whatever
-- data it sends: the call returns an error or asks for more data, and neither the state outside nor
-- the privileges of the daemon have changed.
pub ioctl-Refused :
    {S : Type 0} (c : IoctlCalls S) (compat : Bool) (cmd : IoctlCmd) (in_buf : List ℕ)
    (out_bufsz : ℕ) (d : Daemon S)
    → changes cmd ≡ true
    → Refused d (ioctl c compat false cmd in_buf out_bufsz d)
unfolding ioctl with_privilege
ioctl-Refused c true cmd in_buf out d h = (_, refl, by_error)
ioctl-Refused c false rnd_add_to_ent_cnt in_buf out d h =
    Refused-if d (ltb (length in_buf) 4) (_, refl, by_retry) (denied d)
ioctl-Refused c false rnd_add_entropy in_buf out d h = with_pool_info-Refused d in_buf (denied d)
ioctl-Refused c false rnd_zap_ent_cnt in_buf out d h = denied d
ioctl-Refused c false rnd_clear_pool in_buf out d h = denied d
ioctl-Refused c false rnd_reseed_crng in_buf out d h = denied d
ioctl-Refused c false esdm_reseed_kernel in_buf out d h = with_pool_info-Refused d in_buf (denied d)
ioctl-Refused c false rnd_get_ent_cnt in_buf out d h = absurd cc
ioctl-Refused c false esdm_info in_buf out d h = absurd cc
ioctl-Refused c false other in_buf out d h = absurd cc

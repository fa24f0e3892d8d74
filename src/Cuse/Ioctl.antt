-- ===== src/Cuse/Ioctl.antt =====
-- `esdm_cuse_ioctl` of frontends/cuse/cuse_device.c. The client library and the kernel's own device are
-- parameters: calls on the state outside the daemon.
pub mod Guards
pub mod Granted
use esdm.Base.{
  ℕ, zero, suc, ◌+◌, ◌-◌, Bool, true, false, not, ◌&&◌, Option, none, some, List, [], Result, ok,
  err, errno, code, Run, ◌>>=◌, ltb, leb, ◌==◌, if◌then◌else◌, length, take, drop,
}
use esdm.Rpc.{image32, read32}
use esdm.Cuse.{FuseReply, reply_err, reply_ioctl, reply_retry, invoke}

-- The commands; 42 and 43 are those of the ESDM itself.
pub data IoctlCmd : Type 0 where
  rnd_get_ent_cnt rnd_add_to_ent_cnt rnd_add_entropy rnd_zap_ent_cnt rnd_clear_pool : IoctlCmd
  rnd_reseed_crng esdm_info esdm_reseed_kernel other : IoctlCmd

-- The commands that the daemon hands on to the kernel.
pub data KernelCmd : Type 0 where
  kernel_add_to_ent_cnt : ℕ → KernelCmd
  kernel_add_entropy : List ℕ → KernelCmd
  kernel_clear_pool kernel_reseed_crng : KernelCmd

abbrev pub Call : Type 0 → Type 0 → Type 0
Call S A = S → Run (Result A × S)

-- The calls of the client library; the Boolean says whether the daemon has the privileges of root
-- while it calls. `backend` is the kernel's device, none where its descriptor is not open.
pub record IoctlCalls (S : Type 0) : Type 0 where
  pub get_ent_cnt : Call S ℕ
  pub add_to_ent_cnt : Bool → ℕ → Call S (Unit {0})
  pub add_entropy : Bool → List ℕ → ℕ → Call S (Unit {0})
  pub clear_pool : Bool → Call S (Unit {0})
  pub reseed_crng : Bool → Call S (Unit {0})
  pub backend : Option (KernelCmd → Call S (Unit {0}))
  pub info : List ℕ

-- The daemon: whether it has the privileges of root, and the state outside.
pub record Daemon (S : Type 0) : Type 0 where
  pub privileged : Bool
  pub outside : S

abbrev pub finish_ioctl : Result (Unit {0}) → FuseReply
finish_ioctl (ok u) = reply_ioctl []
finish_ioctl (err e) = reply_err (code e)

-- The frame of the commands that need privileges: `esdm_cuse_client_privileged` is `root`; the body
-- runs between `esdm_cuse_raise_privilege_transient` and `esdm_cuse_drop_privilege_transient`.
unfoldable pub with_privilege :
    {S : Type 0} → Bool → (Bool → Call S (Unit {0})) → Daemon S → Run (FuseReply × Daemon S)
with_privilege root body d =
    if root
    then (body true d.outside >>= λ r.
        some (finish_ioctl (r.0), record { privileged = false; outside = r.1 }))
    else some (reply_err 1, d)

-- A `struct rand_pool_info`: a count of entropy, the size of the data and the data.
unfoldable pub with_pool_info : {A : Type 0} → List ℕ → (FuseReply → A) → A → A
unfolding read32
with_pool_info in_buf answer proceed =
    if ltb (length in_buf) 8
    then answer (reply_retry 8 0)
    else if leb 2147483648 (read32 4 in_buf)
    then answer (reply_err 22)
    else if read32 4 in_buf == length in_buf - 8
    then proceed
    else answer (reply_retry (8 + read32 4 in_buf) 0)

module _ {S : Type 0} (c : IoctlCalls S) where
  unfoldable pub kernel_call : KernelCmd → Call S (Unit {0})
  kernel_call cmd s = elim c.backend [ none ↦ some (ok tt, s) | some device ↦ device cmd s ]

  -- The kernel is called where the server failed; without it, there is no error.
  unfoldable pub or_kernel : KernelCmd → Result (Unit {0}) × S → Run (Result (Unit {0}) × S)
  unfolding kernel_call
  or_kernel cmd (ok u, s) = some (ok u, s)
  or_kernel cmd (err e, s) = kernel_call cmd s

  -- The kernel is called where the server succeeded.
  unfoldable pub then_kernel : KernelCmd → Result (Unit {0}) × S → Run (Result (Unit {0}) × S)
  unfolding kernel_call
  then_kernel cmd (ok u, s) = kernel_call cmd s
  then_kernel cmd (err e, s) = some (err e, s)

  -- What a command does between the change of the privileges and their drop, by the level of the
  -- daemon. The commands that need no privileges have no such part.
  unfoldable pub privileged_part : IoctlCmd → List ℕ → Bool → Call S (Unit {0})
  unfolding or_kernel then_kernel kernel_call
  privileged_part rnd_add_to_ent_cnt in_buf level s =
      invoke 5 (c.add_to_ent_cnt level (read32 0 in_buf)) s
      >>= or_kernel (kernel_add_to_ent_cnt (read32 0 in_buf))
  privileged_part rnd_add_entropy in_buf level s =
      invoke 5 (c.add_entropy level (drop 8 in_buf) (read32 0 in_buf)) s
      >>= or_kernel (kernel_add_entropy in_buf)
  privileged_part rnd_zap_ent_cnt in_buf level s =
      invoke 5 (c.clear_pool level) s >>= then_kernel kernel_clear_pool
  privileged_part rnd_clear_pool in_buf level s =
      invoke 5 (c.clear_pool level) s >>= then_kernel kernel_clear_pool
  privileged_part rnd_reseed_crng in_buf level s =
      invoke 5 (c.reseed_crng level) s >>= then_kernel kernel_reseed_crng
  privileged_part esdm_reseed_kernel in_buf level s = kernel_call (kernel_add_entropy in_buf) s
  privileged_part _ in_buf level s = some (ok tt, s)

  unfoldable pub ioctl : Bool → Bool → IoctlCmd → List ℕ → ℕ → Daemon S → Run (FuseReply × Daemon S)
  unfolding with_privilege with_pool_info privileged_part
  ioctl true root cmd in_buf out_bufsz d = some (reply_err 38, d)
  ioctl false root rnd_get_ent_cnt in_buf out_bufsz d =
      if out_bufsz == 0
      then some (reply_retry 0 4, d)
      else invoke 5 c.get_ent_cnt d.outside >>= λ r. some (
        elim (r.0) [ ok n ↦ reply_ioctl (image32 n) | err e ↦ reply_err (code e) ],
        record d { outside = r.1 },
      )
  ioctl false root rnd_add_to_ent_cnt in_buf out_bufsz d =
      if ltb (length in_buf) 4
      then some (reply_retry 4 0, d)
      else with_privilege root (privileged_part rnd_add_to_ent_cnt in_buf) d
  ioctl false root rnd_add_entropy in_buf out_bufsz d =
      with_pool_info in_buf (λ reply. some (reply, d))
        (with_privilege root (privileged_part rnd_add_entropy in_buf) d)
  ioctl false root rnd_zap_ent_cnt in_buf out_bufsz d =
      with_privilege root (privileged_part rnd_zap_ent_cnt in_buf) d
  ioctl false root rnd_clear_pool in_buf out_bufsz d =
      with_privilege root (privileged_part rnd_clear_pool in_buf) d
  ioctl false root rnd_reseed_crng in_buf out_bufsz d =
      with_privilege root (privileged_part rnd_reseed_crng in_buf) d
  ioctl false root esdm_info in_buf out_bufsz d =
      if ltb out_bufsz (length c.info)
      then some (reply_retry 0 (length c.info), d)
      else some (reply_ioctl c.info, d)
  ioctl false root esdm_reseed_kernel in_buf out_bufsz d =
      with_pool_info in_buf (λ reply. some (reply, d))
        (with_privilege root (privileged_part esdm_reseed_kernel in_buf) d)
  ioctl false root other in_buf out_bufsz d = some (reply_err 22, d)

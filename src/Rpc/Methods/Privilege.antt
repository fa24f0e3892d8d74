-- ===== src/Rpc/Methods/Privilege.antt =====
-- Which methods an unprivileged client can use to change the state.
use esdm.Base.{◌⊎◌, Result, err, errno, efault, ◌≡◌}

-- A refusal: an error, and the state as it was.
abbrev pub Refused : {S : Type 0} → S → Result (Unit {0}) × S → Type 0
Refused s r = ((r.0 ≡ err (errno 1)) ⊎ (r.0 ≡ err efault)) × (r.1 ≡ s)

-- ===== src/Rpc/Requests/Seed.antt =====
-- A poll for seed that does not succeed at once.
use esdm.Base.{
  ℕ, zero, suc, Bool, true, false, not, ◌||◌, some, [], ok, err, eagain, Run, ◌≡◌, refl, arith,
  min_uint32, length, Ensures, blocks, returns, Ensures-bind, Ensures-any, Ensures-map,
}
use esdm.Rpc.Client.{Reply, lost, error_pointer, answer}
use esdm.Rpc.Methods.{RandomResponse}
use esdm.Rpc.Requests.{SeedBuf, seed_cb, is_again, seed_poll, rpcc_get_seed}

-- Nothing can be copied to the buffer, and nothing has been.
abbrev Shut : SeedBuf → Type 0
Shut b = (b.buflen ≡ 0) × (b.buf ≡ [])

seed_cb-Shut : (reply : Reply RandomResponse) (b : SeedBuf) → Shut b → Shut (seed_cb reply b)
unfolding seed_cb
seed_cb-Shut lost b h = h
seed_cb-Shut (error_pointer e) b h = h
seed_cb-Shut (answer response) b h =
    let none_fits : min_uint32 (length response.randval) b.buflen ≡ 0 = ground arith in
    (none_fits, rw (none_fits, h.1) refl)

module _ {S : Type 0} (call : S → Run (Reply RandomResponse × S)) where
  seed_poll-Shut :
      (fuel : ℕ) (noblock : Bool) (b : SeedBuf) (s : S)
      → Shut b
      → Ensures (λ r. Shut r.0) (seed_poll call fuel noblock b s)
  unfolding seed_poll
  seed_poll-Shut zero noblock b s h = blocks
  seed_poll-Shut (suc fuel) noblock b s h = Ensures-bind _ (Ensures-any (call s)) λ r u.
      let shut = seed_cb-Shut (r.0) b h in
      elim (noblock || not (is_again (seed_cb (r.0) b).ret))
        as (λ x.
          Ensures {A = SeedBuf × S} (λ t. Shut t.0)
            (elim x [
              | true ↦ some (seed_cb (r.0) b, r.1)
              | false ↦ seed_poll call fuel noblock (seed_cb (r.0) b) (r.1)
            ])) [
              | true ↦ returns shut
              | false ↦ seed_poll-Shut fuel noblock (seed_cb (r.0) b) (r.1) shut
            ]

  -- A blocking request for seed whose first call is answered with EAGAIN and no data never copies a
  -- byte to the caller's buffer, whatever the later calls are answered: not even where it then
  -- returns success.
  pub rpcc_get_seed_unfilled :
      (fuel buflen : ℕ) (s t : S)
      → call s ≡ some (answer (record { ret = err eagain; randval = [] }), t)
      → Ensures (λ r. (r.0).buf ≡ []) (rpcc_get_seed call fuel (ok tt) false buflen s)
  unfolding rpcc_get_seed seed_poll seed_cb is_again
  rpcc_get_seed_unfilled zero buflen s t e = blocks
  rpcc_get_seed_unfilled (suc fuel) buflen s t e =
      let nothing : min_uint32 0 buflen ≡ 0 = ground arith in
      rw (e, nothing) (Ensures-map (seed_poll-Shut fuel false _ t (refl, refl)) λ r shut. shut.1)

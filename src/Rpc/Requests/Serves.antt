-- ===== src/Rpc/Requests/Serves.antt =====
-- A client's request for random bytes, from the client library to the DRNGs and back.
use esdm.Base.{
  ℕ, suc, ◌%◌, ◌≤◌, inl, inr, false, some, List, Result, ok, err, code, Run, ◌≡◌, refl, arith, ltb,
  length, Yields, yields, Yields-bind, Yields-and, Ensures, Bool-cases, ltb→lt, ltb_false→le,
  u32_mod,
}
use esdm.System.{Sys, Platform}
use esdm.DrngMgr.Levels.{BoundedSources}
use esdm.DrngMgr.Ready.{Ready, Accepts}
use esdm.Random.Length.{WithinRequest}
use esdm.Random.Codes.{OnlyRefuses, drng_get-OnlyRefuses}
use esdm.Api.{choose_drng, drng_get_sleep, get_random_bytes}
use esdm.Api.Live.{Exactly, initialized, get_random_bytes-Serves}
use esdm.Rpc.{max_data}
use esdm.Rpc.Methods.{RandomResponse, respond, limited, rpc_get_random_bytes}
use esdm.Rpc.Requests.{finish, rpcc_get_random_bytes}
use esdm.Rpc.Requests.Random.{Contract, Filled, over, random_loop-Filled}

respond-Contract :
    (n : ℕ) (ret : Result (List ℕ)) → Exactly n ret → OnlyRefuses ret → Contract n (respond ret)
unfolding respond
respond-Contract n (ok bytes) e r = e
respond-Contract n (err e) x r =
    inr
      (elim r [ inl fault ↦ rw fault (omega arith) | inr none_there ↦ rw none_there (omega arith) ])

-- What the caller is left with: all the bytes asked for, or an error number.
abbrev pub Received : {X D H : Type 0} → ℕ → Result ℕ × List ℕ × Sys X D H → Type 0
Received buflen (ok n, out, s) = (n ≡ buflen) × (length out ≡ buflen) × Ready false s
Received buflen (err e, out, s) = (code e ≤ 255) × Ready false s

module _ {X D H : Type 0} (p : Platform X D H) (a : Accepts p) (b : BoundedSources p)
    (w : WithinRequest p) where
  get_random_bytes-OnlyRefuses :
      (n : ℕ) (s : Sys X D H)
      → Ready false s
      → Ensures (λ (r : Result (List ℕ) × Sys X D H). OnlyRefuses r.0) (get_random_bytes p n s)
  unfolding get_random_bytes drng_get_sleep
  get_random_bytes-OnlyRefuses n s v =
      rw ((initialized p a b s v).0, (initialized p a b s v).1, drng_get_sleep)
        (drng_get-OnlyRefuses p (choose_drng false s) (n % u32_mod) s)

  method-Contract :
      (n : ℕ) (s : Sys X D H)
      → Ready false s
      → Yields
          (λ (r : RandomResponse × Sys X D H). Contract n r.0 × Ready false r.1)
          (rpc_get_random_bytes p (some n) s)
  unfolding rpc_get_random_bytes limited
  method-Contract n s v = elim (Bool-cases (ltb max_data n)) [
    | inl large ↦ rw large (yields (inl (ltb→lt _ _ large, refl), v))
    | inr small ↦
        let word : n % u32_mod ≡ n = omega (arith, ltb_false→le _ _ small) in
        rw small (
          Yields-bind _
            (Yields-and (get_random_bytes-Serves p a b n s w v)
              (get_random_bytes-OnlyRefuses n s v))
            λ r x. yields (respond-Contract n (r.0) (rw (← word) (x.0).1) x.1, ((x.0).0).0))
  ]

  finish-Received :
      (buflen : ℕ) (m : Run (Result (Unit {0}) × List ℕ × Sys X D H))
      → Yields (Filled (Ready false) buflen) m
      → Yields (Received buflen) (finish buflen m)
  finish-Received buflen _ (yields {a = (ok u, out, s)} x) = yields (refl, x.0, x.1)
  finish-Received buflen _ (yields {a = (err e, out, s)} x) = yields x

  -- Over a connection that answers each call, with the DRNGs allocated and the pool's lock free, the
  -- NTG.1 seeding strategy off, a backend that accepts every seed and never generates more than it
  -- is asked for, and at most seven sources that report at most 1024 bits per call: a client's
  -- request for random bytes without conditions returns, for every number of bytes, after at most
  -- three rounds more than that number. It hands out exactly that many bytes and returns their
  -- number, or it returns the number of an error; the server stays ready for the next request.
  pub rpcc_get_random_bytes-Received :
      (buflen : ℕ) (s : Sys X D H)
      → Ready false s
      → Yields (Received buflen) (
          rpcc_get_random_bytes
            (over (λ n. rpc_get_random_bytes p (some n)))
            (suc (suc (suc buflen)))
            (ok tt)
            buflen
            s)
  unfolding rpcc_get_random_bytes
  rpcc_get_random_bytes-Received buflen s v = finish-Received buflen _ (
      random_loop-Filled (Ready false) (λ n. rpc_get_random_bytes p (some n)) method-Contract buflen
        s v)

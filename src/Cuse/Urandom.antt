-- ===== src/Cuse/Urandom.antt =====
-- A read of /dev/urandom, from the device through the RPC layer to the DRNGs.
use esdm.Base.{
  ℕ, suc, Bool, false, none, some, List, [], ◌∷◌, Result, ok, err, Run, All, Yields, Yields-map,
}
use esdm.System.{Sys, Platform}
use esdm.DrngMgr.Levels.{BoundedSources}
use esdm.DrngMgr.Ready.{Ready, Accepts}
use esdm.Random.Length.{WithinRequest}
use esdm.Rpc.Methods.{rpc_get_random_bytes}
use esdm.Rpc.Requests.{rpcc_get_random_bytes}
use esdm.Rpc.Requests.Random.{over}
use esdm.Rpc.Requests.Serves.{Received, rpcc_get_random_bytes-Received}
use esdm.Cuse.{read_internal}
use esdm.Cuse.Reads.{Delivers, Served, read_internal-Served}

abbrev pub AnyByte : ℕ → Type 0
AnyByte b = Unit

All-AnyByte : (xs : List ℕ) → All AnyByte xs
All-AnyByte [] = tt
All-AnyByte (x ∷ xs) = (tt, All-AnyByte xs)

module _ {X D H : Type 0} (p : Platform X D H) where
  -- The client's request for random bytes without conditions, over a connection that answers.
  abbrev pub client_get : ℕ → Sys X D H → Run (Result ℕ × List ℕ × Sys X D H)
  client_get n s =
      rpcc_get_random_bytes (over (λ n. rpc_get_random_bytes p (some n))) (suc (suc (suc n)))
        (ok tt) n s

module _ {X D H : Type 0} (p : Platform X D H) (a : Accepts p) (b : BoundedSources p)
    (w : WithinRequest p) where
  Received-Delivers :
      (n : ℕ) (r : Result ℕ × List ℕ × Sys X D H)
      → Received n r
      → Delivers (Ready false) AnyByte n r
  Received-Delivers n (ok k, out, s) (all, len, v) = (all, len, All-AnyByte out, v)
  Received-Delivers n (err e, out, s) x = x

  -- With the DRNGs allocated and the pool's lock free, the NTG.1 seeding strategy off, a backend that
  -- accepts every seed and never generates more than it is asked for, and at most seven sources that
  -- report at most 1024 bits per call, over a connection that answers each call and without the
  -- kernel's device: a read of /dev/urandom without O_SYNC returns for every size. Its reply has as
  -- many bytes as were asked for, or the number of an error, and the server stays ready.
  pub urandom_read-Served :
      (memory : Bool) (get_pr : ℕ → Sys X D H → Run (Result ℕ × List ℕ × Sys X D H)) (size : ℕ)
      (s : Sys X D H)
      → Ready false s
      → Yields
          (Served (Ready false) AnyByte size)
          (read_internal memory false (client_get p) get_pr none size s)
  urandom_read-Served =
      read_internal-Served (Ready false) AnyByte (client_get p) none
        (λ n s pos v.
          Yields-map (rpcc_get_random_bytes-Received p a b w n s v) (Received-Delivers n))
        (λ read e. absurd cc)

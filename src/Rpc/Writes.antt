-- ===== src/Rpc/Writes.antt =====
-- The two write loops on short writes.
use esdm.Base.{ℕ, zero, suc, ◌-◌, false, List, [], ◌∷◌, ◌≡◌, arith, length, drop}
use esdm.Rpc.Server
use esdm.Rpc.Client.{ClientWrite, timed_out}

pub length-drop {ℓ} : {A : Type ℓ} (n : ℕ) (xs : List A) → length (drop n xs) ≡ length xs - n
length-drop zero xs = omega arith
length-drop (suc n) [] = omega arith
length-drop (suc n) (x ∷ xs) = omega (arith, length-drop n xs)

-- Timeouts of the client's write that do not interrupt it.
abbrev pub waits : ℕ → List ClientWrite → List ClientWrite
waits zero events = events
waits (suc k) events = timed_out false ∷ waits k events

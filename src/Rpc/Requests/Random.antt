-- ===== src/Rpc/Requests/Random.antt =====
-- The loop of a request for random bytes, over a method that keeps to its contract.
use esdm.Base.{
  ℕ, zero, suc, ◌+◌, ◌-◌, ◌≤◌, ◌<◌, ◌⊎◌, inl, inr, true, false, none, some, List, [], ◌++◌, Result,
  ok, err, code, Run, ◌>>=◌, ◌≡◌, refl, arith, ltb, ◌==◌, min_uint32, length, length-append, Yields,
  yields, Yields-bind, Errno, if_both, subst,
}
use esdm.Rpc.{max_data}
use esdm.Rpc.Receive.{take_all}
use esdm.Rpc.Client.{Reply, answer}
use esdm.Rpc.Methods.{RandomResponse}
use esdm.Rpc.Requests.{random_cb, random_step, random_loop}

-- What is answered to a request for `n` bytes: more than fit in a message are refused with the
-- largest size; else all the bytes, or an error number.
abbrev pub Contract : ℕ → RandomResponse → Type 0
Contract n r = elim r.ret [
  | ok k ↦ length r.randval ≡ n
  | err e ↦ ((max_data < n) × (code e ≡ max_data)) ⊎ (code e ≤ 255)
]

-- The callback's result.
abbrev Called : ℕ → Result (List ℕ) → Type 0
Called n (ok bytes) = length bytes ≡ n
Called n (err e) = ((max_data < n) × (code e ≡ max_data)) ⊎ (code e ≤ 255)

random_cb-Called :
    (n buflen : ℕ) (ret : Result ℕ) (randval : List ℕ)
    → n ≤ buflen
    → Contract n (record { ret = ret; randval = randval })
    → Called n (random_cb buflen (answer (record { ret = ret; randval = randval })))
unfolding random_cb
random_cb-Called n buflen (ok k) randval h c = rw (take_all buflen randval (omega arith)) c
random_cb-Called n buflen (err e) randval h c = c

-- The whole request is served, or it fails with an error number.
abbrev pub Filled {ℓ} : {S : Type 0} → (S → Type ℓ) → ℕ → Result (Unit {0}) × List ℕ × S → Type ℓ
Filled Good total (ok u, out, s) = (length out ≡ total) × Good s
Filled Good total (err e, out, s) = (code e ≤ 255) × Good s

-- A connection that answers each call of a method.
abbrev pub over :
    {S : Type 0} → (ℕ → S → Run (RandomResponse × S)) → ℕ → S → Run (Reply RandomResponse × S)
over method n s = method n s >>= λ r. some (answer (r.0), r.1)

module _ {ℓ} {S : Type 0} (Good : S → Type ℓ) (method : ℕ → S → Run (RandomResponse × S))
    (serve : (n : ℕ) (s : S) → Good s → Yields (λ r. Contract n r.0 × Good r.1) (method n s)) where
  over-Called :
      (n buflen : ℕ) (s : S)
      → n ≤ buflen
      → Good s
      → Yields (λ r. Called n (random_cb buflen r.0) × Good r.1) ((over method) n s)
  over-Called n buflen s h g =
      Yields-bind _ (serve n s g)
        λ r c. yields (random_cb-Called n buflen (r.0).ret (r.0).randval h c.0, c.1)

  -- The rest of the loop, on so much fuel.
  abbrev Goes : ℕ → Type ℓ
  Goes fuel =
      (maxbuflen buflen : ℕ) (out : List ℕ) (s : S)
      → 0 < maxbuflen
      → maxbuflen ≤ max_data
      → buflen < fuel
      → Good s
      → Yields (Filled Good (length out + buflen))
          (random_loop (over method) (λ t. none) fuel maxbuflen buflen out s)

  -- An error number that is no size ends the loop.
  error-Filled :
      (fuel maxbuflen buflen total : ℕ) (out : List ℕ) (e : Errno) (s : S)
      → code e ≤ 255
      → Good s
      → Yields (Filled Good total) (
          random_step
            (over method)
            (λ t. none)
            (random_loop (over method) (λ t. none) fuel)
            maxbuflen
            buflen
            out
            (err e)
            s)
  unfolding random_step
  error-Filled fuel maxbuflen buflen total out e s small g =
      let no_size : ltb 255 (code e) ≡ false = ground arith in
      rw no_size (
        if_both (Yields (Filled Good total)) (code e == 11) (yields (small, g)) (yields (small, g)))

  step-Filled :
      (fuel maxbuflen buflen n : ℕ) (out : List ℕ) (ret : Result (List ℕ)) (s : S)
      → Goes fuel
      → 0 < n
      → n ≤ max_data
      → n ≤ buflen
      → 0 < maxbuflen
      → maxbuflen ≤ max_data
      → buflen ≤ fuel
      → Called n ret
      → Good s
      → Yields (Filled Good (length out + buflen)) (
          random_step
            (over method)
            (λ t. none)
            (random_loop (over method) (λ t. none) fuel)
            maxbuflen
            buflen
            out
            ret
            s)
  unfolding random_step
  step-Filled fuel maxbuflen buflen n out (ok bytes) s go pos small within pm sm enough c g =
      let total : length out + buflen ≡ length (out ++ bytes) + (buflen - length bytes) =
        omega (arith, c, length-append out bytes) in
      rw total (go maxbuflen (buflen - length bytes) (out ++ bytes) s pm sm (omega (arith, c)) g)
  step-Filled fuel maxbuflen buflen n out (err e) s go pos small within pm sm enough c g =
      error-Filled fuel maxbuflen buflen _ out e s
        (elim c [ inl (large, _) ↦ absurd (omega arith) | inr number ↦ number ]) g

  -- A round of the loop that has bytes to ask for.
  random_loop-suc :
      (fuel maxbuflen k : ℕ) (out : List ℕ) (s : S)
      → random_loop (over method) (λ t. none) (suc fuel) maxbuflen (suc k) out s ≡ (
          (over method) (min_uint32 maxbuflen (suc k)) s >>= λ r.
          random_step
            (over method)
            (λ t. none)
            (random_loop (over method) (λ t. none) fuel)
            maxbuflen
            (suc k)
            out
            (random_cb (suc k) (r.0))
            (r.1))
  unfolding random_loop
  random_loop-suc fuel maxbuflen k out s =
      let more : (suc k == 0) ≡ false = ground arith in rw (more, random_loop) refl

  random_loop-Goes : (fuel : ℕ) → Goes fuel
  unfolding random_loop
  random_loop-Goes zero maxbuflen buflen out s pm sm h g = absurd (omega arith)
  random_loop-Goes (suc fuel) maxbuflen zero out s pm sm h g = yields (omega arith, g)
  random_loop-Goes (suc fuel) maxbuflen (suc k) out s pm sm h g =
      let n = min_uint32 maxbuflen (suc k) in
      let pos : 0 < n = ground arith in
      let small : n ≤ max_data = ground arith in
      let within : n ≤ suc k = ground arith in
      rw (random_loop-suc fuel maxbuflen k out s) (
        Yields-bind _ (over-Called n (suc k) s within g) λ r c.
          step-Filled fuel maxbuflen (suc k) n out _ (r.1) (random_loop-Goes fuel) pos small within
            pm sm (omega arith) c.0 c.1)

  -- The first round asks for all the bytes.
  first-Filled :
      (fuel total : ℕ) (ret : Result (List ℕ)) (s : S)
      → total < fuel
      → Called total ret
      → Good s
      → Yields (Filled Good total) (
          random_step
            (over method)
            (λ t. none)
            (random_loop (over method) (λ t. none) fuel)
            total
            total
            []
            ret
            s)
  unfolding random_step random_loop
  first-Filled zero total ret s enough c g = absurd (omega arith)
  first-Filled (suc fuel) total (ok bytes) s enough c g =
      let nothing : total - length bytes ≡ 0 = omega (arith, c) in rw nothing (yields (c, g))
  first-Filled (suc fuel) total (err e) s enough (inl (large, size)) g =
      let limit : ltb 255 (code e) ≡ true = ground (arith, size) in
      let none_yet : 0 + total ≡ total = omega arith in
      rw limit (
        subst
          (λ t.
            Yields (Filled Good t)
              (random_loop (over method) (λ x. none) (suc fuel) (code e) total [] s))
          none_yet
          (random_loop-Goes (suc fuel) (code e) total [] s (omega (arith, size))
            (omega (arith, size)) enough g))
  first-Filled (suc fuel) total (err e) s enough (inr small) g =
      error-Filled (suc fuel) total total total [] e s small g

  -- Three rounds more than bytes are enough: the first may only learn the largest size.
  pub random_loop-Filled :
      (total : ℕ) (s : S)
      → Good s
      → Yields
          (Filled Good total)
          (random_loop (over method) (λ t. none) (suc (suc (suc total))) total total [] s)
  unfolding random_loop
  random_loop-Filled zero s g = yields (refl, g)
  random_loop-Filled (suc k) s g =
      let same : min_uint32 (suc k) (suc k) ≡ suc k = ground arith in
      rw (random_loop-suc (suc (suc (suc k))) (suc k) k [] s, same)
        (Yields-bind _ (over-Called (suc k) (suc k) s (omega arith) g)
          λ r c. first-Filled (suc (suc (suc k))) (suc k) _ (r.1) (omega arith) c.0 c.1)

-- ===== src/Cuse/Reads.antt =====
-- What `esdm_cuse_read_internal` hands out.
use esdm.Base.{
  ℕ, zero, suc, ◌+◌, ◌-◌, ◌<◌, ◌≤◌, Bool, true, false, not, ◌&&◌, Option, none, some, List, Result,
  ok, err, errno, code, Run, ◌>>=◌, ◌≡◌, refl, sym, subst, arith, ltb, if◌then◌else◌, min, length,
  length-take, length-replicate, take, replicate, All, Yields, yields, Yields-bind, Yields-if, inl,
  inr, Bool-cases, ltb_false→le, ltb→lt,
}
use esdm.Rpc.{max_msg_size}
use esdm.Cuse.{
  FuseReply, reply_err, reply_buf, is_interrupted, invoke, store, filling, or_fallback, read_loop,
  read_internal,
}
use esdm.Cuse.Buffer.{All-append, take-store, length-store, invoke-Yields}

module _ {S : Type 0} (P : S → Type 0) (B : ℕ → Type 0) where
  -- A call that delivers all the bytes, or fails.
  abbrev pub Delivers : ℕ → Result ℕ × List ℕ × S → Type 0
  Delivers n (ok k, out, s) = (k ≡ n) × (length out ≡ n) × All B out × P s
  Delivers n (err e, out, s) = (code e ≤ 255) × P s

  -- A read of the kernel's device that delivers at least one byte and at most all, or fails.
  abbrev pub Reads : ℕ → Option (List ℕ) × S → Type 0
  Reads n (some bytes, s) = (0 < length bytes) × (length bytes ≤ n) × All B bytes × P s
  Reads n (none, s) = P s

  -- A reply with all the bytes, or with an error number.
  abbrev pub Served : ℕ → FuseReply × S → Type 0
  Served size (reply_buf bytes, s) = (length bytes ≡ size) × All B bytes × P s
  Served size (reply_err e, s) = (e ≤ 255) × P s
  Served size (_, s) = ⊥

  -- What is in the buffer between two rounds of the loop.
  abbrev Kept : ℕ → ℕ → List ℕ × S → Type 0
  Kept size at (buf, s) = (size ≤ length buf) × All B (take at buf) × P s

  -- After a round that delivered some of the bytes.
  abbrev Round : ℕ → ℕ → ℕ → Result ℕ × (List ℕ × S) → Type 0
  Round size at todo (ok n, b) = (0 < n) × (n ≤ todo) × Kept size (at + n) b
  Round size at todo (err e, b) = (code e ≤ 255) × Kept size at b

  store-Kept :
      (size at : ℕ) (bytes buf : List ℕ) (s : S)
      → at ≤ size
      → size ≤ length buf
      → All B (take at buf)
      → P s
      → (All B bytes → Kept size (at + length bytes) (store at bytes buf, s))
        × Kept size at (store at bytes buf, s)
  store-Kept size at bytes buf s le room kept h =
      let (front, back) = take-store at bytes buf (omega arith) in
      let grows : size ≤ length (store at bytes buf) =
        omega (arith, length-store at bytes buf (omega arith)) in
      (
        λ all. (grows, subst (All B) (sym back) (All-append B (take at buf) bytes kept all), h),
        (grows, subst (All B) (sym front) kept, h),
      )

  delivered-Round :
      (size at todo : ℕ) (buf : List ℕ) (r : Result ℕ × List ℕ × S)
      → 0 < todo
      → at + todo ≤ size
      → size ≤ length buf
      → All B (take at buf)
      → Delivers todo r
      → Round size at todo (r.0, (store at r.1 buf, r.2))
  delivered-Round size at todo buf (ok k, out, s) pos le room kept (all, len, good, h) =
      let (stored, _) = store-Kept size at out buf s (omega arith) room kept h in
      let same : length out ≡ k = omega (arith, all, len) in
      (
        omega (arith, all, pos),
        omega (arith, all),
        subst (λ n. Kept size (at + n) (store at out buf, s)) same (stored good),
      )
  delivered-Round size at todo buf (err e, out, s) pos le room kept (small, h) =
      (small, (store-Kept size at out buf s (omega arith) room kept h).1)

  full :
      (size at : ℕ) (b : List ℕ × S)
      → at ≡ size
      → Kept size at b
      → Served size (reply_buf (take size b.0), b.1)
  full size at b same (room, kept, h) =
      (omega (arith, length-take size b.0), subst (λ n. All B (take n b.0)) same kept, h)

  module _ (get : ℕ → S → Run (Result ℕ × List ℕ × S))
      (fallback : Option (ℕ → S → Run (Option (List ℕ) × S)))
      (delivers : (n : ℕ) (s : S) → 0 < n → P s → Yields (Delivers n) (get n s))
      (reads : (read : ℕ → S → Run (Option (List ℕ) × S))
        → fallback ≡ some read
        → (n : ℕ) (s : S) → 0 < n
        → P s
        → Yields (Reads n) (read n s)) where
    read-Round :
        (size at todo : ℕ) (buf : List ℕ) (r : Option (List ℕ) × S)
        → at ≤ size
        → size ≤ length buf
        → All B (take at buf)
        → Reads todo r
        → Round size at todo (elim (r.0) [
          | none ↦ (err (errno 1), (buf, r.1))
          | some bytes ↦ (ok (length bytes), (store at bytes buf, r.1))
        ])
    read-Round size at todo buf (none, s) le room kept h = (omega arith, (room, kept, h))
    read-Round size at todo buf (some bytes, s) le room kept (pos, small, good, h) =
        (pos, small, (store-Kept size at bytes buf s le room kept h).0 good)

    fallback-Round :
        (f : Option (ℕ → S → Run (Option (List ℕ) × S))) (size at todo : ℕ)
        (r : Result ℕ × (List ℕ × S))
        → fallback ≡ f
        → at ≤ size
        → 0 < todo
        → Round size at todo r
        → Yields (Round size at todo) (or_fallback f at todo r)
    unfolding or_fallback
    fallback-Round f size at todo (ok n, (buf, s)) e le pos x = yields x
    fallback-Round none size at todo (err e, (buf, s)) same le pos x = yields x
    fallback-Round (some read) size at todo (err e, (buf, s)) same le pos (small, (room, kept, h)) =
        Yields-bind _ (reads read same todo s pos h)
          λ r x. yields (read-Round size at todo buf r le room kept x)

    repeated :
        (size at todo : ℕ) (r : Result ℕ × (List ℕ × S))
        → is_interrupted r.0 ≡ true
        → Round size at todo r
        → Kept size at r.1
    unfolding is_interrupted
    repeated size at todo (ok n, b) again x = absurd cc
    repeated size at todo (err e, b) again x = x.1

    round-Yields :
        (size at todo : ℕ) (b : List ℕ × S)
        → 0 < todo
        → at + todo ≤ size
        → Kept size at b
        → Yields
            (Round size at todo)
            (invoke 5 (filling get at todo) b >>= or_fallback fallback at todo)
    round-Yields size at todo b pos le k =
        Yields-bind _
          (invoke-Yields (Kept size at) (Round size at todo) (filling get at todo)
            (λ (c : List ℕ × S) h.
              Yields-bind _ (delivers todo c.1 pos h.2)
                λ r x. yields (delivered-Round size at todo c.0 r pos le h.0 h.1 x))
            (repeated size at todo) 5 b k)
          λ r x. fallback-Round fallback size at todo r refl (omega arith) pos x

    next-Served :
        (fuel size at todo : ℕ) (r : Result ℕ × (List ℕ × S))
        → at + todo ≤ size
        → size - at < suc fuel
        → Round size at todo r
        → ((at' : ℕ) (b : List ℕ × S)
            → at' ≤ size
            → size - at' < fuel
            → Kept size at' b
            → Yields (Served size) (read_loop get fallback fuel size at' b))
        → Yields (Served size) (elim r.0 [
          | ok n ↦ read_loop get fallback fuel size (at + n) (r.1)
          | err e ↦ some (reply_err (code e), (r.1).1)
        ])
    next-Served fuel size at todo (ok n, b) le enough (pos, small, k) rest =
        rest (at + n) b (omega arith) (omega arith) k
    next-Served fuel size at todo (err e, b) le enough (small, k) rest = yields (small, k.2)

    loop-Served :
        (fuel size at : ℕ) (b : List ℕ × S)
        → at ≤ size
        → size - at < fuel
        → Kept size at b
        → Yields (Served size) (read_loop get fallback fuel size at b)
    unfolding read_loop
    loop-Served zero size at b le enough k = absurd (omega arith)
    loop-Served (suc fuel) size at b le enough k = elim (Bool-cases (ltb at size)) [
      | inr done ↦
          rw (read_loop, done) (yields (full size at b (omega (arith, ltb_false→le _ _ done)) k))
      | inl more ↦
          let todo = min max_msg_size (size - at) in
          let lt = ltb→lt _ _ more in
          rw (read_loop, more)
            (Yields-bind _ (round-Yields size at todo b (omega arith) (omega arith) k)
              λ r x. next-Served fuel size at todo r (omega arith) enough x (loop-Served fuel size))
    ]

    pub read_internal-Served :
        (memory : Bool) (get_pr : ℕ → S → Run (Result ℕ × List ℕ × S)) (size : ℕ) (s : S)
        → P s
        → Yields (Served size) (read_internal memory false get get_pr fallback size s)
    unfolding read_internal
    read_internal-Served memory get_pr size s h =
        let room = if ltb 64 size then size else 64 in
        let large : size ≤ length {A = ℕ} (replicate room 0) =
          ground (arith, length-replicate {A = ℕ} room 0) in
        Yields-if (ltb 64 size && not memory) (λ e. yields (omega arith, h))
          λ e.
            loop-Served (suc size) size 0 (replicate room 0, s) (omega arith) (omega arith)
              (large, tt, h)

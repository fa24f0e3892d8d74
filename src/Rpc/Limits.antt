-- ===== src/Rpc/Limits.antt =====
-- What the receive loops keep to, whatever the peer sends.
use esdm.Base.{
  ℕ, ◌+◌, ◌-◌, ◌≤◌, Bool, true, false, List, [], ◌∷◌, ◌++◌, Run, ◌≡◌, refl, arith, ltb, ◌==◌,
  if◌then◌else◌, length, length-append, length-take, take, Ensures, Ensures-if, blocks, returns,
  Bool-cases, inl, inr, ltb_false→le,
}
use esdm.Rpc.{
  max_msg_size, header_length, to_fetch, enough, ReadEvent, got, failed, Received, Stop, complete,
  next, absorb, receive,
}
use esdm.Rpc.Receive.{read32-append}

header_length-le : (at : ℕ) (buf : List ℕ) → header_length at buf ≤ max_msg_size
unfolding header_length
header_length-le at buf = ground arith

-- Where the loop is complete, the header and all that it announces are there.
abbrev pub IsFilled : ℕ → ℕ → Stop → List ℕ → Type 0
IsFilled header at complete buf = header + header_length at buf ≤ length buf
IsFilled header at _ buf = Unit

abbrev pub Contained : ℕ → ℕ → Received → Type 0
Contained header at r = (length r.buf ≤ max_msg_size + header) × IsFilled header at r.stop r.buf

module _ (header at : ℕ) (offset : at + 4 ≤ header) where
  -- The bytes to fetch are known once the header is there.
  abbrev Known : List ℕ → ℕ → Type 0
  Known buf fetch = fetch ≡ (
      if ltb (length buf) header
      then 0
      else if header_length at buf == 0
      then 0
      else header_length at buf + header)

  header_length-append :
      (buf chunk : List ℕ)
      → header ≤ length buf
      → header_length at (buf ++ chunk) ≡ header_length at buf
  unfolding header_length
  header_length-append buf chunk h = rw (read32-append at buf chunk (omega (arith, offset))) refl

  to_fetch-Known :
      (buf chunk : List ℕ) (fetch : ℕ)
      → Known buf fetch
      → Known (buf ++ chunk) (to_fetch header at (buf ++ chunk) fetch)
  unfolding to_fetch
  to_fetch-Known buf chunk fetch k = elim (Bool-cases (ltb (length buf) header)) [
    | inl short ↦ ground (arith, length-append buf chunk)
    | inr long ↦
        ground
          (arith, length-append buf chunk, header_length-append buf chunk (ltb_false→le _ _ long))
  ]

  enough-filled :
      (buf : List ℕ) (fetch : ℕ)
      → Known buf fetch
      → enough header buf fetch ≡ true
      → header + header_length at buf ≤ length buf
  unfolding enough
  enough-filled buf fetch k e = ground (arith, header_length-le at buf)

  next-Contained :
      (more : List ℕ → ℕ → Run Received) (buf : List ℕ) (fetch : ℕ) (stops : Bool)
      → enough header buf fetch ≡ stops
      → length buf ≤ max_msg_size + header
      → Known buf fetch
      → Ensures (Contained header at) (more buf fetch)
      → Ensures (Contained header at) (next more buf fetch stops)
  unfolding next
  next-Contained more buf fetch true e h k rest = returns (h, enough-filled buf fetch k e)
  next-Contained more buf fetch false e h k rest = rest

  receive-Known :
      (events : List ReadEvent) (buf : List ℕ) (fetch : ℕ)
      → length buf ≤ max_msg_size + header
      → Known buf fetch
      → Ensures (Contained header at) (receive header at events buf fetch)
  unfolding receive absorb
  receive-Known [] buf fetch h k = blocks
  receive-Known (failed e ∷ events) buf fetch h k = returns (h, tt)
  receive-Known (got bytes ∷ events) buf fetch h k =
      let chunk = take (max_msg_size + header - length buf) bytes in
      let room : length (buf ++ chunk) ≤ max_msg_size + header =
        omega (
          arith,
          length-append buf chunk,
          length-take (max_msg_size + header - length buf) bytes,
        ) in
      let fetch' = to_fetch header at (buf ++ chunk) fetch in
      let known = to_fetch-Known buf chunk fetch k in
      Ensures-if (length chunk == 0) (λ _. returns (h, tt))
        (λ _.
          next-Contained (receive header at events) (buf ++ chunk) fetch' _ refl room known
            (receive-Known events (buf ++ chunk) fetch' room known))

  -- Whatever the results of the reads are, a receive loop never holds more than its buffer, the header
  -- and 65536 bytes, and where it stops because it has received enough, the header and all the
  -- bytes that the header announces (their number cut at 65536) are in the buffer.
  pub receive-Contained :
      (events : List ReadEvent) → Ensures (Contained header at) (receive header at events [] 0)
  receive-Contained events = receive-Known events [] 0 (omega arith) (ground (arith, offset))

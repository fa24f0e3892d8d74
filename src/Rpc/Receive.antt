-- ===== src/Rpc/Receive.antt =====
-- The receive loops put a message together again, however it is split.
use esdm.Base.{
  ℕ, zero, suc, ◌+◌, ◌-◌, ◌≤◌, ◌<◌, false, some, List, [], ◌∷◌, ◌++◌, ◌≡◌, refl, sym, ap, ◌∙◌,
  arith, ltb, leb, ◌==◌, if◌then◌else◌, length, length-append, get_or, take, All, Bool-cases, inl,
  inr, Run, ltb_false→le, leb→le, leb_false→lt, map,
}
use mathlib.Core.List.{append_assoc, append-nil}
use esdm.Rpc.{
  max_msg_size, read32, header_length, to_fetch, enough, ReadEvent, got, Received, complete, next,
  absorb, receive,
}

abbrev pub concat {ℓ} : {A : Type ℓ} → List (List A) → List A
concat [] = []
concat (xs ∷ xss) = xs ++ concat xss

abbrev pub IsNonempty : List ℕ → Type 0
IsNonempty xs = 0 < length xs

pub get_or-append_left {ℓ} :
    {A : Type ℓ} (xs ys : List A) (i : ℕ) (d : A)
    → i < length xs
    → get_or (xs ++ ys) i d ≡ get_or xs i d
get_or-append_left [] ys i d h = absurd (omega arith)
get_or-append_left (x ∷ xs) ys zero d h = refl
get_or-append_left (x ∷ xs) ys (suc i) d h = get_or-append_left xs ys i d (omega arith)

pub take_all {ℓ} : {A : Type ℓ} (n : ℕ) (xs : List A) → length xs ≤ n → take n xs ≡ xs
take_all zero [] h = refl
take_all zero (x ∷ xs) h = absurd (omega arith)
take_all (suc n) [] h = refl
take_all (suc n) (x ∷ xs) h = ap (λ t. x ∷ t) (take_all n xs (omega arith))

pub read32-append :
    (at : ℕ) (xs ys : List ℕ) → at + 4 ≤ length xs → read32 at (xs ++ ys) ≡ read32 at xs
unfolding read32
read32-append at xs ys h =
    rw
      (
        get_or-append_left xs ys at 0 (omega arith),
        get_or-append_left xs ys (at + 1) 0 (omega arith),
        get_or-append_left xs ys (at + 2) 0 (omega arith),
        get_or-append_left xs ys (at + 3) 0 (omega arith),
      )
      refl

-- A message: a header that holds the length of what follows it.
pub record IsMessage (header at : ℕ) (message : List ℕ) : Type 0 where
  pub offset : at + 4 ≤ header
  pub size : length message ≡ header + read32 at message
  pub small : read32 at message ≤ max_msg_size

module _ (header at : ℕ) (message : List ℕ) (v : IsMessage header at message) where
  -- The bytes to fetch once `n` bytes are there.
  abbrev pub expected : ℕ → ℕ
  expected n =
      if ltb n header then 0 else if read32 at message == 0 then 0 else header + read32 at message

  pub expected-le : expected (length message) ≤ length message
  expected-le = ground (arith, v.size)

  read32-prefix :
      (buf rest : List ℕ)
      → buf ++ rest ≡ message
      → header ≤ length buf
      → read32 at buf ≡ read32 at message
  read32-prefix buf rest e h =
      sym (read32-append at buf rest (omega (arith, v.offset))) ∙ ap (read32 at) e

  to_fetch-prefix :
      (buf rest : List ℕ) (n fetch : ℕ)
      → buf ++ rest ≡ message
      → n ≤ length buf
      → fetch ≡ expected n
      → to_fetch header at buf fetch ≡ expected (length buf)
  unfolding to_fetch header_length
  to_fetch-prefix buf rest n fetch e h f = elim (Bool-cases (ltb (length buf) header)) [
    | inl short ↦ ground arith
    | inr long ↦ ground (arith, v.small, read32-prefix buf rest e (ltb_false→le _ _ long))
  ]

  enough-prefix :
      (buf rest : List ℕ)
      → buf ++ rest ≡ message
      → enough header buf (expected (length buf)) ≡ leb (length message) (length buf)
  unfolding enough
  enough-prefix buf rest e =
      let whole : length buf + length rest ≡ length message =
        sym (length-append buf rest) ∙ ap length e in
      ground (arith, v.small, v.size)

  nothing_left :
      (buf rest : List ℕ) → buf ++ rest ≡ message → length message ≤ length buf → buf ≡ message
  nothing_left buf [] e h = sym (append-nil buf) ∙ e
  nothing_left buf (x ∷ rest) e h =
      absurd (omega (arith, length-append buf (x ∷ rest), ap length e))

  absorb-next :
      (more : List ℕ → ℕ → Run Received) (buf c : List ℕ) (fetch : ℕ)
      → IsNonempty c
      → absorb header at more buf fetch c ≡ (
          let fetch' = to_fetch header at (buf ++ c) fetch in
          next more (buf ++ c) fetch' (enough header (buf ++ c) fetch'))
  unfolding absorb
  absorb-next more buf c fetch h = let e : (length c == 0) ≡ false = ground arith in rw e refl

  -- One round, by the length of what has then been received.
  absorb-prefix :
      (more : List ℕ → ℕ → Run Received) (buf c rest : List ℕ) (n fetch : ℕ)
      → (buf ++ c) ++ rest ≡ message
      → IsNonempty c
      → n ≤ length (buf ++ c)
      → fetch ≡ expected n
      → absorb header at more buf fetch c
        ≡ next more
            (buf ++ c)
            (expected (length (buf ++ c)))
            (leb (length message) (length (buf ++ c)))
  absorb-prefix more buf c rest n fetch e some_bytes h f =
      absorb-next more buf c fetch some_bytes
      ∙ ap (λ t. next more (buf ++ c) t (enough header (buf ++ c) t))
          (to_fetch-prefix (buf ++ c) rest n fetch e h f)
      ∙ ap (next more (buf ++ c) (expected (length (buf ++ c)))) (enough-prefix (buf ++ c) rest e)

  -- Whatever nonempty chunks the message arrives in, the loop ends with the whole of it.
  pub receive-complete :
      (chunks : List (List ℕ)) (after : List ReadEvent) (buf : List ℕ) (n fetch : ℕ)
      → buf ++ concat chunks ≡ message
      → length buf < length message
      → All IsNonempty chunks
      → n ≤ length buf
      → fetch ≡ expected n
      → receive header at (map got chunks ++ after) buf fetch
        ≡ some
            (record { stop = complete; buf = message; data_to_fetch = expected (length message) })
  unfolding receive next
  receive-complete [] after buf n fetch e part some_bytes h f =
      absurd (omega (arith, ap length (sym (append-nil buf) ∙ e)))
  receive-complete (c ∷ chunks) after buf n fetch e part some_bytes h f =
      let split : (buf ++ c) ++ concat chunks ≡ message = append_assoc buf c (concat chunks) ∙ e in
      let lens = length-append (buf ++ c) (concat chunks) in
      let len = length-append buf c in
      let whole = ap length split in
      let fits : length c ≤ max_msg_size + header - length buf =
        omega (arith, lens, len, whole, v.size, v.small) in
      let more =
        λ (buf' : List ℕ) (fetch' : ℕ). receive header at (map got chunks ++ after) buf' fetch' in
      rw (take_all _ c fits) (
        absorb-prefix more buf c (concat chunks) n fetch split some_bytes.0 (omega (arith, len)) f
        ∙ elim (Bool-cases (leb (length message) (length (buf ++ c)))) [
          | inl done ↦
              rw (done, nothing_left (buf ++ c) (concat chunks) split (leb→le _ _ done)) refl
          | inr not_yet ↦ rw not_yet (
              receive-complete chunks after (buf ++ c) (length (buf ++ c)) _ split
                (leb_false→lt _ _ not_yet) some_bytes.1 (omega arith) refl)
        ])

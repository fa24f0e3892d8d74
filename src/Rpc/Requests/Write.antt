-- ===== src/Rpc/Requests/Write.antt =====
-- A write of any length reaches the auxiliary pool in pieces, in order.
use esdm.Base.{
  ℕ, zero, suc, ◌≤◌, ◌<◌, true, false, some, List, [], ◌∷◌, ◌++◌, Result, ok, err, Run, ◌≡◌, refl,
  ap, ◌∙◌, arith, ◌==◌, min_uint32, length, take, drop, All, length-take,
}
use esdm.System.{Sys, Platform}
use esdm.Rpc.{max_data}
use esdm.Rpc.Receive.{concat}
use esdm.Rpc.Writes.{length-drop}
use esdm.Rpc.Client.{Reply, answer}
use esdm.Rpc.Methods.{rpc_write_data}
use esdm.Rpc.Requests.{status_cb, write_chunks, rpcc_write_data}

-- Pieces of at least one byte and at most the largest size of a message's data.
abbrev pub IsPiece : List ℕ → Type 0
IsPiece piece = (0 < length piece) × (length piece ≤ max_data)

take-drop {ℓ} : {A : Type ℓ} (n : ℕ) (xs : List A) → take n xs ++ drop n xs ≡ xs
take-drop zero xs = refl
take-drop (suc n) [] = refl
take-drop (suc n) (x ∷ xs) = ap (λ t. x ∷ t) (take-drop n xs)

-- The pieces of a write.
abbrev pieces : ℕ → List ℕ → List (List ℕ)
pieces zero bytes = []
pieces (suc fuel) bytes = elim (length bytes == 0) [
  | true ↦ []
  | false ↦
      take (min_uint32 (length bytes) max_data) bytes
      ∷ pieces fuel (drop (min_uint32 (length bytes) max_data) bytes)
]

todo_bounds :
    (bytes : List ℕ)
    → (length bytes == 0) ≡ false
    → (0 < min_uint32 (length bytes) max_data)
      × (min_uint32 (length bytes) max_data ≤ max_data)
      × (min_uint32 (length bytes) max_data ≤ length bytes)
todo_bounds bytes h = (ground arith, ground arith, ground arith)

pieces_cons :
    (fuel b : ℕ) (bytes : List ℕ)
    → let todo = min_uint32 (length (b ∷ bytes)) max_data in
      pieces (suc fuel) (b ∷ bytes) ≡ take todo (b ∷ bytes) ∷ pieces fuel (drop todo (b ∷ bytes))
pieces_cons fuel b bytes =
    let some_byte : (length (b ∷ bytes) == 0) ≡ false = ground arith in rw (some_byte, pieces) refl

pieces_lem :
    (fuel : ℕ) (bytes : List ℕ)
    → length bytes < fuel
    → (concat (pieces fuel bytes) ≡ bytes) × All IsPiece (pieces fuel bytes)
pieces_lem zero bytes h = absurd (omega arith)
pieces_lem (suc fuel) [] h = (refl, tt)
pieces_lem (suc fuel) (b ∷ bytes) h =
    let some_byte : (length (b ∷ bytes) == 0) ≡ false = ground arith in
    let todo = min_uint32 (length (b ∷ bytes)) max_data in
    let (pos, small, within) = todo_bounds (b ∷ bytes) some_byte in
    let (whole, all) =
      pieces_lem fuel (drop todo (b ∷ bytes)) (omega (arith, length-drop {0} todo (b ∷ bytes))) in
    rw (pieces_cons fuel b bytes) (
      ap (λ t. take todo (b ∷ bytes) ++ t) whole ∙ take-drop todo (b ∷ bytes),
      (
        (omega (arith, length-take todo (b ∷ bytes)), omega (arith, length-take todo (b ∷ bytes))),
        all,
      ),
    )

branch_some :
    {S : Type 0} (ret : Result (Unit {0})) (t : S) {m : Run (Result (Unit {0}) × S)}
    {v : Result (Unit {0}) × S}
    → m ≡ some v
    → (elim ret [ err e ↦ some (err e, t) | ok u ↦ m ])
      ≡ some (elim ret [ err e ↦ (err e, t) | ok u ↦ v ])
branch_some (err e) t h = refl
branch_some (ok u) t h = h

module _ {S : Type 0} (method : List ℕ → S → Result (Unit {0}) × S) where
  -- The pieces one after the other, up to the first error.
  abbrev pub each : List (List ℕ) → S → Result (Unit {0}) × S
  each [] s = (ok tt, s)
  each (piece ∷ more) s = elim (method piece s).0 [
    | err e ↦ (err e, (method piece s).1)
    | ok u ↦ each more (method piece s).1
  ]

  -- Over a connection that answers each call of the method.
  abbrev pub answering : List ℕ → S → Run (Reply (Result (Unit {0})) × S)
  answering piece s = some (answer (method piece s).0, (method piece s).1)

  write_chunks-each :
      (fuel : ℕ) (bytes : List ℕ) (s : S)
      → length bytes < fuel
      → write_chunks answering fuel bytes s ≡ some (each (pieces fuel bytes) s)
  unfolding write_chunks status_cb
  write_chunks-each zero bytes s h = absurd (omega arith)
  write_chunks-each (suc fuel) [] s h = refl
  write_chunks-each (suc fuel) (b ∷ bytes) s h =
      let some_byte : (length (b ∷ bytes) == 0) ≡ false = ground arith in
      let todo = min_uint32 (length (b ∷ bytes)) max_data in
      let piece = take todo (b ∷ bytes) in
      let (pos, small, within) = todo_bounds (b ∷ bytes) some_byte in
      let rest =
        write_chunks-each fuel (drop todo (b ∷ bytes)) (method piece s).1
          (omega (arith, length-drop {0} todo (b ∷ bytes))) in
      rw (pieces_cons fuel b bytes, some_byte, write_chunks)
        (branch_some (method piece s).0 (method piece s).1 rest)

module _ {X D H : Type 0} (p : Platform X D H) where
  -- Over a connection that answers each call, a write of any length is a sequence of writes at the
  -- server, each of at least one byte and at most 65520, whose bytes are those of the write in their
  -- order: each piece goes into the auxiliary pool and forces a reseed, up to the first error, which
  -- is returned.
  pub rpcc_write_data-each :
      (bytes : List ℕ) (s : Sys X D H)
      → (parts : List (List ℕ)) × (concat parts ≡ bytes)
        × All IsPiece parts
        × (rpcc_write_data (answering (λ piece t. rpc_write_data p (some piece) t)) (ok tt) bytes s
            ≡ some (each (λ piece t. rpc_write_data p (some piece) t) parts s))
  unfolding rpcc_write_data
  rpcc_write_data-each bytes s =
      let (whole, all) = pieces_lem (suc (length bytes)) bytes (omega arith) in
      (
        pieces (suc (length bytes)) bytes,
        whole,
        all,
        write_chunks-each (λ piece t. rpc_write_data p (some piece) t) (suc (length bytes)) bytes s
            (omega arith),
      )

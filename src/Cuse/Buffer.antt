-- ===== src/Cuse/Buffer.antt =====
-- Writes into a buffer, and repeated calls.
use esdm.Base.{
  ℕ, zero, suc, ◌+◌, ◌≤◌, true, List, [], ◌∷◌, ◌++◌, Result, Run, ◌≡◌, refl, ap, subst, arith,
  length, length-append, length-take, take, drop, All, Yields, yields, Yields-bind, inl, inr,
  Bool-cases,
}
use mathlib.Core.List.{append_assoc}
use esdm.Rpc.Writes.{length-drop}
use esdm.Cuse.{is_interrupted, invoke, store}

pub All-append : (B : ℕ → Type 0) (xs ys : List ℕ) → All B xs → All B ys → All B (xs ++ ys)
All-append B [] ys p q = q
All-append B (x ∷ xs) ys p q = (p.0, All-append B xs ys p.1 q)

pub take-append : (n : ℕ) (xs ys : List ℕ) → n ≡ length xs → take n (xs ++ ys) ≡ xs
take-append zero [] ys e = refl
take-append zero (x ∷ xs) ys e = absurd (omega arith)
take-append (suc n) [] ys e = absurd (omega arith)
take-append (suc n) (x ∷ xs) ys e = ap (λ t. x ∷ t) (take-append n xs ys (omega arith))

pub take-store :
    (at : ℕ) (bytes buf : List ℕ)
    → at ≤ length buf
    → (take at (store at bytes buf) ≡ take at buf)
      × (take (at + length bytes) (store at bytes buf) ≡ take at buf ++ bytes)
take-store at bytes buf h =
    let behind = drop (at + length bytes) buf in
    let front : at ≡ length (take at buf) = omega (arith, length-take at buf) in
    let stored =
      take-append (at + length bytes) (take at buf ++ bytes) behind
        (omega (arith, length-append (take at buf) bytes, front)) in
    (
      take-append at (take at buf) (bytes ++ behind) front,
      subst (λ t. take (at + length bytes) t ≡ take at buf ++ bytes)
          (append_assoc (take at buf) bytes behind) stored,
    )

pub length-store :
    (at : ℕ) (bytes buf : List ℕ) → at ≤ length buf → length buf ≤ length (store at bytes buf)
length-store at bytes buf h = omega (
  arith,
  length-append (take at buf) (bytes ++ drop (at + length bytes) buf),
  length-append bytes (drop (at + length bytes) buf),
  length-take at buf,
  length-drop {0} (at + length bytes) buf,
)

pub invoke-Yields :
    {A S : Type 0} (P : S → Type 0) (Q : Result A × S → Type 0) (call : S → Run (Result A × S))
    → ((s : S) → P s → Yields Q (call s))
    → ((r : Result A × S) → is_interrupted r.0 ≡ true → Q r → P r.1)
    → (left : ℕ) (s : S) → P s
    → Yields Q (invoke left call s)
unfolding invoke
invoke-Yields P Q call one keep zero s h = one s h
invoke-Yields P Q call one keep (suc left) s h = Yields-bind _ (one s h) λ r x.
    elim (Bool-cases (is_interrupted r.0)) [
      | inl again ↦ rw again (invoke-Yields P Q call one keep left r.1 (keep r again x))
      | inr over ↦ rw over (yields x)
    ]

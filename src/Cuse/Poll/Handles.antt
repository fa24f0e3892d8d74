-- ===== src/Cuse/Poll/Handles.antt =====
-- Where the loops over the poll table leave the handles.
use Prim.Native.Nat.{bit_and}
use esdm.Base.{
  ℕ, ◌+◌, Option, none, some, List, [], ◌∷◌, ◌++◌, ◌≡◌, refl, ap, arith, ◌==◌, if◌then◌else◌, ◌⊎◌,
  inl, inr, Bool-cases,
}
use esdm.Cuse.Poll.{
  PollSlot, HandleCall, notify_poll, pollhandle_destroy, cleanup, register, check_slots,
  release_slots,
}

-- How often a handle is a pointer, is in the table and is destroyed.
abbrev pub occurs : ℕ → Option ℕ → ℕ
occurs h none = 0
occurs h (some k) = if k == h then 1 else 0

abbrev pub held : ℕ → List PollSlot → ℕ
held h [] = 0
held h (slot ∷ slots) = occurs h slot.ph + held h slots

abbrev pub destroyed : ℕ → List HandleCall → ℕ
destroyed h [] = 0
destroyed h (notify_poll ph ∷ calls) = destroyed h calls
destroyed h (pollhandle_destroy ph ∷ calls) = occurs h ph + destroyed h calls

pub destroyed-append :
    (h : ℕ) (xs ys : List HandleCall) → destroyed h (xs ++ ys) ≡ destroyed h xs + destroyed h ys
destroyed-append h [] ys = omega arith
destroyed-append h (notify_poll ph ∷ xs) ys = destroyed-append h xs ys
destroyed-append h (pollhandle_destroy ph ∷ xs) ys = omega (arith, destroyed-append h xs ys)

pub Option-cases : {A : Type 0} (m : Option A) → (m ≡ none) ⊎ ((a : A) × (m ≡ some a))
Option-cases none = inl refl
Option-cases (some a) = inr (a, refl)

freed_lem :
    (h : ℕ) (ph : Option ℕ)
    → destroyed h (elim ph [ none ↦ [] | some k ↦ pollhandle_destroy (some k) ∷ [] ]) ≡ occurs h ph
freed_lem h none = refl
freed_lem h (some k) = omega arith

cleanup_lem :
    (h fh : ℕ) (slot : PollSlot)
    → occurs h (cleanup fh slot).0.ph + destroyed h (cleanup fh slot).1 ≡ occurs h slot.ph
unfolding cleanup
cleanup_lem h fh slot = elim (Bool-cases (slot.fh == fh)) [
  | inl same ↦ rw same (omega (arith, freed_lem h slot.ph))
  | inr other ↦ rw other (omega arith)
]

pub register_lem :
    (h fh : ℕ) (ph : Option ℕ) (events mask : ℕ) (slots : List PollSlot)
    → let (slots', calls, found) = register fh ph events mask slots in
      held h slots' + destroyed h calls + (if found then 0 else occurs h ph)
      ≡ held h slots + occurs h ph
unfolding register
register_lem h fh ph events mask [] = omega arith
register_lem h fh ph events mask (slot ∷ slots) =
    let rest = register_lem h fh ph events mask slots in
    let here = cleanup_lem h fh slot in
    let freed = (cleanup fh slot).1 in
    elim (Option-cases ((cleanup fh slot).0.ph)) [
      | inl free ↦ elim (Bool-cases (mask == 0)) [
        | inl waits ↦ rw (free, register, waits) (omega (arith, here, ap (occurs h) free))
        | inr fires ↦
            rw (free, register, fires)
              (omega (
                arith,
                here,
                destroyed-append h freed (notify_poll ph ∷ pollhandle_destroy ph ∷ []),
                ap (occurs h) free,
              ))
      ]
      | inr (k, taken) ↦
          rw (taken, register)
            (omega
              (arith, here, rest, destroyed-append h freed (register fh ph events mask slots).1))
    ]

pub check_slots_lem :
    (h sysmask : ℕ) (slots : List PollSlot)
    → let (slots', calls) = check_slots sysmask slots in
      held h slots' + destroyed h calls ≡ held h slots
unfolding check_slots
check_slots_lem h sysmask [] = omega arith
check_slots_lem h sysmask (slot ∷ slots) =
    let rest = check_slots_lem h sysmask slots in
    elim (Option-cases slot.ph) [
      | inl free ↦ rw (free, check_slots) (omega (arith, rest, ap (occurs h) free))
      | inr (k, taken) ↦ elim (Bool-cases (bit_and sysmask slot.poll_events == 0)) [
        | inl waits ↦ rw (taken, check_slots, waits) (omega (arith, rest, ap (occurs h) taken))
        | inr fires ↦ rw (taken, check_slots, fires) (omega (arith, rest, ap (occurs h) taken))
      ]
    ]

pub release_slots_lem :
    (h fh : ℕ) (slots : List PollSlot)
    → let (slots', calls) = release_slots fh slots in
      held h slots' + destroyed h calls ≡ held h slots
unfolding release_slots
release_slots_lem h fh [] = omega arith
release_slots_lem h fh (slot ∷ slots) =
    let rest = release_slots_lem h fh slots in
    elim (Bool-cases (slot.fh == fh)) [
      | inl same ↦ rw (same, release_slots) (omega (arith, rest))
      | inr other ↦ rw (other, release_slots) (omega (arith, rest))
    ]

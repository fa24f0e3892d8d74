-- ===== src/Cuse/Poll/Order.antt =====
-- The order of the calls on a poll handle.
use Prim.Native.Nat.{bit_and}
use esdm.Base.{
  ℕ, ◌+◌, ◌*◌, ◌≤◌, Option, none, some, List, [], ◌∷◌, ◌++◌, ◌≡◌, refl, arith, ◌==◌, if◌then◌else◌,
  inl, inr, Bool-cases,
}
use esdm.Cuse.Poll.{
  PollSlot, HandleCall, notify_poll, pollhandle_destroy, cleanup, register, cuse_poll, check_slots,
  poll_check, release_slots, release, Polls, any_handle, get_pollmask, no_polls,
}
use esdm.Cuse.Poll.Handles.{occurs, held, destroyed, Option-cases}
use esdm.Cuse.Poll.History.{
  PollOp, polls, checks, releases, op, history, given, dropped, history-accounted,
}

-- The calls on a handle.
abbrev pub mentions : ℕ → List HandleCall → ℕ
mentions h [] = 0
mentions h (notify_poll ph ∷ calls) = occurs h ph + mentions h calls
mentions h (pollhandle_destroy ph ∷ calls) = occurs h ph + mentions h calls

-- The calls on a handle after it was destroyed.
abbrev pub late : ℕ → List HandleCall → ℕ
late h [] = 0
late h (notify_poll ph ∷ calls) = late h calls
late h (pollhandle_destroy ph ∷ calls) = if occurs h ph == 0 then late h calls else mentions h calls

-- Each notification goes right before the end of its handle.
data Paired : List HandleCall → Type 0 where
  finished : Paired []
  destroys :
      {ph : Option ℕ} {calls : List HandleCall}
      → Paired calls
      → Paired (pollhandle_destroy ph ∷ calls)
  wakes :
      {ph : Option ℕ} {calls : List HandleCall}
      → Paired calls
      → Paired (notify_poll ph ∷ pollhandle_destroy ph ∷ calls)

Paired-append : {xs ys : List HandleCall} → Paired xs → Paired ys → Paired (xs ++ ys)
Paired-append finished q = q
Paired-append (destroys p) q = destroys (Paired-append p q)
Paired-append (wakes p) q = wakes (Paired-append p q)

mentions-le :
    (h : ℕ) {calls : List HandleCall} → Paired calls → mentions h calls ≤ destroyed h calls * 2
mentions-le h finished = omega arith
mentions-le h (destroys p) = omega (arith, mentions-le h p)
mentions-le h (wakes p) = omega (arith, mentions-le h p)

late-destroys :
    (h : ℕ) (ph : Option ℕ) {calls : List HandleCall}
    → Paired calls
    → occurs h ph + destroyed h calls ≤ 1
    → (destroyed h calls ≤ 1 → late h calls ≡ 0)
    → late h (pollhandle_destroy ph ∷ calls) ≡ 0
late-destroys h ph {calls = calls} p once rest = elim (Bool-cases (occurs h ph == 0)) [
  | inl other ↦ rw other (rest (omega arith))
  | inr same ↦ rw same (ground (arith, mentions-le h p))
]

late-Paired :
    (h : ℕ) {calls : List HandleCall} → Paired calls → destroyed h calls ≤ 1 → late h calls ≡ 0
late-Paired h finished once = refl
late-Paired h (destroys {ph} p) once = late-destroys h ph p once (late-Paired h p)
late-Paired h (wakes {ph} p) once = late-destroys h ph p once (late-Paired h p)

cleanup-Paired : (fh : ℕ) (slot : PollSlot) → Paired (cleanup fh slot).1
unfolding cleanup
cleanup-Paired fh slot = elim (Bool-cases (slot.fh == fh)) [
  | inl same ↦
      rw same
        (elim slot.ph
          as (λ ph. Paired (elim ph [ none ↦ [] | some k ↦ pollhandle_destroy (some k) ∷ [] ])) [
            | none ↦ finished
            | some k ↦ destroys finished
          ])
  | inr other ↦ rw other finished
]

register-Paired :
    (fh : ℕ) (ph : Option ℕ) (events mask : ℕ) (slots : List PollSlot)
    → Paired (register fh ph events mask slots).1
unfolding register
register-Paired fh ph events mask [] = finished
register-Paired fh ph events mask (slot ∷ slots) = elim (Option-cases ((cleanup fh slot).0.ph)) [
  | inl free ↦ elim (Bool-cases (mask == 0)) [
    | inl waits ↦ rw (free, register, waits) (cleanup-Paired fh slot)
    | inr fires ↦
        rw (free, register, fires) (Paired-append (cleanup-Paired fh slot) (wakes finished))
  ]
  | inr (k, taken) ↦
      rw (taken, register)
        (Paired-append (cleanup-Paired fh slot) (register-Paired fh ph events mask slots))
]

check_slots-Paired : (sysmask : ℕ) (slots : List PollSlot) → Paired (check_slots sysmask slots).1
unfolding check_slots
check_slots-Paired sysmask [] = finished
check_slots-Paired sysmask (slot ∷ slots) =
    let rest = check_slots-Paired sysmask slots in
    elim (Option-cases slot.ph) [
      | inl free ↦ rw (free, check_slots) rest
      | inr (k, taken) ↦ elim (Bool-cases (bit_and sysmask slot.poll_events == 0)) [
        | inl waits ↦ rw (taken, check_slots, waits) rest
        | inr fires ↦ rw (taken, check_slots, fires) (wakes rest)
      ]
    ]

release_slots-Paired : (fh : ℕ) (slots : List PollSlot) → Paired (release_slots fh slots).1
unfolding release_slots
release_slots-Paired fh [] = finished
release_slots-Paired fh (slot ∷ slots) = elim (Bool-cases (slot.fh == fh)) [
  | inl same ↦ rw (same, release_slots) (wakes (release_slots-Paired fh slots))
  | inr other ↦ rw (other, release_slots) (release_slots-Paired fh slots)
]

op-Paired : (o : PollOp) (p : Polls) → Paired p.calls → Paired (op o p).calls
unfolding op cuse_poll poll_check release
op-Paired (polls fh events ph flags) p h = elim (Bool-cases (events == 0)) [
  | inl none_asked ↦ rw (op, none_asked) h
  | inr asked ↦
      rw (op, asked)
        (Paired-append h
          (register-Paired fh ph events (bit_and (get_pollmask flags).0 events) p.slots))
]
op-Paired (checks flags) p h = elim (Bool-cases (any_handle p.slots)) [
  | inl waiting ↦
      rw (op, waiting) (Paired-append h (check_slots-Paired (get_pollmask flags).0 p.slots))
  | inr idle ↦ rw (op, idle) h
]
op-Paired (releases fh) p h = Paired-append h (release_slots-Paired fh p.slots)

history-Paired : (ops : List PollOp) (p : Polls) → Paired p.calls → Paired (history ops p).calls
unfolding history
history-Paired [] p h = h
history-Paired (o ∷ ops) p h = history-Paired ops (op o p) (op-Paired o p h)

-- Where polls, rounds of the checker and releases follow each other in any order from an empty
-- table, and a handle is given to the daemon once at most, then the handle is destroyed, or waits in
-- the table, or was dropped by a poll that was refused, just once in all if it was given; and no call
-- is made on it after it was destroyed.
pub history-accounted_once :
    (h : ℕ) (ops : List PollOp)
    → given h ops ≤ 1
    → let p = history ops no_polls in
      (destroyed h p.calls + held h p.slots + dropped h ops no_polls ≡ given h ops)
      × (late h p.calls ≡ 0)
history-accounted_once h ops once =
    let all = history-accounted h ops no_polls in
    (omega (arith, all), late-Paired h (history-Paired ops no_polls finished) (omega (arith, all)))

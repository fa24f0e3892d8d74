-- ===== src/Cuse/Poll/Wake.antt =====
-- A poll that finds nothing is woken by the checker.
use Prim.Native.Nat.{bit_and}
use esdm.Base.{
  ℕ, ◌+◌, ◌<◌, Bool, true, false, some, List, [], ◌∷◌, ◌++◌, ◌≡◌, refl, arith, ◌==◌, if◌then◌else◌,
  ◌⊎◌, inl, inr, Bool-cases,
}
use esdm.Cuse.{reply_poll, reply_err}
use esdm.Cuse.Poll.{
  PollSlot, HandleCall, notify_poll, pollhandle_destroy, cleanup, register, cuse_poll, check_slots,
  poll_check, Polls, PollFlags, any_handle, get_pollmask,
}
use esdm.Cuse.Poll.Handles.{occurs, Option-cases}

-- A slot with the handle and the events.
abbrev Waiting : ℕ → ℕ → List PollSlot → Type 0
Waiting h events [] = ⊥
Waiting h events (slot ∷ slots) =
    ((slot.ph ≡ some h) × (slot.poll_events ≡ events)) ⊎ Waiting h events slots

abbrev pub notified : ℕ → List HandleCall → ℕ
notified h [] = 0
notified h (notify_poll ph ∷ calls) = occurs h ph + notified h calls
notified h (pollhandle_destroy ph ∷ calls) = notified h calls

notified-append :
    (h : ℕ) (xs ys : List HandleCall) → notified h (xs ++ ys) ≡ notified h xs + notified h ys
notified-append h [] ys = omega arith
notified-append h (notify_poll ph ∷ xs) ys = omega (arith, notified-append h xs ys)
notified-append h (pollhandle_destroy ph ∷ xs) ys = notified-append h xs ys

register-Waiting :
    (fh h events mask : ℕ) (slots : List PollSlot)
    → (mask == 0) ≡ true
    → (register fh (some h) events mask slots).2 ≡ true
    → Waiting h events (register fh (some h) events mask slots).0
unfolding register
register-Waiting fh h events mask [] idle found = absurd cc
register-Waiting fh h events mask (slot ∷ slots) idle found =
    elim (Option-cases ((cleanup fh slot).0.ph)) [
      | inl free ↦ rw (free, register, idle) (inl (refl, refl))
      | inr (k, taken) ↦
          let found' : (register fh (some h) events mask slots).2 ≡ true =
            rw (taken, register) at found in
          rw (taken, register) (inr (register-Waiting fh h events mask slots idle found'))
    ]

check_slots-notified :
    (h events sysmask : ℕ) (slots : List PollSlot)
    → Waiting h events slots
    → (bit_and sysmask events == 0) ≡ false
    → 0 < notified h (check_slots sysmask slots).1
unfolding check_slots
check_slots-notified h events sysmask [] w fires = absurd w
check_slots-notified h events sysmask (slot ∷ slots) (inl (handle, asked)) fires =
    rw (handle, check_slots, asked, fires) (ground arith)
check_slots-notified h events sysmask (slot ∷ slots) (inr w) fires =
    let rest = check_slots-notified h events sysmask slots w fires in
    elim (Option-cases slot.ph) [
      | inl free ↦ rw (free, check_slots) rest
      | inr (k, taken) ↦ elim (Bool-cases (bit_and sysmask slot.poll_events == 0)) [
        | inl waits ↦ rw (taken, check_slots, waits) rest
        | inr due ↦ rw (taken, check_slots, due) (omega (arith, rest))
      ]
    ]

any_handle-Waiting :
    (h events : ℕ) (slots : List PollSlot) → Waiting h events slots → any_handle slots ≡ true
any_handle-Waiting h events [] w = absurd w
any_handle-Waiting h events (slot ∷ slots) (inl (handle, asked)) = rw (handle, any_handle) refl
any_handle-Waiting h events (slot ∷ slots) (inr w) = elim (Option-cases slot.ph) [
  | inl free ↦ rw (free, any_handle) (any_handle-Waiting h events slots w)
  | inr (k, taken) ↦ rw (taken, any_handle) refl
]

answered_once :
    (mask : ℕ) (found : Bool)
    → (reply_poll mask ∷ (if found then [] else reply_err 16 ∷ [])) ≡ (reply_poll 0 ∷ [])
    → ((mask == 0) ≡ true) × (found ≡ true)
answered_once mask true e = let empty : mask ≡ 0 = cc in (rw empty refl, refl)
answered_once mask false e = absurd cc

-- Where a poll for some event with a handle is answered just once, with no event, then a round of the
-- checker that comes next notifies the handle if the mask has one of its events by then.
pub poll_check-cuse_poll :
    (fh events h : ℕ) (before after : PollFlags) (p : Polls)
    → (events == 0) ≡ false
    → (cuse_poll fh events (some h) before p).0 ≡ (reply_poll 0 ∷ [])
    → (bit_and (get_pollmask after).0 events == 0) ≡ false
    → (calls : List HandleCall) × ((poll_check after
          (cuse_poll fh events (some h) before p).2).1.calls
        ≡ (cuse_poll fh events (some h) before p).2.calls ++ calls)
      × (0 < notified h calls)
unfolding cuse_poll poll_check
poll_check-cuse_poll fh events h before after p asked quiet fires =
    let mask = bit_and (get_pollmask before).0 events in
    let quiet' = rw asked at quiet in
    let r = register fh (some h) events mask p.slots in
    let (idle, found) = answered_once mask r.2 quiet' in
    let w = register-Waiting fh h events mask p.slots idle found in
    rw (asked, any_handle-Waiting h events r.0 w)
      (
        (check_slots (get_pollmask after).0 r.0).1,
        refl,
        check_slots-notified h events (get_pollmask after).0 r.0 w fires,
      )

-- ===== src/Cuse/Poll.antt =====
-- The poll handlers of frontends/cuse/cuse_device.c. A poll handle is its address, none for the null
-- pointer; the calls of the library on handles are kept in their order.
pub mod Handles
pub mod History
pub mod Order
pub mod Wake
use Prim.Native.Nat.{bit_and, bit_or}
use esdm.Base.{
  ℕ, Bool, true, false, Option, none, some, List, [], ◌∷◌, ◌++◌, ◌==◌, if◌then◌else◌, replicate,
}
use esdm.Cuse.{FuseReply, reply_err, reply_poll}

-- `struct esdm_cuse_poll`
pub record PollSlot : Type 0 where
  pub fh : ℕ
  pub ph : Option ℕ
  pub poll_events : ℕ

pub data HandleCall : Type 0 where
  notify_poll pollhandle_destroy : Option ℕ → HandleCall

-- The flags of the status page and of the daemon that the poll mask reads.
pub record PollFlags : Type 0 where
  pub operational : Bool
  pub need_entropy : Bool
  pub suspend_trigger : Bool
  pub poll_thread_shutdown : Bool

-- The table `esdm_cuse_polls`, with the calls on handles so far.
pub record Polls : Type 0 where
  pub slots : List PollSlot
  pub calls : List HandleCall

abbrev pub no_slot : PollSlot
no_slot = record { fh = 0; ph = none; poll_events = 0 }

-- 16 is ESDM_CUSE_MAX_PH.
abbrev pub no_polls : Polls
no_polls = record { slots = replicate 16 no_slot; calls = [] }

-- POLLIN | POLLRDNORM and POLLOUT | POLLWRNORM
abbrev pub poll_reader : ℕ
poll_reader = 65

abbrev pub poll_writer : ℕ
poll_writer = 260

-- `esdm_cuse_get_pollmask`: the mask, and the flags with the trigger of a suspend taken.
unfoldable pub get_pollmask : PollFlags → ℕ × PollFlags
get_pollmask f =
    let reader = if f.operational then poll_reader else 0 in
    let writer = if f.need_entropy then poll_writer else 0 in
    let both = bit_or poll_reader poll_writer in
    let suspend = if f.suspend_trigger then both else 0 in
    let shutdown = if f.poll_thread_shutdown then both else 0 in
    (bit_or (bit_or (bit_or reader writer) suspend) shutdown, record f { suspend_trigger = false })

-- A slot of the same file is emptied, its handle destroyed.
unfoldable pub cleanup : ℕ → PollSlot → PollSlot × List HandleCall
cleanup fh slot =
    if slot.fh == fh
    then (no_slot, elim slot.ph [ none ↦ [] | some h ↦ pollhandle_destroy (some h) ∷ [] ])
    else (slot, [])

-- What the loop of `esdm_cuse_poll` does to the slots from one on, its calls, and whether
-- it stopped at a free slot.
unfoldable pub register :
    ℕ → Option ℕ → ℕ → ℕ → List PollSlot → List PollSlot × List HandleCall × Bool
unfolding cleanup
register fh ph events mask [] = ([], [], false)
register fh ph events mask (slot ∷ slots) =
    let (slot', freed) = cleanup fh slot in
    let (slots', calls, found) = register fh ph events mask slots in
    elim slot'.ph [
      | some h ↦ (slot' ∷ slots', freed ++ calls, found)
      | none ↦
          if mask == 0
          then (record { fh = fh; ph = ph; poll_events = events } ∷ slots, freed, true)
          else (slot' ∷ slots, freed ++ (notify_poll ph ∷ pollhandle_destroy ph ∷ []), true)
    ]

-- `esdm_cuse_poll`, with its replies in their order. 22 is EINVAL, 16 is EBUSY.
unfoldable pub cuse_poll : ℕ → ℕ → Option ℕ → PollFlags → Polls → List FuseReply × PollFlags × Polls
unfolding get_pollmask register
cuse_poll fh events ph flags p =
    if events == 0
    then (reply_err 22 ∷ [], flags, p)
    else (let (sysmask, flags') = get_pollmask flags in
        let mask = bit_and sysmask events in
        let (slots, calls, found) = register fh ph events mask p.slots in
        (
          reply_poll mask ∷ (if found then [] else reply_err 16 ∷ []),
          flags',
          record { slots = slots; calls = p.calls ++ calls },
        ))

-- The inner loop of `esdm_cuse_poll_checker`, with the system's mask.
unfoldable pub check_slots : ℕ → List PollSlot → List PollSlot × List HandleCall
check_slots sysmask [] = ([], [])
check_slots sysmask (slot ∷ slots) =
    let (slots', calls) = check_slots sysmask slots in
    elim slot.ph [
      | none ↦ (slot ∷ slots', calls)
      | some h ↦
          if bit_and sysmask slot.poll_events == 0
          then (slot ∷ slots', calls)
          else (no_slot ∷ slots', notify_poll slot.ph ∷ pollhandle_destroy slot.ph ∷ calls)
    ]

abbrev pub any_handle : List PollSlot → Bool
any_handle [] = false
any_handle (slot ∷ slots) = elim slot.ph [ none ↦ any_handle slots | some h ↦ true ]

-- One round of `esdm_cuse_poll_checker`; the mask is read only where a slot has a handle.
unfoldable pub poll_check : PollFlags → Polls → PollFlags × Polls
unfolding get_pollmask check_slots
poll_check flags p =
    if any_handle p.slots
    then (let (sysmask, flags') = get_pollmask flags in
        let (slots, calls) = check_slots sysmask p.slots in
        (flags', record { slots = slots; calls = p.calls ++ calls }))
    else (flags, p)

-- The loop of `esdm_cuse_release`.
unfoldable pub release_slots : ℕ → List PollSlot → List PollSlot × List HandleCall
release_slots fh [] = ([], [])
release_slots fh (slot ∷ slots) =
    let (slots', calls) = release_slots fh slots in
    if slot.fh == fh
    then (no_slot ∷ slots', notify_poll slot.ph ∷ pollhandle_destroy slot.ph ∷ calls)
    else (slot ∷ slots', calls)

unfoldable pub release : ℕ → Polls → List FuseReply × Polls
unfolding release_slots
release fh p =
    let (slots, calls) = release_slots fh p.slots in
    (reply_err 0 ∷ [], record { slots = slots; calls = p.calls ++ calls })

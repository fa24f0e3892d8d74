-- ===== src/Cuse/Poll/History.antt =====
-- The poll handlers in any order.
use esdm.Base.{
  ℕ, ◌+◌, Bool, true, false, Option, List, [], ◌∷◌, ◌++◌, ◌≡◌, refl, ap, arith, ◌==◌, if◌then◌else◌,
  inl, inr, Bool-cases,
}
use Prim.Native.Nat.{bit_and}
use esdm.Cuse.{FuseReply, reply_err}
use esdm.Cuse.Poll.{
  register, cuse_poll, check_slots, poll_check, release_slots, release, Polls, PollFlags,
  any_handle, get_pollmask,
}
use esdm.Cuse.Poll.Handles.{
  occurs, held, destroyed, destroyed-append, register_lem, check_slots_lem, release_slots_lem,
}

-- A request or a round of the checker, with the flags it reads.
pub data PollOp : Type 0 where
  polls : ℕ → ℕ → Option ℕ → PollFlags → PollOp
  checks : PollFlags → PollOp
  releases : ℕ → PollOp

unfoldable pub op : PollOp → Polls → Polls
unfolding cuse_poll poll_check release
op (polls fh events ph flags) p = (cuse_poll fh events ph flags p).2
op (checks flags) p = (poll_check flags p).1
op (releases fh) p = (release fh p).1

unfoldable pub history : List PollOp → Polls → Polls
unfolding op
history [] p = p
history (o ∷ ops) p = history ops (op o p)

-- How often a handle is given to the daemon with a poll.
abbrev pub given1 : ℕ → PollOp → ℕ
given1 h (polls fh events ph flags) = occurs h ph
given1 h o = 0

abbrev pub given : ℕ → List PollOp → ℕ
given h [] = 0
given h (o ∷ ops) = given1 h o + given h ops

-- Whether a request was answered with an error.
abbrev pub is_refused : List FuseReply → Bool
is_refused [] = false
is_refused (reply_err e ∷ replies) = true
is_refused (reply ∷ replies) = is_refused replies

-- How often a refused poll drops the handle: it asks for no event, or finds no slot.
abbrev pub dropped1 : ℕ → PollOp → Polls → ℕ
unfolding cuse_poll
dropped1 h (polls fh events ph flags) p =
    if is_refused (cuse_poll fh events ph flags p).0 then occurs h ph else 0
dropped1 h o p = 0

abbrev pub dropped : ℕ → List PollOp → Polls → ℕ
unfolding op
dropped h [] p = 0
dropped h (o ∷ ops) p = dropped1 h o p + dropped h ops (op o p)

-- Where a handle is: in the table, or destroyed.
abbrev pub accounted : ℕ → Polls → ℕ
accounted h p = held h p.slots + destroyed h p.calls

cuse_poll-accounted :
    (h fh events : ℕ) (ph : Option ℕ) (flags : PollFlags) (p : Polls)
    → accounted h (op (polls fh events ph flags) p) + dropped1 h (polls fh events ph flags) p
      ≡ accounted h p + occurs h ph
unfolding op cuse_poll
cuse_poll-accounted h fh events ph flags p = elim (Bool-cases (events == 0)) [
  | inl none_asked ↦ rw (op, none_asked) (omega arith)
  | inr asked ↦
      let mask = bit_and (get_pollmask flags).0 events in
      let r = register fh ph events mask p.slots in
      let moved = register_lem h fh ph events mask p.slots in
      elim (Bool-cases r.2) [
        | inl found ↦
            rw (op, asked, found)
              (omega (
                arith,
                moved,
                ap (λ b. if b then 0 else occurs h ph) found,
                destroyed-append h p.calls r.1,
              ))
        | inr full ↦
            rw (op, asked, full)
              (omega (
                arith,
                moved,
                ap (λ b. if b then 0 else occurs h ph) full,
                destroyed-append h p.calls r.1,
              ))
      ]
]

op-accounted :
    (h : ℕ) (o : PollOp) (p : Polls)
    → accounted h (op o p) + dropped1 h o p ≡ accounted h p + given1 h o
unfolding op poll_check release
op-accounted h (polls fh events ph flags) p = cuse_poll-accounted h fh events ph flags p
op-accounted h (checks flags) p = elim (Bool-cases (any_handle p.slots)) [
  | inl waiting ↦
      let sysmask = (get_pollmask flags).0 in
      rw (op, waiting)
        (omega (
          arith,
          check_slots_lem h sysmask p.slots,
          destroyed-append h p.calls (check_slots sysmask p.slots).1,
        ))
  | inr idle ↦ rw (op, idle) (omega arith)
]
op-accounted h (releases fh) p =
    let (slots, calls) = release_slots fh p.slots in
    let after : accounted h (op (releases fh) p) ≡ held h slots + destroyed h (p.calls ++ calls) =
      refl in
    omega (arith, after, release_slots_lem h fh p.slots, destroyed-append h p.calls calls)

pub history-accounted :
    (h : ℕ) (ops : List PollOp) (p : Polls)
    → accounted h (history ops p) + dropped h ops p ≡ accounted h p + given h ops
unfolding history
history-accounted h [] p = omega arith
history-accounted h (o ∷ ops) p =
    omega (arith, op-accounted h o p, history-accounted h ops (op o p))

-- ===== src/Lifecycle.antt =====
-- lifecycle.go: the states of a component's life, and the operations of AtomicLifecycle. Each
-- operation is a loop of a load and a compare-and-swap: `attempt` is the body of the loop.
pub mod Laws
pub mod Race
mod Tests
use bufferpool.Base.{
  ℕ, Bool, true, false, not, ◌||◌, ◌==◌, ltb, if◌then◌else◌, Result, ok, err, ◌>>=◌, ◌>>◌, fail_if,
}
use bufferpool.Panic.{Panic, lifecycle_unknown_state, lifecycle_invalid_transition}

abbrev pub LifecycleState : Type 0
LifecycleState = ℕ

abbrev pub created : LifecycleState
created = 0

abbrev pub active : LifecycleState
active = 1

abbrev pub closing : LifecycleState
closing = 2

abbrev pub closed : LifecycleState
closed = 3

unfoldable pub is_known : LifecycleState → Bool
is_known s = s == created || s == active || s == closing || s == closed

abbrev pub is_terminal : LifecycleState → Bool
is_terminal s = s == closed

abbrev pub allows_work : LifecycleState → Bool
allows_work s = s == active

abbrev pub allows_close_start : LifecycleState → Bool
allows_close_start s = s == created || s == active

unfoldable pub can_transition_to : LifecycleState → LifecycleState → Bool
unfolding is_known
can_transition_to s next =
    if not (is_known s) || not (is_known next)
    then false
    else if s == next
    then true
    else if s == created
    then next == active || next == closing || next == closed
    else if s == active
    then next == closing || next == closed
    else if s == closing
    then next == closed
    else false

unfoldable pub must_transition_to : LifecycleState → LifecycleState → Result Panic LifecycleState
unfolding can_transition_to
must_transition_to s next =
    fail_if (not (can_transition_to s next)) lifecycle_invalid_transition >> ok next

-- Load: what was read, validated
unfoldable pub load : LifecycleState → Result Panic LifecycleState
unfolding is_known
load s = fail_if (not (is_known s)) lifecycle_unknown_state >> ok s

-- Transition, of an expected state
unfoldable pub transition :
    LifecycleState → LifecycleState → LifecycleState → Result Panic (LifecycleState × Bool)
unfolding must_transition_to
transition s expected next = do
  wanted ← must_transition_to expected next
  ok (if s == expected then (wanted, true) else (s, false))

pub data Operation : Type 0 where
  activate begin_close begin_or_continue_close mark_closed : Operation

-- What the body of a loop does with the state that it has loaded: it swaps it for another, and the
-- operation answers true if that succeeds, or it answers.
pub data Attempt : Type 0 where
  swap_for : (next : LifecycleState) → Attempt
  answers : (reply : Bool) → Attempt

unfoldable pub attempt : Operation → LifecycleState → Result Panic Attempt
unfolding load
attempt activate s = do
  current ← load s
  if current == created
      then ok (swap_for active)
      else if current == active
      then ok (answers false)
      else err lifecycle_invalid_transition
attempt begin_close s = do
  current ← load s
  if current == created || current == active then ok (swap_for closing) else ok (answers false)
attempt begin_or_continue_close s = do
  current ← load s
  if current == created || current == active
      then ok (swap_for closing)
      else if current == closing
      then ok (answers true)
      else ok (answers false)
attempt mark_closed s = do
  current ← load s
  if current == closed then ok (answers false) else ok (swap_for closed)

-- An operation that nobody disturbs.
unfoldable pub perform : Operation → LifecycleState → Result Panic (LifecycleState × Bool)
unfolding attempt
perform operation s = do
  a ← attempt operation s
  elim a [ swap_for next ↦ ok (next, true) | answers reply ↦ ok (s, reply) ]

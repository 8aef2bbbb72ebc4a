-- ===== src/Lifecycle/Laws.antt =====
-- What the lifecycle guarantees, and its operations in any interleaving.
use bufferpool.Base.{◌≤◌, ◌<◌, ◌≡◌, ◌↔◌, true, false, ok, err, arith}
use bufferpool.Panic.{lifecycle_unknown_state, lifecycle_invalid_transition}
use bufferpool.Lifecycle.{
  LifecycleState, created, active, closing, closed, can_transition_to, Operation, activate,
  begin_close, begin_or_continue_close, mark_closed, swap_for, attempt, perform,
}

-- A transition is permitted exactly between known states, forward or in place.
pub can_transition_to_iff :
    (s next : LifecycleState) → (can_transition_to s next ≡ true) ↔ ((s ≤ next) × (next ≤ closed))
unfolding can_transition_to
can_transition_to_iff s next = ((λ e. ground arith), λ h. ground arith)

permitted :
    (s next : LifecycleState)
    → (s < next) × (next ≤ closed)
    → (s < next) × (next ≤ closed) × (can_transition_to s next ≡ true)
permitted s next h = (h.0, h.1, (can_transition_to_iff s next).1 (omega (arith, h.0), h.1))

-- What the loop of an operation swaps the loaded state for is always a later known state, and so a
-- permitted transition.
pub attempt-swap_for :
    (operation : Operation) (s next : LifecycleState)
    → attempt operation s ≡ ok (swap_for next)
    → (s < next) × (next ≤ closed) × (can_transition_to s next ≡ true)
unfolding attempt
attempt-swap_for activate s next e = permitted s next (ground (arith, e))
attempt-swap_for begin_close s next e = permitted s next (ground (arith, e))
attempt-swap_for begin_or_continue_close s next e = permitted s next (ground (arith, e))
attempt-swap_for mark_closed s next e = permitted s next (ground (arith, e))

-- From a known state, Activate starts a created component, finds an active one, and panics where a
-- close has begun; BeginClose moves a component that was not closing to closing and answers true, and
-- false otherwise; the serialized variant answers true until the component is closed; MarkClosed
-- always leaves it closed, and answers whether it was not. Any operation panics in an unknown state.
pub perform_lem :
    (s : LifecycleState)
    → (s ≡ created → perform activate s ≡ ok (active, true))
      × (s ≡ active → perform activate s ≡ ok (active, false))
      × ((closing ≤ s) × (s ≤ closed) → perform activate s ≡ err lifecycle_invalid_transition)
      × (s ≤ active → perform begin_close s ≡ ok (closing, true))
      × ((closing ≤ s) × (s ≤ closed) → perform begin_close s ≡ ok (s, false))
      × (s ≤ closing → perform begin_or_continue_close s ≡ ok (closing, true))
      × (s ≡ closed → perform begin_or_continue_close s ≡ ok (closed, false))
      × (s < closed → perform mark_closed s ≡ ok (closed, true))
      × (s ≡ closed → perform mark_closed s ≡ ok (closed, false))
      × (closed < s → (operation : Operation) → perform operation s ≡ err lifecycle_unknown_state)
unfolding perform
perform_lem s = (
  (λ h. ground (arith, h)),
  (λ h. ground (arith, h)),
  (λ h. ground arith),
  (λ h. ground arith),
  (λ h. ground arith),
  (λ h. ground arith),
  (λ h. ground (arith, h)),
  (λ h. ground arith),
  (λ h. ground (arith, h)),
  λ h. unknown h,
)
  where
    unknown :
        closed < s → (operation : Operation) → perform operation s ≡ err lifecycle_unknown_state
    unknown h activate = ground arith
    unknown h begin_close = ground arith
    unknown h begin_or_continue_close = ground arith
    unknown h mark_closed = ground arith

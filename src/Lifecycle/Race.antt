-- ===== src/Lifecycle/Race.antt =====
-- The loops of AtomicLifecycle run by any number of callers, in any interleaving.
use bufferpool.Base.{
  ℕ, ◌≤◌, ◌<◌, ◌≡◌, ◌≢◌, refl, sym, subst, ◌∙◌, ◌⊎◌, inl, inr, Bool, true, false, ok, err, arith,
  ◌==◌, if◌then◌else◌,
}
use native.Mathlib.Decide.{ℕ_discrete}
use bufferpool.Panic.{Panic}
use bufferpool.Lifecycle.{
  LifecycleState, active, closing, closed, Operation, activate, begin_close,
  begin_or_continue_close, mark_closed, swap_for, answers, attempt,
}
use bufferpool.Lifecycle.Laws.{attempt-swap_for}

-- Where a caller is: before the load, between the load and the swap, or done.
pub data Caller : Type 0 where
  waiting : Operation → Caller
  holding : Operation → LifecycleState → Caller
  done : Operation → Bool → Caller
  panicked : Operation → Caller

pub record World : Type 0 where
  pub state : LifecycleState
  pub callers : ℕ → Caller

unfoldable pub turn : ℕ → Caller → (ℕ → Caller) → ℕ → Caller
turn i c callers j = if i == j then c else callers j

pub data Step (w w' : World) : Type 0 where
  reads :
      (i : ℕ) (operation : Operation)
      → w.callers i ≡ waiting operation
      → w' ≡ record w { callers = turn i (holding operation w.state) w.callers }
      → Step w w'
  answers_now :
      (i : ℕ) (operation : Operation) (s : LifecycleState) (reply : Bool)
      → w.callers i ≡ holding operation s
      → attempt operation s ≡ ok (answers reply)
      → w' ≡ record w { callers = turn i (done operation reply) w.callers }
      → Step w w'
  panics :
      (i : ℕ) (operation : Operation) (s : LifecycleState) (p : Panic)
      → w.callers i ≡ holding operation s
      → attempt operation s ≡ err p
      → w' ≡ record w { callers = turn i (panicked operation) w.callers }
      → Step w w'
  -- the swap finds the state that was loaded, and the call answers true
  swaps :
      (i : ℕ) (operation : Operation) (next : LifecycleState)
      → w.callers i ≡ holding operation w.state
      → attempt operation w.state ≡ ok (swap_for next)
      → w' ≡ record w { state = next; callers = turn i (done operation true) w.callers }
      → Step w w'
  -- it finds another, and the loop goes round
  loses :
      (i : ℕ) (operation : Operation) (s next : LifecycleState)
      → w.callers i ≡ holding operation s
      → w.state ≢ s
      → attempt operation s ≡ ok (swap_for next)
      → w' ≡ record w { callers = turn i (waiting operation) w.callers }
      → Step w w'

pub data Reach (w : World) : World → Type 0 where
  here : Reach w w
  later : {t u : World} → Reach w t → Step t u → Reach w u

-- The state that a call of the operation that answers true has left or passed.
unfoldable pub goal_of : Operation → LifecycleState
goal_of activate = active
goal_of begin_close = closing
goal_of begin_or_continue_close = closing
goal_of mark_closed = closed

-- The operations that one caller only is meant to win; a serialized close may be begun and continued.
unfoldable pub is_exclusive : Operation → Bool
is_exclusive begin_or_continue_close = false
is_exclusive _ = true

swap_goal :
    (operation : Operation) (s next : LifecycleState)
    → attempt operation s ≡ ok (swap_for next)
    → (goal_of operation ≤ next) × (s < goal_of operation)
unfolding attempt goal_of
swap_goal activate s next e = (ground (arith, e), ground (arith, e))
swap_goal begin_close s next e = (ground (arith, e), ground (arith, e))
swap_goal begin_or_continue_close s next e = (ground (arith, e), ground (arith, e))
swap_goal mark_closed s next e = (ground (arith, e), ground (arith, e))

true_answer :
    (operation : Operation) (s : LifecycleState)
    → attempt operation s ≡ ok (answers true)
    → (is_exclusive operation ≡ false) × (goal_of operation ≤ s)
unfolding attempt goal_of is_exclusive
true_answer activate s e = absurd (ground (arith, e))
true_answer begin_close s e = absurd (ground (arith, e))
true_answer begin_or_continue_close s e = (refl, ground (arith, e))
true_answer mark_closed s e = absurd (ground (arith, e))

record IsOrdered (start : LifecycleState) (w : World) : Type 0 where
  grown : start ≤ w.state
  known : w.state ≤ closed
  seen : (i : ℕ) (o : Operation) (s : LifecycleState) → w.callers i ≡ holding o s → s ≤ w.state
  passed : (i : ℕ) (o : Operation) → w.callers i ≡ done o true → goal_of o ≤ w.state
  single :
      (i j : ℕ) (o : Operation)
      → i ≢ j
      → is_exclusive o ≡ true
      → w.callers i ≡ done o true
      → w.callers j ≢ done o true

turned :
    (i j : ℕ) (c d : Caller) (f : ℕ → Caller) → turn i c f j ≡ d → ((i ≡ j) × (c ≡ d)) ⊎ (f j ≡ d)
unfolding turn
turned i j c d f e = elim (ℕ_discrete i j) [
  | yes ij ↦ inl (ij, ground arith)
  | no other ↦ inr (ground arith)
]

shared_exclusive : (o : Operation) → is_exclusive o ≡ false → is_exclusive o ≡ true → ⊥
shared_exclusive o e f = cc

-- A move that leaves the state alone, and ends no call of an exclusive operation with true.
quiet :
    (start : LifecycleState) (w : World) (i : ℕ) (c : Caller)
    → ((o : Operation) → c ≡ done o true → (is_exclusive o ≡ false) × (goal_of o ≤ w.state))
    → ((o : Operation) (s : LifecycleState) → c ≡ holding o s → s ≤ w.state)
    → IsOrdered start w
    → IsOrdered start (record w { callers = turn i c w.callers })
quiet start w i c free held o = record {
  grown = o.grown;
  known = o.known;
  seen = λ j op s e. elim (turned i j c (holding op s) w.callers e) [
    | inl (_, new) ↦ held op s new
    | inr old ↦ o.seen j op s old
  ];
  passed = λ j op e. elim (turned i j c (done op true) w.callers e) [
    | inl (_, new) ↦ (free op new).1
    | inr old ↦ o.passed j op old
  ];
  single = λ j k op jk exclusive ej ek. elim (turned i j c (done op true) w.callers ej) [
    | inl (_, new) ↦ shared_exclusive op (free op new).0 exclusive
    | inr old_j ↦ elim (turned i k c (done op true) w.callers ek) [
      | inl (_, new) ↦ shared_exclusive op (free op new).0 exclusive
      | inr old_k ↦ o.single j k op jk exclusive old_j old_k
    ]
  ];
}

same_done : (a b : Operation) → done a true ≡ done b true → a ≡ b
same_done a b e = cc

-- A swap: no call of the same operation had answered true before.
won :
    (start : LifecycleState) (w : World) (i : ℕ) (a : Operation) (next : LifecycleState)
    → attempt a w.state ≡ ok (swap_for next)
    → IsOrdered start w
    → IsOrdered start (record w { state = next; callers = turn i (done a true) w.callers })
won start w i a next e o =
    let forward = attempt-swap_for a w.state next e in
    let goal = swap_goal a w.state next e in
    record {
      grown = omega (arith, o.grown, forward.0);
      known = forward.1;
      seen = λ j op s ej. elim (turned i j (done a true) (holding op s) w.callers ej) [
        | inl (_, new) ↦ cc (new)
        | inr old ↦ omega (arith, o.seen j op s old, forward.0)
      ];
      passed = λ j op ej. elim (turned i j (done a true) (done op true) w.callers ej) [
        | inl (_, new) ↦ subst (λ p. goal_of p ≤ next) (same_done a op new) goal.0
        | inr old ↦ omega (arith, o.passed j op old, forward.0)
      ];
      single = λ j k op jk exclusive ej ek.
          elim (turned i j (done a true) (done op true) w.callers ej) [
            | inl (ij, new_j) ↦ elim (turned i k (done a true) (done op true) w.callers ek) [
              | inl (ik, _) ↦ absurd (jk (sym ij ∙ ik))
              | inr old_k ↦ first_time op (same_done a op new_j) (o.passed k op old_k)
            ]
            | inr old_j ↦ elim (turned i k (done a true) (done op true) w.callers ek) [
              | inl (_, new_k) ↦ first_time op (same_done a op new_k) (o.passed j op old_j)
              | inr old_k ↦ o.single j k op jk exclusive old_j old_k
            ]
          ];
    }
  where
    first_time : (op : Operation) → a ≡ op → goal_of op ≤ w.state → ⊥
    first_time op same had =
        let below = subst (λ p. w.state < goal_of p) same (swap_goal a w.state next e).1 in
        omega (arith, below, had)

held_state : (a b : Operation) (s x : LifecycleState) → holding a s ≡ holding b x → x ≤ s
held_state a b s x e = let same : s ≡ x = cc in omega (arith, same)

Step-IsOrdered :
    (start : LifecycleState) {w w' : World} → IsOrdered start w → Step w w' → IsOrdered start w'
Step-IsOrdered start {w} o (reads i a at e) =
    subst (IsOrdered start) (sym e)
      (quiet start w i (holding a w.state) (λ op f. cc) (λ op s f. held_state a op w.state s f) o)
Step-IsOrdered start {w} o (answers_now i a s true at said e) = subst (IsOrdered start) (sym e) (
    quiet start w i (done a true)
      (λ op f.
        subst (λ p. (is_exclusive p ≡ false) × (goal_of p ≤ w.state)) (same_done a op f)
          (let t = true_answer a s said in (t.0, omega (arith, t.1, o.seen i a s at))))
      (λ op x f. cc (f)) o)
Step-IsOrdered start {w} o (answers_now i a s false at said e) =
    subst (IsOrdered start) (sym e)
      (quiet start w i (done a false) (λ op f. cc) (λ op x f. cc (f)) o)
Step-IsOrdered start {w} o (panics i a s p at said e) =
    subst (IsOrdered start) (sym e) (quiet start w i (panicked a) (λ op f. cc) (λ op x f. cc (f)) o)
Step-IsOrdered start {w} o (swaps i a next at said e) =
    subst (IsOrdered start) (sym e) (won start w i a next said o)
Step-IsOrdered start {w} o (loses i a s next at other said e) =
    subst (IsOrdered start) (sym e) (quiet start w i (waiting a) (λ op f. cc) (λ op x f. cc (f)) o)

Reach-IsOrdered :
    (start : LifecycleState) {w u : World} → IsOrdered start w → Reach w u → IsOrdered start u
Reach-IsOrdered start o here = o
Reach-IsOrdered start o (later r s) = Step-IsOrdered start (Reach-IsOrdered start o r) s

-- However calls of Activate, BeginClose, MarkClosed and the serialized close interleave, none of which
-- has begun in the first state, the state never goes back and stays known, a call that has answered
-- true has got the component to its goal (active, closing, closed, and closing for the serialized
-- close) or later, and of the calls of one of the first three operations at most one answers true.
pub Reach-single :
    {w u : World}
    → w.state ≤ closed
    → ((i : ℕ) → (operation : Operation) × (w.callers i ≡ waiting operation))
    → Reach w u
    → (w.state ≤ u.state)
      × (u.state ≤ closed)
      × ((i : ℕ) (o : Operation) → u.callers i ≡ done o true → goal_of o ≤ u.state)
      × ((i j : ℕ) (o : Operation)
          → i ≢ j
          → is_exclusive o ≡ true
          → u.callers i ≡ done o true
          → u.callers j ≢ done o true)
Reach-single {w} known all_waiting r =
    let o = Reach-IsOrdered w.state start r in (o.grown, o.known, o.passed, o.single)
  where
    loaded : (i : ℕ) (o : Operation) (s : LifecycleState) → w.callers i ≢ holding o s
    loaded i o s e = let (a, h) = all_waiting i in cc (h, e)

    unfinished : (i : ℕ) (o : Operation) → w.callers i ≢ done o true
    unfinished i o e = let (a, s) = all_waiting i in cc (s)

    start : IsOrdered w.state w
    start = record {
      grown = omega arith;
      known = known;
      seen = λ i o s e. absurd (loaded i o s e);
      passed = λ i o e. absurd (unfinished i o e);
      single = λ i j o ij exclusive e _. absurd (unfinished i o e);
    }

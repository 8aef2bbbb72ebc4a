-- ===== src/Generation/Race.antt =====
-- The compare-and-swap loops of generation.go, shard_credit.go and class_budget.go run by any number
-- of callers on one atomic value, in any interleaving.
use bufferpool.Base.{
  ℕ, ◌≤◌, ◌<◌, ◌≡◌, ◌≢◌, subst, sym, ◌∙◌, ◌⊎◌, inl, inr, ok, arith, ◌==◌, if◌then◌else◌,
}
use native.Mathlib.Decide.{ℕ_discrete}
use bufferpool.Generation.{Generation, next_at_least}

-- Where a caller is in its loop: before the load, or between the load and the swap.
pub data Caller : Type 0 where
  -- the minimum generation asked for, 0 in Advance
  starting : (minimum : Generation) → Caller
  loaded : (minimum current : Generation) → Caller
  returned : (published : Generation) → Caller

pub record World : Type 0 where
  pub value : Generation
  pub callers : ℕ → Caller

unfoldable pub become : ℕ → Caller → (ℕ → Caller) → ℕ → Caller
become i c callers j = if i == j then c else callers j

pub data Step (w w' : World) : Type 0 where
  -- `current := g.value.Load()`
  load :
      (i minimum : ℕ)
      → w.callers i ≡ starting minimum
      → w' ≡ record w { callers = become i (loaded minimum w.value) w.callers }
      → Step w w'
  -- the swap finds `current` and stores the next generation, which the call returns
  swap :
      (i minimum current published : ℕ)
      → w.callers i ≡ loaded minimum current
      → w.value ≡ current
      → next_at_least minimum current ≡ ok published
      → w' ≡ record w { value = published; callers = become i (returned published) w.callers }
      → Step w w'
  -- the swap finds another value, and the loop goes round
  retry :
      (i minimum current : ℕ)
      → w.callers i ≡ loaded minimum current
      → w.value ≢ current
      → w' ≡ record w { callers = become i (starting minimum) w.callers }
      → Step w w'

pub data Reach (w : World) : World → Type 0 where
  here : Reach w w
  then_step : {u v : World} → Reach w u → Step u v → Reach w v

pub next_at_least-lt :
    (minimum current published : ℕ)
    → next_at_least minimum current ≡ ok published
    → (current < published) × (minimum ≤ published)
unfolding next_at_least
next_at_least-lt minimum current published e = ground arith

-- What holds of the callers that have returned, in a race that began at `start`.
record IsOrdered (start : Generation) (w : World) : Type 0 where
  grown : start ≤ w.value
  bounded : (i p : ℕ) → w.callers i ≡ returned p → (start < p) × (p ≤ w.value)
  distinct : (i j p q : ℕ) → i ≢ j → w.callers i ≡ returned p → w.callers j ≡ returned q → p ≢ q

become_self : (i : ℕ) (c : Caller) (f : ℕ → Caller) → become i c f i ≡ c
unfolding become
become_self i c f = ground arith

become_other : (i j : ℕ) (c : Caller) (f : ℕ → Caller) → i ≢ j → become i c f j ≡ f j
unfolding become
become_other i j c f ne = ground arith

-- A caller that returned after `i` moved without returning had returned before.
unreturned :
    (i j p : ℕ) (c : Caller) (f : ℕ → Caller)
    → ((q : ℕ) → c ≢ returned q)
    → become i c f j ≡ returned p
    → f j ≡ returned p
unfolding become
unreturned i j p c f ne e = elim (ℕ_discrete i j) [
  | yes ij ↦ absurd (ne p (ground arith))
  | no other ↦ ground arith
]

quiet_move :
    (start : Generation) (w : World) (i : ℕ) (c : Caller)
    → ((q : ℕ) → c ≢ returned q)
    → IsOrdered start w
    → IsOrdered start (record w { callers = become i c w.callers })
quiet_move start w i c ne o = record {
  grown = o.grown;
  bounded = λ j p e. o.bounded j p (unreturned i j p c w.callers ne e);
  distinct = λ j k p q jk ep eq.
      o.distinct j k p q jk (unreturned i j p c w.callers ne ep)
        (unreturned i k q c w.callers ne eq);
}

became :
    (i j p published : ℕ) (f : ℕ → Caller)
    → become i (returned published) f j ≡ returned p
    → ((i ≡ j) × (p ≡ published)) ⊎ (f j ≡ returned p)
unfolding become
became i j p published f e = elim (ℕ_discrete i j) [
  | yes ij ↦ inl (ij, ground arith)
  | no other ↦ inr (ground arith)
]

swap_move :
    (start : Generation) (w : World) (i published : ℕ)
    → w.value < published
    → IsOrdered start w
    → IsOrdered start
        (record w { value = published; callers = become i (returned published) w.callers })
swap_move start w i published lt o = record {
  grown = omega (arith, o.grown);
  bounded = λ j p e. elim (became i j p published w.callers e) [
    | inl (_, same) ↦ omega (arith, o.grown)
    | inr old ↦ omega (arith, o.bounded j p old)
  ];
  distinct = λ j k p q jk ep eq. elim (became i j p published w.callers ep) [
    | inl (ij, new) ↦ elim (became i k q published w.callers eq) [
      | inl (ik, _) ↦ absurd (jk (sym ij ∙ ik))
      | inr old ↦ omega (arith, o.bounded k q old)
    ]
    | inr old_j ↦ elim (became i k q published w.callers eq) [
      | inl (ik, new) ↦ omega (arith, o.bounded j p old_j)
      | inr old_k ↦ o.distinct j k p q jk old_j old_k
    ]
  ];
}

Step-IsOrdered :
    (start : Generation) {w w' : World} → IsOrdered start w → Step w w' → IsOrdered start w'
Step-IsOrdered start {w} o (load i minimum at e) =
    subst (IsOrdered start) (sym e) (quiet_move start w i (loaded minimum w.value) (λ q f. cc) o)
Step-IsOrdered start {w} o (swap i minimum current published at same n e) =
    subst (IsOrdered start) (sym e) (
      swap_move start w i published
        (omega (arith, same, (next_at_least-lt minimum current published n).0)) o)
Step-IsOrdered start {w} o (retry i minimum current at other e) =
    subst (IsOrdered start) (sym e) (quiet_move start w i (starting minimum) (λ q f. cc) o)

Reach-IsOrdered :
    (start : Generation) {w u : World} → IsOrdered start w → Reach w u → IsOrdered start u
Reach-IsOrdered start o here = o
Reach-IsOrdered start o (then_step r s) = Step-IsOrdered start (Reach-IsOrdered start o r) s

-- However the calls of Advance and publishGenerationAtLeast interleave, the value never falls, every
-- call that has returned returned a generation above the first value and at most the present one, and
-- no two calls returned the same generation.
pub Reach-distinct :
    {w u : World}
    → ((i : ℕ) → (minimum : ℕ) × (w.callers i ≡ starting minimum))
    → Reach w u
    → (w.value ≤ u.value)
      × ((i p : ℕ) → u.callers i ≡ returned p → (w.value < p) × (p ≤ u.value))
      × ((i j p q : ℕ) → i ≢ j → u.callers i ≡ returned p → u.callers j ≡ returned q → p ≢ q)
Reach-distinct {w} all_start r =
    let o = Reach-IsOrdered w.value start r in (o.grown, o.bounded, o.distinct)
  where
    fresh : (i p : ℕ) → w.callers i ≢ returned p
    fresh i p e = let (m, s) = all_start i in cc (s)

    start : IsOrdered w.value w
    start = record {
      grown = omega arith;
      bounded = λ i p e. absurd (fresh i p e);
      distinct = λ i j p q ij e _. absurd (fresh i p e);
    }

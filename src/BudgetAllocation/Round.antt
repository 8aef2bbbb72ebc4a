-- ===== src/BudgetAllocation/Round.antt =====
-- One pass of the distribution of a remainder.
use bufferpool.Base.{
  sym, subst, ℕ, ◌+◌, ◌-◌, ◌≤◌, ◌<◌, ◌≡◌, refl, ◌⊎◌, inl, inr, Bool, true, false, not, Bool-cases,
  List, [], ◌∷◌, arith, ◌==◌, ◌||◌, min_uint64,
}
use bufferpool.BudgetAllocation.{Target}
use bufferpool.BudgetAllocation.Pass.{assigned_sum}
use bufferpool.BudgetAllocation.Share.{has_room, added_to, distribute_pass}
use bufferpool.BudgetAllocation.Weights.{IsGrown, IsMore-refl, IsGrown-refl, Weighs, AllZero}

pub record Passes (remainder : ℕ) (rs : List Target) (ws : List ℕ) (out : List Target × ℕ × Bool)
    : Type 0 where
  pub grown : IsGrown rs out.0
  pub tracks : assigned_sum out.0 + out.1 ≡ assigned_sum rs + remainder
  pub no_more : out.1 ≤ remainder
  pub changes : out.2 ≡ true → out.1 < remainder
  pub unchanged : out.2 ≡ false → (remainder ≡ 0) ⊎ AllZero ws

-- What a child with room and a weight gets: at least a byte, within its room and the remainder.
added_to_lem :
    (pass_remainder total_weight remainder w : ℕ) (r : Target)
    → 0 < remainder
    → r.assigned_bytes < r.max_bytes
    → (0 < added_to pass_remainder total_weight remainder w r)
      × (added_to pass_remainder total_weight remainder w r ≤ remainder)
      × (r.assigned_bytes + added_to pass_remainder total_weight remainder w r ≤ r.max_bytes)
unfolding added_to min_uint64
added_to_lem pass_remainder total_weight remainder w r p room =
    (ground arith, ground arith, ground arith)

module _ (pass_remainder total_weight : ℕ) where
  abbrev run : ℕ → List Target → List ℕ → List Target × ℕ × Bool
  run = distribute_pass pass_remainder total_weight

  abbrev grown_by : ℕ → ℕ → Target → Target
  grown_by remainder w r = record r {
    assigned_bytes = r.assigned_bytes + added_to pass_remainder total_weight remainder w r;
  }

  module _ (remainder : ℕ) (r : Target) (rs : List Target) (w : ℕ) (ws : List ℕ) where
    run_done :
        (remainder == 0) ≡ true → run remainder (r ∷ rs) (w ∷ ws) ≡ (r ∷ rs, remainder, false)
    unfolding distribute_pass
    run_done e = rw (distribute_pass, e)

    run_skip :
        (remainder == 0) ≡ false
        → (not (has_room r) || w == 0) ≡ true
        → run remainder (r ∷ rs) (w ∷ ws)
          ≡ (r ∷ (run remainder rs ws).0, (run remainder rs ws).1, (run remainder rs ws).2)
    unfolding distribute_pass
    run_skip e s = rw (distribute_pass, e) (rw s)

    run_add :
        (remainder == 0) ≡ false
        → (not (has_room r) || w == 0) ≡ false
        → let left = remainder - added_to pass_remainder total_weight remainder w r in
          run remainder (r ∷ rs) (w ∷ ws)
          ≡ (grown_by remainder w r ∷ (run left rs ws).0, (run left rs ws).1, true)
    unfolding distribute_pass
    run_add e s = rw (distribute_pass, e) (rw s)

  pub run-Passes :
      (remainder : ℕ) (rs : List Target) (ws : List ℕ)
      → Weighs rs ws
      → Passes remainder rs ws (run remainder rs ws)
  run-Passes remainder [] [] v =
      unfold distribute_pass in
      record {
        grown = tt;
        tracks = refl;
        no_more = omega arith;
        changes = λ e. cc;
        unchanged = λ e. inr tt;
      }
  run-Passes remainder [] (w ∷ ws) v = absurd v
  run-Passes remainder (r ∷ rs) [] v = absurd v
  run-Passes remainder (r ∷ rs) (w ∷ ws) v = elim (Bool-cases (remainder == 0)) [
    | inl e ↦
        subst (Passes remainder (r ∷ rs) (w ∷ ws)) (sym (run_done remainder r rs w ws e)) record {
          grown = IsGrown-refl (r ∷ rs);
          tracks = refl;
          no_more = omega arith;
          changes = λ e. cc;
          unchanged = λ f. inl (ground (arith, e));
        }
    | inr e ↦ elim (Bool-cases (not (has_room r) || w == 0)) [
      | inl s ↦
          let rest = run-Passes remainder rs ws v.1 in
          subst (Passes remainder (r ∷ rs) (w ∷ ws)) (sym (run_skip remainder r rs w ws e s))
            record {
              grown = (IsMore-refl r, rest.grown);
              tracks = omega (arith, rest.tracks);
              no_more = rest.no_more;
              changes = rest.changes;
              unchanged = λ f. elim (rest.unchanged f) [
                | inl z ↦ inl z
                | inr z ↦ inr (ground (arith, s, v.0), z)
              ];
            }
      | inr s ↦
          let p : 0 < remainder = ground (arith, e) in
          let room : r.assigned_bytes < r.max_bytes = ground (arith, s) in
          let (some_added, bound, fits) =
            added_to_lem pass_remainder total_weight remainder w r p room in
          let rest =
            run-Passes (remainder - added_to pass_remainder total_weight remainder w r) rs ws v.1 in
          subst (Passes remainder (r ∷ rs) (w ∷ ws)) (sym (run_add remainder r rs w ws e s))
            record {
              grown = (
                record {
                  same_min = refl;
                  same_max = refl;
                  no_less = omega arith;
                  within_max = inl fits;
                },
                rest.grown,
              );
              tracks = omega (arith, rest.tracks, bound);
              no_more = omega (arith, rest.no_more);
              changes = λ f. omega (arith, rest.no_more, some_added, bound);
              unchanged = λ f. cc;
            }
    ]
  ]

-- ===== src/Lifecycle/Tests.antt =====
-- The lifecycle at concrete inputs.
use bufferpool.Base.{◌≤◌, ◌≡◌, refl, true}
use bufferpool.Lifecycle.{closed, Operation, begin_close, attempt}
use bufferpool.Base.{◌≢◌, ℕ, arith}
use bufferpool.Lifecycle.Race.{
  World, waiting, holding, done, turn, Reach, here, later, reads, swaps, loses, goal_of,
  is_exclusive, Reach-single,
}

-- Everybody calls BeginClose on an active component.
abbrev before_close : World
before_close = record { state = 1; callers = λ i. waiting begin_close }

-- Callers 0 and 1 load active, caller 0 swaps, and caller 1 has to go round.
abbrev both_hold : World
both_hold = record {
  state = 1;
  callers =
      turn 1 (holding begin_close 1) (turn 0 (holding begin_close 1) (λ i. waiting begin_close));
}

abbrev one_closes : World
one_closes = record { state = 2; callers = turn 0 (done begin_close true) both_hold.callers }

abbrev other_loses : World
other_loses = record { state = 2; callers = turn 1 (waiting begin_close) one_closes.callers }

close_race : Reach before_close other_loses
unfolding turn attempt
close_race =
    later
      (later (later (later here (reads 0 begin_close refl refl)) (reads 1 begin_close refl refl))
        (swaps 0 begin_close 2 refl refl refl))
      (loses 1 begin_close 1 2 refl (omega arith) refl refl)

Reach-single_example :
    (1 ≤ 2)
    × (2 ≤ closed)
    × ((i : ℕ) (o : Operation) → other_loses.callers i ≡ done o true → goal_of o ≤ 2)
    × ((i j : ℕ) (o : Operation)
        → i ≢ j
        → is_exclusive o ≡ true
        → other_loses.callers i ≡ done o true
        → other_loses.callers j ≢ done o true)
Reach-single_example = Reach-single (omega arith) (λ i. (begin_close, refl)) close_race

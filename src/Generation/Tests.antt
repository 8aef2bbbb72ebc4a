-- ===== src/Generation/Tests.antt =====
-- Generations at concrete values.
use bufferpool.Base.{ℕ, ◌≤◌, ◌<◌, ◌≡◌, ◌≢◌, refl, arith}
use bufferpool.Generation.{next_at_least}
use bufferpool.Generation.Race.{
  World, starting, loaded, returned, load, swap, retry, Reach, here, then_step, become,
  Reach-distinct,
}

-- Everybody calls Advance, on generation 5.
abbrev before_race : World
before_race = record { value = 5; callers = λ i. starting 0 }

-- Callers 0 and 1 load 5, caller 0 publishes 6, and caller 1 has to go round.
abbrev both_loaded : World
both_loaded = record {
  value = 5;
  callers = become 1 (loaded 0 5) (become 0 (loaded 0 5) (λ i. starting 0));
}

abbrev first_won : World
first_won = record { value = 6; callers = become 0 (returned 6) both_loaded.callers }

abbrev second_retries : World
second_retries = record { value = 6; callers = become 1 (starting 0) first_won.callers }

race : Reach before_race second_retries
unfolding become next_at_least
race =
    then_step
      (then_step (then_step (then_step here (load 0 0 refl refl)) (load 1 0 refl refl))
        (swap 0 0 5 6 refl refl refl refl))
      (retry 1 0 5 refl (omega arith) refl)

Reach-distinct_example :
    (5 ≤ 6)
    × ((i p : ℕ) → second_retries.callers i ≡ returned p → (5 < p) × (p ≤ 6))
    × ((i j p q : ℕ)
        → i ≢ j
        → second_retries.callers i ≡ returned p
        → second_retries.callers j ≡ returned q
        → p ≢ q)
Reach-distinct_example = Reach-distinct (λ i. (0, refl)) race

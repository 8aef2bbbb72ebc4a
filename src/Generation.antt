-- ===== src/Generation.antt =====
-- generation.go, and the generation publication of shard_credit.go, class_budget.go and
-- budget_allocation.go: publication generations (uint64) that only grow.
-- An operation here runs undisturbed; `Generation.Race` has the compare-and-swap loops of several
-- callers at once.
pub mod Race
pub mod Publish
mod Tests
use bufferpool.Base.{
  ℕ, ◌+◌, Bool, ◌||◌, not, ltb, ◌==◌, if◌then◌else◌, Result, ok, err, ◌>>=◌, max_uint64,
}
use bufferpool.Panic.{Panic, generation_overflow}

abbrev pub Generation : Type 0
Generation = ℕ

abbrev pub no_generation : Generation
no_generation = 0

abbrev pub initial_generation : Generation
initial_generation = 1

abbrev pub max_generation : Generation
max_generation = max_uint64

abbrev pub is_zero : Generation → Bool
is_zero g = g == no_generation

abbrev pub before : Generation → Generation → Bool
before g other = ltb g other

unfoldable pub next : Generation → Result Panic Generation
next g = if g == max_generation then err generation_overflow else ok (g + 1)

-- The body of the loop of publishGenerationAtLeast: what it tries to store over `current`. With no
-- minimum the source calls Advance.
unfoldable pub next_at_least : Generation → Generation → Result Panic Generation
unfolding next
next_at_least minimum current =
    if is_zero minimum
    then next current
    else if not (before current minimum)
    then next current
    else ok minimum

-- Advance and publishGenerationAtLeast where nobody else writes: the first swap succeeds.
unfoldable pub advance : Generation → Result Panic Generation
unfolding next
advance current = next current

unfoldable pub publish_at_least : Generation → Generation → Result Panic Generation
unfolding next_at_least advance
publish_at_least minimum current =
    if is_zero minimum then advance current else next_at_least minimum current

-- budgetPublicationGeneration
unfoldable pub budget_publication_generation : Generation → Generation → Result Panic Generation
unfolding next
budget_publication_generation current target =
    if is_zero target || not (before current target) then next current else ok target

-- ===== src/Generation/Publish.antt =====
-- Publications that nobody disturbs.
use bufferpool.Base.{◌+◌, ◌≤◌, ◌<◌, ◌≡◌, ok, err, arith, max}
use bufferpool.Panic.{generation_overflow}
use bufferpool.Generation.{
  Generation, max_generation, publish_at_least, budget_publication_generation,
}

-- A publication that nobody disturbs stores the larger of the minimum and the generation after the
-- current one; it panics only when the largest generation is in use. budgetPublicationGeneration
-- makes the same choice.
pub publish_at_least_lem :
    (minimum current : Generation)
    → minimum ≤ max_generation
    → (current < max_generation → publish_at_least minimum current ≡ ok (max (current + 1) minimum))
      × (current ≡ max_generation → publish_at_least minimum current ≡ err generation_overflow)
      × (budget_publication_generation current minimum ≡ publish_at_least minimum current)
unfolding publish_at_least budget_publication_generation
publish_at_least_lem minimum current h = (λ lt. ground arith, (λ e. ground arith), ground arith)

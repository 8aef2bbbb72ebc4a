-- ===== src/ClassState/Run.antt =====
-- Any run of the operations of a class.
use bufferpool.Base.{ℕ, ◌≡◌, Bool, Option, Result, ok}
use bufferpool.Base.Int.{ℤ, pos}
use bufferpool.Panic.{Panic}
use bufferpool.Slice.{Slice, Memory}
use bufferpool.Size.{Size}
use bufferpool.Generation.{Generation}
use bufferpool.Bucket.{TrimResult}
use bufferpool.ClassState.{
  ClassState, update_class_budget_at_least, update_class_budget, disable_class_budget, clear_class,
  record_class_allocation, ClassRetainResult, class_try_retain, trim_class_shard, clear_class_shard,
}
use bufferpool.ClassState.Get.{ClassGetResult, class_try_get, try_get_selected_with_fallback}
use bufferpool.ClassState.Inv.{IsClass}
use bufferpool.ClassState.Credits.{
  returned, update_class_budget_at_least-IsClass, update_class_budget-IsClass,
  disable_class_budget-IsClass,
}
use bufferpool.ClassState.Clear.{clear_class-IsClass, class_try_get-IsClass}
use bufferpool.ClassState.Keeps.{
  gets-IsClass, made-IsClass, trims-IsClass, clears-IsClass, puts-IsClass,
}

-- An operation that returned.
pub data ClassStep (s : ClassState) : ClassState → Type 0 where
  gets :
      (selector : Option (ℤ → Result Panic ℤ)) (requested : Size) (fallback_shards : ℤ)
      (after : ClassState) (reply : ClassGetResult)
      → try_get_selected_with_fallback selector s requested fallback_shards ≡ ok (after, reply)
      → ClassStep s after
  puts :
      (m memory : Memory) (index : ℤ) (buffer : Slice) (zero_before_retain : Bool)
      (after : ClassState) (reply : ClassRetainResult)
      → class_try_retain s m index buffer zero_before_retain ≡ ok (after, memory, reply)
      → ClassStep s after
  made :
      (index : ℤ) (allocated : ℕ) (after : ClassState)
      → record_class_allocation s index allocated ≡ ok after
      → ClassStep s after
  trims :
      (index : ℤ) (max_buffers max_bytes : ℕ) (after : ClassState) (report : TrimResult)
      → trim_class_shard s index (pos max_buffers) max_bytes ≡ ok (after, report)
      → ClassStep s after
  clears :
      (index : ℤ) (after : ClassState) (report : TrimResult)
      → clear_class_shard s index ≡ ok (after, report)
      → ClassStep s after
  budgets :
      (assigned : Size) (minimum published : Generation) (after : ClassState)
      → update_class_budget_at_least s assigned minimum ≡ ok (after, published)
      → ClassStep s after
  tries :
      (index : ℤ) (requested : Size) (after : ClassState) (reply : ClassGetResult)
      → class_try_get s index requested ≡ ok (after, reply)
      → ClassStep s after
  updates :
      (assigned : Size) (published : Generation) (after : ClassState)
      → update_class_budget s assigned ≡ ok (after, published)
      → ClassStep s after
  disables :
      (published : Generation) (after : ClassState)
      → disable_class_budget s ≡ ok (after, published)
      → ClassStep s after
  clears_all :
      (removed_buffers removed_bytes : ℕ) (after : ClassState)
      → clear_class s ≡ ok (after, removed_buffers, removed_bytes)
      → ClassStep s after

pub data ClassRun (s : ClassState) : ClassState → Type 0 where
  done : ClassRun s s
  more : {t u : ClassState} → ClassRun s t → ClassStep t u → ClassRun s u

Step-IsClass : (s after : ClassState) → IsClass s → ClassStep s after → IsClass after
Step-IsClass s after v (gets selector requested fallback_shards t reply e) =
    returned (λ r. IsClass r.0) _ (t, reply) (gets-IsClass selector s requested fallback_shards v) e
Step-IsClass s after v (puts m memory index buffer z t reply e) =
    returned (λ r. IsClass r.0) _ (t, memory, reply) (puts-IsClass s m index buffer z v) e
Step-IsClass s after v (made index allocated t e) =
    returned IsClass _ t (made-IsClass s index allocated v) e
Step-IsClass s after v (trims index max_buffers max_bytes t report e) =
    returned (λ r. IsClass r.0) _ (t, report) (trims-IsClass s index max_buffers max_bytes v) e
Step-IsClass s after v (clears index t report e) =
    returned (λ r. IsClass r.0) _ (t, report) (clears-IsClass s index v) e
Step-IsClass s after v (budgets assigned minimum published t e) =
    returned (λ r. IsClass r.0) _ (t, published)
      (update_class_budget_at_least-IsClass s assigned minimum v) e
Step-IsClass s after v (tries index requested t reply e) =
    returned (λ r. IsClass r.0) _ (t, reply) (class_try_get-IsClass s index requested v) e
Step-IsClass s after v (updates assigned published t e) =
    returned (λ r. IsClass r.0) _ (t, published) (update_class_budget-IsClass s assigned v) e
Step-IsClass s after v (disables published t e) =
    returned (λ r. IsClass r.0) _ (t, published) (disable_class_budget-IsClass s v) e
Step-IsClass s after v (clears_all removed_buffers removed_bytes t e) =
    returned (λ r. IsClass r.0) _ (t, removed_buffers, removed_bytes) (clear_class-IsClass s v) e

-- After any run of gets with and without fallback, returns, allocations, trims and clears of a shard,
-- clears of all shards, and updates and disables of the budget, a valid class is valid:
-- its shards keep their invariants and hold only buffers of at least the class size.
pub ClassRun-IsClass : (s after : ClassState) → IsClass s → ClassRun s after → IsClass after
ClassRun-IsClass s after v done = v
ClassRun-IsClass s after v (more {t} run step) =
    Step-IsClass t after (ClassRun-IsClass s t v run) step

-- ===== src/ClassState/Tests.antt =====
-- A class of two shards at concrete values.
use bufferpool.Base.{◌<◌, ◌≡◌, refl, false, [], ◌∷◌, replicate, some, ok, err, Holds, arith}
use bufferpool.Base.Int.{pos}
use bufferpool.Panic.{shard_selector_invalid_index}
use bufferpool.Slice.{view, Memory}
use bufferpool.ClassTable.{SizeClass}
use bufferpool.Shard.{new_shard}
use bufferpool.Shard.Reach.{created-IsShard}
use bufferpool.ShardSelection.{select_single, select_shard_index}
use bufferpool.ClassState.Counters.{zero_class_counters}
use bufferpool.ClassState.{ClassState, new_class_state, class_try_retain}
use bufferpool.ClassState.Get.{try_get_selected_with_fallback, fallback_shard_index}
use bufferpool.ClassState.Fallback.{FallbackGets, try_get_selected_with_fallback-FallbackGets}
use bufferpool.ClassState.Retains.{ClassRetained, class_try_retain-ClassRetained}
use bufferpool.ClassState.Create.{empty_shard, new_class_state-IsClass}
use bufferpool.ClassState.Run.{done, more, puts, ClassRun-IsClass}
use bufferpool.ClassState.Keeps.{select_shard_index-lt}
use bufferpool.ClassState.Inv.{IsClass, IsClassShard}

abbrev kib_class : SizeClass
kib_class = record { id = 2; size = 1024 }

abbrev two : ClassState
two = record {
  class = kib_class;
  counters = zero_class_counters;
  budget = record { class_size = 1024; generation = 0; assigned_bytes = 0 };
  shards = empty_shard 4 2 ∷ empty_shard 4 2 ∷ [];
}

one-IsClassShard : IsClassShard 1024 (empty_shard 4 2)
unfolding new_shard
one-IsClassShard = record {
  valid = created-IsShard 4 2 (empty_shard 4 2) (omega arith) (omega arith) (omega arith) refl;
  fits = tt;
}

two-IsClass : IsClass two
two-IsClass = record {
  some_size = omega arith;
  some_shard = omega arith;
  budgeted = refl;
  shards = (one-IsClassShard, (one-IsClassShard, tt));
}

out_of_range :
    select_shard_index (some (λ n. ok (pos 2))) (pos 2) ≡ err shard_selector_invalid_index
unfolding select_shard_index
out_of_range = refl

next_of_three : fallback_shard_index 2 1 3 ≡ 0
unfolding fallback_shard_index
next_of_three = refl

next_of_four : fallback_shard_index 3 1 4 ≡ 0
unfolding fallback_shard_index
next_of_four = refl

new_class_state-IsClass_example :
    (s : ClassState) × (new_class_state kib_class (pos 2) (pos 4) (some (pos 2)) ≡ ok s)
    × (s.shards ≡ replicate 2 (empty_shard 4 2))
    × IsClass s
new_class_state-IsClass_example =
    new_class_state-IsClass kib_class 2 4 2 (omega arith) (omega arith) (omega arith) (omega arith)
      (omega arith)

first_shard : select_shard_index (some select_single) (pos 2) ≡ ok 0
unfolding select_shard_index select_single
first_shard = refl

try_get_selected_with_fallback-FallbackGets_example :
    FallbackGets two 0 1000
      (pos 1)
      (try_get_selected_with_fallback (some select_single) two 1000 (pos 1))
try_get_selected_with_fallback-FallbackGets_example =
    try_get_selected_with_fallback-FallbackGets (some select_single) two 0 1000 (pos 1) two-IsClass
      first_shard (omega arith) (omega arith)

abbrev memory : Memory
memory = λ a. 7

class_try_retain-ClassRetained_example :
    ClassRetained two memory 1
      (view 5000 10 1024)
      false
      (class_try_retain two memory (pos 1) (view 5000 10 1024) false)
class_try_retain-ClassRetained_example =
    class_try_retain-ClassRetained two memory 1 (view 5000 10 1024) false two-IsClass (omega arith)

abbrev retained :
    ClassRetained two memory 1
      (view 5000 10 1024)
      false
      (class_try_retain two memory (pos 1) (view 5000 10 1024) false)
retained =
    class_try_retain-ClassRetained two memory 1 (view 5000 10 1024) false two-IsClass (omega arith)

ClassRun-IsClass_example : IsClass retained.after
ClassRun-IsClass_example = ClassRun-IsClass two retained.after two-IsClass (
    more done (
      puts memory retained.memory (pos 1) (view 5000 10 1024) false retained.after retained.reply
        retained.result))

select_shard_index-lt_example : Holds (λ i. i < 2) (select_shard_index (some select_single) (pos 2))
select_shard_index-lt_example = select_shard_index-lt (some select_single) 2

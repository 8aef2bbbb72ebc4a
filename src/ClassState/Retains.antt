-- ===== src/ClassState/Retains.antt =====
-- What a return to a class does.
use bufferpool.Base.{
  ℕ, ◌<◌, ◌≤◌, ◌≡◌, Option, get_elem?, set, inl, inr, refl, Bool, true, false, ltb, Bool-cases,
  none, some, Result, ok, length, arith,
}
use bufferpool.Base.Int.{pos}
use bufferpool.Panic.{Panic}
use bufferpool.Slice.{Slice, capacity, Memory}
use bufferpool.ClassTable.{SizeClass}
use bufferpool.Shard.{Shard, RetainResult, try_retain_with_options}
use bufferpool.ClassState.{
  ClassState, must_shard_at, with_shard, class_retain_accept, allows_shard_retain,
  evaluate_class_retain, ClassRetainResult, class_try_retain,
}
use bufferpool.ClassState.Counters.{record_retain_result, record_rejected_put}
use bufferpool.ClassState.Answers.{evaluate_class_retain_iff, KeptOrDropped, shard_retain}
use bufferpool.ClassState.Gets.{must_shard_at-in, counted-IsClass}
use bufferpool.ClassState.Inv.{IsClass, IsClassShard, All-get, with_shard-IsClass}

-- The shard at the index has answered, and takes its place again; the other shards are as they were.
pub record ShardRetained (s : ClassState) (m : Memory) (index : ℕ) (buffer : Slice)
    (zero_before_retain : Bool) (after : ClassState) (memory : Memory)
    (answer : Option RetainResult) : Type 0 where
  pub shard : Shard
  pub updated : Shard
  pub reply : RetainResult
  pub at : get_elem? s.shards index ≡ some shard
  pub result :
      try_retain_with_options shard m buffer zero_before_retain ≡ ok (updated, memory, reply)
  pub outcome : KeptOrDropped shard buffer updated reply
  pub placed : after.shards ≡ set s.shards index updated
  pub told : answer ≡ some reply

-- A return to a class.
pub record ClassRetained (s : ClassState) (m : Memory) (index : ℕ) (buffer : Slice)
    (zero_before_retain : Bool) (operation : Result Panic (ClassState × Memory × ClassRetainResult))
    : Type 0 where
  pub after : ClassState
  pub memory : Memory
  pub reply : ClassRetainResult
  pub result : operation ≡ ok (after, memory, reply)
  pub valid : IsClass after
  pub same_class : after.class ≡ s.class
  pub same_budget : after.budget ≡ s.budget
  pub returned : reply.returned_capacity ≡ capacity buffer
  pub asked : reply.shard_index ≡ index
  pub accepted :
      s.class.size ≤ capacity buffer
      → (reply.class_decision ≡ class_retain_accept)
        × ShardRetained s m index buffer zero_before_retain after memory reply.shard
  pub refused :
      capacity buffer < s.class.size
      → (memory ≡ m) × (after.shards ≡ s.shards) × (reply.shard ≡ none)

class_refuses :
    (s : ClassState) (m : Memory) (index : ℕ) (shard : Shard) (buffer : Slice)
    (zero_before_retain : Bool)
    → must_shard_at s (pos index) ≡ ok (index, shard)
    → allows_shard_retain (evaluate_class_retain s.class buffer) ≡ false
    → class_try_retain s m (pos index) buffer zero_before_retain
      ≡ ok (
        record s { counters = record_rejected_put s.counters (capacity buffer) },
        m,
        record {
          class = s.class;
          shard_index = index;
          class_decision = evaluate_class_retain s.class buffer;
          shard = none;
          returned_capacity = capacity buffer;
        },
      )
unfolding class_try_retain
class_refuses s m index shard buffer z at no_room = rw at (rw no_room refl)

class_accepts :
    (s : ClassState) (m memory : Memory) (index : ℕ) (shard updated : Shard) (buffer : Slice)
    (zero_before_retain : Bool) (reply : RetainResult)
    → must_shard_at s (pos index) ≡ ok (index, shard)
    → evaluate_class_retain s.class buffer ≡ class_retain_accept
    → try_retain_with_options shard m buffer zero_before_retain ≡ ok (updated, memory, reply)
    → class_try_retain s m (pos index) buffer zero_before_retain
      ≡ ok (
        record (with_shard s index updated) { counters = record_retain_result s.counters reply },
        memory,
        record {
          class = s.class;
          shard_index = index;
          class_decision = class_retain_accept;
          shard = some reply;
          returned_capacity = reply.capacity;
        },
      )
unfolding class_try_retain
class_accepts s m memory index shard updated buffer z reply at accepted result =
    rw at (rw accepted (rw result refl))

-- A return to a shard of a valid class returns without a panic and keeps the class. A buffer smaller
-- than the class is refused and touches no shard and no memory; another one is accepted by the class
-- and goes to the shard at the index, whose answer is the reply: it has the buffer on top, cut to
-- length 0, or drops it and holds what it held. Every other shard is as it was.
pub class_try_retain-ClassRetained :
    (s : ClassState) (m : Memory) (index : ℕ) (buffer : Slice) (zero_before_retain : Bool)
    → IsClass s
    → index < length s.shards
    → ClassRetained s m index buffer zero_before_retain
        (class_try_retain s m (pos index) buffer zero_before_retain)
class_try_retain-ClassRetained s m index buffer z v inside =
    let at = must_shard_at-in s index inside in
    let checks = evaluate_class_retain_iff s.class buffer v.some_size in
    elim (Bool-cases (ltb (capacity buffer) s.class.size)) [
      | inl small ↦
          let refuses : allows_shard_retain (evaluate_class_retain s.class buffer) ≡ false =
            refused_small s.class buffer small checks.0 in
          record {
            after = record s { counters = record_rejected_put s.counters (capacity buffer) };
            memory = m;
            reply = record {
              class = s.class;
              shard_index = index;
              class_decision = evaluate_class_retain s.class buffer;
              shard = none;
              returned_capacity = capacity buffer;
            };
            result = class_refuses s m index at.0 buffer z at.2 refuses;
            valid = counted-IsClass s _ v;
            same_class = refl;
            same_budget = refl;
            returned = refl;
            asked = refl;
            accepted = λ h. absurd (ground (arith, small));
            refused = λ h. (refl, refl, refl);
          }
      | inr fits ↦
          let held = All-get (IsClassShard s.class.size) s.shards index at.0 v.shards at.1 in
          let le : s.class.size ≤ capacity buffer = ground (arith, fits) in
          let kept = shard_retain s.class.size at.0 m buffer z held le in
          record {
            after = record (with_shard s index kept.0) {
              counters = record_retain_result s.counters kept.2;
            };
            memory = kept.1;
            reply = record {
              class = s.class;
              shard_index = index;
              class_decision = class_retain_accept;
              shard = some kept.2;
              returned_capacity = kept.2.capacity;
            };
            result =
                class_accepts s m kept.1 index at.0 kept.0 buffer z kept.2 at.2 (checks.1 le)
                  kept.3;
            valid =
                counted-IsClass (with_shard s index kept.0) _
                  (with_shard-IsClass s index kept.0 v kept.4);
            same_class = refl;
            same_budget = refl;
            returned = kept.5;
            asked = refl;
            accepted = λ h. (
              refl,
              record {
                shard = at.0;
                updated = kept.0;
                reply = kept.2;
                at = at.1;
                result = kept.3;
                outcome = kept.6;
                placed = refl;
                told = refl;
              },
            );
            refused = λ h. absurd (omega arith);
          }
    ]
  where
    refused_small :
        (class : SizeClass) (x : Slice)
        → ltb (capacity x) class.size ≡ true
        → (allows_shard_retain (evaluate_class_retain class x) ≡ true → class.size ≤ capacity x)
        → allows_shard_retain (evaluate_class_retain class x) ≡ false
    refused_small class x small sound =
        elim (Bool-cases (allows_shard_retain (evaluate_class_retain class x))) [
          | inl yes_it ↦ absurd (ground (arith, small, sound yes_it))
          | inr no_it ↦ no_it
        ]

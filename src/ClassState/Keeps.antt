-- ===== src/ClassState/Keeps.antt =====
-- Each operation of a class keeps it valid.
use bufferpool.Base.{
  ◌||◌, ℕ, ◌<◌, ◌≤◌, ◌≡◌, inl, inr, refl, sym, subst, Bool, true, false, ◌==◌, ltb, leb, Bool-cases,
  Option-cases, get_elem?_out, ltb→lt, ltb→le, Result-cases, Option, none, some, Result, ok, err,
  fail_if, Holds, Holds->>=, length, get_elem?, arith,
}
use bufferpool.Base.Int.{is_negative, ℤ, pos, negsuc, magnitude}
use bufferpool.Panic.{
  Panic, shard_selector_invalid_index, class_state_shard_index_out_of_range,
  shard_invalid_allocation_capacity, class_state_request_exceeds_class_size,
}
use bufferpool.Slice.{Slice, Memory}
use bufferpool.Size.{Size, ClassSize}
use bufferpool.Shard.{Shard, record_shard_allocation}
use bufferpool.Shard.Inv.{shard_trim_bounded-ShardTrims, shard_clear-Drops}
use bufferpool.Shard.Reach.{step-IsShard, allocates}
use bufferpool.ShardSelection.{select_shard_index, validate_shard_count}
use bufferpool.ClassState.{
  ClassState, must_shard_at, with_shard, record_class_allocation, validate_allocation_capacity,
  class_try_retain, trim_class_shard, clear_class_shard,
}
use bufferpool.ClassState.Get.{try_get_shard, try_get_selected_with_fallback}
use bufferpool.ClassState.Gets.{counted-IsClass}
use bufferpool.ClassState.Fallback.{try_get_selected_with_fallback-FallbackGets}
use bufferpool.ClassState.Answers.{dropped-IsClassShard}
use bufferpool.ClassState.Retains.{class_try_retain-ClassRetained}
use bufferpool.Base.{get_elem?-below}
use bufferpool.ClassState.Inv.{IsClass, IsClassShard, All-get, with_shard-IsClass}
use bufferpool.ClassState.Credits.{returned}

-- mustShardAt returns shards of the class.
abbrev pub Found : ClassState → ℕ × Shard → Type 0
Found s at = (get_elem? s.shards at.0 ≡ some at.1) × (at.0 < length s.shards)

pub must_shard_at-Found : (s : ClassState) (index : ℤ) → Holds (Found s) (must_shard_at s index)
unfolding must_shard_at
must_shard_at-Found s (negsuc n) = tt
must_shard_at-Found s (pos index) = elim (Option-cases (get_elem? s.shards index)) [
  | inl e ↦ rw (must_shard_at, e) tt
  | inr e ↦ rw (must_shard_at, e.1) (e.1, get_elem?-below s.shards index e.0 e.1)
]

passed_or : (a b : Bool) (failure : Panic) → fail_if (a || b) failure ≡ ok tt → b ≡ false
passed_or true b failure e = cc
passed_or false true failure e = cc
passed_or false false failure e = refl

-- selectShardIndex returns indices in range, whatever the selector answers.
pub select_shard_index-lt :
    (selector : Option (ℤ → Result Panic ℤ)) (n : ℕ)
    → Holds (λ i. i < n) (select_shard_index selector (pos n))
unfolding select_shard_index
select_shard_index-lt none n = tt
select_shard_index-lt (some select) n =
    Holds->>= (λ i. i < n) (validate_shard_count (pos n)) _
      λ u checked.
        Holds->>= (λ i. i < n) (select (pos n)) _
          λ index e.
            Holds->>= (λ i. i < n)
              (fail_if (is_negative index || leb n (magnitude index)) shard_selector_invalid_index)
              _
              λ w f. ground (
                arith,
                passed_or (is_negative index) (leb n (magnitude index)) shard_selector_invalid_index
                    f,
              )

not_selected :
    (selector : Option (ℤ → Result Panic ℤ)) (s : ClassState) (requested : Size)
    (fallback_shards : ℤ) (failure : Panic)
    → select_shard_index selector (pos (length s.shards)) ≡ err failure
    → try_get_selected_with_fallback selector s requested fallback_shards ≡ err failure
unfolding try_get_selected_with_fallback
not_selected selector s requested fallback_shards failure e = rw e refl

too_large :
    (selector : Option (ℤ → Result Panic ℤ)) (s : ClassState) (primary : ℕ) (requested : Size)
    (fallback_shards : ℤ)
    → select_shard_index selector (pos (length s.shards)) ≡ ok primary
    → ltb s.class.size requested ≡ true
    → try_get_selected_with_fallback selector s requested fallback_shards
      ≡ err class_state_request_exceeds_class_size
unfolding try_get_selected_with_fallback try_get_shard
too_large selector s primary requested fallback_shards e large = rw e (rw large refl)

pub gets-IsClass :
    (selector : Option (ℤ → Result Panic ℤ)) (s : ClassState) (requested : Size)
    (fallback_shards : ℤ)
    → IsClass s
    → Holds (λ r. IsClass r.0) (try_get_selected_with_fallback selector s requested fallback_shards)
gets-IsClass selector s requested fallback_shards v =
    elim (Result-cases (select_shard_index selector (pos (length s.shards)))) [
      | inl bad ↦
          subst (Holds (λ r. IsClass r.0))
            (sym (not_selected selector s requested fallback_shards bad.0 bad.1)) tt
      | inr selected ↦
          let inside =
            returned (λ i. i < length s.shards) _ selected.0
              (select_shard_index-lt selector (length s.shards)) selected.1 in
          elim (Bool-cases (ltb s.class.size requested)) [
            | inl large ↦
                subst (Holds (λ r. IsClass r.0))
                  (sym (too_large selector s selected.0 requested fallback_shards selected.1 large))
                  tt
            | inr fits ↦
                let g =
                  try_get_selected_with_fallback-FallbackGets selector s selected.0 requested
                    fallback_shards v selected.1 inside (ground (arith, fits)) in
                subst (Holds (λ r. IsClass r.0)) (sym g.got.result) g.got.valid
          ]
    ]

allocated-IsClassShard :
    (size : ClassSize) (shard : Shard) (allocated : ℕ)
    → IsClassShard size shard
    → Holds (IsClassShard size) (record_shard_allocation shard allocated)
unfolding record_shard_allocation
allocated-IsClassShard size shard allocated v =
    Holds->>= (IsClassShard size) (fail_if (allocated == 0) shard_invalid_allocation_capacity) _
      λ u checked. record {
        valid = step-IsShard shard _ v.valid (allocates allocated (rw checked refl));
        fits = v.fits;
      }

pub made-IsClass :
    (s : ClassState) (index : ℤ) (allocated : ℕ)
    → IsClass s
    → Holds IsClass (record_class_allocation s index allocated)
unfolding record_class_allocation
made-IsClass s index allocated v = Holds->>= IsClass (must_shard_at s index) _ λ at e.
    let found = returned (Found s) _ at (must_shard_at-Found s index) e in
    let held = All-get (IsClassShard s.class.size) s.shards at.0 at.1 v.shards found.0 in
    Holds->>= IsClass (validate_allocation_capacity s allocated) _ λ u checked.
      Holds->>= IsClass (record_shard_allocation at.1 allocated) _ λ updated f.
        counted-IsClass (with_shard s at.0 updated) _ (
          with_shard-IsClass s at.0 updated v (
            returned (IsClassShard s.class.size) _ updated
              (allocated-IsClassShard s.class.size at.1 allocated held) f))

pub trims-IsClass :
    (s : ClassState) (index : ℤ) (max_buffers max_bytes : ℕ)
    → IsClass s
    → Holds (λ r. IsClass r.0) (trim_class_shard s index (pos max_buffers) max_bytes)
unfolding trim_class_shard
trims-IsClass s index max_buffers max_bytes v =
    Holds->>= (λ r. IsClass r.0) (must_shard_at s index) _
      λ at e.
        let found = returned (Found s) _ at (must_shard_at-Found s index) e in
        let held = All-get (IsClassShard s.class.size) s.shards at.0 at.1 v.shards found.0 in
        let d = (shard_trim_bounded-ShardTrims at.1 max_buffers max_bytes held.valid).drops in
        rw (d.result) (
          counted-IsClass (with_shard s at.0 d.after) _
            (with_shard-IsClass s at.0 d.after v (dropped-IsClassShard s.class.size at.1 d held)))

pub clears-IsClass :
    (s : ClassState) (index : ℤ) → IsClass s → Holds (λ r. IsClass r.0) (clear_class_shard s index)
unfolding clear_class_shard
clears-IsClass s index v =
    Holds->>= (λ r. IsClass r.0) (must_shard_at s index) _
      λ at e.
        let found = returned (Found s) _ at (must_shard_at-Found s index) e in
        let held = All-get (IsClassShard s.class.size) s.shards at.0 at.1 v.shards found.0 in
        let d = (shard_clear-Drops at.1 held.valid).0 in
        rw (d.result) (
          counted-IsClass (with_shard s at.0 d.after) _
            (with_shard-IsClass s at.0 d.after v (dropped-IsClassShard s.class.size at.1 d held)))

class_try_retain-negative :
    (s : ClassState) (m : Memory) (n : ℕ) (buffer : Slice) (zero_before_retain : Bool)
    → class_try_retain s m (negsuc n) buffer zero_before_retain
      ≡ err class_state_shard_index_out_of_range
unfolding class_try_retain
class_try_retain-negative s m n buffer z = refl

must_shard_at-outside :
    (s : ClassState) (index : ℕ)
    → length s.shards ≤ index
    → must_shard_at s (pos index) ≡ err class_state_shard_index_out_of_range
unfolding must_shard_at
must_shard_at-outside s index h = rw (must_shard_at, get_elem?_out s.shards index h) refl

class_try_retain-outside :
    (s : ClassState) (m : Memory) (index : ℕ) (buffer : Slice) (zero_before_retain : Bool)
    → length s.shards ≤ index
    → class_try_retain s m (pos index) buffer zero_before_retain
      ≡ err class_state_shard_index_out_of_range
unfolding class_try_retain
class_try_retain-outside s m index buffer z h = rw (must_shard_at-outside s index h) refl

pub puts-IsClass :
    (s : ClassState) (m : Memory) (index : ℤ) (buffer : Slice) (zero_before_retain : Bool)
    → IsClass s
    → Holds (λ r. IsClass r.0) (class_try_retain s m index buffer zero_before_retain)
puts-IsClass s m (negsuc n) buffer z v =
    subst (Holds (λ r. IsClass r.0)) (sym (class_try_retain-negative s m n buffer z)) tt
puts-IsClass s m (pos index) buffer z v = elim (Bool-cases (ltb index (length s.shards))) [
  | inl inside ↦
      let k = class_try_retain-ClassRetained s m index buffer z v (ltb→lt _ _ inside) in
      subst (Holds (λ r. IsClass r.0)) (sym k.result) k.valid
  | inr outside ↦
      subst (Holds (λ r. IsClass r.0))
        (sym (class_try_retain-outside s m index buffer z (ltb→le _ _ outside))) tt
]

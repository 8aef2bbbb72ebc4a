-- ===== src/ClassState/Fallback.antt =====
-- Gets with fallback: what is returned, and which shards hold nothing where it misses.
use bufferpool.Base.{
  ℕ, ◌+◌, ◌-◌, ◌%◌, ◌<◌, ◌≤◌, ◌≡◌, inl, inr, refl, sym, ap, subst, ◌∙◌, [], Bool, true, false,
  if◌then◌else◌, Bool-cases, Option-cases, Option, none, some, Result, ok, length, arith,
}
use bufferpool.Base.Int.{ℤ, pos}
use bufferpool.Panic.{Panic}
use bufferpool.Size.{Size}
use bufferpool.ClassState.Counters.{record_get_result}
use bufferpool.ClassState.{ClassState}
use bufferpool.ClassState.Get.{
  ClassGetResult, try_get_shard, counted_get, bounded_fallback_shard_count, fallback_shard_index,
  fallback_gets, try_get_selected_with_fallback,
}
use bufferpool.ShardSelection.{select_shard_index}
use bufferpool.ClassState.Held.{held_at, Took-same}
use bufferpool.ClassState.Search.{IsEmptyAt, fallback_shard_index-mod, fallback_gets-Tries}
use bufferpool.ClassState.Gets.{counted-IsClass, ClassGets, try_get_shard-ClassGets}
use bufferpool.ClassState.Inv.{IsClass}

if_false : {A : Type 0} (b : Bool) (x y : A) → b ≡ false → (if b then x else y) ≡ y
if_false b x y e = rw e refl

-- The three ways through tryGetSelectedWithFallback.
module _ (selector : Option (ℤ → Result Panic ℤ)) (s t : ClassState) (primary : ℕ)
    (requested : Size) (fallback_shards : ℤ) (r : ClassGetResult)
    (selected : select_shard_index selector (pos (length s.shards)) ≡ ok primary)
    (got : try_get_shard s (pos primary) requested ≡ ok (t, r)) where
  primary_hit :
      r.shard.hit ≡ true
      → try_get_selected_with_fallback selector s requested fallback_shards
        ≡ ok (counted_get requested (t, r))
  unfolding try_get_selected_with_fallback
  primary_hit hit = rw selected (rw got (rw hit refl))

  module _ (u : ClassState) (miss : r.shard.hit ≡ false) where
    fallback_hit :
        (h : ClassGetResult)
        → fallback_gets
            (bounded_fallback_shard_count fallback_shards (length s.shards))
            1
            t
            primary
            requested
          ≡ ok (u, some h)
        → try_get_selected_with_fallback selector s requested fallback_shards
          ≡ ok (counted_get requested (u, h))
    unfolding try_get_selected_with_fallback
    fallback_hit h tried = rw selected (rw got (rw miss (rw tried refl)))

    no_hit :
        fallback_gets
            (bounded_fallback_shard_count fallback_shards (length s.shards))
            1
            t
            primary
            requested
          ≡ ok (u, none)
        → try_get_selected_with_fallback selector s requested fallback_shards
          ≡ ok (counted_get requested (u, r))
    unfolding try_get_selected_with_fallback
    no_hit tried = rw selected (rw got (if_false r.shard.hit _ _ miss ∙ rw tried refl))

-- The fallback shards that a configuration allows are within the loop.
bounded-lt :
    (n count offset : ℕ)
    → 0 < offset
    → offset ≤ n
    → offset < count
    → offset - 1 < bounded_fallback_shard_count (pos n) count
unfolding bounded_fallback_shard_count
bounded-lt n count offset h le lt = ground arith

-- What the loop over the fallback shards has found empty, in the state before the gets.
searched_all :
    (s t : ClassState) (primary offset n : ℕ) (fallback_shards : ℤ)
    → 0 < length s.shards
    → length t.shards ≡ length s.shards
    → ((j : ℕ) → held_at t.shards j ≡ held_at s.shards j)
    → ((k : ℕ)
        → k < bounded_fallback_shard_count fallback_shards (length s.shards)
        → IsEmptyAt t primary (1 + k))
    → fallback_shards ≡ pos n
    → 0 < offset
    → offset ≤ n
    → offset < length s.shards
    → held_at s.shards ((primary + offset) % length s.shards) ≡ []
searched_all s t primary offset n fallback_shards some_shard same unmoved empty configured
      some_offset le lt =
    let position : fallback_shard_index primary (1 + (offset - 1)) (length t.shards)
        ≡ (primary + offset) % length s.shards =
      fallback_shard_index-mod primary (1 + (offset - 1)) (length t.shards) (omega (arith, same))
      ∙ ap (λ c. (primary + (1 + (offset - 1))) % c) same
      ∙ ap (λ k. (primary + k) % length s.shards) one_before in
    let tried : offset - 1 < bounded_fallback_shard_count fallback_shards (length s.shards) =
      subst (λ z. offset - 1 < bounded_fallback_shard_count z (length s.shards)) (sym configured)
        (bounded-lt n (length s.shards) offset some_offset le lt) in
    sym (unmoved _) ∙ subst (λ i. held_at t.shards i ≡ []) position (empty (offset - 1) tried)
  where
    one_before : 1 + (offset - 1) ≡ offset
    one_before = omega arith

-- A get with fallback: a get that misses only where all shards that it may try hold nothing.
pub record FallbackGets (s : ClassState) (primary : ℕ) (requested : Size) (fallback_shards : ℤ)
    (operation : Result Panic (ClassState × ClassGetResult)) : Type 0 where
  pub got : ClassGets s requested operation
  pub searched :
      got.reply.shard.hit ≡ false
      → (held_at s.shards primary ≡ [])
        × ((offset n : ℕ)
            → fallback_shards ≡ pos n
            → 0 < offset
            → offset ≤ n
            → offset < length s.shards
            → held_at s.shards ((primary + offset) % length s.shards) ≡ [])

-- A selected get with fallback, on a valid class, where the selector chooses a shard of the class and
-- the request is at most the class size: it returns without a panic, keeps the class, its budget and
-- its shards' invariants. A hit takes the newest buffer of one shard and returns it cut to length 0,
-- with a capacity that serves the request; the other shards hold what they held. On a miss there is no
-- buffer, every shard holds what it held, and the selected shard and the fallback shards after it, as
-- many as are configured and exist, hold nothing.
pub try_get_selected_with_fallback-FallbackGets :
    (selector : Option (ℤ → Result Panic ℤ)) (s : ClassState) (primary : ℕ) (requested : Size)
    (fallback_shards : ℤ)
    → IsClass s
    → select_shard_index selector (pos (length s.shards)) ≡ ok primary
    → primary < length s.shards
    → requested ≤ s.class.size
    → FallbackGets s primary requested fallback_shards
        (try_get_selected_with_fallback selector s requested fallback_shards)
unfolding counted_get
try_get_selected_with_fallback-FallbackGets selector s primary requested fallback_shards v selected
      inside fits =
    let (g, here) = try_get_shard-ClassGets s primary requested v inside fits in
    elim (Bool-cases g.reply.shard.hit) [
      | inl hit ↦ record {
        got = record {
          after = record g.after {
            counters = record_get_result g.after.counters requested g.reply.shard;
          };
          reply = g.reply;
          result =
              primary_hit selector s g.after primary requested fallback_shards g.reply selected
                g.result hit;
          valid = counted-IsClass g.after _ g.valid;
          same_class = g.same_class;
          same_budget = g.same_budget;
          same_shards = g.same_shards;
          inside = g.inside;
          served = g.served;
          missed = g.missed;
          took = g.took;
          kept = g.kept;
        };
        searched = λ e. cc (hit, e);
      }
      | inr miss ↦
          let count = bounded_fallback_shard_count fallback_shards (length s.shards) in
          let tried =
            fallback_gets-Tries count 1 g.after primary requested g.valid
              (subst (λ c. requested ≤ c.size) (sym g.same_class) fits) in
          let unmoved = (g.kept miss).1 in
          elim (Option-cases tried.found) [
            | inl none_found ↦
                let m = tried.misses none_found in
                record {
                  got = record {
                    after = record tried.after {
                      counters = record_get_result tried.after.counters requested g.reply.shard;
                    };
                    reply = g.reply;
                    result =
                        no_hit selector s g.after primary requested fallback_shards g.reply selected
                          g.result tried.after miss
                          (tried.result ∙ ap (λ f. ok (tried.after, f)) none_found);
                    valid = counted-IsClass tried.after _ tried.valid;
                    same_class = tried.same_class ∙ g.same_class;
                    same_budget = tried.same_budget ∙ g.same_budget;
                    same_shards = tried.same_shards ∙ g.same_shards;
                    inside = g.inside;
                    served = g.served;
                    missed = g.missed;
                    took = λ e. cc (miss, e);
                    kept = λ e. ((g.kept miss).0, λ j. m.0 j ∙ unmoved j);
                  };
                  searched = λ e. (
                    subst (λ i. held_at s.shards i ≡ []) here (g.kept miss).0,
                    λ offset n configured some_offset le lt.
                        searched_all s g.after primary offset n fallback_shards v.some_shard
                          g.same_shards unmoved m.1 configured some_offset le lt,
                  );
                }
            | inr some_found ↦
                let h = tried.hits some_found.0 some_found.1 in
                record {
                  got = record {
                    after = record tried.after {
                      counters =
                          record_get_result tried.after.counters requested some_found.0.shard;
                    };
                    reply = some_found.0;
                    result =
                        fallback_hit selector s g.after primary requested fallback_shards g.reply
                          selected g.result tried.after miss some_found.0
                          (tried.result ∙ ap (λ f. ok (tried.after, f)) some_found.1);
                    valid = counted-IsClass tried.after _ tried.valid;
                    same_class = tried.same_class ∙ g.same_class;
                    same_budget = tried.same_budget ∙ g.same_budget;
                    same_shards = tried.same_shards ∙ g.same_shards;
                    inside = omega (arith, h.2, g.same_shards);
                    served = λ e. h.1;
                    missed = λ e. cc (h.0, e);
                    took = λ e.
                        Took-same s.shards g.after.shards tried.after.shards
                          some_found.0.shard_index some_found.0.shard.buffer unmoved h.3;
                    kept = λ e. cc (h.0, e);
                  };
                  searched = λ e. cc (h.0, e);
                }
          ]
    ]

-- ===== src/ClassState/Search.antt =====
-- The loop over the fallback shards: which shards are tried, and what they hold.
use Prim.Native.Nat.{bit_and}
use bufferpool.Base.Bits.{bit_and-mod}
use bufferpool.Base.{
  ℕ, zero, suc, ◌+◌, ◌-◌, ◌%◌, ◌<◌, ◌≤◌, ◌≡◌, inl, inr, refl, sym, subst, ◌∙◌, [], true, ◌==◌, ◌&&◌,
  ltb, Bool-cases, Option, none, some, Result, ok, length, arith,
}
use native.Mathlib.Nat.{mod-lt}
use bufferpool.Panic.{Panic}
use bufferpool.Slice.{capacity}
use bufferpool.Size.{Size}
use bufferpool.ClassState.{ClassState}
use bufferpool.ClassState.Get.{ClassGetResult, fallback_shard_index, fallback_gets}
use bufferpool.ClassState.Held.{held_at, Took, Took-same}
use bufferpool.ClassState.Gets.{try_get_shard-ClassGets}
use bufferpool.ClassState.Inv.{IsClass}

-- The fallback shards follow the primary one, round the class.
pub fallback_shard_index-mod :
    (primary offset shard_count : ℕ)
    → 0 < shard_count
    → fallback_shard_index primary offset shard_count ≡ (primary + offset) % shard_count
unfolding fallback_shard_index
fallback_shard_index-mod primary offset shard_count h =
    elim (Bool-cases (ltb 0 shard_count && bit_and shard_count (shard_count - 1) == 0)) [
      | inl e ↦
          let power : bit_and shard_count (shard_count - 1) ≡ 0 = ground (arith, e) in
          rw e (bit_and-mod (primary + offset) shard_count h power)
      | inr e ↦ rw e refl
    ]

fallback_shard_index-lt :
    (primary offset shard_count : ℕ)
    → 0 < shard_count
    → fallback_shard_index primary offset shard_count < shard_count
fallback_shard_index-lt primary offset shard_count h =
    subst (λ i. i < shard_count) (sym (fallback_shard_index-mod primary offset shard_count h))
      (mod-lt (primary + offset) h)

-- The fallback shard at an offset holds nothing.
abbrev pub IsEmptyAt : ClassState → ℕ → ℕ → Type 0
IsEmptyAt s primary offset =
    held_at s.shards (fallback_shard_index primary offset (length s.shards)) ≡ []

-- The loop over the fallback shards returns; what it finds is a hit that serves the request.
pub record Tries (left offset : ℕ) (s : ClassState) (primary : ℕ) (requested : Size)
    (operation : Result Panic (ClassState × Option ClassGetResult)) : Type 0 where
  pub after : ClassState
  pub found : Option ClassGetResult
  pub result : operation ≡ ok (after, found)
  pub valid : IsClass after
  pub same_class : after.class ≡ s.class
  pub same_budget : after.budget ≡ s.budget
  pub same_shards : length after.shards ≡ length s.shards
  pub hits :
      (r : ClassGetResult)
      → found ≡ some r
      → (r.shard.hit ≡ true)
        × (requested ≤ capacity r.shard.buffer)
        × (r.shard_index < length s.shards)
        × Took s.shards after.shards r.shard_index r.shard.buffer
  pub misses :
      found ≡ none
      → ((j : ℕ) → held_at after.shards j ≡ held_at s.shards j)
        × ((k : ℕ) → k < left → IsEmptyAt s primary (offset + k))

one_more :
    (P : ℕ → Type 0) (offset left : ℕ)
    → P offset
    → ((k : ℕ) → k < left → P (offset + 1 + k))
    → (k : ℕ) → k < suc left
    → P (offset + k)
one_more P offset left first rest zero h =
    let same : offset ≡ offset + 0 = omega arith in subst P same first
one_more P offset left first rest (suc k) h =
    let same : offset + 1 + k ≡ offset + suc k = omega arith in subst P same (rest k (omega arith))

pub fallback_gets-Tries :
    (left offset : ℕ) (s : ClassState) (primary : ℕ) (requested : Size)
    → IsClass s
    → requested ≤ s.class.size
    → Tries left offset s primary requested (fallback_gets left offset s primary requested)
unfolding fallback_gets
fallback_gets-Tries zero offset s primary requested v fits = record {
  after = s;
  found = none;
  result = refl;
  valid = v;
  same_class = refl;
  same_budget = refl;
  same_shards = refl;
  hits = λ r e. cc;
  misses = λ e. ((λ j. refl), λ k h. absurd (omega arith));
}
fallback_gets-Tries (suc left) offset s primary requested v fits =
    let index = fallback_shard_index primary offset (length s.shards) in
    let (g, here) =
      try_get_shard-ClassGets s index requested v
        (fallback_shard_index-lt primary offset (length s.shards) v.some_shard) fits in
    elim (Bool-cases g.reply.shard.hit) [
      | inl hit ↦ record {
        after = g.after;
        found = some g.reply;
        result = rw (g.result) (rw hit refl);
        valid = g.valid;
        same_class = g.same_class;
        same_budget = g.same_budget;
        same_shards = g.same_shards;
        hits = λ r e.
            let same : g.reply ≡ r = cc in
            subst
              (λ x.
                (x.shard.hit ≡ true)
                × (requested ≤ capacity x.shard.buffer)
                × (x.shard_index < length s.shards)
                × Took s.shards g.after.shards x.shard_index x.shard.buffer)
              same (hit, g.served hit, g.inside, g.took hit);
        misses = λ e. cc;
      }
      | inr miss ↦
          let rest =
            fallback_gets-Tries left (offset + 1) g.after primary requested g.valid
              (subst (λ c. requested ≤ c.size) (sym g.same_class) fits) in
          record {
            after = rest.after;
            found = rest.found;
            result = rw (g.result) (rw miss rest.result);
            valid = rest.valid;
            same_class = rest.same_class ∙ g.same_class;
            same_budget = rest.same_budget ∙ g.same_budget;
            same_shards = rest.same_shards ∙ g.same_shards;
            hits = λ r e.
                let h = rest.hits r e in
                (
                  h.0,
                  h.1,
                  omega (arith, h.2, g.same_shards),
                  Took-same s.shards g.after.shards rest.after.shards r.shard_index r.shard.buffer
                      (g.kept miss).1 h.3,
                );
            misses = λ e.
                let m = rest.misses e in
                (
                  (λ j. m.0 j ∙ (g.kept miss).1 j),
                  one_more (IsEmptyAt s primary) offset left
                      (subst (λ i. held_at s.shards i ≡ []) here (g.kept miss).0)
                      (λ k h.
                        sym ((g.kept miss).1 _)
                        ∙ subst
                            (λ n.
                              held_at g.after.shards
                                (fallback_shard_index primary (offset + 1 + k) n)
                              ≡ [])
                            g.same_shards (m.1 k h)),
                );
          }
    ]

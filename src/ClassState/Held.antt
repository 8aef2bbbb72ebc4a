-- ===== src/ClassState/Held.antt =====
-- The buffers that the shards of a class hold, as a get changes them.
use bufferpool.Base.{
  ℕ, ◌≡◌, ◌≢◌, ◌∙◌, inl, inr, refl, sym, ap, subst, ◌==◌, Bool-cases, List, [], ◌∷◌, none, some,
  get_elem?, set, get_elem?-set_self, get_elem?-set_ne, get_elem?-below, arith,
}
use bufferpool.Slice.{Slice, reslice_empty}
use bufferpool.Segment.Window.{contents}
use bufferpool.Shard.{Shard}

-- What the shard at an index holds, the newest buffer first; there is nothing at other indices.
abbrev pub held_at : List Shard → ℕ → List Slice
held_at shards index = elim (get_elem? shards index) [
  | none ↦ []
  | some shard ↦ contents shard.bucket.segments
]

-- The newest buffer of one shard was taken from it, and nothing else from any.
pub record Took (before after : List Shard) (index : ℕ) (buffer : Slice) : Type 0 where
  pub slice : Slice
  pub top : held_at before index ≡ slice ∷ held_at after index
  pub empty : buffer ≡ reslice_empty slice
  pub others : (j : ℕ) → j ≢ index → held_at after j ≡ held_at before j

pub held_at-some :
    (shards : List Shard) (index : ℕ) (shard : Shard)
    → get_elem? shards index ≡ some shard
    → held_at shards index ≡ contents shard.bucket.segments
held_at-some shards index shard e = rw (held_at, e) refl

module _ (shards : List Shard) (index : ℕ) (old made : Shard)
    (at : get_elem? shards index ≡ some old) where
  held_at-set_self : held_at (set shards index made) index ≡ contents made.bucket.segments
  held_at-set_self =
      held_at-some (set shards index made) index made
        (get_elem?-set_self shards index made (get_elem?-below shards index old at))

  held_at-set_ne : (j : ℕ) → j ≢ index → held_at (set shards index made) j ≡ held_at shards j
  held_at-set_ne j ne =
      let apart : index ≢ j = λ e. ne (sym e) in
      rw (held_at, get_elem?-set_ne shards index j made apart) refl

  pub held_at-set_same :
      contents made.bucket.segments ≡ contents old.bucket.segments
      → (j : ℕ) → held_at (set shards index made) j ≡ held_at shards j
  held_at-set_same same j = elim (Bool-cases (j == index)) [
    | inl e ↦
        let here : index ≡ j = ground (arith, e) in
        subst (λ k. held_at (set shards index made) k ≡ held_at shards k) here
          (held_at-set_self ∙ same ∙ sym (held_at-some shards index old at))
    | inr e ↦ held_at-set_ne j (λ f. ground (arith, e, f))
  ]

  pub set-Took :
      (slice : Slice)
      → contents old.bucket.segments ≡ slice ∷ contents made.bucket.segments
      → Took shards (set shards index made) index (reslice_empty slice)
  set-Took slice split = record {
    slice = slice;
    top = held_at-some shards index old at ∙ split ∙ ap (λ xs. slice ∷ xs) (sym held_at-set_self);
    empty = refl;
    others = held_at-set_ne;
  }

-- Shards that hold the same give the same buffer.
pub Took-same :
    (before between after : List Shard) (index : ℕ) (buffer : Slice)
    → ((j : ℕ) → held_at between j ≡ held_at before j)
    → Took between after index buffer
    → Took before after index buffer
Took-same before between after index buffer same t = record {
  slice = t.slice;
  top = sym (same index) ∙ t.top;
  empty = t.empty;
  others = λ j ne. t.others j ne ∙ same j;
}

-- ===== src/ClassState/Gets.antt =====
-- What a get from a class returns.
use bufferpool.Base.{
  ℕ, ◌<◌, ◌≤◌, ◌≡◌, inl, inr, refl, ap, sym, ◌∙◌, [], set, subst, true, false, ltb, ◌∷◌, All, some,
  Result, ok, length, get_elem?, length-set, arith,
}
use bufferpool.Base.Int.{pos}
use bufferpool.Panic.{Panic}
use bufferpool.Slice.{nil, capacity, capacity-reslice_empty}
use bufferpool.Size.{Size, ClassSize}
use bufferpool.Segment.Window.{contents}
use bufferpool.Shard.{Shard}
use bufferpool.Shard.Inv.{Gets, try_get-Gets}
use bufferpool.ClassState.Counters.{ClassCounters}
use bufferpool.ClassState.{ClassState, must_shard_at, with_shard}
use bufferpool.ClassState.Get.{ClassGetResult, try_get_shard}
use bufferpool.ClassState.Held.{Took, held_at, held_at-some, held_at-set_same, set-Took}
use bufferpool.ClassState.Inv.{get_elem?-some, IsClass, IsClassShard, All-get, with_shard-IsClass}

-- A get returns, keeps the class, and a hit is a buffer that serves the request.
pub record ClassGets (s : ClassState) (requested : Size)
    (operation : Result Panic (ClassState × ClassGetResult)) : Type 0 where
  pub after : ClassState
  pub reply : ClassGetResult
  pub result : operation ≡ ok (after, reply)
  pub valid : IsClass after
  pub same_class : after.class ≡ s.class
  pub same_budget : after.budget ≡ s.budget
  pub same_shards : length after.shards ≡ length s.shards
  pub inside : reply.shard_index < length s.shards
  pub served : reply.shard.hit ≡ true → requested ≤ capacity reply.shard.buffer
  pub missed : reply.shard.hit ≡ false → reply.shard.buffer ≡ nil
  pub took :
      reply.shard.hit ≡ true → Took s.shards after.shards reply.shard_index reply.shard.buffer
  pub kept :
      reply.shard.hit ≡ false
      → (held_at s.shards reply.shard_index ≡ [])
        × ((j : ℕ) → held_at after.shards j ≡ held_at s.shards j)

pub shard_get :
    (size : ClassSize) (shard : Shard) (requested : Size)
    → IsClassShard size shard
    → (g : Gets shard requested) × IsClassShard size g.after
      × (g.reply.hit ≡ true → size ≤ capacity g.reply.buffer)
      × (g.reply.hit ≡ false → g.reply.buffer ≡ nil)
shard_get size shard requested v =
    let g = try_get-Gets shard requested v.valid in
    elim (g.outcome) [
      | inl empty ↦ (
        g,
        record { valid = g.valid; fits = rw (empty.1) tt },
        (λ h. cc),
        (λ h. ap (λ r. r.buffer) empty.2),
      )
      | inr found ↦
          let fits : All (λ x. size ≤ capacity x) (found.0 ∷ contents g.after.bucket.segments) =
            subst (All (λ x. size ≤ capacity x)) found.1 v.fits in
          (
            g,
            record { valid = g.valid; fits = fits.1 },
            (λ h. rw (found.2) (omega (arith, fits.0, capacity-reslice_empty found.0))),
            (λ h. cc),
          )
    ]

pub must_shard_at-in :
    (s : ClassState) (index : ℕ)
    → index < length s.shards
    → (shard : Shard) × (get_elem? s.shards index ≡ some shard)
      × (must_shard_at s (pos index) ≡ ok (index, shard))
unfolding must_shard_at
must_shard_at-in s index h =
    let at = get_elem?-some s.shards index h in (at.0, at.1, rw (must_shard_at, at.1) refl)

pub try_get_shard-ClassGets :
    (s : ClassState) (index : ℕ) (requested : Size)
    → IsClass s
    → index < length s.shards
    → requested ≤ s.class.size
    → (g : ClassGets s requested (try_get_shard s (pos index) requested)) × (g.reply.shard_index
        ≡ index)
unfolding try_get_shard
try_get_shard-ClassGets s index requested v inside fits =
    let at = must_shard_at-in s index inside in
    let held = All-get (IsClassShard s.class.size) s.shards index at.0 v.shards at.1 in
    let g = shard_get s.class.size at.0 requested held in
    let small : ltb s.class.size requested ≡ false = ground arith in
    let got : ClassGets s requested (try_get_shard s (pos index) requested) = record {
      after = with_shard s index g.0.after;
      reply = record { class = s.class; shard_index = index; shard = g.0.reply };
      result = rw (small, at.2, g.0.result) refl;
      valid = with_shard-IsClass s index g.0.after v g.1;
      same_class = refl;
      same_budget = refl;
      same_shards = length-set s.shards index g.0.after;
      inside = inside;
      served = λ h. omega (arith, g.2 h);
      missed = g.3;
      took = λ h. elim (g.0.outcome) [
        | inl empty ↦ cc (h, empty.2)
        | inr found ↦
            subst (Took s.shards (set s.shards index g.0.after) index)
              (sym (ap (λ r. r.buffer) found.2))
              (set-Took s.shards index at.0 g.0.after at.1 found.0 found.1)
      ];
      kept = λ h. elim (g.0.outcome) [
        | inl empty ↦ (
          held_at-some s.shards index at.0 at.1 ∙ empty.0,
          held_at-set_same s.shards index at.0 g.0.after at.1 (empty.1 ∙ sym empty.0),
        )
        | inr found ↦ cc (h, found.2)
      ];
    } in
    (got, refl)

pub counted-IsClass :
    (s : ClassState) (c : ClassCounters) → IsClass s → IsClass (record s { counters = c })
counted-IsClass s c v = record {
  some_size = v.some_size;
  some_shard = v.some_shard;
  budgeted = v.budgeted;
  shards = v.shards;
}

-- The same get, counted.
pub counted-ClassGets :
    (s t : ClassState) (requested : Size) (c : ClassCounters)
    (operation counted : Result Panic (ClassState × ClassGetResult))
    (g : ClassGets s requested operation)
    → counted ≡ ok (record g.after { counters = c }, g.reply)
    → ClassGets s requested counted
counted-ClassGets s t requested c operation counted g e = record {
  after = record g.after { counters = c };
  reply = g.reply;
  result = e;
  valid = counted-IsClass g.after c g.valid;
  same_class = g.same_class;
  same_budget = g.same_budget;
  same_shards = g.same_shards;
  inside = g.inside;
  served = g.served;
  missed = g.missed;
  took = g.took;
  kept = g.kept;
}

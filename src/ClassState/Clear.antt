-- ===== src/ClassState/Clear.antt =====
-- Operations on all shards of a class, and the get from one shard, keep the class valid.
use bufferpool.Base.{
  suc, ap, sym, subst, refl, List, [], ◌∷◌, All, Holds, Holds->>=, fail_if, ltb, length, arith,
}
use bufferpool.Base.Int.{ℤ}
use bufferpool.Panic.{class_state_request_exceeds_class_size}
use bufferpool.Size.{Size, ClassSize}
use bufferpool.Shard.{Shard, shard_clear, try_get}
use bufferpool.Shard.Inv.{shard_clear-Drops}
use bufferpool.ClassState.{ClassState, must_shard_at, clear_shards, clear_class}
use bufferpool.ClassState.Get.{try_get_shard, counted_get, class_try_get}
use bufferpool.ClassState.Gets.{counted-IsClass, shard_get}
use bufferpool.ClassState.Answers.{dropped-IsClassShard}
use bufferpool.ClassState.Credits.{returned, AreShards}
use bufferpool.ClassState.Keeps.{Found, must_shard_at-Found}
use bufferpool.ClassState.Inv.{IsClass, IsClassShard, All-get, with_shard-IsClass}

cleared-IsClassShard :
    (size : ClassSize) (shard : Shard)
    → IsClassShard size shard
    → Holds (λ r. IsClassShard size r.0) (shard_clear shard)
cleared-IsClassShard size shard v =
    let d = (shard_clear-Drops shard v.valid).0 in
    subst (Holds (λ r. IsClassShard size r.0)) (sym d.result) (dropped-IsClassShard size shard d v)

clear_shards-AreShards :
    (size : ClassSize) (shards : List Shard)
    → All (IsClassShard size) shards
    → Holds (λ r. AreShards size (length shards) r.0) (clear_shards shards)
unfolding clear_shards
clear_shards-AreShards size [] v = record { all = tt; many = refl }
clear_shards-AreShards size (shard ∷ shards) v =
    Holds->>= (λ r. AreShards size (suc (length shards)) r.0) (shard_clear shard) _
      λ cleared e.
        Holds->>= (λ r. AreShards size (suc (length shards)) r.0) (clear_shards shards) _
          λ rest f.
            let others =
              returned (λ r. AreShards size (length shards) r.0) _ rest
                (clear_shards-AreShards size shards v.1) f in
            record {
              all = (
                returned (λ r. IsClassShard size r.0) _ cleared
                    (cleared-IsClassShard size shard v.0) e,
                others.all,
              );
              many = ap suc others.many;
            }

pub clear_class-IsClass : (s : ClassState) → IsClass s → Holds (λ r. IsClass r.0) (clear_class s)
unfolding clear_class
clear_class-IsClass s v =
    Holds->>= (λ r. IsClass r.0) (clear_shards s.shards) _
      λ cleared e.
        let kept =
          returned (λ r. AreShards s.class.size (length s.shards) r.0) _ cleared
            (clear_shards-AreShards s.class.size s.shards v.shards) e in
        record {
          some_size = v.some_size;
          some_shard = omega (arith, kept.many, v.some_shard);
          budgeted = v.budgeted;
          shards = kept.all;
        }

got-IsClassShard :
    (size : ClassSize) (shard : Shard) (requested : Size)
    → IsClassShard size shard
    → Holds (λ r. IsClassShard size r.0) (try_get shard requested)
got-IsClassShard size shard requested v =
    let g = shard_get size shard requested v in
    subst (Holds (λ r. IsClassShard size r.0)) (sym g.0.result) g.1

try_get_shard-IsClass :
    (s : ClassState) (index : ℤ) (requested : Size)
    → IsClass s
    → Holds (λ r. IsClass r.0) (try_get_shard s index requested)
unfolding try_get_shard
try_get_shard-IsClass s index requested v =
    Holds->>= (λ r. IsClass r.0)
      (fail_if (ltb s.class.size requested) class_state_request_exceeds_class_size) _
      λ u checked.
        Holds->>= (λ r. IsClass r.0) (must_shard_at s index) _
          λ at e.
            let found = returned (Found s) _ at (must_shard_at-Found s index) e in
            let held = All-get (IsClassShard s.class.size) s.shards at.0 at.1 v.shards found.0 in
            Holds->>= (λ r. IsClass r.0) (try_get at.1 requested) _
              λ got f. with_shard-IsClass s at.0 got.0 v (
                returned (λ r. IsClassShard s.class.size r.0) _ got
                  (got-IsClassShard s.class.size at.1 requested held) f)

pub class_try_get-IsClass :
    (s : ClassState) (index : ℤ) (requested : Size)
    → IsClass s
    → Holds (λ r. IsClass r.0) (class_try_get s index requested)
unfolding class_try_get counted_get
class_try_get-IsClass s index requested v =
    Holds->>= (λ r. IsClass r.0) (try_get_shard s index requested) _
      λ got e.
        counted-IsClass got.0 _
          (returned (λ r. IsClass r.0) _ got (try_get_shard-IsClass s index requested v) e)

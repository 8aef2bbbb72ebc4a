-- ===== src/Policy/Laws.antt =====
-- Valid class and shard sections of a policy, described independently of the checks.
use bufferpool.Base.{
  ap, ℕ, zero, suc, ◌+◌, ◌≤◌, ◌<◌, ◌≡◌, refl, ◌↔◌, true, false, List, [], ◌∷◌, ◌++◌, arith, length,
  ltb, ◌==◌,
}
use bufferpool.Base.Int.{ℤ, pos, negsuc, is_not_positive, is_negative, magnitude, lt_int}
use bufferpool.Size.{ClassSize}
use bufferpool.ClassTable.{max_classes}
use bufferpool.ClassTable.Build.{IsIncreasing}
use bufferpool.Policy.{ClassPolicy, ShardPolicy, shards_is_zero, is_unset_selection}
use bufferpool.Policy.Report.{
  report, report_iff, append_iff, no_classes, too_many_classes, zero_shards, section_iff,
}
use bufferpool.Policy.Sections.{
  shard_checks, validate_sizes, validate_classes, validate_shards, is_known_selection,
}

sizes_iff :
    (index previous : ℕ) (sizes : List ClassSize)
    → (index ≡ 0 → previous ≡ 0)
    → (validate_sizes index previous sizes ≡ []) ↔ IsIncreasing previous sizes
unfolding validate_sizes
sizes_iff index previous [] h = ((λ e. tt), λ v. refl)
sizes_iff index previous (size ∷ sizes) h =
    let rest = sizes_iff (index + 1) size sizes (λ e. absurd (omega arith)) in
    ((λ e. ground (arith, e, h, rest.0)), λ v. ground (arith, v.0, rest.1 v.1))

pub record IsClassList (c : ClassPolicy) : Type 0 where
  pub some_class : 0 < length c.sizes
  pub small : length c.sizes ≤ max_classes
  pub increasing : IsIncreasing 0 c.sizes

pub record IsSharding (s : ShardPolicy) : Type 0 where
  pub known : is_known_selection s.selection ≡ true
  pub set : is_unset_selection s.selection ≡ false
  pub some_shard : 0 < magnitude s.shards_per_class
  pub some_slot : 0 < magnitude s.bucket_slots_per_shard
  pub some_segment_slot : 0 < magnitude s.bucket_segment_slots_per_shard
  pub segment_fits : magnitude s.bucket_segment_slots_per_shard ≤ magnitude s.bucket_slots_per_shard
  pub acquisition : is_negative s.acquisition_fallback_shards ≡ false
  pub return_fallback : s.return_fallback_shards ≡ pos 0

not_positive_iff : (z : ℤ) → (is_not_positive z ≡ false) ↔ (0 < magnitude z)
not_positive_iff (pos zero) = ((λ e. cc), λ h. absurd (omega arith))
not_positive_iff (pos (suc n)) = ((λ e. omega arith), λ h. refl)
not_positive_iff (negsuc n) = ((λ e. cc), λ h. absurd (omega arith))

lt_int_iff :
    (a b : ℤ)
    → 0 < magnitude a
    → 0 < magnitude b
    → (lt_int a b ≡ false) ↔ (magnitude b ≤ magnitude a)
lt_int_iff (pos a) (pos b) p q = ((λ e. ground (arith, e)), λ h. ground arith)
lt_int_iff (negsuc a) b p q = absurd (omega arith)
lt_int_iff (pos a) (negsuc b) p q = absurd (omega arith)

zero_iff : (z : ℤ) → (is_negative z ≡ false) × (is_not_positive z ≡ true) ↔ (z ≡ pos 0)
zero_iff (pos zero) = ((λ e. refl), λ h. (refl, refl))
zero_iff (pos (suc n)) = ((λ e. cc (e.1)), λ h. absurd (ground (arith, ap magnitude h)))
zero_iff (negsuc n) = ((λ e. cc (e.0)), λ h. cc)

-- The class section is valid exactly when there are some classes, no more than a class id can tell
-- apart, with positive and strictly increasing sizes.
pub validate_classes_iff : (c : ClassPolicy) → (validate_classes c ≡ []) ↔ IsClassList c
unfolding validate_classes
validate_classes_iff c = (sound, complete)
  where
    order : (validate_sizes 0 0 c.sizes ≡ []) ↔ IsIncreasing 0 c.sizes
    order = sizes_iff 0 0 c.sizes (λ e. refl)

    sound : validate_classes c ≡ [] → IsClassList c
    sound e =
        let s =
          (section_iff (length c.sizes == 0) no_classes (
              report ((ltb max_classes (length c.sizes), too_many_classes) ∷ [])
              ++ validate_sizes 0 0 c.sizes)).0
            e in
        let a =
          (append_iff (report ((ltb max_classes (length c.sizes), too_many_classes) ∷ []))
              (validate_sizes 0 0 c.sizes)).0
            s.1 in
        record {
          some_class = ground (arith, s.0);
          small = ground (arith, a.0);
          increasing = order.0 a.1;
        }

    complete : IsClassList c → validate_classes c ≡ []
    complete v = ground (arith, v.some_class, v.small, order.1 v.increasing)

-- The shard section is valid exactly when a known mode is set, there are shards and slots, no more in
-- a segment than in all, and the return fallback is 0.
pub validate_shards_iff : (s : ShardPolicy) → (validate_shards s ≡ []) ↔ IsSharding s
unfolding validate_shards shards_is_zero
validate_shards_iff s = (sound, complete)
  where
    sound : validate_shards s ≡ [] → IsSharding s
    sound e =
        let p =
          (report_iff (shard_checks s)).0
            ((section_iff (shards_is_zero s) zero_shards (report (shard_checks s))).0 e).1 in
        let some_slot = (not_positive_iff s.bucket_slots_per_shard).0 p.1.1.1.0 in
        let some_segment_slot = (not_positive_iff s.bucket_segment_slots_per_shard).0 p.1.1.1.1.0 in
        record {
          known = ground (arith, p.0);
          set = p.1.0;
          some_shard = (not_positive_iff s.shards_per_class).0 p.1.1.0;
          some_slot = some_slot;
          some_segment_slot = some_segment_slot;
          segment_fits =
              (lt_int_iff s.bucket_slots_per_shard s.bucket_segment_slots_per_shard some_slot
                  some_segment_slot).0
                (ground (arith, p.1.1.1.1.1.0, p.1.1.1.0));
          acquisition = p.1.1.1.1.1.1.0;
          return_fallback =
              (zero_iff s.return_fallback_shards).0
                (p.1.1.1.1.1.1.1.0, ground (arith, p.1.1.1.1.1.1.1.1.0));
        }

    complete : IsSharding s → validate_shards s ≡ []
    complete v =
        let zero_return = (zero_iff s.return_fallback_shards).1 v.return_fallback in
        let fits =
          (lt_int_iff s.bucket_slots_per_shard s.bucket_segment_slots_per_shard v.some_slot
              v.some_segment_slot).1
            v.segment_fits in
        (section_iff (shards_is_zero s) zero_shards (report (shard_checks s))).1 (
          ground (arith, v.set),
          (report_iff (shard_checks s)).1 (
            ground (arith, v.known),
            (
              v.set,
              (
                (not_positive_iff s.shards_per_class).1 v.some_shard,
                (
                  (not_positive_iff s.bucket_slots_per_shard).1 v.some_slot,
                  (
                    (not_positive_iff s.bucket_segment_slots_per_shard).1 v.some_segment_slot,
                    (
                      ground (arith, fits),
                      (v.acquisition, (zero_return.0, (ground (arith, zero_return.1), tt))),
                    ),
                  ),
                ),
              ),
            ),
          ),
        )

-- ===== src/ClassTable/Build.antt =====
-- newClassTable: which size lists it accepts, and the table that it builds.
use bufferpool.Base.{
  ℕ, suc, ◌+◌, ◌≤◌, ◌<◌, ◌≡◌, refl, ap, subst, List, [], ◌∷◌, map, ok, >>=-eq-ok, arith, length,
}
use native.Mathlib.Numerals.{add-one}
use bufferpool.Size.{ClassSize}
use bufferpool.ClassTable.{
  SizeClass, ClassTable, max_classes, validate_from, validate_class_sizes, number_classes,
  new_size_class, new_class_table, class_sizes,
}

-- Every size is larger than the one before it, and the first is larger than `previous`.
abbrev pub IsIncreasing : ClassSize → List ClassSize → Type 0
IsIncreasing previous [] = Unit {0}
IsIncreasing previous (size ∷ sizes) = (previous < size) × IsIncreasing size sizes

abbrev pub IsNumbered : ℕ → List SizeClass → Type 0
IsNumbered k [] = Unit {0}
IsNumbered k (c ∷ cs) = (c.id ≡ k) × IsNumbered (suc k) cs

-- The invariant of a constructed table.
pub record IsTable (t : ClassTable) : Type 0 where
  pub nonempty : 0 < length t.classes
  pub small : length t.classes ≤ max_classes
  pub increasing : IsIncreasing 0 (class_sizes t)
  pub numbered : IsNumbered 0 t.classes

validate_from_sound :
    (index previous : ℕ) (sizes : List ClassSize)
    → (index ≡ 0 → previous ≡ 0)
    → validate_from index previous sizes ≡ ok tt
    → IsIncreasing previous sizes
unfolding validate_from
validate_from_sound index previous [] p h = tt
validate_from_sound index previous (size ∷ sizes) p h =
    ground (arith, validate_from_sound (index + 1) size sizes (λ e. absurd (omega arith)))

validate_from_complete :
    (index previous : ℕ) (sizes : List ClassSize)
    → IsIncreasing previous sizes
    → validate_from index previous sizes ≡ ok tt
unfolding validate_from
validate_from_complete index previous [] h = refl
validate_from_complete index previous (size ∷ sizes) h =
    ground (arith, validate_from_complete (index + 1) size sizes h.1)

-- The classes of `sizes`, from the id `k` on.
abbrev pub classes_from : ℕ → List ClassSize → List SizeClass
classes_from k [] = []
classes_from k (size ∷ sizes) = record { id = k; size = size } ∷ classes_from (suc k) sizes

number_classes_lem :
    (index previous : ℕ) (sizes : List ClassSize)
    → IsIncreasing previous sizes
    → index + length sizes ≤ max_classes
    → number_classes index sizes ≡ ok (classes_from index sizes)
unfolding number_classes new_size_class
number_classes_lem index previous [] h e = refl
number_classes_lem index previous (size ∷ sizes) h e =
    rw add-one (ground (arith, number_classes_lem (suc index) size sizes h.1 (omega arith)))

sizes-classes_from :
    (k : ℕ) (sizes : List ClassSize) → map (λ c. c.size) (classes_from k sizes) ≡ sizes
sizes-classes_from k [] = refl
sizes-classes_from k (size ∷ sizes) = ap (◌∷◌ size) (sizes-classes_from (suc k) sizes)

length-classes_from :
    (k : ℕ) (sizes : List ClassSize) → length (classes_from k sizes) ≡ length sizes
length-classes_from k [] = refl
length-classes_from k (size ∷ sizes) = ap suc (length-classes_from (suc k) sizes)

classes_from-IsNumbered : (k : ℕ) (sizes : List ClassSize) → IsNumbered k (classes_from k sizes)
classes_from-IsNumbered k [] = tt
classes_from-IsNumbered k (size ∷ sizes) = (refl, classes_from-IsNumbered (suc k) sizes)

-- What newClassTable asks of its argument.
pub record IsAccepted (sizes : List ClassSize) : Type 0 where
  pub some_size : 0 < length sizes
  pub few : length sizes ≤ max_classes
  pub ordered : IsIncreasing 0 sizes

validate_sound : (sizes : List ClassSize) → validate_class_sizes sizes ≡ ok tt → IsAccepted sizes
unfolding validate_class_sizes
validate_sound sizes e = record {
  some_size = ground arith;
  few = ground arith;
  ordered = validate_from_sound 0 0 sizes (λ _. refl) (ground arith);
}

validate_complete : (sizes : List ClassSize) → IsAccepted sizes → validate_class_sizes sizes ≡ ok tt
unfolding validate_class_sizes
validate_complete sizes a = ground (arith, validate_from_complete 0 0 sizes a.ordered)

pub new_class_table_lem :
    (sizes : List ClassSize)
    → IsAccepted sizes
    → new_class_table sizes ≡ ok (record { classes = classes_from 0 sizes })
unfolding new_class_table
new_class_table_lem sizes a =
    rw (validate_complete sizes a, number_classes_lem 0 0 sizes a.ordered (ground (arith, a.few)))

new_class_table_sound :
    (sizes : List ClassSize) (t : ClassTable) → new_class_table sizes ≡ ok t → IsAccepted sizes
unfolding new_class_table
new_class_table_sound sizes t e =
    let (u, v, _) = >>=-eq-ok (validate_class_sizes sizes) _ e in validate_sound sizes v

built-IsTable :
    (sizes : List ClassSize)
    → IsAccepted sizes
    → IsTable (record { classes = classes_from 0 sizes })
built-IsTable sizes a = record {
  nonempty = rw (length-classes_from 0 sizes) a.some_size;
  small = rw (length-classes_from 0 sizes) a.few;
  increasing = rw (sizes-classes_from 0 sizes) a.ordered;
  numbered = classes_from-IsNumbered 0 sizes;
}

-- newClassTable returns a table exactly for 1 to 65536 strictly increasing positive sizes; the table
-- that it returns satisfies the table invariant and holds these sizes in their order.
pub new_class_table_accepts :
    (sizes : List ClassSize)
    → (IsAccepted sizes → (t : ClassTable) × (new_class_table sizes ≡ ok t))
      × ((t : ClassTable)
          → new_class_table sizes ≡ ok t
          → IsAccepted sizes × IsTable t × (class_sizes t ≡ sizes))
new_class_table_accepts sizes =
    (λ a. (record { classes = classes_from 0 sizes }, new_class_table_lem sizes a), built)
  where
    built :
        (t : ClassTable)
        → new_class_table sizes ≡ ok t
        → IsAccepted sizes × IsTable t × (class_sizes t ≡ sizes)
    built t e =
        let a = new_class_table_sound sizes t e in
        let same : record { classes = classes_from 0 sizes } ≡ t =
          cc (new_class_table_lem sizes a) in
        (
          a,
          subst IsTable same (built-IsTable sizes a),
          subst (λ t. class_sizes t ≡ sizes) same (sizes-classes_from 0 sizes),
        )

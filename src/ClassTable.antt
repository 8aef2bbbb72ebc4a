-- ===== src/ClassTable.antt =====
-- class.go and class_table.go: size classes and the ordered table of them.
-- `sort.Search` is the standard library's: a parameter, with its documented behaviour as the
-- hypothesis `IsSortSearch` of the lemmas that need it. A pair (SizeClass, bool) is an `Option`.
pub mod Search
pub mod Build
pub mod Order
pub mod Lookup
mod Tests
use bufferpool.Base.{
  ℕ, zero, suc, ◌+◌, ◌-◌, ◌%◌, ◌^◌, Bool, not, ◌&&◌, ◌||◌, List, [], ◌∷◌, map, Option, none, some,
  ltb, leb, ◌==◌, if◌then◌else◌, Result, ok, err, ◌>>=◌, ◌>>◌, fail_if, length, get_or, get_elem?,
}
use bufferpool.Panic.{
  Panic, size_class_zero_size, class_table_empty, class_table_too_many_classes,
  class_table_zero_class_size, class_table_unordered_class_sizes,
}
use bufferpool.Size.{
  Size, ClassSize, is_zero, less, greater, can_serve, waste_for, class_size_from_size,
}

pub record SizeClass : Type 0 where
  pub id : ℕ
  pub size : ClassSize

-- `SizeClass{}`
abbrev pub zero_class : SizeClass
zero_class = record { id = 0; size = 0 }

unfoldable pub new_size_class : ℕ → ClassSize → Result Panic SizeClass
new_size_class id size =
    if is_zero size then err size_class_zero_size else ok (record { id = id; size = size })

unfoldable pub class_can_serve : SizeClass → Size → Bool
class_can_serve c requested = can_serve c.size requested

unfoldable pub class_waste_for : SizeClass → Size → Size
unfolding waste_for
class_waste_for c requested = waste_for c.size requested

unfoldable pub class_equal : SizeClass → SizeClass → Bool
class_equal c other = (c.id == other.id) && (c.size == other.size)

pub record ClassTable : Type 0 where
  pub classes : List SizeClass

-- `int(^uint16(0)) + 1`
abbrev pub max_classes : ℕ
max_classes = 2 ^ 16

-- The loop of validateClassSizes; the head is `sizes[index]`.
validate_from : ℕ → ClassSize → List ClassSize → Result Panic (Unit {0})
validate_from index previous [] = ok tt
validate_from index previous (size ∷ sizes) = do
  fail_if (is_zero size) class_table_zero_class_size
  fail_if (ltb 0 index && not (less previous size)) class_table_unordered_class_sizes
  validate_from (index + 1) size sizes

unfoldable pub validate_class_sizes : List ClassSize → Result Panic (Unit {0})
unfolding validate_from
validate_class_sizes sizes = do
  fail_if (length sizes == 0) class_table_empty
  fail_if (ltb max_classes (length sizes)) class_table_too_many_classes
  validate_from 0 0 sizes

-- The loop of newClassTable; `ClassID(index)` keeps 16 bits.
number_classes : ℕ → List ClassSize → Result Panic (List SizeClass)
unfolding new_size_class
number_classes index [] = ok []
number_classes index (size ∷ sizes) = do
  c ← new_size_class (index % 2 ^ 16) size
  rest ← number_classes (index + 1) sizes
  ok (c ∷ rest)

unfoldable pub new_class_table : List ClassSize → Result Panic ClassTable
unfolding validate_class_sizes number_classes
new_class_table sizes = do
  validate_class_sizes sizes
  classes ← number_classes 0 sizes
  ok (record { classes = classes })

convert_sizes : List Size → Result Panic (List ClassSize)
unfolding class_size_from_size
convert_sizes [] = ok []
convert_sizes (size ∷ sizes) = do
  c ← class_size_from_size size
  rest ← convert_sizes sizes
  ok (c ∷ rest)

unfoldable pub new_class_table_from_sizes : List Size → Result Panic ClassTable
unfolding convert_sizes new_class_table
new_class_table_from_sizes sizes = do
  fail_if (length sizes == 0) class_table_empty
  class_sizes ← convert_sizes sizes
  new_class_table class_sizes

abbrev pub class_sizes : ClassTable → List ClassSize
class_sizes t = map (λ c. c.size) t.classes

abbrev pub class_at : ClassTable → ℕ → SizeClass
class_at t index = get_or t.classes index zero_class

abbrev pub table_len : ClassTable → ℕ
table_len t = length t.classes

unfoldable pub first : ClassTable → Option SizeClass
first t = if table_len t == 0 then none else some (class_at t 0)

unfoldable pub last : ClassTable → Option SizeClass
last t = if table_len t == 0 then none else some (class_at t (table_len t - 1))

unfoldable pub class_by_id : ClassTable → ℕ → Option SizeClass
class_by_id t id = if leb (table_len t) id then none else some (class_at t id)

module _ (sort_search : ℕ → (ℕ → Bool) → ℕ) where
  unfoldable pub class_for_exact_size : ClassTable → ClassSize → Option SizeClass
  class_for_exact_size t size =
      let index = sort_search (table_len t) (λ i. leb size (class_at t i).size) in
      if table_len t == 0 || is_zero size
      then none
      else if leb (table_len t) index
      then none
      else if not ((class_at t index).size == size)
      then none
      else some (class_at t index)

  unfoldable pub class_for_request : ClassTable → Size → Option SizeClass
  class_for_request t requested =
      let index = sort_search (table_len t) (λ i. can_serve (class_at t i).size requested) in
      if table_len t == 0
      then none
      else if leb (table_len t) index
      then none
      else some (class_at t index)

  unfoldable pub class_for_capacity : ClassTable → Size → Option SizeClass
  class_for_capacity t capacity =
      let index = sort_search (table_len t) (λ i. greater (class_at t i).size capacity) in
      if table_len t == 0 || is_zero capacity
      then none
      else if index == 0
      then none
      else some (class_at t (index - 1))

  abbrev is_some : Option SizeClass → Bool
  is_some none = Bool.false
  is_some (some c) = Bool.true

  unfoldable pub supports_request : ClassTable → Size → Bool
  unfolding class_for_request
  supports_request t requested = is_some (class_for_request t requested)

  unfoldable pub supports_capacity : ClassTable → Size → Bool
  unfolding class_for_capacity
  supports_capacity t capacity = is_some (class_for_capacity t capacity)

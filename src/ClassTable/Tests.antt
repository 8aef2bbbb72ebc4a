-- ===== src/ClassTable/Tests.antt =====
-- The class table at three classes: runs, and the theorems at concrete inputs.
use bufferpool.Base.{ℕ, ◌≤◌, ◌<◌, ◌≡◌, refl, ◌⊎◌, List, [], ◌∷◌, none, some, ok, err, arith}
use bufferpool.Panic.{
  class_table_empty, class_table_unordered_class_sizes, class_table_zero_class_size,
}
use bufferpool.Size.{ClassSize}
use bufferpool.ClassTable.{
  ClassTable, new_class_table, class_sizes, class_for_request, class_for_capacity, class_at,
}
use bufferpool.ClassTable.Search.{linear_search, linear_search-IsSortSearch}
use bufferpool.ClassTable.Build.{IsTable, IsAccepted, new_class_table_accepts}
use bufferpool.ClassTable.Lookup.{
  IsBestFit, IsOrigin, class_for_request_best, class_for_capacity-IsOrigin, capacity-request_class,
}

abbrev sizes : List ClassSize
sizes = 512 ∷ 1024 ∷ 4096 ∷ []

abbrev table : ClassTable
table = record {
  classes =
      record { id = 0; size = 512 }
      ∷ record { id = 1; size = 1024 }
      ∷ record { id = 2; size = 4096 }
      ∷ [];
}

table-IsTable : IsTable table
table-IsTable = omega arith

build_table : new_class_table sizes ≡ ok table
unfolding new_class_table
build_table = refl

build_empty : new_class_table [] ≡ err class_table_empty
unfolding new_class_table
build_empty = refl

build_unordered : new_class_table (512 ∷ 512 ∷ []) ≡ err class_table_unordered_class_sizes
unfolding new_class_table
build_unordered = refl

build_zero : new_class_table (512 ∷ 0 ∷ []) ≡ err class_table_zero_class_size
unfolding new_class_table
build_zero = refl

request_600 : class_for_request linear_search table 600 ≡ some (class_at table 1)
unfolding class_for_request linear_search
request_600 = refl

capacity_600 : class_for_capacity linear_search table 600 ≡ some (class_at table 0)
unfolding class_for_capacity linear_search
capacity_600 = refl

new_class_table_accepts_example :
    (IsAccepted sizes → (t : ClassTable) × (new_class_table sizes ≡ ok t))
    × ((t : ClassTable)
        → new_class_table sizes ≡ ok t
        → IsAccepted sizes × IsTable t × (class_sizes t ≡ sizes))
new_class_table_accepts_example = new_class_table_accepts sizes

class_for_request_best_example :
    ((index : ℕ) × IsBestFit table 600 index
      × (class_for_request linear_search table 600 ≡ some (class_at table index)))
    ⊎ (((i : ℕ) → i < 3 → (class_at table i).size < 600)
        × (class_for_request linear_search table 600 ≡ none))
class_for_request_best_example =
    class_for_request_best linear_search linear_search-IsSortSearch table table-IsTable 600

class_for_capacity-IsOrigin_example :
    ((index : ℕ) × IsOrigin table 600 index
      × (class_for_capacity linear_search table 600 ≡ some (class_at table index)))
    ⊎ (((i : ℕ) → i < 3 → 600 < (class_at table i).size)
        × (class_for_capacity linear_search table 600 ≡ none))
class_for_capacity-IsOrigin_example =
    class_for_capacity-IsOrigin linear_search linear_search-IsSortSearch table table-IsTable 600

capacity-request_class_example :
    (600 ≤ 1024) × (class_for_capacity linear_search table 1024 ≡ some (class_at table 1))
unfolding class_for_request linear_search
capacity-request_class_example =
    capacity-request_class linear_search linear_search-IsSortSearch table table-IsTable 600 refl

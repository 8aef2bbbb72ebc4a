-- ===== src/Size.antt =====
-- size.go and class_size.go: byte sizes (uint64), and sizes of classes, which are never zero.
use Prim.Native.Nat.{bit_and}
use bufferpool.Base.{
  ℕ, ◌-◌, ◌^◌, Bool, not, ◌&&◌, ltb, leb, ◌==◌, if◌then◌else◌, Result, ok, err, ◌>>=◌,
}
use bufferpool.Base.Int.{ℤ, pos, negsuc}
use bufferpool.Panic.{Panic, size_negative_int, size_too_large_for_int, size_clamp_invalid_range}
use bufferpool.Panic.{class_size_zero}

abbrev pub Size : Type 0
Size = ℕ

abbrev pub kib : Size
kib = 2 ^ 10

abbrev pub mib : Size
mib = 2 ^ 20

abbrev pub gib : Size
gib = 2 ^ 30

-- `int` is 64 bits wide.
abbrev pub max_int : ℕ
max_int = 2 ^ 63 - 1

unfoldable pub from_int : ℤ → Result Panic Size
from_int (pos n) = ok n
from_int (negsuc n) = err size_negative_int

unfoldable pub to_int : Size → Result Panic ℕ
to_int s = if ltb max_int s then err size_too_large_for_int else ok s

abbrev pub is_zero : Size → Bool
is_zero s = s == 0

abbrev pub is_positive : Size → Bool
is_positive s = ltb 0 s

unfoldable pub is_power_of_two : Size → Bool
is_power_of_two s = not (s == 0) && bit_and s (s - 1) == 0

abbrev pub less : Size → Size → Bool
less s other = ltb s other

abbrev pub less_or_equal : Size → Size → Bool
less_or_equal s other = leb s other

abbrev pub greater : Size → Size → Bool
greater s other = ltb other s

abbrev pub greater_or_equal : Size → Size → Bool
greater_or_equal s other = leb other s

unfoldable pub clamp : Size → Size → Size → Result Panic Size
clamp s min_value max_value =
    if ltb max_value min_value
    then err size_clamp_invalid_range
    else if ltb s min_value
    then ok min_value
    else if ltb max_value s
    then ok max_value
    else ok s

abbrev pub ClassSize : Type 0
ClassSize = Size

unfoldable pub class_size_from_size : Size → Result Panic ClassSize
class_size_from_size size = if is_zero size then err class_size_zero else ok size

unfoldable pub class_size_from_bytes : ℕ → Result Panic ClassSize
unfolding class_size_from_size
class_size_from_bytes bytes = class_size_from_size bytes

unfoldable pub class_size_from_int : ℤ → Result Panic ClassSize
unfolding class_size_from_size from_int
class_size_from_int value = do size ← from_int value; class_size_from_size size

abbrev pub can_serve : ClassSize → Size → Bool
can_serve c requested = greater_or_equal c requested

unfoldable pub waste_for : ClassSize → Size → Size
waste_for c requested = if leb c requested then 0 else c - requested

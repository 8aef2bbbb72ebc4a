-- ===== src/Segment/Window.antt =====
-- What a segment, and a chain of segments, holds; the newest buffer first.
use bufferpool.Base.{
  ℕ, zero, suc, ◌+◌, ◌-◌, ◌≤◌, ◌<◌, ◌≡◌, refl, ap, ap₂, ◌∙◌, subst, List, [], ◌∷◌, ◌++◌, arith,
  length, get_or, set, replicate, All, length-set, get_or-set_self, get_or-set_ne, get_or-replicate,
}
use native.Mathlib.Numerals.{add-one}
use native.Mathlib.Decide.{ℕ_discrete}
use bufferpool.Slice.{Slice, nil, capacity, reslice_empty, capacity-reslice_empty}
use bufferpool.Segment.{Segment}

abbrev pub window : List Slice → ℕ → List Slice
window slots zero = []
window slots (suc n) = get_or slots n nil ∷ window slots n

abbrev pub IsRetainable : Slice → Type 0
IsRetainable s = 0 < capacity s

pub record IsSegment (s : Segment) : Type 0 where
  pub count_le : s.count ≤ length s.slots
  pub occupied : All IsRetainable (window s.slots s.count)
  pub free : (i : ℕ) → s.count ≤ i → get_or s.slots i nil ≡ nil

abbrev pub contents : List Segment → List Slice
contents [] = []
contents (s ∷ previous) = window s.slots s.count ++ contents previous

-- No segment of the chain is empty.
abbrev pub IsChain : List Segment → Type 0
IsChain [] = Unit {0}
IsChain (s ∷ previous) = IsSegment s × (0 < s.count) × IsChain previous

abbrev pub total : List Slice → ℕ
total [] = 0
total (s ∷ ss) = capacity s + total ss

pub length-window : (slots : List Slice) (n : ℕ) → length (window slots n) ≡ n
length-window slots zero = refl
length-window slots (suc n) = ap suc (length-window slots n)

-- A write at or past the end of a window does not show in it.
pub window-set :
    (slots : List Slice) (n i : ℕ) (v : Slice) → n ≤ i → window (set slots i v) n ≡ window slots n
window-set slots zero i v h = refl
window-set slots (suc n) i v h =
    ap₂ ◌∷◌ (get_or-set_ne slots i n v nil (λ e. omega arith))
      (window-set slots n i v (omega arith))

pub total-append : (xs ys : List Slice) → total (xs ++ ys) ≡ total xs + total ys
total-append [] ys = omega arith
total-append (x ∷ xs) ys = omega (arith, total-append xs ys)

unfoldable pub fresh : ℕ → Segment
fresh n = record { slots = replicate n nil; count = 0 }

pub fresh-IsSegment : (n : ℕ) → IsSegment (fresh n)
unfolding fresh
fresh-IsSegment n = record {
  count_le = omega arith;
  occupied = tt;
  free = λ i _. get_or-replicate n i nil;
}

unfoldable pub stored_in : Segment → Slice → Segment
stored_in s v = record { slots = set s.slots s.count (reslice_empty v); count = s.count + 1 }

unfoldable pub taken_from : Segment → Segment
taken_from s = record { slots = set s.slots (s.count - 1) nil; count = s.count - 1 }

pub window-stored_in :
    (s : Segment) (v : Slice)
    → s.count < length s.slots
    → window (stored_in s v).slots (stored_in s v).count ≡ reslice_empty v ∷ window s.slots s.count
unfolding stored_in
window-stored_in s v h = rw add-one (
    ap₂ ◌∷◌ (get_or-set_self s.slots s.count (reslice_empty v) nil h)
      (window-set s.slots s.count s.count (reslice_empty v) (omega arith)))

pub stored_in-IsSegment :
    (s : Segment) (v : Slice)
    → IsSegment s
    → s.count < length s.slots
    → 0 < capacity v
    → IsSegment (stored_in s v)
stored_in-IsSegment s v i h p = record {
  count_le = unfold stored_in in omega (arith, length-set s.slots s.count (reslice_empty v));
  occupied = rw (window-stored_in s v h) (omega (arith, capacity-reslice_empty v, p), i.occupied);
  free =
      unfold stored_in in
      λ j le.
        get_or-set_ne s.slots s.count j (reslice_empty v) nil (λ e. omega arith)
        ∙ i.free j (omega arith);
}

window_of_positive :
    (slots : List Slice) (n : ℕ)
    → 0 < n
    → window slots n ≡ get_or slots (n - 1) nil ∷ window slots (n - 1)
window_of_positive slots zero h = absurd (omega arith)
window_of_positive slots (suc n) h = ap (λ k. get_or slots k nil ∷ window slots k) (omega arith)

unfoldable pub top : Segment → Slice
top s = get_or s.slots (s.count - 1) nil

pub window-taken_from :
    (s : Segment)
    → 0 < s.count
    → window s.slots s.count ≡ top s ∷ window (taken_from s).slots (taken_from s).count
unfolding top taken_from
window-taken_from s h =
    rw (window-set s.slots (s.count - 1) (s.count - 1) nil (omega arith))
      (window_of_positive s.slots s.count h)

pub taken_from-IsSegment : (s : Segment) → IsSegment s → 0 < s.count → IsSegment (taken_from s)
taken_from-IsSegment s i h = record {
  count_le = unfold taken_from in omega (arith, length-set s.slots (s.count - 1) nil, i.count_le);
  occupied = (subst (All IsRetainable) (window-taken_from s h) i.occupied).1;
  free =
      unfold taken_from in
      λ j le. elim (ℕ_discrete (s.count - 1) j) [
        | yes e ↦
            rw (← e) (get_or-set_self s.slots (s.count - 1) nil nil (omega (arith, i.count_le)))
        | no ne ↦ get_or-set_ne s.slots (s.count - 1) j nil nil ne ∙ i.free j (omega arith)
      ];
}

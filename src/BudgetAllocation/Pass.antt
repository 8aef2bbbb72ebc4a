-- ===== src/BudgetAllocation/Pass.antt =====
-- One pass of the reduction of assignments towards their minimums.
use bufferpool.Base.{
  min_uint64, subst, sym, ℕ, ◌+◌, ◌-◌, ◌*◌, ◌≤◌, ◌<◌, ◌≡◌, refl, ◌⊎◌, inl, inr, true, false,
  Bool-cases, List, [], ◌∷◌, arith, leb,
}
use bufferpool.BudgetAllocation.{Target, reducible_count, sub_uint64, reduce_pass}

abbrev pub assigned_sum : List Target → ℕ
assigned_sum [] = 0
assigned_sum (r ∷ rs) = r.assigned_bytes + assigned_sum rs

-- The child lost some of what it had above its minimum.
pub record IsLess (r r' : Target) : Type 0 where
  pub same_min : r'.min_bytes ≡ r.min_bytes
  pub same_max : r'.max_bytes ≡ r.max_bytes
  pub no_more : r'.assigned_bytes ≤ r.assigned_bytes
  pub above_min : r.min_bytes ≤ r'.assigned_bytes ⊎ (r'.assigned_bytes ≡ r.assigned_bytes)

pub sub_uint64_lem : (a b : ℕ) → b ≤ a → sub_uint64 a b ≡ a - b
unfolding sub_uint64
sub_uint64_lem a b h = ground arith

-- Child by child.
abbrev pub IsReduced : List Target → List Target → Type 0
IsReduced [] [] = Unit
IsReduced (r ∷ rs) (r' ∷ rs') = IsLess r r' × IsReduced rs rs'
IsReduced [] (r' ∷ rs') = ⊥
IsReduced (r ∷ rs) [] = ⊥

pub IsLess-refl : (r : Target) → IsLess r r
IsLess-refl r = record {
  same_min = refl;
  same_max = refl;
  no_more = omega arith;
  above_min = inr refl;
}

pub IsReduced-refl : (rs : List Target) → IsReduced rs rs
IsReduced-refl [] = tt
IsReduced-refl (r ∷ rs) = (IsLess-refl r, IsReduced-refl rs)

pub record Passes (share limit total : ℕ) (rs : List Target) (out : List Target × ℕ) : Type 0 where
  pub reduced : IsReduced rs out.0
  pub tracks : out.1 + assigned_sum rs ≡ total + assigned_sum out.0
  pub enough : limit ≤ out.1
  pub no_more : out.1 ≤ total
  pub progress : (reducible_count rs ≡ 0) ⊎ (out.1 < total)

-- What is taken off a child, and what is left of it.
abbrev taken : ℕ → Target → ℕ
taken share r = min_uint64 share (r.assigned_bytes - r.min_bytes)

abbrev less_taken : ℕ → Target → Target
less_taken share r = record r { assigned_bytes = r.assigned_bytes - taken share r }

less_taken-IsLess :
    (share : ℕ) (r : Target) → r.min_bytes < r.assigned_bytes → IsLess r (less_taken share r)
unfolding min_uint64
less_taken-IsLess share r h = record {
  same_min = refl;
  same_max = refl;
  no_more = omega arith;
  above_min = inl (ground arith);
}

taken_lem :
    (share : ℕ) (r : Target)
    → 0 < share
    → r.min_bytes < r.assigned_bytes
    → (0 < taken share r) × (taken share r ≤ share) × (taken share r ≤ r.assigned_bytes)
unfolding min_uint64
taken_lem share r p lt = (ground arith, ground arith, ground arith)

-- A child's share was in the budget of the pass, and the other children's is still.
taken_room :
    (share limit total : ℕ) (r : Target) (rs : List Target)
    → 0 < share
    → limit < total
    → r.min_bytes < r.assigned_bytes
    → (share * reducible_count (r ∷ rs) + limit ≤ total) ⊎ (share ≡ 1)
    → (limit ≤ total - taken share r)
      × ((share * reducible_count rs + limit ≤ total - taken share r) ⊎ (share ≡ 1))
taken_room share limit total r rs p above lt (inr one) =
    ((let b = taken_lem share r p lt in omega (arith, b.1, one)), inr one)
taken_room share limit total r rs p above lt (inl room) =
    let b = taken_lem share r p lt in
    let count : reducible_count (r ∷ rs) ≡ reducible_count rs + 1 = ground arith in
    let product : share * (reducible_count rs + 1) ≡ share * reducible_count rs + share =
      omega arith in
    let room' : share * (reducible_count rs + 1) + limit ≤ total =
      subst (λ c. share * c + limit ≤ total) count room in
    (omega (arith, b.1, product, room'), inl (omega (arith, b.1, product, room')))

module _ (share limit total : ℕ) (r : Target) (rs : List Target) where
  pass_skip :
      leb r.assigned_bytes r.min_bytes ≡ true
      → reduce_pass share limit total (r ∷ rs)
        ≡ (r ∷ (reduce_pass share limit total rs).0, (reduce_pass share limit total rs).1)
  unfolding reduce_pass
  pass_skip e = rw (reduce_pass, e)

  pass_stop :
      leb r.assigned_bytes r.min_bytes ≡ false
      → taken share r ≤ total
      → leb (total - taken share r) limit ≡ true
      → reduce_pass share limit total (r ∷ rs) ≡ (less_taken share r ∷ rs, total - taken share r)
  unfolding reduce_pass
  pass_stop e h s =
      rw (reduce_pass, e)
        (rw (sub_uint64_lem total (taken share r) h)
          (rw s (rw (sub_uint64_lem total (taken share r) h))))

  pass_go :
      leb r.assigned_bytes r.min_bytes ≡ false
      → taken share r ≤ total
      → leb (total - taken share r) limit ≡ false
      → reduce_pass share limit total (r ∷ rs) ≡ (
        less_taken share r ∷ (reduce_pass share limit (total - taken share r) rs).0,
        (reduce_pass share limit (total - taken share r) rs).1,
      )
  unfolding reduce_pass
  pass_go e h s =
      rw (reduce_pass, e)
        (rw (sub_uint64_lem total (taken share r) h)
          (rw s (rw (sub_uint64_lem total (taken share r) h))))

pub pass-Passes :
    (share limit total : ℕ) (rs : List Target)
    → 0 < share
    → limit < total
    → assigned_sum rs ≤ total
    → (share * reducible_count rs + limit ≤ total) ⊎ (share ≡ 1)
    → Passes share limit total rs (reduce_pass share limit total rs)
pass-Passes share limit total [] p above sum room =
    unfold reduce_pass in
    record {
      reduced = tt;
      tracks = refl;
      enough = omega arith;
      no_more = omega arith;
      progress = inl refl;
    }
pass-Passes share limit total (r ∷ rs) p above sum room =
    elim (Bool-cases (leb r.assigned_bytes r.min_bytes)) [
      | inl e ↦
          let count : reducible_count (r ∷ rs) ≡ reducible_count rs = ground (arith, e) in
          let rest =
            pass-Passes share limit total rs p above (omega arith)
              (subst (λ c. (share * c + limit ≤ total) ⊎ (share ≡ 1)) count room) in
          subst (Passes share limit total (r ∷ rs)) (sym (pass_skip share limit total r rs e))
            record {
              reduced = (IsLess-refl r, rest.reduced);
              tracks = omega (arith, rest.tracks);
              enough = rest.enough;
              no_more = rest.no_more;
              progress =
                  subst (λ c. (c ≡ 0) ⊎ ((reduce_pass share limit total rs).1 < total)) (sym count)
                    rest.progress;
            }
      | inr e ↦
          let lt : r.min_bytes < r.assigned_bytes = ground (arith, e) in
          let (some_taken, share_bound, fits) = taken_lem share r p lt in
          let stays = taken_room share limit total r rs p above lt room in
          elim (Bool-cases (leb (total - taken share r) limit)) [
            | inl s ↦
                subst (Passes share limit total (r ∷ rs))
                  (sym (pass_stop share limit total r rs e (omega (arith, fits, sum)) s))
                  record {
                    reduced = (less_taken-IsLess share r lt, IsReduced-refl rs);
                    tracks = omega (arith, fits, sum);
                    enough = stays.0;
                    no_more = omega arith;
                    progress = inr (omega (arith, some_taken, fits, sum));
                  }
            | inr s ↦
                let rest =
                  pass-Passes share limit (total - taken share r) rs p (ground (arith, s))
                    (omega (arith, fits, sum)) stays.1 in
                subst (Passes share limit total (r ∷ rs))
                  (sym (pass_go share limit total r rs e (omega (arith, fits, sum)) s))
                  record {
                    reduced = (less_taken-IsLess share r lt, rest.reduced);
                    tracks = omega (arith, rest.tracks, fits, sum);
                    enough = rest.enough;
                    no_more = omega (arith, rest.no_more);
                    progress = inr (omega (arith, some_taken, fits, sum, rest.no_more));
                  }
          ]
    ]

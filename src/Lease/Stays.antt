-- ===== src/Lease/Stays.antt =====
-- Released records of a registry, as its records change.
use bufferpool.Base.{
  ℕ, ◌≡◌, inl, inr, sym, ap, subst, ◌∙◌, true, ◌==◌, Bool-cases, List, [], ◌∷◌, ◌++◌, some,
  get_elem?, set, arith,
}
use bufferpool.Lease.Release.{is_released}
use bufferpool.Base.{get_elem?-append, get_elem?-below, get_elem?-set_self, get_elem?-set_ne}
use bufferpool.Lease.{LeaseRecord}

some_injective : {A : Type 0} {x y : A} → some x ≡ some y → x ≡ y
some_injective e = cc

-- Releases are for good.
abbrev pub StayReleased : List LeaseRecord → List LeaseRecord → Type 0
StayReleased records after =
    (index : ℕ) (x : LeaseRecord)
    → get_elem? records index ≡ some x
    → is_released x.state ≡ true
    → (y : LeaseRecord) × (get_elem? after index ≡ some y) × (is_released y.state ≡ true)

pub same_records : (records : List LeaseRecord) → StayReleased records records
same_records records index x e h = (x, e, h)

pub appended_stay :
    (records : List LeaseRecord) (made : LeaseRecord) → StayReleased records (records ++ made ∷ [])
appended_stay records made index x e h =
    (x, get_elem?-append records index made (get_elem?-below records index x e) ∙ e, h)

pub changed_stay :
    (records : List LeaseRecord) (i : ℕ) (found made : LeaseRecord)
    → get_elem? records i ≡ some found
    → (is_released found.state ≡ true → is_released made.state ≡ true)
    → StayReleased records (set records i made)
changed_stay records i found made at keeps index x e h = elim (Bool-cases (i == index)) [
  | inl eq ↦
      let same_index : i ≡ index = ground (arith, eq) in
      let same : found ≡ x = some_injective (sym at ∙ ap (get_elem? records) same_index ∙ e) in
      (
        made,
        subst (λ j. get_elem? (set records i made) j ≡ some made) same_index
            (get_elem?-set_self records i made (get_elem?-below records i found at)),
        keeps (subst (λ y. is_released y.state ≡ true) (sym same) h),
      )
  | inr ne ↦ (x, get_elem?-set_ne records i index made (λ eq. ground (arith, ne, eq)) ∙ e, h)
]

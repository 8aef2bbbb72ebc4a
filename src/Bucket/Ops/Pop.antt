-- ===== src/Bucket/Ops/Pop.antt =====
-- pop and peekHeadCapacity on a valid bucket: no panic, last in first out, and the invariant.
use bufferpool.Base.{
  ◌+◌, ◌-◌, ◌<◌, ◌≡◌, refl, ap, ◌∙◌, subst, sym, true, false, Bool-cases, inl, inr, List, [], ◌∷◌,
  ◌++◌, ok, arith, length, ◌==◌, le→ltb, All,
}
use native.Mathlib.Decide.{dec_lt}
use bufferpool.Slice.{Slice, nil, capacity, reslice_empty}
use bufferpool.Segment.{Segment, must_have_occupied_slot}
use bufferpool.Segment.Window.{
  IsSegment, IsChain, contents, total, fresh, taken_from, top, window, window-taken_from,
  taken_from-IsSegment, IsRetainable,
}
use bufferpool.Bucket.{Bucket, remove_retained, must_have_head_segment, release_empty_head}
use bufferpool.Bucket.Ops.{remove_at_head, pop_retained, pop, peek_head_capacity}
use bufferpool.Bucket.Ops.Invariant.{IsBucket}

pub head_of : List Segment → Segment
unfolding fresh
head_of [] = fresh 0
head_of (head ∷ previous) = head

pub removed : List Segment → List Segment
unfolding release_empty_head taken_from
removed [] = []
removed (head ∷ previous) = release_empty_head (taken_from head ∷ previous)

-- The newest buffer of a chain.
pub newest : List Segment → Slice
unfolding head_of top
newest ss = top (head_of ss)

head_lem :
    (ss : List Segment)
    → IsChain ss
    → 0 < length (contents ss)
    → (must_have_head_segment ss ≡ ok (head_of ss))
      × (must_have_occupied_slot (head_of ss) ((head_of ss).count - 1) ≡ ok (newest ss))
      × (0 < capacity (newest ss))
unfolding must_have_head_segment must_have_occupied_slot newest
head_lem [] c h = absurd (omega arith)
head_lem (head ∷ previous) c h = (ground (arith, c.0.count_le), ground (arith, c.0.count_le, p), p)
  where
    p : 0 < capacity (top head)
    p = (subst (All IsRetainable) (window-taken_from head c.1) c.0.occupied).0

release-contents :
    (s : Segment) (previous : List Segment)
    → contents (release_empty_head (s ∷ previous)) ≡ contents (s ∷ previous)
unfolding release_empty_head
release-contents s previous = elim (Bool-cases (s.count == 0)) [
  | inl empty ↦
      let e : 0 ≡ s.count = ground arith in
      rw empty (ap (λ n. window s.slots n ++ contents previous) e)
  | inr some ↦ rw some
]

release-IsChain :
    (s : Segment) (previous : List Segment)
    → IsSegment s
    → IsChain previous
    → IsChain (release_empty_head (s ∷ previous))
unfolding release_empty_head
release-IsChain s previous i c = elim (Bool-cases (s.count == 0)) [
  | inl empty ↦ rw empty c
  | inr some ↦ rw some (i, ground arith, c)
]

removed-contents :
    (ss : List Segment)
    → IsChain ss
    → 0 < length (contents ss)
    → contents ss ≡ newest ss ∷ contents (removed ss)
unfolding removed newest
removed-contents [] c h = absurd (omega arith)
removed-contents (head ∷ previous) c h =
    ap (λ w. w ++ contents previous) (window-taken_from head c.1)
    ∙ ap (◌∷◌ (top head)) (sym (release-contents (taken_from head) previous))

removed-IsChain : (ss : List Segment) → IsChain ss → IsChain (removed ss)
unfolding removed
removed-IsChain [] c = tt
removed-IsChain (head ∷ previous) c =
    release-IsChain (taken_from head) previous (taken_from-IsSegment head c.0 c.1) c.2

remove_at_head_lem :
    (ss : List Segment) (b : Bucket)
    → 0 < length (contents ss)
    → remove_at_head ss b ((head_of ss).count - 1)
      ≡ record b { segments = removed ss; retained_buffers = b.retained_buffers - 1 }
unfolding remove_at_head removed head_of
remove_at_head_lem [] b h = absurd (omega arith)
remove_at_head_lem (head ∷ previous) b h = refl

pub popped : Bucket → Bucket
unfolding removed newest
popped b = record b {
  segments = removed b.segments;
  retained_buffers = b.retained_buffers - 1;
  retained_bytes = b.retained_bytes - capacity (newest b.segments);
}

module _ (b : Bucket) (v : IsBucket b) (some_buffer : 0 < b.retained_buffers) where
  held : 0 < length (contents b.segments)
  held = omega (arith, v.counted)

  byte_count :
      b.retained_bytes ≡ capacity (newest b.segments) + total (contents (removed b.segments))
  byte_count = v.bytes ∙ ap total (removed-contents b.segments v.chain held)

  pop_retained_lem : pop_retained b ≡ ok (popped b, reslice_empty (newest b.segments))
  unfolding pop_retained popped remove_retained
  pop_retained_lem =
      let (head, buffer, _) = head_lem b.segments v.chain held in
      rw (
        head,
        buffer,
        le→ltb b.retained_bytes (capacity (newest b.segments)) (omega (arith, byte_count)),
        remove_at_head_lem b.segments
            (record b { retained_bytes = b.retained_bytes - capacity (newest b.segments) }) held,
      )

  popped-IsBucket : IsBucket (popped b)
  unfolding popped
  popped-IsBucket = record {
    chain = removed-IsChain b.segments v.chain;
    counted = omega (arith, v.counted, ap length (removed-contents b.segments v.chain held));
    bytes = omega (arith, byte_count);
    bounded = omega (arith, v.bounded);
    segment_slots = v.segment_slots;
    fits = omega (arith, v.fits);
  }

-- What pop does to a valid bucket.
pub data Pops (b : Bucket) : Type 0 where
  empty : contents b.segments ≡ [] → pop b ≡ ok (b, nil, false) → Pops b
  takes :
      (b' : Bucket) (x : Slice)
      → contents b.segments ≡ x ∷ contents b'.segments
      → 0 < capacity x
      → pop b ≡ ok (b', reslice_empty x, true)
      → peek_head_capacity b ≡ ok (capacity x, true)
      → b'.slot_limit ≡ b.slot_limit
      → IsBucket b'
      → Pops b

nil_of_length : (xs : List Slice) → length xs ≡ 0 → xs ≡ []
nil_of_length [] h = refl
nil_of_length (x ∷ xs) h = absurd (omega arith)

-- On a valid bucket pop never panics: it reports an empty bucket as nil and false, or returns the
-- newest buffer cut to length 0, which peekHeadCapacity announces, and keeps the invariant.
pub pop-Pops : (b : Bucket) → IsBucket b → Pops b
unfolding pop peek_head_capacity
pop-Pops b v = elim (dec_lt 0 b.retained_buffers) [
  | no none_held ↦ empty (nil_of_length _ (omega (arith, v.counted))) (ground (arith, v.bounded))
  | yes p ↦
      let (head, buffer, positive) = head_lem b.segments v.chain (held b v p) in
      takes (popped b) (newest b.segments)
        (unfold popped in removed-contents b.segments v.chain (held b v p)) positive
        (ground (arith, v.bounded, pop_retained_lem b v p)) (ground (arith, head, buffer))
        (unfold popped in refl) (popped-IsBucket b v p)
]

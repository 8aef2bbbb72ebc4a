-- ===== src/Bucket/Ops/Clear.antt =====
-- clear on a valid bucket.
use bufferpool.Base.{
  ℕ, zero, suc, ◌+◌, ◌≤◌, ◌<◌, ◌≡◌, refl, List, [], ◌∷◌, ok, arith, length, All, get_or, set,
  length-set, get_or-set_ne,
}
use native.Mathlib.Decide.{ℕ_discrete}
use bufferpool.Slice.{Slice, nil, capacity}
use bufferpool.Segment.{Segment, must_have_occupied_slot, clear_slots, clear_occupied_slots}
use bufferpool.Segment.Window.{IsSegment, IsChain, contents, total, window, IsRetainable}
use bufferpool.Bucket.{Bucket}
use bufferpool.Bucket.Ops.{clear_segments, clear}
use bufferpool.Bucket.Ops.Invariant.{IsBucket}
use bufferpool.Bucket.Ops.TrimBounded.{state_lem, reported}

occupied_at :
    (slots : List Slice) (n j : ℕ)
    → All IsRetainable (window slots n)
    → j < n
    → 0 < capacity (get_or slots j nil)
occupied_at slots zero j h lt = absurd (omega arith)
occupied_at slots (suc n) j h lt = elim (ℕ_discrete j n) [
  | yes e ↦ rw e h.0
  | no ne ↦ occupied_at slots n j h.1 (omega arith)
]

occupied_lem :
    (s : Segment) (index : ℕ)
    → s.count ≤ length s.slots
    → index < s.count
    → 0 < capacity (get_or s.slots index nil)
    → must_have_occupied_slot s index ≡ ok (get_or s.slots index nil)
unfolding must_have_occupied_slot
occupied_lem s index le lt p = ground arith

clear_slots_lem :
    (left index : ℕ) (s : Segment)
    → s.count ≤ length s.slots
    → index + left ≡ s.count
    → ((j : ℕ) → index ≤ j → j < s.count → 0 < capacity (get_or s.slots j nil))
    → (s' : Segment) × (clear_slots left index s ≡ ok s')
unfolding clear_slots
clear_slots_lem zero index s le e occupied = (s, refl)
clear_slots_lem (suc left) index s le e occupied =
    let after : Segment = record s { slots = set s.slots index nil } in
    let (s', done) =
      clear_slots_lem left (index + 1) after (omega (arith, length-set s.slots index nil))
        (omega arith)
        (λ j lo hi.
          rw (get_or-set_ne s.slots index j nil nil (λ ij. omega arith))
            (occupied j (omega arith) hi)) in
    (
      s',
      rw (occupied_lem s index le (omega arith) (occupied index (omega arith) (omega arith))) done,
    )

clear_occupied_slots_lem :
    (s : Segment) → IsSegment s → (s' : Segment) × (clear_occupied_slots s ≡ ok s')
unfolding clear_occupied_slots
clear_occupied_slots_lem s i =
    let (s', e) =
      clear_slots_lem s.count 0 s i.count_le (omega arith)
        (λ j lo hi. occupied_at s.slots s.count j i.occupied hi) in
    (record s' { count = 0 }, ground (arith, e, i.count_le))

clear_segments_lem : (ss : List Segment) → IsChain ss → clear_segments ss ≡ ok tt
unfolding clear_segments
clear_segments_lem [] c = refl
clear_segments_lem (s ∷ previous) c =
    rw ((clear_occupied_slots_lem s c.0).1) (clear_segments_lem previous c.2)

abbrev pub emptied : Bucket → Bucket
emptied b = record b { segments = []; retained_buffers = 0; retained_bytes = 0 }

-- On a valid bucket clear never panics: it leaves an empty valid bucket, and reports every buffer and
-- byte that the bucket held as removed.
pub clear_lem :
    (b : Bucket)
    → IsBucket b
    → (clear b
        ≡ ok (
          emptied b,
          reported (length (contents b.segments)) (total (contents b.segments)) (emptied b),
        ))
      × IsBucket (emptied b)
unfolding clear reported
clear_lem b v = (
  ground (
    arith,
    v.bounded,
    clear_segments_lem b.segments v.chain,
    v.counted,
    v.bytes,
    state_lem (emptied b),
  ),
  record {
    chain = tt;
    counted = refl;
    bytes = refl;
    bounded = omega arith;
    segment_slots = v.segment_slots;
    fits = omega arith;
  },
)

-- ===== src/Bucket/Ops/Push.antt =====
-- push on a valid bucket: every branch, and the invariant.
use bufferpool.Base.{
  ℕ, ◌+◌, ◌-◌, ◌≤◌, ◌<◌, ◌≡◌, refl, ap, true, false, Bool-cases, inl, inr, List, [], ◌∷◌, ◌++◌, ok,
  err, arith, length, ◌==◌, if◌then◌else◌, max_uint64, length-replicate, le→ltb, ◌⊎◌,
}
use native.Mathlib.Decide.{dec_lt, dec_le}
use bufferpool.Panic.{bucket_retained_bytes_overflow}
use bufferpool.Slice.{Slice, nil, capacity, reslice_empty, capacity-reslice_empty}
use bufferpool.Segment.{Segment}
use bufferpool.Segment.Window.{
  IsSegment, IsChain, contents, fresh, fresh-IsSegment, stored_in, window-stored_in,
  stored_in-IsSegment,
}
use bufferpool.Bucket.{Bucket, add_retained, ensure_head_segment}
use bufferpool.Bucket.Ops.{store_at_head, push_retained, push}
use bufferpool.Bucket.Ops.Invariant.{
  IsBucket, has_room, reusable_head_lem, new_slots, grown, grow_lem, ensure_for_lem,
  free_head_slot-fresh,
}

-- The segments after push has stored a buffer.
unfoldable pub stored : List Segment → ℕ → Slice → List Segment
unfolding stored_in fresh
stored [] n x = stored_in (fresh n) x ∷ []
stored (head ∷ previous) n x =
    if head.count == length head.slots
    then stored_in (fresh n) x ∷ head ∷ previous
    else stored_in head x ∷ previous

stored_in-contents :
    (s : Segment) (previous : List Segment) (x : Slice)
    → s.count < length s.slots
    → contents (stored_in s x ∷ previous) ≡ reslice_empty x ∷ contents (s ∷ previous)
stored_in-contents s previous x h = ap (λ w. w ++ contents previous) (window-stored_in s x h)

stored_in-IsChain :
    (s : Segment) (previous : List Segment) (x : Slice)
    → IsSegment s
    → s.count < length s.slots
    → 0 < capacity x
    → IsChain previous
    → IsChain (stored_in s x ∷ previous)
stored_in-IsChain s previous x i h p c =
    (stored_in-IsSegment s x i h p, unfold stored_in in omega arith, c)

fresh_room : (n : ℕ) → 0 < n → (fresh n).count < length (fresh n).slots
unfolding fresh
fresh_room n h = omega (arith, length-replicate n nil)

head_room :
    (s : Segment) → IsSegment s → (s.count == length s.slots) ≡ false → s.count < length s.slots
head_room s i e = ground (arith, i.count_le)

stored-contents :
    (ss : List Segment) (n : ℕ) (x : Slice)
    → IsChain ss
    → 0 < n
    → contents (stored ss n x) ≡ reslice_empty x ∷ contents ss
unfolding stored
stored-contents [] n x c h = stored_in-contents (fresh n) [] x (fresh_room n h)
stored-contents (head ∷ previous) n x c h = elim (Bool-cases (head.count == length head.slots)) [
  | inl full ↦ rw full (stored_in-contents (fresh n) (head ∷ previous) x (fresh_room n h))
  | inr room ↦ rw room (stored_in-contents head previous x (head_room head c.0 room))
]

stored-IsChain :
    (ss : List Segment) (n : ℕ) (x : Slice)
    → IsChain ss
    → 0 < n
    → 0 < capacity x
    → IsChain (stored ss n x)
unfolding stored
stored-IsChain [] n x c h p =
    stored_in-IsChain (fresh n) [] x (fresh-IsSegment n) (fresh_room n h) p tt
stored-IsChain (head ∷ previous) n x c h p = elim (Bool-cases (head.count == length head.slots)) [
  | inl full ↦
      rw full
        (stored_in-IsChain (fresh n) (head ∷ previous) x (fresh-IsSegment n) (fresh_room n h) p c)
  | inr room ↦ rw room (stored_in-IsChain head previous x c.0 (head_room head c.0 room) p c.2)
]

unfoldable pub pushed : Bucket → Slice → Bucket
unfolding stored new_slots
pushed b x = record b {
  segments = stored b.segments (new_slots b) x;
  retained_buffers = b.retained_buffers + 1;
  retained_bytes = b.retained_bytes + capacity x;
}

-- What push needs to store a buffer.
record CanStore (b : Bucket) (x : Slice) : Type 0 where
  room : b.retained_buffers < b.slot_limit
  retainable : 0 < capacity x
  countable : b.retained_bytes + capacity x ≤ max_uint64

store_room :
    (ss : List Segment) (n : ℕ) (b : Bucket) (x : Slice)
    → has_room ss ≡ true
    → store_at_head ss b x
      ≡ ok (record b { segments = stored ss n x; retained_buffers = b.retained_buffers + 1 })
unfolding store_at_head has_room stored
store_room [] n b x h = cc
store_room (head ∷ previous) n b x h = ground arith

stored_full :
    (ss : List Segment) (n : ℕ) (x : Slice)
    → has_room ss ≡ false
    → stored_in (fresh n) x ∷ ss ≡ stored ss n x
unfolding has_room stored
stored_full [] n x h = refl
stored_full (head ∷ previous) n x h = ground arith

push_retained_lem :
    (b : Bucket) (x : Slice) → IsBucket b → CanStore b x → push_retained b x ≡ ok (pushed b x)
unfolding push_retained pushed add_retained ensure_head_segment grown store_at_head stored_in
push_retained_lem b x v cs = elim (Bool-cases (has_room b.segments)) [
  | inl room ↦
      rw
        (
          reusable_head_lem b.segments v.chain,
          room,
          le→ltb (max_uint64 - capacity x) b.retained_bytes (omega (arith, cs.countable)),
        )
        (store_room b.segments (new_slots b) _ x room)
  | inr full ↦
      let counted : Bucket = record b { retained_bytes = b.retained_bytes + capacity x } in
      let (grows, some_slot) = grow_lem counted cs.room v.segment_slots in
      rw (
        reusable_head_lem b.segments v.chain,
        full,
        le→ltb (max_uint64 - capacity x) b.retained_bytes (omega (arith, cs.countable)),
        ensure_for_lem b.segments counted v.chain full,
        grows,
        free_head_slot-fresh (new_slots counted) b.segments some_slot,
        ← stored_full b.segments (new_slots b) x full,
      )
]

pushed-IsBucket : (b : Bucket) (x : Slice) → IsBucket b → CanStore b x → IsBucket (pushed b x)
unfolding pushed
pushed-IsBucket b x v cs =
    let n = new_slots b in
    let some_slot = (grow_lem b cs.room v.segment_slots).1 in
    let held = stored-contents b.segments n x v.chain some_slot in
    record {
      chain = stored-IsChain b.segments n x v.chain some_slot cs.retainable;
      counted = rw held (omega (arith, v.counted));
      bytes = rw held (omega (arith, v.bytes, capacity-reslice_empty x));
      bounded = omega (arith, cs.room);
      segment_slots = v.segment_slots;
      fits = cs.countable;
    }

-- What push does to a valid bucket.
pub data Pushes (b : Bucket) (x : Slice) : Type 0 where
  -- It is full or the buffer has no capacity, and nothing changes.
  refuses :
      (b.retained_buffers ≡ b.slot_limit) ⊎ (capacity x ≡ 0) → push b x ≡ ok (b, false) → Pushes b x
  -- The byte count would pass the largest uint64.
  overflows :
      b.retained_buffers < b.slot_limit
      → 0 < capacity x
      → max_uint64 < b.retained_bytes + capacity x
      → push b x ≡ err bucket_retained_bytes_overflow
      → Pushes b x
  -- The buffer, cut to length 0, is the newest of the bucket.
  stores :
      (b' : Bucket)
      → b.retained_buffers < b.slot_limit
      → 0 < capacity x
      → b.retained_bytes + capacity x ≤ max_uint64
      → push b x ≡ ok (b', true)
      → contents b'.segments ≡ reslice_empty x ∷ contents b.segments
      → b'.slot_limit ≡ b.slot_limit
      → IsBucket b'
      → Pushes b x

push_refuses :
    (b : Bucket) (x : Slice)
    → b.retained_buffers ≤ b.slot_limit
    → (b.retained_buffers ≡ b.slot_limit) ⊎ (capacity x ≡ 0)
    → push b x ≡ ok (b, false)
unfolding push
push_refuses b x h (inl full) = ground arith
push_refuses b x h (inr empty) = ground arith

push_stores :
    (b : Bucket) (x : Slice) → IsBucket b → CanStore b x → push b x ≡ ok (pushed b x, true)
unfolding push
push_stores b x v cs = ground (arith, cs.room, cs.retainable, push_retained_lem b x v cs)

push_overflows :
    (b : Bucket) (x : Slice)
    → IsBucket b
    → b.retained_buffers < b.slot_limit
    → 0 < capacity x
    → capacity x ≤ max_uint64
    → max_uint64 < b.retained_bytes + capacity x
    → push b x ≡ err bucket_retained_bytes_overflow
unfolding push push_retained add_retained
push_overflows b x v room p small over = ground (arith, reusable_head_lem b.segments v.chain)

-- On a valid bucket push refuses the buffer, panics by the byte count, or stores it on top; it keeps
-- the invariant, and no other panic is possible. (A capacity is a uint64.)
pub push-Pushes : (b : Bucket) (x : Slice) → IsBucket b → capacity x ≤ max_uint64 → Pushes b x
push-Pushes b x v small = elim (dec_lt b.retained_buffers b.slot_limit) [
  | no full ↦
      let e : b.retained_buffers ≡ b.slot_limit = omega (arith, v.bounded) in
      refuses (inl e) (push_refuses b x v.bounded (inl e))
  | yes room ↦ elim (dec_lt 0 (capacity x)) [
    | no empty ↦
        let e : capacity x ≡ 0 = omega arith in refuses (inr e) (push_refuses b x v.bounded (inr e))
    | yes p ↦ elim (dec_le (b.retained_bytes + capacity x) max_uint64) [
      | no over ↦
          let o : max_uint64 < b.retained_bytes + capacity x = omega arith in
          overflows room p o (push_overflows b x v room p small o)
      | yes fit ↦
          let cs : CanStore b x = record { room = room; retainable = p; countable = fit } in
          let some_slot = (grow_lem b room v.segment_slots).1 in
          stores (pushed b x) room p fit (push_stores b x v cs)
            (unfold pushed in stored-contents b.segments (new_slots b) x v.chain some_slot)
            (unfold pushed in refl) (pushed-IsBucket b x v cs)
    ]
  ]
]

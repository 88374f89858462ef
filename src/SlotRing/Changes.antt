-- ===== src/SlotRing/Changes.antt =====
-- What taking a slot, the two resets and the constructor do to the queue of slots.
use native.Mathlib.Nat.{mod-eq_of_lt, mul-lt-mul_of_pos_left, mul-one, mul-zero, mul_comm}
use mathlib.Core.Option.{some-injective}
use jacktrip.SlotRing.{Doubles, SlotRing, ring_buffer_of, take_slot, underrun_reset, overflow_reset}
use jacktrip.SlotRing.Blocks.{bytes_at-flat, replicate-flat, replicate-IsEven}
use jacktrip.SlotRing.Contents.{place, Holds, SameSlots-Holds, drop-Holds}
use jacktrip.Base.{
  List, [], ap, arith, drop, get_elem?, get_elem?-replicate, length, length-replicate, refl,
  replicate, sym, ℕ, ◌%◌, ◌*◌, ◌+◌, ◌/◌, ◌<◌, ◌∙◌, ◌∷◌, ◌≡◌,
}

module _ (D : Doubles) (slot_size num_slots : ℕ) where
  -- A slot taken is the first of them.
  pub take_slot-Holds :
      (s : SlotRing D) (v : List ℕ) (q : List (List ℕ))
      → 0 < slot_size
      → Holds D slot_size num_slots s (v ∷ q)
      → Holds D slot_size num_slots (take_slot D slot_size num_slots s).1 q
        × ((take_slot D slot_size num_slots s).0 ≡ v)
  unfolding take_slot
  take_slot-Holds s v q pos h = (
    SameSlots-Holds D slot_size num_slots _ _ _
        (record {
          same_buffer = refl;
          same_read =
              ap (λ n. (s.read_position + n) % (slot_size * num_slots)) (sym (mul-one slot_size));
          same_write = refl;
          same_full = refl;
        })
        (drop-Holds D slot_size num_slots s (v ∷ q) 1 pos (omega arith) h),
    some-injective _ _ (
        rw (h.layout, h.read_from)
          (sym (bytes_at-flat slot_size h.cells h.tail h.even (omega (arith, h.sized, h.tail_lt)))
            ∙ ap (get_elem? h.cells) (sym (place_start h.tail h.tail_lt))
            ∙ h.items 0 (omega arith))),
  )
    where
      place_start : (t : ℕ) → t < num_slots → place num_slots t 0 ≡ t
      place_start t lt = ground arith

  -- Clearing the memory of an empty ring.
  pub underrun_reset-Holds :
      (s : SlotRing D)
      → Holds D slot_size num_slots s []
      → Holds D slot_size num_slots (underrun_reset D slot_size num_slots s) []
  unfolding underrun_reset
  underrun_reset-Holds s h = record {
    cells = replicate num_slots (replicate slot_size 0);
    tail = h.tail;
    layout = replicate-flat slot_size num_slots;
    even = replicate-IsEven slot_size num_slots;
    sized = length-replicate num_slots (replicate slot_size 0);
    tail_lt = h.tail_lt;
    read_from = h.read_from;
    write_to = h.write_to;
    room = h.room;
    full = h.full;
    items = λ i k. elim k [ ];
  }

  -- Half of a full ring is dropped, the oldest slots first.
  pub overflow_reset-Holds :
      (s : SlotRing D) (q : List (List ℕ))
      → 0 < slot_size
      → length q ≡ num_slots
      → Holds D slot_size num_slots s q
      → Holds D slot_size num_slots
          (overflow_reset D slot_size num_slots s)
          (drop (num_slots / 2) q)
  unfolding overflow_reset
  overflow_reset-Holds s q pos e h =
      SameSlots-Holds D slot_size num_slots _ _ _
        (record {
          same_buffer = refl;
          same_read =
              ap (λ n. (s.read_position + n) % (slot_size * num_slots))
                (mul_comm (num_slots / 2) slot_size);
          same_write = refl;
          same_full = refl;
        })
        (drop-Holds D slot_size num_slots s q (num_slots / 2) pos (omega arith) h)

  -- A new ring holds silence, half of the slots.
  pub ring_buffer_of-Holds :
      (reads misses : ℕ)
      → 0 < slot_size
      → 0 < num_slots
      → Holds D slot_size num_slots
          (ring_buffer_of D slot_size num_slots reads misses)
          (replicate (num_slots / 2) (replicate slot_size 0))
  unfolding ring_buffer_of
  ring_buffer_of-Holds reads misses pos some_slots =
      let e = length-replicate (num_slots / 2) (replicate {A = ℕ} slot_size 0) in
      record {
        cells = replicate num_slots (replicate slot_size 0);
        tail = 0;
        layout = replicate-flat slot_size num_slots;
        even = replicate-IsEven slot_size num_slots;
        sized = length-replicate num_slots (replicate slot_size 0);
        tail_lt = some_slots;
        read_from = sym (mul-zero slot_size);
        write_to =
            ap (λ n. n % (slot_size * num_slots)) (mul_comm (num_slots / 2) slot_size)
            ∙ mod-eq_of_lt (mul-lt-mul_of_pos_left (omega arith) pos)
            ∙ ap (λ n. slot_size * n)
                (starts (num_slots / 2) (omega arith) ∙ ap (place num_slots 0) (sym e));
        room = omega arith;
        full = sym e;
        items = λ i k.
            ap (get_elem? (replicate num_slots (replicate slot_size 0)))
              (sym (starts i (omega arith)))
            ∙ get_elem?-replicate num_slots (replicate slot_size 0) i (omega arith)
            ∙ sym (get_elem?-replicate (num_slots / 2) (replicate slot_size 0) i (omega arith));
      }
    where
      starts : (i : ℕ) → i < num_slots → i ≡ place num_slots 0 i
      starts i lt = ground arith

-- ===== src/SlotRing/Queue/Refine.antt =====
-- The ring of slots is a bounded queue of slots: any calls of the functions that do not wait show what
-- the queue shows.
use jacktrip.SlotRing.{Doubles, SlotRing, ring_buffer_of}
use jacktrip.SlotRing.Changes.{ring_buffer_of-Holds}
use jacktrip.SlotRing.Queue.{
  SlotCall, SlotQueue, Fits, slot_ring_step, slot_queue_step, new_queue, run_slots,
}
use jacktrip.SlotRing.Queue.Steps.{Implements, Agrees, step-Agrees}
use jacktrip.Base.{All, List, [], ap₂, refl, ℕ, ◌<◌, ◌∷◌, ◌≡◌}

module _ (D : Doubles) (slot_size num_slots : ℕ) where
  run_slots-Implements :
      (cs : List SlotCall) (s : SlotRing D) (q : SlotQueue)
      → 0 < slot_size
      → All (Fits slot_size num_slots) cs
      → Implements D slot_size num_slots s q
      → run_slots (slot_ring_step D slot_size num_slots) cs s
        ≡ run_slots (slot_queue_step slot_size num_slots) cs q
  unfolding run_slots Agrees
  run_slots-Implements [] s q pos w i = refl
  run_slots-Implements (c ∷ cs) s q pos w i =
      let a = step-Agrees D slot_size num_slots c s q pos w.0 i in
      ap₂ (λ r rs. r ∷ rs) a.0 (run_slots-Implements cs _ _ pos w.1 a.1)

  -- For slots and rings that are not empty, any sequence of calls that do not wait shows on a new
  -- ring what it shows on a queue that starts with silence in half of the slots: a read takes the
  -- oldest slot, byte for byte, or gives silence and counts an underrun at the next insertion; an
  -- insertion of another length is refused, unless it is 0, which stands for that of a slot; one into a full ring drops the older half and the new
  -- slot, and counts them as overflows. The number of underruns starts at what the constructor finds
  -- in mUnderrunsNew, which it does not set.
  pub run_slots-ring_buffer_of :
      (cs : List SlotCall) (reads misses : ℕ)
      → 0 < slot_size
      → 0 < num_slots
      → All (Fits slot_size num_slots) cs
      → run_slots
          (slot_ring_step D slot_size num_slots)
          cs
          (ring_buffer_of D slot_size num_slots reads misses)
        ≡ run_slots (slot_queue_step slot_size num_slots) cs (new_queue slot_size num_slots misses)
  unfolding ring_buffer_of new_queue
  run_slots-ring_buffer_of cs reads misses pos some_slots w =
      run_slots-Implements cs _ _ pos w (record {
        holds = ring_buffer_of-Holds D slot_size num_slots reads misses pos some_slots;
        same_misses = refl;
        same_uncounted = refl;
        same_drops = refl;
      })

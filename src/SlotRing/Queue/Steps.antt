-- ===== src/SlotRing/Queue/Steps.antt =====
-- A call that does not wait shows on the ring of slots what it shows on the queue, and keeps the two
-- related.
use jacktrip.SlotRing.Changes.{take_slot-Holds, underrun_reset-Holds, overflow_reset-Holds}
use jacktrip.SlotRing.{
  Doubles, SlotRing, count_lost, insert_slot_non_blocking, read_slot_non_blocking, get_slot_stats,
  update_read_stats, count_read, track_level, reset_stats, underrun_reset, take_slot, put_slot,
  overflow_reset, underrun_read_slot, add_or_reset,
}
use jacktrip.SlotRing.Queue.{
  SlotCall, call_insert, call_read, call_stats, SlotReply, accepted, slot_read, stats, SlotQueue,
  insert_entry, read_entry, slot_queue_step, Fits, slot_ring_step,
}
use jacktrip.SlotRing.Contents.{Holds, SameSlots-Holds, SameSlots, put_slot-Holds}
use jacktrip.Base.{
  ==_iff, Bool-cases, List, [], ap, ap₂, arith, false, inl, inr, leb, length, ltb, not, refl, true,
  u32, ℕ, ◌&&◌, ◌+◌, ◌/◌, ◌<◌, ◌==◌, ◌∙◌, ◌∷◌, ◌≡◌,
}

module _ (D : Doubles) (slot_size num_slots : ℕ) where
  pub record Implements (s : SlotRing D) (q : SlotQueue) : Type 0 where
    pub holds : Holds D slot_size num_slots s q.entries
    pub same_misses : s.underruns ≡ q.misses
    pub same_uncounted : s.underruns_new ≡ q.uncounted
    pub same_drops : s.overflows ≡ q.drops

  unfoldable pub Agrees : SlotReply × SlotRing D → SlotReply × SlotQueue → Type 0
  Agrees r q = (r.0 ≡ q.0) × Implements r.1 q.1

  -- The counting of lost bytes changes statistics only.
  count_lost_same :
      (lost_len : ℕ) (s : SlotRing D) (q : SlotQueue)
      → Implements s q
      → Implements (count_lost D slot_size num_slots lost_len s) q
  unfolding count_lost
  count_lost_same lost_len s q i = elim (Bool-cases (ltb 0 lost_len)) [
    | inl e ↦ rw e (record {
      holds =
          SameSlots-Holds D slot_size num_slots s _ q.entries
            (record { same_buffer = refl; same_read = refl; same_write = refl; same_full = refl })
            i.holds;
      same_misses = i.same_misses;
      same_uncounted = i.same_uncounted;
      same_drops = i.same_drops;
    })
    | inr e ↦ rw e i
  ]

  -- A change of fields that the queue does not show.
  same-Holds :
      (s t : SlotRing D) (q : List (List ℕ))
      → SameSlots D slot_size num_slots s t
      → Holds D slot_size num_slots s q
      → Holds D slot_size num_slots t q
  same-Holds s t q e h = SameSlots-Holds D slot_size num_slots s t q e h

  update_read_stats_same :
      (s : SlotRing D) (q : SlotQueue)
      → Implements s q
      → Implements
          (update_read_stats D slot_size num_slots s)
          (record q { misses = u32 (q.misses + q.uncounted); uncounted = 0 })
  unfolding update_read_stats
  update_read_stats_same s q i = record {
    holds =
        same-Holds s _ q.entries
          (record { same_buffer = refl; same_read = refl; same_write = refl; same_full = refl })
          i.holds;
    same_misses = ap₂ (λ a b. u32 (a + b)) i.same_misses i.same_uncounted;
    same_uncounted = refl;
    same_drops = i.same_drops;
  }

  insert_same :
      (slot : List ℕ) (s : SlotRing D) (q : SlotQueue)
      → 0 < slot_size
      → length slot ≡ slot_size
      → Implements s q
      → Agrees
          (
            accepted (add_or_reset D slot_size num_slots slot s).0,
            (add_or_reset D slot_size num_slots slot s).1,
          )
          (accepted true, insert_entry slot_size num_slots slot q)
  unfolding Agrees insert_entry overflow_reset put_slot add_or_reset
  insert_same slot s q pos w i =
      let full = ap (λ n. n == num_slots) i.holds.full in
      elim (Bool-cases (length q.entries == num_slots)) [
        | inl e ↦
            rw (full ∙ e, e)
              (
                refl,
                record {
                  holds =
                      overflow_reset-Holds D slot_size num_slots s q.entries pos
                        ((==_iff (length q.entries) num_slots).0 e) i.holds;
                  same_misses = i.same_misses;
                  same_uncounted = i.same_uncounted;
                  same_drops = ap (λ n. u32 (n + (num_slots / 2 + 1))) i.same_drops;
                },
              )
        | inr e ↦
            let lt : length q.entries < num_slots = ground (arith, i.holds.room) in
            rw (full ∙ e, e)
              (
                refl,
                record {
                  holds = put_slot-Holds D slot_size num_slots s q.entries slot pos w lt i.holds;
                  same_misses = i.same_misses;
                  same_uncounted = i.same_uncounted;
                  same_drops = i.same_drops;
                },
              )
      ]

  step_insert :
      (slot : List ℕ) (len lost_len : ℕ) (s : SlotRing D) (q : SlotQueue)
      → 0 < slot_size
      → length slot ≡ slot_size
      → Implements s q
      → Agrees
          (slot_ring_step D slot_size num_slots (call_insert slot len lost_len) s)
          (slot_queue_step slot_size num_slots (call_insert slot len lost_len) q)
  unfolding Agrees slot_ring_step slot_queue_step insert_slot_non_blocking
  step_insert slot len lost_len s q pos w i =
      elim (Bool-cases (not (len == slot_size) && not (0 == len))) [
        | inl e ↦ rw e (refl, i)
        | inr e ↦ rw e (
            insert_same slot _ _ pos w
              (update_read_stats_same _ q (count_lost_same lost_len s q i)))
      ]

  -- Reads and levels leave what the queue shows.
  tracked_same :
      (s : SlotRing D) (q : List (List ℕ))
      → Holds D slot_size num_slots s q
      → Holds D slot_size num_slots
          (track_level D slot_size num_slots (count_read D slot_size num_slots s))
          q
  unfolding track_level count_read
  tracked_same s q h =
      same-Holds s _ q
        (record { same_buffer = refl; same_read = refl; same_write = refl; same_full = refl }) h

  step_read_at :
      (s : SlotRing D) (q : SlotQueue) (xs : List (List ℕ))
      → 0 < slot_size
      → Implements s q
      → Holds D slot_size num_slots s xs
      → q.entries ≡ xs
      → Agrees
          (slot_ring_step D slot_size num_slots call_read s)
          (read_entry slot_size num_slots q xs)
  unfolding Agrees slot_ring_step read_slot_non_blocking read_entry count_read track_level
      underrun_reset take_slot underrun_read_slot
  step_read_at s q [] pos i h e =
      let none_left = ap (λ n. leb n 0) h.full in
      rw none_left (
        refl,
        record {
          holds = rw e (underrun_reset-Holds D slot_size num_slots _ (tracked_same s [] h));
          same_misses = i.same_misses;
          same_uncounted = ap (λ n. u32 (n + 1)) i.same_uncounted;
          same_drops = i.same_drops;
        },
      )
  step_read_at s q (x ∷ xs) pos i h e =
      let some_left : leb (length (x ∷ xs)) 0 ≡ false = ground arith in
      let taken = take_slot-Holds D slot_size num_slots _ x xs pos (tracked_same s (x ∷ xs) h) in
      rw (ap (λ n. leb n 0) h.full ∙ some_left) (
        ap slot_read taken.1,
        record {
          holds = taken.0;
          same_misses = i.same_misses;
          same_uncounted = i.same_uncounted;
          same_drops = i.same_drops;
        },
      )

  pub step-Agrees :
      (c : SlotCall) (s : SlotRing D) (q : SlotQueue)
      → 0 < slot_size
      → Fits slot_size num_slots c
      → Implements s q
      → Agrees (slot_ring_step D slot_size num_slots c s) (slot_queue_step slot_size num_slots c q)
  unfolding Agrees slot_ring_step slot_queue_step get_slot_stats reset_stats Fits
  step-Agrees (call_insert slot len lost_len) s q pos w i =
      step_insert slot len lost_len s q pos w i
  step-Agrees call_read s q pos w i = step_read_at s q q.entries pos i i.holds refl
  step-Agrees (call_stats true) s q pos w i = (
    refl,
    record {
      holds =
          same-Holds s _ q.entries
            (record { same_buffer = refl; same_read = refl; same_write = refl; same_full = refl })
            i.holds;
      same_misses = refl;
      same_uncounted = i.same_uncounted;
      same_drops = refl;
    },
  )
  step-Agrees (call_stats false) s q pos w i = (ap₂ stats i.same_misses i.same_drops, i)

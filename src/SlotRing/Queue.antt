-- ===== src/SlotRing/Queue.antt =====
-- The calls of the ring of slots that do not wait, what the caller sees of them, and the queue of slots
-- that the class stands for.
pub mod Steps
pub mod Refine
pub mod Accounts
use jacktrip.SlotRing.{
  Doubles, SlotRing, insert_slot_non_blocking, read_slot_non_blocking, get_slot_stats,
}
use jacktrip.Base.{
  Bool, List, [], drop, false, if◌then◌else◌, length, not, replicate, true, u32, ℕ, ◌&&◌, ◌++◌, ◌+◌,
  ◌/◌, ◌==◌, ◌∷◌, ◌≡◌,
}

-- A call: a slot with its length and the number of bytes lost before it, a read, or the statistics.
pub data SlotCall : Type 0 where
  call_insert : List ℕ → ℕ → ℕ → SlotCall
  call_read : SlotCall
  call_stats : Bool → SlotCall

-- What the caller sees: whether the slot was accepted, the slot read, or the numbers of underruns and
-- overflows.
pub data SlotReply : Type 0 where
  accepted : Bool → SlotReply
  slot_read : List ℕ → SlotReply
  stats : ℕ → ℕ → SlotReply

-- The queue; an underrun is counted at the next call that inserts.
pub record SlotQueue : Type 0 where
  pub entries : List (List ℕ)
  pub misses : ℕ
  pub uncounted : ℕ
  pub drops : ℕ

module _ (slot_size num_slots : ℕ) where
  pub insert_entry : List ℕ → SlotQueue → SlotQueue
  insert_entry slot q =
      if length q.entries == num_slots
      then record q {
        entries = drop (num_slots / 2) q.entries;
        drops = u32 (q.drops + (num_slots / 2 + 1));
      }
      else record q { entries = q.entries ++ (slot ∷ []) }

  pub read_entry : SlotQueue → List (List ℕ) → SlotReply × SlotQueue
  read_entry q [] =
      (slot_read (replicate slot_size 0), record q { uncounted = u32 (q.uncounted + 1) })
  read_entry q (x ∷ xs) = (slot_read x, record q { entries = xs })

  -- A full queue loses half of its slots, the oldest first, and the new one.
  pub slot_queue_step : SlotCall → SlotQueue → SlotReply × SlotQueue
  unfolding insert_entry read_entry
  slot_queue_step (call_insert slot len lost_len) q =
      if not (len == slot_size) && not (0 == len) then (accepted false, q) else (
        accepted true,
        insert_entry slot (record q { misses = u32 (q.misses + q.uncounted); uncounted = 0 }),
      )
  slot_queue_step call_read q = read_entry q q.entries
  slot_queue_step (call_stats reset) q =
      if reset then (stats 0 0, record q { misses = 0; drops = 0 }) else (stats q.misses q.drops, q)

  pub new_queue : ℕ → SlotQueue
  new_queue misses = record {
    entries = replicate (num_slots / 2) (replicate slot_size 0);
    misses = 0;
    uncounted = misses;
    drops = 0;
  }

  -- The memory that a call passes has the size of a slot.
  unfoldable pub Fits : SlotCall → Type 0
  Fits (call_insert slot len lost_len) = length slot ≡ slot_size
  Fits call_read = Unit
  Fits (call_stats reset) = Unit

module _ (D : Doubles) (slot_size num_slots : ℕ) where
  pub slot_ring_step : SlotCall → SlotRing D → SlotReply × SlotRing D
  unfolding insert_slot_non_blocking read_slot_non_blocking get_slot_stats
  slot_ring_step (call_insert slot len lost_len) s =
      let r = insert_slot_non_blocking D slot_size num_slots slot len lost_len s in
      (accepted r.0, r.1)
  slot_ring_step call_read s =
      let r = read_slot_non_blocking D slot_size num_slots s in (slot_read r.0, r.1)
  slot_ring_step (call_stats reset) s =
      let r = get_slot_stats D slot_size num_slots reset s in
      (stats r.0.stat_underruns r.0.stat_overflows, r.1)

-- The replies to a sequence of calls.
pub run_slots {ℓ} :
    {S : Type ℓ} → (SlotCall → S → SlotReply × S) → List SlotCall → S → List SlotReply
run_slots step [] s = []
run_slots step (c ∷ cs) s = let r = step c s in r.0 ∷ run_slots step cs r.1

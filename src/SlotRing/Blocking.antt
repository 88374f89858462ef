-- ===== src/SlotRing/Blocking.antt =====
-- src/RingBuffer.cpp: `insertSlotBlocking` and `readSlotBlocking`, each on a thread of its own. A turn
-- of a thread is what it does while it holds the mutex: from a call, or from waking up, to its return
-- or to the next wait. A writer that waits sleeps until a reader wakes it; a reader that waits also
-- wakes up by itself after 200 ms.
pub mod Turns
pub mod Delivery
use jacktrip.SlotRing.{Doubles, SlotRing, update_read_stats, put_slot, take_slot, count_read}
use jacktrip.Base.{Bool, List, [], false, if◌then◌else◌, true, ℕ, ◌*◌, ◌++◌, ◌==◌, ◌∷◌}

pub data Waiting : Type 0 where
  outside : Waiting
  asleep : Waiting
  woken : Waiting

-- The ring, the slots that the writer has still to insert, where the two threads are, and the slots
-- that the reader got.
pub record Threads (D : Doubles) : Type 0 where
  pub ring : SlotRing D
  pub to_write : List (List ℕ)
  pub writer : Waiting
  pub reader_waits : Bool
  pub got : List (List ℕ)

-- wakeAll of mBufferIsNotFull.
pub wake_all : Waiting → Waiting
wake_all outside = outside
wake_all asleep = woken
wake_all woken = woken

module _ (D : Doubles) (slot_size num_slots : ℕ) where
  -- The loop of `insertSlotBlocking` and what follows it.
  pub write_or_wait : Threads D → List ℕ → List (List ℕ) → SlotRing D → Threads D
  write_or_wait s slot rest ring =
      if ring.full_slots == num_slots then record s { ring = ring; writer = asleep } else record s {
        ring = put_slot D slot_size num_slots slot ring;
        to_write = rest;
        writer = outside;
      }

  -- The wakeAll for the reader at the end of `insertSlotBlocking` has no part here: a reader that waits may
  -- take a turn at any time.
  pub insert_slot_blocking : Threads D → List (List ℕ) → Waiting → Threads D
  unfolding write_or_wait
  insert_slot_blocking s [] w = s
  insert_slot_blocking s (slot ∷ rest) outside =
      write_or_wait s slot rest (update_read_stats D slot_size num_slots s.ring)
  insert_slot_blocking s (slot ∷ rest) asleep = s
  insert_slot_blocking s (slot ∷ rest) woken = write_or_wait s slot rest s.ring

  -- The loop of `readSlotBlocking` and what follows it.
  pub read_or_wait : Threads D → SlotRing D → Threads D
  unfolding wake_all
  read_or_wait s ring =
      let taken = take_slot D slot_size num_slots ring in
      if ring.full_slots == 0 then record s { ring = ring; reader_waits = true } else record s {
        ring =
            if 0 == slot_size * num_slots
            then record taken.1 { read_position = ring.read_position }
            else taken.1;
        writer = wake_all s.writer;
        reader_waits = false;
        got = s.got ++ (taken.0 ∷ []);
      }

  -- `stopped` is JackTrip::sAudioStopped, which is looked at on waking up.
  pub read_slot_blocking : Bool → Threads D → Bool → Threads D
  unfolding read_or_wait
  read_slot_blocking stopped s false = read_or_wait s (count_read D slot_size num_slots s.ring)
  read_slot_blocking true s true = record s { reader_waits = false }
  read_slot_blocking false s true = read_or_wait s s.ring

-- Whose turn it is.
pub data Turn : Type 0 where
  writer_next : Turn
  reader_next : Bool → Turn

module _ (D : Doubles) (slot_size num_slots : ℕ) where
  pub slot_turn : Turn → Threads D → Threads D
  unfolding insert_slot_blocking read_slot_blocking
  slot_turn writer_next s = insert_slot_blocking D slot_size num_slots s s.to_write s.writer
  slot_turn (reader_next stopped) s =
      read_slot_blocking D slot_size num_slots stopped s s.reader_waits

  pub slot_turns : List Turn → Threads D → Threads D
  unfolding slot_turn
  slot_turns [] s = s
  slot_turns (t ∷ ts) s = slot_turns ts (slot_turn t s)

  -- Rounds of turns, one after the other.
  pub slot_rounds : List (List Turn) → Threads D → Threads D
  unfolding slot_turns
  slot_rounds [] s = s
  slot_rounds (ts ∷ rounds) s = slot_rounds rounds (slot_turns ts s)

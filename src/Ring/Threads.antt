-- ===== src/Ring/Threads.antt =====
-- src/WaitFreeRingBuffer.h: `push` and `pop` on their two threads. A turn is what a thread does up to
-- an access that the other one can see: loading its position, writing or reading the item, and
-- storing the own position, which the acquire and release orders of the source put in this order.
pub mod Order
pub mod Fifo
mod Tests
use jacktrip.Base.{List, [], get_or, if◌then◌else◌, set, ℕ, ◌%◌, ◌++◌, ◌+◌, ◌==◌, ◌^◌, ◌∷◌}
use jacktrip.Ring.{RingBuffer, next}

-- Where `push` is: not called, after loading `tail`, or after writing the item.
pub data Producer {ℓ} (A : Type ℓ) : Type ℓ where
  no_push : Producer A
  loaded_tail : A → ℕ → Producer A
  wrote_item : A → Producer A

-- Where `pop` is: not called, after loading `head`, or after reading the item.
pub data Consumer {ℓ} (A : Type ℓ) : Type ℓ where
  no_pop : Consumer A
  loaded_head : ℕ → Consumer A
  read_item : A → Consumer A

-- The ring, the two threads, and the values that successful calls have pushed and popped.
pub record System {ℓ} (A : Type ℓ) : Type ℓ where
  pub shared : RingBuffer A
  pub producer : Producer A
  pub consumer : Consumer A
  pub pushed : List A
  pub popped : List A

module _ {ℓ} {A : Type ℓ} (size : ℕ) where
  -- A turn of the producer, which calls `push` with `value` if it is not in a call.
  pub producer_turn : A → System A → Producer A → System A
  producer_turn value s no_push = record s { producer = loaded_tail value s.shared.tail }
  producer_turn value s (loaded_tail v tail) =
      if next size s.shared.head == tail
      then record s {
        shared = record s.shared { overruns = (s.shared.overruns + 1) % 2 ^ 64 };
        producer = no_push;
      }
      else record s {
        shared = record s.shared { ring = set s.shared.ring s.shared.head v };
        producer = wrote_item v;
      }
  producer_turn value s (wrote_item v) = record s {
    shared = record s.shared { head = next size s.shared.head };
    producer = no_push;
    pushed = s.pushed ++ (v ∷ []);
  }

  -- A turn of the consumer, whose variable holds `value`.
  pub consumer_turn : A → System A → Consumer A → System A
  consumer_turn value s no_pop = record s { consumer = loaded_head s.shared.head }
  consumer_turn value s (loaded_head head) =
      if s.shared.tail == head
      then record s {
        shared = record s.shared { underruns = (s.shared.underruns + 1) % 2 ^ 64 };
        consumer = no_pop;
      }
      else record s { consumer = read_item (get_or s.shared.ring s.shared.tail value) }
  consumer_turn value s (read_item x) = record s {
    shared = record s.shared { tail = next size s.shared.tail };
    consumer = no_pop;
    popped = s.popped ++ (x ∷ []);
  }

-- Whose turn it is.
pub data Turn {ℓ} (A : Type ℓ) : Type ℓ where
  producer_next : A → Turn A
  consumer_next : A → Turn A

module _ {ℓ} {A : Type ℓ} (size : ℕ) where
  pub turn : Turn A → System A → System A
  unfolding producer_turn consumer_turn
  turn (producer_next value) s = producer_turn size value s s.producer
  turn (consumer_next value) s = consumer_turn size value s s.consumer

  -- An interleaving of the two threads.
  pub interleaving : List (Turn A) → System A → System A
  unfolding turn
  interleaving [] s = s
  interleaving (t ∷ ts) s = interleaving ts (turn t s)

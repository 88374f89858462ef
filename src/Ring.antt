-- ===== src/Ring.antt =====
-- src/WaitFreeRingBuffer.h: the FIFO between one producer and one consumer. `size` is the template
-- parameter `Size`; a counter of type `size_t` has 64 bits. The functions run here one after the
-- other; Ring/Threads has the two threads.
pub mod Contents
pub mod Refine
pub mod Threads
mod Tests
use jacktrip.Base.{
  Bool, List, false, get_or, if◌then◌else◌, leb, replicate, set, true, ℕ, ◌%◌, ◌+◌, ◌-◌, ◌==◌, ◌^◌,
}

pub record RingBuffer {ℓ} (A : Type ℓ) : Type ℓ where
  pub ring : List A
  pub head : ℕ
  pub tail : ℕ
  pub underruns : ℕ
  pub overruns : ℕ

module _ (size : ℕ) where
  pub next : ℕ → ℕ
  next current = (current + 1) % size

  -- The number of items from the position `tail` to the position `head`.
  pub distance : ℕ → ℕ → ℕ
  distance head tail = if leb tail head then head - tail else head + (size - tail)

module _ {ℓ} {A : Type ℓ} (size : ℕ) where
  -- The constructor; the items of `mRing` are default-initialised to `blank`.
  pub new : A → RingBuffer A
  new blank = record {
    ring = replicate size blank;
    head = 0;
    tail = 0;
    underruns = 0;
    overruns = 0;
  }

  -- The result, which is 0 on an overrun, and the state after the call.
  pub push : A → RingBuffer A → ℕ × RingBuffer A
  unfolding next distance
  push value s =
      if next size s.head == s.tail
      then (0, record s { overruns = (s.overruns + 1) % 2 ^ 64 })
      else (
        distance size (next size s.head) s.tail,
        record s { ring = set s.ring s.head value; head = next size s.head },
      )

  -- The result, `value` after the call and the state after it.
  pub pop : A → RingBuffer A → Bool × A × RingBuffer A
  unfolding next
  pop value s =
      if s.tail == s.head
      then (false, value, record s { underruns = (s.underruns + 1) % 2 ^ 64 })
      else (true, get_or s.ring s.tail value, record s { tail = next size s.tail })

  pub clear_stats : RingBuffer A → RingBuffer A
  clear_stats s = record s { underruns = 0; overruns = 0 }

  pub clear : RingBuffer A → RingBuffer A
  unfolding clear_stats
  clear s = clear_stats (record s { head = 0; tail = 0 })

  pub count : RingBuffer A → ℕ
  unfolding distance
  count s = distance size s.head s.tail

  pub empty : RingBuffer A → Bool
  empty s = s.head == s.tail

-- ===== src/SlotRing.antt =====
-- src/RingBuffer.cpp and src/RingBuffer.h: the ring of slots between the audio callback and the
-- network. Bytes and counters are bit patterns: an `int32_t` is its two's complement. `slot_size` and
-- `num_slots` are mSlotSize and mNumSlots. The functions run under the mutex, so one after the other;
-- SlotRing/Blocking has the two that wait.
pub mod Blocks
pub mod Contents
pub mod Changes
pub mod Queue
pub mod Blocking
mod Tests
use jacktrip.Base.{
  Bool, List, drop, false, if◌then◌else◌, leb, ltb, not, replicate, take, true, u32, ℕ, ◌%◌, ◌&&◌,
  ◌*◌, ◌++◌, ◌+◌, ◌-◌, ◌/◌, ◌==◌, ◌^◌,
}

-- The type `double` of the machine, as far as the class uses it.
pub record Doubles : Type 1 where
  pub Double : Type 0
  pub from_int : ℕ → Double
  pub minus : Double → Double → Double
  pub less : Double → Double → Bool
  pub greatest : Double → Double → Double
  pub down_rate : Double
  -- std::ceil, converted to int32_t.
  pub ceil : Double → ℕ

pub record SlotRing (D : Doubles) : Type 0 where
  pub ring_buffer : List ℕ
  pub last_read_slot : List ℕ
  pub read_position : ℕ
  pub write_position : ℕ
  pub full_slots : ℕ
  pub underruns : ℕ
  pub overflows : ℕ
  pub skew_raw : ℕ
  pub level_cur : D.Double
  pub level : ℕ
  pub buf_dec_overflow : ℕ
  pub buf_dec_pkt_loss : ℕ
  pub buf_inc_underrun : ℕ
  pub buf_inc_compensate : ℕ
  pub reads_new : ℕ
  pub underruns_new : ℕ
  pub skew0 : ℕ
  pub broadcast_skew : ℕ
  pub broadcast_delta : ℕ

-- memcpy of `n` bytes from the position `pos`, and to it.
abbrev pub bytes_at : ℕ → ℕ → List ℕ → List ℕ
bytes_at n pos memory = take n (drop pos memory)

abbrev pub copy_to : ℕ → ℕ → List ℕ → List ℕ → List ℕ
copy_to n pos bytes memory = take pos memory ++ (take n bytes ++ drop (pos + n) memory)

-- A difference of words of 32 bits.
abbrev pub minus32 : ℕ → ℕ → ℕ
minus32 a b = (a + (2 ^ 32 - b % 2 ^ 32)) % 2 ^ 32

pub record IoStat : Type 0 where
  pub stat_underruns : ℕ
  pub stat_overflows : ℕ
  pub skew : ℕ
  pub stat_skew_raw : ℕ
  pub stat_level : ℕ
  pub buf_dec_overflows : ℕ
  pub buf_dec_pktloss : ℕ
  pub stat_inc_underrun : ℕ
  pub stat_inc_compensate : ℕ
  pub stat_broadcast_skew : ℕ
  pub stat_broadcast_delta : ℕ
  pub autoq_corr : ℕ
  pub autoq_rate : ℕ

module _ (D : Doubles) (slot_size num_slots : ℕ) where
  -- The constructor, which leaves mReadsNew and mUnderrunsNew as they are in memory.
  pub ring_buffer_of : ℕ → ℕ → SlotRing D
  ring_buffer_of reads misses = record {
    ring_buffer = replicate (slot_size * num_slots) 0;
    last_read_slot = replicate slot_size 0;
    read_position = 0;
    write_position = num_slots / 2 * slot_size % (slot_size * num_slots);
    full_slots = num_slots / 2;
    underruns = 0;
    overflows = 0;
    skew_raw = 0;
    level_cur = D.from_int (num_slots / 2);
    level = D.ceil (D.from_int (num_slots / 2));
    buf_dec_overflow = 0;
    buf_dec_pkt_loss = 0;
    buf_inc_underrun = 0;
    buf_inc_compensate = 0;
    reads_new = reads;
    underruns_new = misses;
    skew0 = 0;
    broadcast_skew = 0;
    broadcast_delta = 0;
  }

  pub update_read_stats : SlotRing D → SlotRing D
  update_read_stats s = record s {
    skew_raw = u32 (minus32 s.skew_raw 1 + s.reads_new);
    reads_new = 0;
    underruns = u32 (s.underruns + s.underruns_new);
    buf_inc_underrun = u32 (s.buf_inc_underrun + s.underruns_new);
    underruns_new = 0;
    level = D.ceil s.level_cur;
  }

  -- Writes a slot where there is room for it.
  pub put_slot : List ℕ → SlotRing D → SlotRing D
  put_slot slot s = record s {
    ring_buffer = copy_to slot_size s.write_position slot s.ring_buffer;
    write_position = (s.write_position + slot_size) % (slot_size * num_slots);
    full_slots = s.full_slots + 1;
  }

  -- Takes the oldest slot.
  pub take_slot : SlotRing D → List ℕ × SlotRing D
  take_slot s =
      let slot = bytes_at slot_size s.read_position s.ring_buffer in
      (
        slot,
        record s {
          last_read_slot = slot;
          read_position = (s.read_position + slot_size) % (slot_size * num_slots);
          full_slots = s.full_slots - 1;
        },
      )

  pub underrun_reset : SlotRing D → SlotRing D
  underrun_reset s = record s {
    ring_buffer = replicate (slot_size * num_slots) 0;
    underruns_new = u32 (s.underruns_new + 1);
  }

  pub overflow_reset : SlotRing D → SlotRing D
  overflow_reset s =
      let d = num_slots / 2 in
      record s {
        read_position = (s.read_position + d * slot_size) % (slot_size * num_slots);
        full_slots = s.full_slots - d;
        overflows = u32 (s.overflows + (d + 1));
        buf_dec_overflow = u32 (s.buf_dec_overflow + (d + 1));
        level_cur = D.minus s.level_cur (D.from_int d);
      }

  pub count_lost : ℕ → SlotRing D → SlotRing D
  count_lost lost_len s =
      let lost_count = lost_len / slot_size in
      if ltb 0 lost_len
      then record s {
        buf_dec_pkt_loss = u32 (s.buf_dec_pkt_loss + lost_count);
        skew_raw = minus32 s.skew_raw lost_count;
        level_cur = D.minus s.level_cur (D.from_int lost_count);
      }
      else s

  -- The end of an insertion: a full ring drops its older half, and the slot.
  pub add_or_reset : List ℕ → SlotRing D → Bool × SlotRing D
  unfolding overflow_reset put_slot
  add_or_reset slot s =
      if s.full_slots == num_slots then (true, overflow_reset s) else (true, put_slot slot s)

  pub insert_slot_non_blocking : List ℕ → ℕ → ℕ → SlotRing D → Bool × SlotRing D
  unfolding update_read_stats add_or_reset count_lost
  insert_slot_non_blocking slot len lost_len s =
      if not (len == slot_size) && not (0 == len)
      then (false, s)
      else let counted = update_read_stats (count_lost lost_len s) in
        if counted.full_slots == num_slots
        then (true, overflow_reset counted)
        else (true, put_slot slot counted)

  pub track_level : SlotRing D → SlotRing D
  track_level s = record s {
    level_cur =
        if D.less (D.from_int s.full_slots) s.level_cur
        then D.greatest (D.from_int s.full_slots) (D.minus s.level_cur D.down_rate)
        else D.from_int s.full_slots;
  }

  pub underrun_read_slot : List ℕ
  underrun_read_slot = replicate slot_size 0

  pub count_read : SlotRing D → SlotRing D
  count_read s = record s { reads_new = u32 (s.reads_new + 1) }

  -- The slot read and the state after it.
  pub read_slot_non_blocking : SlotRing D → List ℕ × SlotRing D
  unfolding count_read track_level underrun_reset take_slot underrun_read_slot
  read_slot_non_blocking s =
      let tracked = track_level (count_read s) in
      if leb tracked.full_slots 0
      then (underrun_read_slot, underrun_reset tracked)
      else take_slot tracked

  pub reset_stats : Bool → SlotRing D → SlotRing D
  reset_stats reset s =
      if reset
      then record s {
        underruns = 0;
        overflows = 0;
        skew0 = s.level;
        skew_raw = 0;
        buf_dec_overflow = 0;
        buf_dec_pkt_loss = 0;
        buf_inc_underrun = 0;
        buf_inc_compensate = 0;
        broadcast_skew = 0;
      }
      else s

  -- The statistics, at a unit (mStatUnit) of 1, and the state after the call.
  pub get_slot_stats : Bool → SlotRing D → IoStat × SlotRing D
  unfolding reset_stats
  get_slot_stats reset before =
      let s = reset_stats reset before in
      (
        record {
          stat_underruns = s.underruns;
          stat_overflows = s.overflows;
          skew =
              minus32
                (minus32 (u32 (minus32 s.skew0 s.level + s.buf_inc_underrun + s.buf_inc_compensate))
                  s.buf_dec_overflow)
                s.buf_dec_pkt_loss;
          stat_skew_raw = s.skew_raw;
          stat_level = s.level;
          buf_dec_overflows = s.buf_dec_overflow;
          buf_dec_pktloss = s.buf_dec_pkt_loss;
          stat_inc_underrun = s.buf_inc_underrun;
          stat_inc_compensate = s.buf_inc_compensate;
          stat_broadcast_skew = s.broadcast_skew;
          stat_broadcast_delta = s.broadcast_delta;
          autoq_corr = 0;
          autoq_rate = 0;
        },
        s,
      )

-- ===== src/Jitter/Calls.antt =====
-- src/JitterBuffer.cpp: `insertSlotNonBlocking` and `readSlotNonBlocking`.
pub mod Inserts
pub mod Trace
pub mod Delivery
mod Tests
use jacktrip.SlotRing.{minus32}
use jacktrip.Jitter.{
  JitterDoubles, less32, write_wrapped, read_wrapped, JitterSettings, JitterBuffer, greatest,
  last_corr_factor, available, process_packet_loss,
}
use jacktrip.Base.{
  Bool, List, false, if◌then◌else◌, ltb, min, replicate, true, u32, ℕ, ◌%◌, ◌&&◌, ◌*◌, ◌++◌, ◌+◌,
  ◌-◌, ◌/◌, ◌==◌, ◌^◌, ◌||◌,
}

module _ (D : JitterDoubles) (p : JitterSettings D) where
  -- The size of the slot, and a queue that has room for it.
  pub start_insert : ℕ → JitterBuffer D → JitterBuffer D
  start_insert len s = record s {
    in_slot_size = len;
    active = true;
    max_latency =
        if less32 s.max_latency (len + p.slot_size) then len + p.slot_size else s.max_latency;
  }

  -- The counters of the reads since the last slot, and the level, rounded up to slots.
  pub count_insert : ℕ → JitterBuffer D → JitterBuffer D
  count_insert len s =
      let slot = D.from_int p.slot_size in
      record s {
        skew_raw = u32 (s.skew_raw + minus32 s.reads_new len);
        reads_new = 0;
        underruns = u32 (s.underruns + s.underruns_new);
        underruns_new = 0;
        level = D.to_int (D.times slot (D.ceil (D.divided s.level_cur slot)));
      }

  -- Whether the level is so low that missing bytes are made up for.
  pub is_low : JitterBuffer D → Bool
  unfolding greatest last_corr_factor
  is_low s =
      let spare = D.times (D.from_int (2 * p.slot_size)) (last_corr_factor D p s) in
      D.less s.level_cur (
        greatest D (D.plus (D.from_int s.in_slot_size) p.min_level_threshold)
          (D.minus (D.minus (D.from_int s.max_latency) p.underrun_inc_tolerance) spare))

  -- Whether it is so low that the reading is held back.
  pub is_very_low : JitterBuffer D → Bool
  unfolding last_corr_factor
  is_very_low s =
      let spare = D.times (D.from_int (6 * p.slot_size)) (last_corr_factor D p s) in
      D.less s.level_cur (D.minus (D.minus (D.from_int s.max_latency) p.corr_inc_tolerance) spare)

  -- How far the reading moves, an `int`, and the counters of the reason.
  pub correction : ℕ → JitterBuffer D → ℕ × JitterBuffer D
  unfolding available is_low is_very_low
  correction len s =
      let ready = available D p s in
      let step = p.overflow_drop_step in
      let missing = min (minus32 0 ready) p.slot_size in
      if less32 ready (minus32 0 (10 * s.max_latency))
      then (
        ready,
        record s {
          buf_inc_underrun = u32 (s.buf_inc_underrun + minus32 0 ready);
          level_cur = D.from_int len;
        },
      )
      else if less32 s.max_latency (u32 (ready + len))
      then (
        step,
        record s {
          overflows = u32 (s.overflows + step);
          buf_dec_overflow = u32 (s.buf_dec_overflow + step);
          level_cur = D.from_int s.max_latency;
        },
      )
      else if less32 ready 0 && is_low s
      then (minus32 0 missing, record s { buf_inc_underrun = u32 (s.buf_inc_underrun + missing) })
      else if is_very_low s
      then (
        minus32 0 p.slot_size,
        record s {
          underruns = u32 (s.underruns + p.slot_size);
          buf_inc_compensate = u32 (s.buf_inc_compensate + p.slot_size);
        },
      )
      else (0, s)

  pub move_read : ℕ × JitterBuffer D → JitterBuffer D
  move_read r =
      let s = r.1 in
      if r.0 == 0
      then record s { last_corr_counter = u32 (s.last_corr_counter + 1) }
      else record s {
        read_position = u32 (s.read_position + r.0);
        last_corr_counter = 0;
        last_corr_direction = if less32 0 r.0 then 1 else minus32 0 1;
      }

  pub write_slot : List ℕ → ℕ → JitterBuffer D → JitterBuffer D
  unfolding write_wrapped
  write_slot slot len s = record s {
    ring_buffer =
        write_wrapped p.total_size (s.write_position % p.total_size) len slot s.ring_buffer;
    write_position = u32 (s.write_position + len);
  }

  -- The part before the slot is written.
  pub before_write : ℕ → ℕ → JitterBuffer D → JitterBuffer D
  unfolding start_insert process_packet_loss count_insert correction move_read
  before_write len lost_len s =
      let started = start_insert len s in
      let lost = if ltb 0 lost_len then process_packet_loss D p lost_len started else started in
      move_read (correction len (count_insert len lost))

  -- Of lengths that are not negative.
  pub insert_bytes : List ℕ → ℕ → ℕ → JitterBuffer D → Bool × JitterBuffer D
  unfolding before_write write_slot
  insert_bytes slot len' lost_len s =
      let len = if len' == 0 then p.slot_size else len' in
      if ltb p.total_size len
      then (false, s)
      else (true, write_slot slot len (before_write len lost_len s))

  -- The level of a read, which falls slowly.
  pub track_read : JitterBuffer D → JitterBuffer D
  unfolding available greatest
  track_read s =
      let ready = D.from_int (available D p s) in
      record s {
        reads_new = u32 (s.reads_new + p.slot_size);
        level_cur =
            if D.less ready s.level_cur
            then greatest D ready (D.minus s.level_cur p.level_down_rate)
            else ready;
      }

  -- The automatic queue: the length that was needed.
  pub track_queue : JitterBuffer D → JitterBuffer D
  unfolding available
  track_queue s =
      let ready = D.plus (D.from_int (available D p s)) s.auto_queue_corr in
      record s {
        auto_queue_corr =
            if D.less (D.minus ready s.level_cur) (D.from_int 0)
            then D.plus s.auto_queue_corr s.auto_q_rate
            else if D.less (D.from_int (s.in_slot_size + p.slot_size)) s.auto_queue_corr
            then D.minus s.auto_queue_corr (D.times s.auto_q_rate p.auto_q_factor)
            else s.auto_queue_corr;
        auto_q_rate =
            if D.less p.auto_q_rate_min s.auto_q_rate
            then D.times s.auto_q_rate p.auto_q_rate_decay
            else s.auto_q_rate;
      }

  -- Whether the queue is set to that length now: always in the first 12 seconds.
  pub is_adapted : ℕ → D.Double → JitterBuffer D → Bool
  is_adapted auto_queue needed s =
      let off = D.plus (D.minus needed (D.from_int s.max_latency)) (D.from_int (p.slot_size / 2)) in
      ltb auto_queue (12 * p.packets_per_second)
      || D.less (D.times (D.literal 6 10) (D.from_int p.slot_size)) (D.absolute off)

  -- Every 4 seconds the queue is adapted, if that is wanted.
  pub adapt_queue : JitterBuffer D → JitterBuffer D
  unfolding is_adapted
  adapt_queue s =
      let second = p.packets_per_second in
      let slot = D.from_int p.slot_size in
      let k = D.plus (D.literal 1 1) (D.divided (D.literal 1 (10 ^ 5)) p.auto_q_factor) in
      let needed = D.times s.auto_queue_corr k in
      if s.auto_queue == 0 then s else record s {
        auto_queue = s.auto_queue + 1;
        max_latency =
            if 2 * second == s.auto_queue % (4 * second) && is_adapted (s.auto_queue + 1) needed s
            then D.to_int (D.times slot (D.ceil (D.divided needed slot)))
            else s.max_latency;
      }

  -- The bytes that are there, and silence.
  pub read_ready : JitterBuffer D → List ℕ × JitterBuffer D
  unfolding available read_wrapped
  read_ready s =
      let ready = available D p s in
      let len = if less32 ready 0 then 0 else min ready p.slot_size in
      let at = s.read_position % p.total_size in
      (
        read_wrapped p.total_size at len s.ring_buffer ++ replicate (p.slot_size - len) 0,
        record s {
          underruns_new = u32 (s.underruns_new + (p.slot_size - len));
          read_position = u32 (s.read_position + p.slot_size);
        },
      )

  -- The part before the bytes are read.
  pub before_read : JitterBuffer D → JitterBuffer D
  unfolding track_read track_queue adapt_queue
  before_read s = adapt_queue (track_queue (track_read s))

  -- The slot read and the state after it.
  pub read_bytes : JitterBuffer D → List ℕ × JitterBuffer D
  unfolding before_read read_ready
  read_bytes s = if s.active then read_ready (before_read s) else (replicate p.slot_size 0, s)

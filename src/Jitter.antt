-- ===== src/Jitter.antt =====
-- src/JitterBuffer.cpp and src/JitterBuffer.h: the ring of bytes between the network and the audio
-- callback, with the corrections of its delay. Words of 32 bits are bit patterns: an `int` is its two's
-- complement, and lengths are taken not to overflow it. The functions run under the mutex, so one after
-- the other.
pub mod Calls
pub mod Wrap
pub mod Stream
use jacktrip.SlotRing.{minus32}
use jacktrip.Udp.Receive.{copy_bytes}
use jacktrip.Base.{
  ◌==◌, ◌/◌, Bool, List, drop, false, if◌then◌else◌, leb, ltb, max, min, replicate, take, u32, ℕ,
  ◌%◌, ◌&&◌, ◌*◌, ◌++◌, ◌+◌, ◌-◌, ◌^◌, ◌||◌,
}

-- The type `double` of the machine, as far as the class uses it.
pub record JitterDoubles : Type 1 where
  pub Double : Type 0
  pub from_int : ℕ → Double
  -- A literal, as a quotient.
  pub literal : ℕ → ℕ → Double
  pub plus : Double → Double → Double
  pub minus : Double → Double → Double
  pub times : Double → Double → Double
  pub divided : Double → Double → Double
  pub less : Double → Double → Bool
  pub absolute : Double → Double
  pub ceil : Double → Double
  -- The conversion to `int`.
  pub to_int : Double → ℕ

-- a < b for the type `int`.
abbrev pub less32 : ℕ → ℕ → Bool
less32 a b = ltb ((a + 2 ^ 31) % 2 ^ 32) ((b + 2 ^ 31) % 2 ^ 32)

-- memcpy to a ring of `total` bytes from the position `at` on, in two parts where the ring ends.
pub write_wrapped : ℕ → ℕ → ℕ → List ℕ → List ℕ → List ℕ
unfolding copy_bytes
write_wrapped total at len src ring =
    let n = min (total - at) len in copy_bytes (len - n) 0 (drop n src) (copy_bytes n at src ring)

-- memcpy from a ring, in two parts where it ends.
pub read_wrapped : ℕ → ℕ → ℕ → List ℕ → List ℕ
read_wrapped total at len ring =
    let n = min (total - at) len in take n (drop at ring) ++ take (len - n) ring

module _ (D : JitterDoubles) where
  -- What the constructor sets and nothing changes.
  pub record JitterSettings : Type 0 where
    pub slot_size : ℕ
    pub total_size : ℕ
    -- mSampleRate / mFPP
    pub packets_per_second : ℕ
    pub overflow_drop_step : ℕ
    pub underrun_inc_tolerance : D.Double
    pub corr_inc_tolerance : D.Double
    pub overflow_dec_tolerance : D.Double
    pub min_level_threshold : D.Double
    pub level_down_rate : D.Double
    pub auto_q_factor : D.Double
    pub auto_q_rate_min : D.Double
    pub auto_q_rate_decay : D.Double

  pub record JitterBuffer : Type 0 where
    pub ring_buffer : List ℕ
    pub read_position : ℕ
    pub write_position : ℕ
    pub max_latency : ℕ
    pub in_slot_size : ℕ
    pub active : Bool
    pub underruns : ℕ
    pub overflows : ℕ
    pub skew_raw : ℕ
    pub level_cur : D.Double
    pub level : ℕ
    pub buf_dec_overflow : ℕ
    pub buf_dec_pkt_loss : ℕ
    pub buf_inc_underrun : ℕ
    pub buf_inc_compensate : ℕ
    pub reads_new : ℕ
    pub underruns_new : ℕ
    pub last_corr_counter : ℕ
    pub last_corr_direction : ℕ
    pub auto_queue : ℕ
    pub auto_queue_corr : D.Double
    pub auto_q_rate : D.Double

  -- std::min and std::max
  pub least : D.Double → D.Double → D.Double
  least a b = if D.less b a then b else a

  pub greatest : D.Double → D.Double → D.Double
  greatest a b = if D.less a b then b else a

  -- `mMaxLatency` of the constructor, for the length of the queue, an `int`.
  pub initial_latency : ℕ → ℕ → ℕ
  initial_latency slot_size qlen = if less32 0 qlen then qlen * slot_size else 3 * slot_size

  -- The sizes are `buf_samples`, `channels` and `bit_res`, the bytes of a sample.
  pub jitter_settings : ℕ → ℕ → ℕ → ℕ → ℕ → ℕ → JitterSettings
  unfolding least initial_latency
  jitter_settings buf_samples qlen sample_rate strategy channels bit_res =
      let slot_size = buf_samples * channels * bit_res in
      let slot = D.from_int slot_size in
      let max_latency = initial_latency slot_size qlen in
      let decay = D.times (D.from_int buf_samples) (D.literal 12 (10 ^ 7)) in
      record {
        slot_size = slot_size;
        total_size = sample_rate * channels * bit_res * 2;
        packets_per_second = sample_rate / buf_samples;
        overflow_drop_step = if strategy == 1 || strategy == 2 then slot_size else max_latency / 2;
        underrun_inc_tolerance =
            if strategy == 2
            then D.times (D.literal 11 10) slot
            else D.from_int (minus32 0 (10 * slot_size));
        corr_inc_tolerance =
            if strategy == 2
            then D.times (D.literal 19 10) slot
            else D.from_int (100 * max_latency);
        overflow_dec_tolerance =
            if strategy == 2 then D.times (D.literal 1 10) slot else D.from_int (100 * max_latency);
        min_level_threshold = D.times (D.literal 19 10) slot;
        level_down_rate =
            D.times
              (D.divided (D.from_int (min 256 buf_samples))
                (D.times (D.literal 5 1) (D.from_int sample_rate)))
              slot;
        auto_q_factor =
            D.divided (D.literal 1 1)
              (if less32 qlen 0 then D.from_int (minus32 0 qlen) else D.literal 500 1);
        auto_q_rate_min = D.times slot (D.literal 5 (10 ^ 4));
        auto_q_rate_decay = D.minus (D.literal 1 1) (least decay (D.literal 5 (10 ^ 4)));
      }

  -- The state that the constructor makes with a queue of `max_latency` bytes, set (`auto_queue` is 0)
  -- or adapted (1). It leaves mReadsNew and mUnderrunsNew as they are in memory.
  pub new_jitter_buffer : JitterSettings → ℕ → ℕ → ℕ → ℕ → JitterBuffer
  new_jitter_buffer p max_latency auto_queue reads misses = record {
    ring_buffer = replicate p.total_size 0;
    read_position = 0;
    write_position = max_latency;
    max_latency = max_latency;
    in_slot_size = p.slot_size;
    active = false;
    underruns = 0;
    overflows = 0;
    skew_raw = 0;
    level_cur = D.from_int max_latency;
    level = max_latency;
    buf_dec_overflow = 0;
    buf_dec_pkt_loss = 0;
    buf_inc_underrun = 0;
    buf_inc_compensate = 0;
    reads_new = reads;
    underruns_new = misses;
    last_corr_counter = 0;
    last_corr_direction = 0;
    auto_queue = auto_queue;
    auto_queue_corr = D.from_int (2 * p.slot_size);
    auto_q_rate = D.times (D.from_int p.slot_size) (D.literal 1 2);
  }

  module _ (p : JitterSettings) where
    -- 500.0 / max(500, mLastCorrCounter)
    pub last_corr_factor : JitterBuffer → D.Double
    last_corr_factor s = D.divided (D.literal 500 1) (D.from_int (max 500 s.last_corr_counter))

    -- The bytes that are there to be read, an `int`.
    pub available : JitterBuffer → ℕ
    available s = minus32 s.write_position s.read_position

    -- A loss becomes shorter by `delta`.
    pub shortened : ℕ → ℕ → JitterBuffer → ℕ × JitterBuffer
    shortened lost_len delta s = (
      lost_len - delta,
      record s {
        buf_dec_pkt_loss = u32 (s.buf_dec_pkt_loss + delta);
        last_corr_counter = 0;
        last_corr_direction = 1;
      },
    )

    -- The condition for shortening a loss that fits in the queue.
    pub may_shorten : ℕ → JitterBuffer → Bool
    unfolding available last_corr_factor
    may_shorten lost_len s =
        let tolerance =
          D.times p.overflow_dec_tolerance (D.minus (D.literal 11 10) (last_corr_factor s)) in
        less32 p.slot_size (u32 (available s + lost_len))
        && (D.less (D.from_int s.max_latency) p.overflow_dec_tolerance
            || (less32 0 s.last_corr_direction
                && D.less (D.minus (D.from_int s.max_latency) tolerance) s.level_cur))

    -- How much of the loss is left to fill.
    pub shorten_loss : ℕ → JitterBuffer → ℕ × JitterBuffer
    unfolding shortened may_shorten available
    shorten_loss lost_len s =
        let over = minus32 (u32 (available s + s.in_slot_size + lost_len)) s.max_latency in
        let delta = if less32 over lost_len then over else lost_len in
        let delta' = min lost_len p.slot_size in
        if less32 0 delta
        then shortened lost_len delta (record s { level_cur = D.from_int s.max_latency })
        else if may_shorten lost_len s
        then shortened lost_len delta'
            (record s { level_cur = D.minus s.level_cur (D.from_int delta') })
        else (lost_len, s)

    -- Silence for what is left, `missing` being the bytes that were missing before.
    pub fill_loss : ℕ → ℕ → JitterBuffer → JitterBuffer
    unfolding write_wrapped
    fill_loss missing lost_len s =
        let at = s.write_position % p.total_size in
        let silence = replicate lost_len 0 in
        record s {
          ring_buffer =
              if leb p.total_size lost_len
              then replicate p.total_size 0
              else write_wrapped p.total_size at lost_len silence s.ring_buffer;
          underruns = u32 (s.underruns + (lost_len - missing));
          write_position = u32 (s.write_position + lost_len);
        }

    -- `processPacketLoss`, of a length that is not negative.
    pub process_packet_loss : ℕ → JitterBuffer → JitterBuffer
    unfolding shorten_loss fill_loss available
    process_packet_loss lost_len s =
        let s' = record s { skew_raw = minus32 s.skew_raw lost_len } in
        let missing = if less32 (available s) 0 then minus32 0 (available s) else 0 in
        let r = shorten_loss lost_len s' in fill_loss missing r.0 r.1

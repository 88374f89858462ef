-- ===== src/Jitter/Calls/Tests.antt =====
-- The ring of bytes at concrete calls: slots of 2 bytes in a ring of 16, after a delay of 4.

use jacktrip.Udp.Receive.{copy_bytes}
use jacktrip.Jitter.{
  JitterDoubles, JitterSettings, JitterBuffer, jitter_settings, initial_latency, least, greatest,
  new_jitter_buffer, last_corr_factor, available, shortened, may_shorten, shorten_loss, fill_loss,
  process_packet_loss, write_wrapped, read_wrapped,
}
use jacktrip.Jitter.Calls.{
  start_insert, count_insert, is_low, is_very_low, correction, move_read, write_slot, before_write,
  insert_bytes, track_read, track_queue, is_adapted, adapt_queue, read_ready, before_read,
  read_bytes,
}
use jacktrip.Jitter.Calls.Trace.{
  JitterCall, insert_call, read_call, jitter_call, jitter_calls, HasLengths, most_bytes,
}
use jacktrip.Jitter.Calls.Delivery.{Delivered, read_bytes-jitter_calls}
use jacktrip.Base.{List, [], arith, ltb, refl, replicate, ℕ, ◌*◌, ◌+◌, ◌-◌, ◌/◌, ◌∷◌, ◌≡◌}

-- Whole numbers in place of the machine's.
abbrev whole_numbers : JitterDoubles
whole_numbers = record {
  Double = ℕ;
  from_int = λ n. n;
  literal = λ a b. a / b;
  plus = λ a b. a + b;
  minus = λ a b. a - b;
  times = λ a b. a * b;
  divided = λ a b. a / b;
  less = ltb;
  absolute = λ a. a;
  ceil = λ a. a;
  to_int = λ a. a;
}

abbrev mono : JitterSettings whole_numbers
mono = record {
  slot_size = 2;
  total_size = 16;
  packets_per_second = 4;
  overflow_drop_step = 2;
  underrun_inc_tolerance = 2;
  corr_inc_tolerance = 2;
  overflow_dec_tolerance = 0;
  min_level_threshold = 2;
  level_down_rate = 0;
  auto_q_factor = 0;
  auto_q_rate_min = 0;
  auto_q_rate_decay = 1;
}

-- Two slots, the second one after a lost slot, and the reads of the first and the lost one.
abbrev calls : List JitterCall
calls =
    insert_call (1 ∷ 2 ∷ []) 2 0
    ∷ read_call
    ∷ read_call
    ∷ insert_call (3 ∷ 4 ∷ []) 2 2
    ∷ read_call
    ∷ []

abbrev state : JitterBuffer whole_numbers
state = jitter_calls whole_numbers mono calls (new_jitter_buffer whole_numbers mono 4 0 0 0)

state_read : (read_bytes whole_numbers mono state).0 ≡ 3 ∷ 4 ∷ []
unfolding jitter_settings initial_latency least greatest new_jitter_buffer last_corr_factor
    available shortened may_shorten shorten_loss fill_loss process_packet_loss write_wrapped
    read_wrapped start_insert count_insert is_low is_very_low correction move_read write_slot
    before_write insert_bytes track_read track_queue is_adapted adapt_queue read_ready before_read
    read_bytes jitter_call jitter_calls copy_bytes
state_read = refl

made_mono : jitter_settings whole_numbers 1 2 4 2 1 2 ≡ mono
unfolding jitter_settings initial_latency least
made_mono = refl

read_bytes-jitter_calls_example : Delivered whole_numbers mono (replicate 4 0) calls state
unfolding jitter_settings initial_latency least greatest new_jitter_buffer last_corr_factor
    available shortened may_shorten shorten_loss fill_loss process_packet_loss write_wrapped
    read_wrapped start_insert count_insert is_low is_very_low correction move_read write_slot
    before_write insert_bytes track_read track_queue is_adapted adapt_queue read_ready before_read
    read_bytes jitter_call jitter_calls copy_bytes HasLengths most_bytes
read_bytes-jitter_calls_example =
    read_bytes-jitter_calls whole_numbers mono (omega arith) (omega arith) (omega arith) 4 0 0 0
      calls (refl, (refl, tt)) (omega arith) refl (omega arith) (omega arith)

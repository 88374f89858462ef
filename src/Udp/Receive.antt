-- ===== src/Udp/Receive.antt =====
-- src/UdpDataProtocol.cpp: `receivePacketRedundancy`, `getStats` and the reset of the counters in
-- `run`. The receive buffer is the list of its bytes. `JackTrip::writeAudioBuffer` and the store
-- behind it are parameters, as are the draws of the loss simulation. `current_seq_num` is set anew
-- at every call and is not part of the state.
pub mod Select
pub mod Deliver
pub mod Count
mod Tests
use jacktrip.Base.{
  Bool, List, drop, false, if◌then◌else◌, leb, length, ltb, min, replicate, suc, take, true, u16,
  u32, zero, ℕ, ◌*◌, ◌++◌, ◌+◌, ◌-◌, ◌/◌, ◌==◌, ◌^◌, ◌||◌,
}
use jacktrip.Header.{
  get_peer_sequence_number, get_peer_buffer_size, peer_header, decode_num_outgoing_channels,
  header_size,
}
use jacktrip.Udp.Gap.{ℤ, pos, ◌-ℤ◌}

pub record Receiver : Type 0 where
  pub initial_state : Bool
  pub last_out_of_order_count : ℕ
  pub tot_count : ℕ
  pub lost_count : ℕ
  pub out_of_order_count : ℕ
  pub revived_count : ℕ
  pub stat_count : ℕ
  pub last_seq_num : ℕ
  pub buffer : List ℕ
  pub stopped : Bool

-- The reset before the first packet.
pub reset : Receiver → Receiver
reset s = record s {
  last_seq_num = 0;
  tot_count = 0;
  lost_count = 0;
  out_of_order_count = 0;
  last_out_of_order_count = 0;
  initial_state = true;
  revived_count = 0;
  stat_count = 0;
}

-- `int16_t lost = newer_seq_num - last_seq_num - 1`, as a word of 16 bits.
unfoldable pub lost_packets : ℕ → ℕ → ℕ
lost_packets newer last = u16 (newer + (2 ^ 16 - 1 - last))

-- `0 > lost || 1000 < lost`
unfoldable pub is_out_of_order : ℕ → Bool
is_out_of_order lost = leb (2 ^ 15) lost || ltb 1000 lost

-- The first part of the function: the datagram is ignored, or accepted with a number of packets
-- lost before it.
pub data Verdict : Type 0 where
  ignored : Receiver → Verdict
  accepted : ℕ → Receiver → Verdict

pub ignore : Receiver → Receiver
ignore s =
    let s' = record s {
      out_of_order_count = u32 (s.out_of_order_count + 1);
      last_out_of_order_count = s.last_out_of_order_count + 1;
    } in
    if ltb 5 s'.last_out_of_order_count
    then record s' { initial_state = true; stat_count = 0; tot_count = 0 }
    else s'

pub accept : ℕ → Receiver → Receiver
accept lost s = record s {
  lost_count = if lost == 0 then s.lost_count else u32 (s.lost_count + lost);
  tot_count = u32 (s.tot_count + (1 + lost));
  last_out_of_order_count = 0;
  initial_state = false;
}

pub judge : ℕ → Receiver → Verdict
unfolding ignore accept lost_packets is_out_of_order
judge newer s =
    let lost = lost_packets newer s.last_seq_num in
    if s.initial_state
    then accepted 0 (record s { last_out_of_order_count = 0; initial_state = false })
    else if is_out_of_order lost
    then ignored (ignore s)
    else accepted lost (accept lost s)

-- The loop that looks for the packet after the last one: `i` to `mUdpRedundancyFactor`, of which
-- there are `rounds`. `seq_at i` is the number in the packet `i` of the datagram. The test compares
-- numbers of type `int`.
pub redun_loop : (ℕ → ℕ) → ℕ → ℕ → ℕ → ℕ → ℕ → ℕ
redun_loop seq_at last zero i redun current = redun
redun_loop seq_at last (suc rounds) i redun current =
    let next = redun_loop seq_at last rounds (i + 1) i (seq_at i) in
    if current == last + 1 then redun else next

-- redun_last_index
pub redun_last_index : (ℕ → ℕ) → ℕ → ℕ → ℕ
unfolding redun_loop
redun_last_index seq_at last factor = redun_loop seq_at last (factor - 1) 1 0 (seq_at 0)

-- memcpy of `n` bytes of `src` to the place `at` of `dst`
unfoldable pub copy_bytes : ℕ → ℕ → List ℕ → List ℕ → List ℕ
copy_bytes n at src dst = take at dst ++ (take n src ++ drop (at + n) dst)

-- The settings of the protocol object and the sizes that its caller passes.
pub record Settings : Type 0 where
  pub chans : ℕ
  pub smpl_size : ℕ
  pub redundancy_factor : ℕ
  pub full_packet_size : ℕ
  pub full_redundant_packet_size : ℕ

-- The inner loop over the channels, of which `left` are left, at the sample `n`.
unfoldable pub copy_channels : Settings → ℕ → List ℕ → ℕ → ℕ → ℕ → List ℕ → List ℕ
unfolding copy_bytes
copy_channels p samples src n c zero dst = dst
copy_channels p samples src n c (suc left) dst = copy_channels p samples src n (c + 1) left (
    copy_bytes p.smpl_size ((n * p.chans + c) * p.smpl_size)
      (drop ((n + c * samples) * p.smpl_size) src) dst)

-- The loop over the samples: from the layout of the packet to the interleaved one.
unfoldable pub interleave : Settings → ℕ → ℕ → List ℕ → ℕ → ℕ → List ℕ → List ℕ
unfolding copy_channels
interleave p samples common src n zero dst = dst
interleave p samples common src n (suc left) dst =
    interleave p samples common src (n + 1) left (copy_channels p samples src n 0 common dst)

-- The audio of the packet `i`, as it is for one channel and otherwise interleaved in the buffer, and
-- the buffer after it.
pub audio_at : Settings → List ℕ → ℕ → List ℕ → List ℕ × List ℕ
unfolding interleave
audio_at p datagram i buffer =
    let samples = get_peer_buffer_size datagram in
    let common = min p.chans (decode_num_outgoing_channels (peer_header datagram)) in
    let size = samples * p.chans * p.smpl_size in
    let src = drop (i * p.full_packet_size + header_size) datagram in
    let buffer' = interleave p samples common src 0 samples buffer in
    if p.chans == 1 then (take size src, buffer) else (take size buffer', buffer')

-- mBuffer.resize, if it is too small
unfoldable pub grow : ℕ → List ℕ → List ℕ
grow size buffer = buffer ++ replicate (size - length buffer) 0

pub stride_bytes : Settings → List ℕ → ℕ
stride_bytes p datagram =
    header_size
    + get_peer_buffer_size datagram
      * decode_num_outgoing_channels (peer_header datagram)
      * p.smpl_size

-- The number of the packet `i` of the datagram.
unfoldable pub seq_at : Settings → List ℕ → ℕ → ℕ
seq_at p datagram i = get_peer_sequence_number (drop (i * p.full_packet_size) datagram)

-- The packets `i` to 0 are written in this order, the first with a gap before it; `audio i b` is the
-- audio of the packet `i` with the buffer `b`, and the buffer after it.
module _ {ℓ} {S : Type ℓ} (write : List ℕ → ℤ → ℕ → S → Bool × S) where
  pub deliver : (ℕ → List ℕ → List ℕ × List ℕ) → ℕ → ℤ → Receiver → S → Receiver × S
  deliver audio zero gap s sink =
      let a = audio 0 s.buffer in
      let r = write a.0 gap s.last_seq_num sink in
      (record s { buffer = a.1; stopped = if r.0 then s.stopped else true }, r.1)
  deliver audio (suc i) gap s sink =
      let a = audio (suc i) s.buffer in
      let r = write a.0 gap s.last_seq_num sink in
      let rest = deliver audio i (pos 0) (record s { buffer = a.1 }) r.1 in
      if r.0 then rest else (record s { buffer = a.1; stopped = true }, r.1)

  -- The part after the search: the guard, the clamp and the delivery.
  pub hand_over : Settings → List ℕ → ℕ → ℕ → Receiver → S → Receiver × S
  unfolding deliver audio_at grow stride_bytes
  hand_over p datagram lost redun s sink =
      let stride = stride_bytes p datagram in
      let clamped = min redun ((p.full_redundant_packet_size - stride) / p.full_packet_size) in
      let host_buf_size = get_peer_buffer_size datagram * p.chans * p.smpl_size in
      if leb stride header_size || ltb p.full_redundant_packet_size stride
      then (s, sink)
      else deliver (audio_at p datagram) clamped
          ((lost * host_buf_size) -ℤ (clamped * host_buf_size))
          (record s {
            last_seq_num = get_peer_sequence_number datagram;
            buffer = grow host_buf_size s.buffer;
          })
          sink

  pub after_verdict : Settings → List ℕ → ℕ → Verdict → S → Receiver × S
  unfolding hand_over redun_last_index seq_at
  after_verdict p datagram last (ignored s) sink = (s, sink)
  after_verdict p datagram last (accepted lost s) sink =
      let redun = redun_last_index (seq_at p datagram) last p.redundancy_factor in
      hand_over p datagram lost redun (record s { revived_count = u32 (s.revived_count + redun) })
        sink

  -- `receivePacketRedundancy`; `dropped` says that the loss simulation drops the datagram.
  pub receive_packet_redundancy : Settings → Bool → List ℕ → Receiver → S → Receiver × S
  unfolding after_verdict judge
  receive_packet_redundancy p dropped datagram s sink =
      if dropped
      then (s, sink)
      else after_verdict p datagram s.last_seq_num (judge (get_peer_sequence_number datagram) s)
          sink

-- `getStats`: the statistics total, lost, out of order, revived and count, and the state after it.
pub get_stats : Receiver → (ℕ × ℕ × ℕ × ℕ × ℕ) × Receiver
get_stats s =
    let s' =
      if 0 == s.stat_count
      then record s { lost_count = 0; out_of_order_count = 0; revived_count = 0 }
      else s in
    (
      (s'.tot_count, s'.lost_count, s'.out_of_order_count, s'.revived_count, s'.stat_count),
      record s' { stat_count = u32 (s'.stat_count + 1) },
    )

-- ===== src/Udp/Send.antt =====
-- src/UdpDataProtocol.cpp: `sendPacketRedundancy`, with `putHeaderInOutgoingPacket` of
-- src/JackTrip.cpp. What `readAudioBuffer` reads and the values the header is filled from come with
-- each call; the datagram is what `sendPacket` is given.
pub mod Numbers
mod Tests
use jacktrip.Base.{List, drop, if◌then◌else◌, ltb, suc, take, zero, ℕ, ◌*◌, ◌++◌, ◌+◌, ◌-◌, ◌/◌}
use jacktrip.Header.{
  DefaultHeaderStruct, Audio, put_header_in_packet, fill_header_common_from_audio,
  increase_sequence_number,
}
use jacktrip.Udp.Receive.{Settings, copy_bytes}

-- The header of the next packet, the array of redundant packets and `mBuffer`.
pub record Sender : Type 0 where
  pub header : DefaultHeaderStruct
  pub redundant_packet : List ℕ
  pub buffer : List ℕ

-- The inner loop over the channels, of which `left` are left, at the sample `n`.
unfoldable pub copy_out : Settings → ℕ → List ℕ → ℕ → ℕ → ℕ → List ℕ → List ℕ
copy_out p samples src n c zero dst = dst
copy_out p samples src n c (suc left) dst = copy_out p samples src n (c + 1) left (
    copy_bytes p.smpl_size ((n + c * samples) * p.smpl_size)
      (drop ((n * p.chans + c) * p.smpl_size) src) dst)

-- The loop over the samples: from the interleaved layout to the one of the packet.
unfoldable pub deinterleave : Settings → ℕ → List ℕ → ℕ → ℕ → List ℕ → List ℕ
unfolding copy_out
deinterleave p samples src n zero dst = dst
deinterleave p samples src n (suc left) dst =
    deinterleave p samples src (n + 1) left (copy_out p samples src n 0 p.chans dst)

-- The new packet: the header and the first `size` bytes of the audio.
unfoldable pub put_header_in_outgoing_packet : Audio → DefaultHeaderStruct → ℕ → List ℕ → List ℕ
put_header_in_outgoing_packet a h size src =
    put_header_in_packet (fill_header_common_from_audio a h) ++ take size src

-- The older packets move back by one place, and the last one falls out.
pub shift_in : Settings → List ℕ → List ℕ → List ℕ
shift_in p packet old = packet ++ take (p.full_packet_size * (p.redundancy_factor - 1)) old

-- `size` bytes of audio per packet; the state after the call holds the datagram that is sent.
pub send_packet_redundancy : Settings → ℕ → Audio → List ℕ → Sender → Sender
unfolding shift_in put_header_in_outgoing_packet
send_packet_redundancy p size a audio_packet s =
    let samples = size / p.chans / p.smpl_size in
    let buffer =
      if ltb 1 p.chans then deinterleave p samples audio_packet 0 samples s.buffer else s.buffer in
    let src = if ltb 1 p.chans then buffer else audio_packet in
    let packet = put_header_in_outgoing_packet a s.header size src in
    record {
      header = increase_sequence_number (fill_header_common_from_audio a s.header);
      redundant_packet = shift_in p packet s.redundant_packet;
      buffer = buffer;
    }

-- ===== src/Web/Send.antt =====
-- src/webtransport/WebTransportDataProtocol.cpp: the pool of buffers and `sendPacketDirect`, and the loop
-- of `runSender` of src/webrtc/WebRtcDataProtocol.cpp. Whether the session is connected and what
-- `sendDatagram` answers are parameters; a buffer that it takes stays with MsQuic until
-- `releaseSendContext`. A buffer is known by its index.
pub mod Pool
pub mod Held
pub mod Flight
pub mod Sent
mod Tests
use jacktrip.Header.{
  DefaultHeaderStruct, Audio, put_header_in_packet, fill_header_common_from_audio,
  increase_sequence_number, header_size,
}
use jacktrip.Udp.Receive.{Settings, copy_bytes}
use jacktrip.Udp.Send.{deinterleave, put_header_in_outgoing_packet}
use jacktrip.Base.{
  Bool, List, Option, [], drop, false, get_or, if◌then◌else◌, leb, ltb, none, replicate, set, some,
  suc, take, true, zero, ℕ, ◌%◌, ◌*◌, ◌++◌, ◌+◌,
}

abbrev pub buffer_pool_size : ℕ
buffer_pool_size = 16

pub record WebSender : Type 0 where
  pub header : DefaultHeaderStruct
  pub buffers : List (List ℕ)
  pub in_use : List Bool
  pub next_buffer_index : ℕ

-- `run`: buffers for a packet and the 8 bytes of the largest stream number.
pub new_web_sender : ℕ → DefaultHeaderStruct → WebSender
new_web_sender full_packet_size header = record {
  header = header;
  buffers = replicate buffer_pool_size (replicate (full_packet_size + 8) 0);
  in_use = replicate buffer_pool_size false;
  next_buffer_index = 0;
}

-- The loop from `i` on, over the indices from `start` on; the exchange succeeds on a free buffer.
pub acquire_from : ℕ → ℕ → ℕ → List Bool → Option ℕ
acquire_from zero i start in_use = none
acquire_from (suc rounds) i start in_use =
    let rest = acquire_from rounds (i + 1) start in_use in
    let index = (start + i) % buffer_pool_size in
    if get_or in_use index true then rest else some index

-- The pool after a buffer was found.
pub acquired : WebSender → Option ℕ → Option (ℕ × WebSender)
acquired s none = none
acquired s (some index) = some (
  index,
  record s { in_use = set s.in_use index true; next_buffer_index = (index + 1) % buffer_pool_size },
)

pub acquire_pool_buffer : WebSender → Option (ℕ × WebSender)
unfolding acquired acquire_from
acquire_pool_buffer s = acquired s (acquire_from buffer_pool_size 0 s.next_buffer_index s.in_use)

pub release_pool_buffer : ℕ → WebSender → WebSender
release_pool_buffer index s =
    if leb buffer_pool_size index then s else record s { in_use = set s.in_use index false }

-- The context of the buffer `index`.
pub release_send_context : ℕ → WebSender → WebSender
unfolding release_pool_buffer
release_send_context index s = release_pool_buffer index s

-- A buffer after the audio, and then the header, was written to it.
pub fill_buffer : Settings → Audio → DefaultHeaderStruct → List ℕ → List ℕ → List ℕ
fill_buffer p a h audio_packet buffer =
    let samples = a.buffer_size_in_samples in
    let audio_dest = drop header_size buffer in
    put_header_in_packet h
    ++ (if ltb 1 p.chans
        then deinterleave p samples audio_packet 0 samples audio_dest
        else copy_bytes (samples * p.chans * p.smpl_size) 0 audio_packet audio_dest)

abbrev pub send_packet_size : Settings → Audio → ℕ
send_packet_size p a = header_size + a.buffer_size_in_samples * p.chans * p.smpl_size

-- What is left to do with the buffer acquired, if there is one; the result is the buffer that was
-- taken and the datagram in it.
pub send_in_buffer :
    (List ℕ → Bool)
    → Settings
    → Audio
    → List ℕ
    → WebSender
    → Option (ℕ × WebSender)
    → WebSender × Option (ℕ × List ℕ)
unfolding fill_buffer release_pool_buffer
send_in_buffer send p a audio_packet s none = (s, none)
send_in_buffer send p a audio_packet s (some r) =
    let h = fill_header_common_from_audio a r.1.header in
    let buffer = fill_buffer p a h audio_packet (get_or r.1.buffers r.0 []) in
    let datagram = take (send_packet_size p a) buffer in
    let filled = record r.1 { header = h; buffers = set r.1.buffers r.0 buffer } in
    if send datagram
    then (record filled { header = increase_sequence_number h }, some (r.0, datagram))
    else (release_pool_buffer r.0 filled, none)

pub send_packet_direct :
    Bool → (List ℕ → Bool) → Settings → Audio → List ℕ → WebSender → WebSender × Option (ℕ × List ℕ)
unfolding send_in_buffer acquire_pool_buffer
send_packet_direct connected send p a audio_packet s =
    let r = send_in_buffer send p a audio_packet s (acquire_pool_buffer s) in
    if connected then r else (s, none)

-- WebRtcDataProtocol: the header, `mBuffer` and `mFullPacket`.
pub record WebRtcSender : Type 0 where
  pub header : DefaultHeaderStruct
  pub buffer : List ℕ
  pub full_packet : List ℕ

-- A round of the loop of `runSender`, with what `readAudioBuffer` reads: the state after it and what
-- `sendPacket` is given, `full_packet_size` bytes.
pub send_round : Settings → Audio → List ℕ → WebRtcSender → WebRtcSender × List ℕ
unfolding deinterleave put_header_in_outgoing_packet
send_round p a audio_packet s =
    let samples = a.buffer_size_in_samples in
    let size = samples * p.chans * p.smpl_size in
    let buffer =
      if ltb 1 p.chans then deinterleave p samples audio_packet 0 samples s.buffer else s.buffer in
    let src = if ltb 1 p.chans then buffer else audio_packet in
    let full_packet =
      put_header_in_outgoing_packet a s.header size src
      ++ drop (header_size + size) s.full_packet in
    (
      record {
        header = increase_sequence_number (fill_header_common_from_audio a s.header);
        buffer = buffer;
        full_packet = full_packet;
      },
      take p.full_packet_size full_packet,
    )

-- ===== src/Web.antt =====
-- src/webrtc/WebRtcDataProtocol.cpp and src/webtransport/WebTransportDataProtocol.cpp: the receiver of
-- the audio of a browser. A datagram is the list of its bytes. What JackTrip::writeAudioBuffer answers is a
-- parameter; it is given the audio, its length, the length of the gap before it and the number of the
-- packet. Values of type `int` are taken not to overflow.
pub mod Send
pub mod HostAudio
pub mod Receive
pub mod Counts
pub mod Timer
pub mod Packet
pub mod Written
pub mod RoundTrip
mod Tests
use jacktrip.Header.{
  DefaultHeaderStruct, Mismatch, peer_header, get_peer_sequence_number, get_peer_buffer_size,
  decode_num_outgoing_channels, check_peer_settings, header_size,
}
use jacktrip.Udp.Receive.{Settings, interleave, grow, lost_packets, is_out_of_order}
use jacktrip.Base.{
  Bool, List, Option, [], drop, false, if◌then◌else◌, leb, length, ltb, min, none, not, some, take,
  true, u32, ℕ, ◌%◌, ◌&&◌, ◌*◌, ◌+◌, ◌==◌, ◌||◌, ◌∷◌,
}

-- Which of the two classes.
pub data WebProtocol : Type 0 where
  web_rtc : WebProtocol
  web_transport : WebProtocol

pub record WebReceiver : Type 0 where
  pub initial_state : Bool
  pub tot_count : ℕ
  pub lost_count : ℕ
  pub out_of_order_count : ℕ
  pub revived_count : ℕ
  pub stat_count : ℕ
  pub last_seq_num : ℕ
  pub time_since_last_packet : ℕ
  pub buffer : List ℕ
  pub stop_signal_sent : Bool
  pub stopped : Bool

-- The arguments of `writeAudioBuffer`.
pub record AudioWrite : Type 0 where
  pub audio : List ℕ
  pub len : ℕ
  pub lost_len : ℕ
  pub seq : ℕ

-- What a call does besides changing the state: audio that is written, the report of
-- `checkPeerSettings`, and the signal that transmission ceases.
pub record Handed : Type 0 where
  pub write : Option AudioWrite
  pub report : List Mismatch
  pub ceased : Bool

abbrev pub nothing_handed : Handed
nothing_handed = record { write = none; report = []; ceased = false }

abbrev pub control_packet_size : ℕ
control_packet_size = 63

-- `lost`, the counters and the last number, if the packet is not out of order.
pub track : ℕ → WebReceiver → Option (ℕ × WebReceiver)
unfolding lost_packets is_out_of_order
track current s =
    let lost = lost_packets current s.last_seq_num in
    if s.initial_state
    then some (0, record s { initial_state = false; last_seq_num = current })
    else if is_out_of_order lost
    then none
    else some (
      lost,
      record s {
        lost_count = if lost == 0 then s.lost_count else u32 (s.lost_count + lost);
        tot_count = u32 (s.tot_count + (1 + lost));
        last_seq_num = current;
      },
    )

-- The header of the peer, if it is looked at.
pub settings_report :
    WebProtocol → Bool → DefaultHeaderStruct → List ℕ → WebReceiver → List Mismatch
settings_report web_rtc same own packet s = []
settings_report web_transport same own packet s =
    if s.tot_count == 1 then check_peer_settings same own (peer_header packet) else []

-- The audio that is written, and `mBuffer` after it.
pub host_audio : Settings → List ℕ → List ℕ → List ℕ × List ℕ
unfolding interleave grow
host_audio p packet buffer =
    let samples = get_peer_buffer_size packet in
    let size = samples * p.chans * p.smpl_size in
    let common = min p.chans (decode_num_outgoing_channels (peer_header packet)) in
    let src = drop header_size packet in
    let grown = grow size buffer in
    let buffer' = interleave p samples common src 0 samples grown in
    if p.chans == 1 then (take size src, grown) else (take size buffer', buffer')

-- Whether the samples that the header declares are in the packet.
pub is_whole : Settings → List ℕ → Bool
is_whole p packet =
    leb
      (header_size
        + get_peer_buffer_size packet
          * decode_num_outgoing_channels (peer_header packet)
          * p.smpl_size)
      (length packet)

-- Whether every byte is 0xFF.
pub is_exit : List ℕ → Bool
is_exit [] = true
is_exit (b ∷ bytes) = b == 255 && is_exit bytes

pub process_control_packet : WebProtocol → List ℕ → WebReceiver → WebReceiver × Handed
unfolding is_exit
process_control_packet web_rtc packet s =
    if is_exit packet && not s.stop_signal_sent
    then (record s { stop_signal_sent = true }, record { write = none; report = []; ceased = true })
    else (s, nothing_handed)
process_control_packet web_transport packet s =
    (record s { stopped = if is_exit packet then true else s.stopped }, nothing_handed)

-- The timer that the receiving thread watches: WebTransport does not reset it for a control packet.
pub reset_timer : WebProtocol → Bool → WebReceiver → WebReceiver
reset_timer web_rtc is_control s = record s { time_since_last_packet = 0 }
reset_timer web_transport is_control s =
    if is_control then s else record s { time_since_last_packet = 0 }

module _ (write : AudioWrite → Bool) where
  -- The part after the counters.
  pub write_packet : Settings → List ℕ → ℕ → List Mismatch → WebReceiver → WebReceiver × Handed
  unfolding host_audio is_whole
  write_packet p packet lost report s =
      let size = get_peer_buffer_size packet * p.chans * p.smpl_size in
      let a = host_audio p packet s.buffer in
      let w : AudioWrite = record {
        audio = a.0;
        len = size;
        lost_len = lost * size;
        seq = get_peer_sequence_number packet;
      } in
      if is_whole p packet
      then (
        record s { buffer = a.1; stopped = if write w then s.stopped else true },
        record { write = some w; report = report; ceased = false },
      )
      else (s, record { write = none; report = report; ceased = false })

  pub after_track :
      WebProtocol
      → Settings
      → Bool
      → DefaultHeaderStruct
      → List ℕ
      → WebReceiver
      → Option (ℕ × WebReceiver)
      → WebReceiver × Handed
  unfolding write_packet settings_report
  after_track protocol p same own packet s none =
      (record s { out_of_order_count = u32 (s.out_of_order_count + 1) }, nothing_handed)
  after_track protocol p same own packet s (some r) =
      write_packet p packet r.0 (settings_report protocol same own packet r.1) r.1

  -- `same` and `own` are what `checkPeerSettings` compares with.
  pub process_received_packet :
      WebProtocol
      → Settings
      → Bool
      → DefaultHeaderStruct
      → List ℕ
      → WebReceiver
      → WebReceiver × Handed
  unfolding after_track track
  process_received_packet protocol p same own packet s =
      after_track protocol p same own packet s (track (get_peer_sequence_number packet) s)

  -- `onDataChannelMessage` and `onDatagramReceived`, of a receiver.
  pub on_datagram_received :
      WebProtocol
      → Settings
      → Bool
      → DefaultHeaderStruct
      → List ℕ
      → WebReceiver
      → WebReceiver × Handed
  unfolding process_received_packet process_control_packet reset_timer
  on_datagram_received protocol p same own packet s =
      let is_control = length packet == control_packet_size in
      let s' = reset_timer protocol is_control s in
      if s.stopped
      then (s, nothing_handed)
      else if is_control
      then process_control_packet protocol packet s'
      else if ltb (length packet) header_size || p.chans == 0
      then (s', nothing_handed)
      else process_received_packet protocol p same own packet s'

abbrev pub udp_wait_timeout : ℕ
udp_wait_timeout = 512

abbrev pub client_gone_timeout_ms : ℕ
client_gone_timeout_ms = 10000

-- A round of `runReceiver` while the channel is open: whether it signals that it waits too long.
pub receiver_tick : WebReceiver → Bool × WebReceiver
receiver_tick s =
    let waited = s.time_since_last_packet + 10 in
    (waited % udp_wait_timeout == 0, record s { time_since_last_packet = waited })

-- `printWaitedTooLong`: whether it closes the channel, if that is open.
pub waited_too_long : ℕ → Bool
waited_too_long wait_msec = leb client_gone_timeout_ms wait_msec

-- `getStats`: the statistics total, lost, out of order, revived and count, and the state after it.
pub get_web_stats : WebProtocol → WebReceiver → (ℕ × ℕ × ℕ × ℕ × ℕ) × WebReceiver
get_web_stats web_transport s = (
  (s.tot_count, s.lost_count, s.out_of_order_count, s.revived_count, s.stat_count),
  record s { stat_count = u32 (s.stat_count + 1) },
)
get_web_stats web_rtc s =
    let s' =
      if s.stat_count == 0
      then record s { lost_count = 0; out_of_order_count = 0; revived_count = 0 }
      else s in
    (
      (s'.tot_count, s'.lost_count, s'.out_of_order_count, s'.revived_count, s'.stat_count),
      record s' { stat_count = u32 (s'.stat_count + 1) },
    )

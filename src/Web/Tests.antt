-- ===== src/Web/Tests.antt =====
-- The audio of a browser at concrete calls: stereo with 16 bits and two samples.
use jacktrip.Header.{
  DefaultHeaderStruct, Audio, peer_header, decode_num_outgoing_channels, get_number,
  get_peer_sequence_number, get_peer_buffer_size, get_peer_num_incoming_channels,
  get_peer_num_outgoing_channels, put_header_in_packet, put_number,
}
use jacktrip.Udp.Receive.{
  Settings, copy_bytes, interleave, copy_channels, grow, lost_packets, is_out_of_order,
}
use jacktrip.Web.{
  WebReceiver, AudioWrite, web_transport, web_rtc, on_datagram_received, receiver_tick,
  waited_too_long, host_audio, is_whole, track,
}
use jacktrip.Web.Receive.{Samples, on_datagram_received-Samples}
use jacktrip.Web.Counts.{Counts, ahead, receive_all, receive_all-Counts}
use jacktrip.Web.Timer.{rounds_later, rounds_later_lem}
use jacktrip.Web.Send.{WebRtcSender, send_packet_direct, send_round}
use jacktrip.Web.Send.Held.{PoolEvent, send_event, done_event, pool_events}
use jacktrip.Web.Send.Flight.{new_flight, Exclusive, pool_events-Exclusive}
use jacktrip.Web.Packet.{Sendable}
use jacktrip.Web.RoundTrip.{Follows, on_datagram_received-send_round}
use jacktrip.Base.{
  All, IsByte, List, [], arith, false, refl, replicate, some, true, ℕ, ◌%◌, ◌&&◌, ◌+◌, ◌↔◌, ◌∷◌,
  ◌≡◌, ◌≤◌,
}

abbrev pub stereo : Settings
stereo = record {
  chans = 2;
  smpl_size = 2;
  redundancy_factor = 1;
  full_packet_size = 24;
  full_redundant_packet_size = 24;
}

abbrev pub header : DefaultHeaderStruct
header = record {
  time_stamp = 0;
  seq_number = 7;
  buffer_size = 2;
  sampling_rate = 3;
  bit_resolution = 16;
  num_incoming_channels_from_net = 2;
  num_outgoing_channels_to_net = 0;
}

abbrev pub settings : Audio
settings = record {
  usec_time = 1000;
  buffer_size_in_samples = 2;
  sample_rate_type = 3;
  audio_bit_resolution = 16;
  num_input_channels = 2;
  num_output_channels = 2;
}

abbrev pub frames : List ℕ
frames = 1 ∷ 2 ∷ 11 ∷ 12 ∷ 3 ∷ 4 ∷ 13 ∷ 14 ∷ []

abbrev pub frames-Sendable : Sendable stereo settings frames
frames-Sendable = record {
  chans_same = refl;
  chans_pos = omega arith;
  chans_lt = omega arith;
  samples_lt = omega arith;
  whole = refl;
}

-- The last packet had the number 4.
abbrev pub receiver : WebReceiver
receiver = record {
  initial_state = false;
  tot_count = 5;
  lost_count = 0;
  out_of_order_count = 0;
  revived_count = 0;
  stat_count = 0;
  last_seq_num = 4;
  time_since_last_packet = 0;
  buffer = [];
  stop_signal_sent = false;
  stopped = false;
}

abbrev pub receiver-Follows : Follows 2 7 receiver
receiver-Follows = record {
  running = refl;
  started = refl;
  last_lt = omega arith;
  lost_le = omega arith;
  number = refl;
}

-- The header with the time 1000 and the number 7, and the two channels.
abbrev pub datagram : List ℕ
datagram =
    232 ∷ 3 ∷ 0 ∷ 0 ∷ 0 ∷ 0 ∷ 0 ∷ 0 ∷ 7 ∷ 0 ∷ 2 ∷ 0 ∷ 3 ∷ 16 ∷ 2 ∷ 0 ∷ 1 ∷ 2 ∷ 3 ∷ 4 ∷ 11 ∷ 12 ∷ 13
    ∷ 14 ∷ []

abbrev pub written : AudioWrite
written = record { audio = frames; len = 8; lost_len = 16; seq = 7 }

abbrev browser : WebRtcSender
browser = record { header = header; buffer = replicate 8 0; full_packet = replicate 24 0 }

on_datagram_received-send_round_example :
    (on_datagram_received
      (λ w. true)
      web_rtc
      stereo
      true
      header
      (send_round stereo settings frames browser).1
      receiver).1.write
    ≡ some written
on_datagram_received-send_round_example =
    on_datagram_received-send_round (λ w. true) web_rtc stereo true header settings frames 2
      receiver browser frames-Sendable receiver-Follows (omega arith) refl
      (λ e. absurd (omega (arith, e)))

on_datagram_received-Samples_example : Samples stereo datagram written
unfolding decode_num_outgoing_channels peer_header get_peer_num_incoming_channels
    get_peer_num_outgoing_channels get_number get_peer_sequence_number get_peer_buffer_size
    on_datagram_received host_audio is_whole track interleave copy_channels copy_bytes grow
    lost_packets is_out_of_order
on_datagram_received-Samples_example =
    on_datagram_received-Samples (λ w. true) web_rtc stereo true header datagram receiver written
      (omega arith) refl

-- Both channel counts of the header are 0: a call for one channel writes 4 bytes of a packet that has
-- only its header.
abbrev no_channels : List ℕ
no_channels = put_header_in_packet (record header { num_incoming_channels_from_net = 0 })

abbrev mono : Settings
mono = record stereo { chans = 1 }

no_channels_write :
    (on_datagram_received (λ w. true) web_rtc mono true header no_channels receiver).1.write
    ≡ some (record { audio = []; len = 4; lost_len = 8; seq = 7 })
unfolding decode_num_outgoing_channels peer_header get_peer_num_incoming_channels
    get_peer_num_outgoing_channels get_number get_peer_sequence_number get_peer_buffer_size
    on_datagram_received host_audio is_whole track interleave copy_channels copy_bytes grow
    lost_packets is_out_of_order put_header_in_packet put_number
no_channels_write = refl

receive_all-Counts_example :
    Counts
      (ahead receiver)
      (receive_all (λ w. true) web_transport stereo true header (datagram ∷ datagram ∷ []) receiver)
receive_all-Counts_example =
    receive_all-Counts (λ w. true) web_transport stereo true header (datagram ∷ datagram ∷ [])
      receiver (bytes, (bytes, tt)) refl (omega arith)
  where
    bytes : All IsByte datagram
    bytes = omega arith

rounds_later_lem_example :
    (((receiver_tick (rounds_later 1023 receiver)).0 ≡ true) ↔ ((1023 + 1) % 256 ≡ 0))
    × (((receiver_tick (rounds_later 1023 receiver)).0
            && waited_too_long (receiver_tick (rounds_later 1023 receiver)).1.time_since_last_packet
          ≡ true)
        ↔ (((1023 + 1) % 256 ≡ 0) × (1024 ≤ 1023 + 1)))
rounds_later_lem_example = rounds_later_lem 1023 receiver refl

-- Two packets are sent, and the first one is completed.
abbrev pool_calls : List PoolEvent
pool_calls =
    send_event true true settings frames ∷ send_event true true settings frames ∷ done_event 0 ∷ []

pool_events-Exclusive_example :
    Exclusive
      (pool_events stereo pool_calls (new_flight 24 header)).held
      (send_packet_direct true
        (λ d. true)
        stereo
        settings
        frames
        (pool_events stereo pool_calls (new_flight 24 header)).sender).1
pool_events-Exclusive_example = pool_events-Exclusive stereo 24 header pool_calls settings frames

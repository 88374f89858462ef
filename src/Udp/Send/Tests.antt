-- ===== src/Udp/Send/Tests.antt =====
-- A sender of two packets per datagram.
use jacktrip.Base.{List, [], arith, refl, replicate, u16, ℕ, ◌+◌, ◌-◌, ◌^◌, ◌∷◌}
use jacktrip.Header.{Audio}
use jacktrip.Udp.Receive.{Settings, seq_at}
use jacktrip.Udp.Receive.Select.{Descends}
use jacktrip.Udp.Send.{Sender}
use jacktrip.Udp.Send.Numbers.{send_all, send_all-Descends}

abbrev mono_pair : Settings
mono_pair = record {
  chans = 1;
  smpl_size = 1;
  redundancy_factor = 2;
  full_packet_size = 18;
  full_redundant_packet_size = 36;
}

abbrev two_samples : Audio
two_samples = record {
  usec_time = 1700000000000000;
  buffer_size_in_samples = 2;
  sample_rate_type = 3;
  audio_bit_resolution = 8;
  num_input_channels = 1;
  num_output_channels = 1;
}

-- The number of the next packet is the last one before the wrap.
abbrev fresh : Sender
fresh = record {
  header = record {
    time_stamp = 0;
    seq_number = 65535;
    buffer_size = 0;
    sampling_rate = 0;
    bit_resolution = 0;
    num_incoming_channels_from_net = 0;
    num_outgoing_channels_to_net = 0;
  };
  redundant_packet = replicate 36 0;
  buffer = [];
}

abbrev two_calls : List (Audio × List ℕ)
two_calls = (two_samples, 1 ∷ 2 ∷ []) ∷ (two_samples, 3 ∷ 4 ∷ []) ∷ []

send_all-Descends_example :
    Descends
      (seq_at mono_pair (send_all mono_pair 2 two_calls fresh).redundant_packet)
      (u16 ((send_all mono_pair 2 two_calls fresh).header.seq_number + (2 ^ 16 - 1)))
      2
send_all-Descends_example =
    send_all-Descends mono_pair 2 two_calls fresh refl (omega arith) (omega arith)
      (omega arith, (omega arith, tt)) (omega arith) (omega arith)

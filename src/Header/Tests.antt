-- ===== src/Header/Tests.antt =====
-- Headers at concrete settings.
use jacktrip.Base.{
  [], arith, inl, inr, length, refl, true, ◌*◌, ◌++◌, ◌+◌, ◌/◌, ◌<◌, ◌^◌, ◌↔◌, ◌∷◌, ◌≡◌, ◌≤◌,
}
use jacktrip.Header.{
  DefaultHeaderStruct, Audio, put_header_in_packet, peer_header, header_size,
  fill_header_common_from_audio, effective_chans, min_packet_size, validate_peer_header,
  decode_num_outgoing_channels,
}
use jacktrip.Header.Layout.{peer_header-put_header_in_packet}
use jacktrip.Header.Validate.{
  Describes, said, validate_peer_header_iff, validate_peer_header-reads, fill-validate_peer_header,
}

-- 128 samples of two channels of 16 bits at 48 kHz.
abbrev stereo : DefaultHeaderStruct
stereo = record {
  time_stamp = 1700000000000000;
  seq_number = 513;
  buffer_size = 128;
  sampling_rate = 3;
  bit_resolution = 16;
  num_incoming_channels_from_net = 2;
  num_outgoing_channels_to_net = 0;
}

abbrev stereo_audio : Audio
stereo_audio = record {
  usec_time = 1700000000000000;
  buffer_size_in_samples = 128;
  sample_rate_type = 3;
  audio_bit_resolution = 16;
  num_input_channels = 1;
  num_output_channels = 2;
}

peer_header-put_header_in_packet_example :
    (peer_header (put_header_in_packet stereo ++ (7 ∷ [])) ≡ stereo)
    × (length (put_header_in_packet stereo) ≡ header_size)
peer_header-put_header_in_packet_example =
    peer_header-put_header_in_packet stereo (7 ∷ [])
      (record { time_lt = omega arith; seq_lt = omega arith; buffer_lt = omega arith })

validate_peer_header_iff_example : (validate_peer_header stereo 528 ≡ true) ↔ Describes stereo 528
validate_peer_header_iff_example = validate_peer_header_iff stereo 528

stereo_valid : validate_peer_header stereo 528 ≡ true
unfolding validate_peer_header
stereo_valid = refl

stereo_chans : 1 < effective_chans stereo
unfolding effective_chans
stereo_chans = omega arith

validate_peer_header-reads_example :
    (header_size + ((127 + 1 * stereo.buffer_size) * (stereo.bit_resolution / 8) + 1) < 528)
    × (min_packet_size stereo ≤ 2 ^ 22)
validate_peer_header-reads_example =
    validate_peer_header-reads stereo 528 1 127 1 stereo_valid stereo_chans (omega arith)
      (omega arith)

fill-validate_peer_header_example :
    (validate_peer_header (fill_header_common_from_audio stereo_audio stereo) 272 ≡ true)
    × (effective_chans (fill_header_common_from_audio stereo_audio stereo)
        ≡ stereo_audio.num_input_channels)
    × (decode_num_outgoing_channels (fill_header_common_from_audio stereo_audio stereo)
        ≡ said stereo_audio.num_input_channels)
fill-validate_peer_header_example =
    fill-validate_peer_header stereo_audio stereo 272 (omega arith) (omega arith) (omega arith)
      (omega arith) (omega arith) (inr (inl refl)) (omega arith)

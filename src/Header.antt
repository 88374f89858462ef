-- ===== src/Header.antt =====
-- src/PacketHeader.h and src/PacketHeader.cpp: the header of a UDP packet. A packet is the list of
-- its bytes; the header stands in it as the 16 bytes of the struct on a little-endian machine.
pub mod Layout
pub mod Validate
pub mod Settings
pub mod JamLink
mod Tests
use jacktrip.Base.{
  Bool, List, [], drop, false, if◌then◌else◌, ltb, not, suc, u16, u8, zero, ℕ, ◌%◌, ◌&&◌, ◌*◌, ◌++◌,
  ◌+◌, ◌/◌, ◌==◌, ◌^◌, ◌||◌, ◌∷◌,
}
use jacktrip.Audio.{SamplingRateT, sr22, sr32, sr44, sr48, sr88, sr96, sr192, undef}

-- DefaultHeaderStruct
pub record DefaultHeaderStruct : Type 0 where
  pub time_stamp : ℕ
  pub seq_number : ℕ
  pub buffer_size : ℕ
  pub sampling_rate : ℕ
  pub bit_resolution : ℕ
  pub num_incoming_channels_from_net : ℕ
  pub num_outgoing_channels_to_net : ℕ

-- The bytes of a number, the lowest first.
unfoldable pub put_number : ℕ → ℕ → List ℕ
put_number zero n = []
put_number (suc bytes) n = n % 256 ∷ put_number bytes (n / 256)

unfoldable pub get_number : ℕ → List ℕ → ℕ
get_number zero packet = 0
get_number (suc bytes) [] = 0
get_number (suc bytes) (b ∷ packet) = b + 256 * get_number bytes packet

-- The struct as it is copied to the front of a packet.
unfoldable pub put_header_in_packet : DefaultHeaderStruct → List ℕ
unfolding put_number
put_header_in_packet h =
    put_number 8 h.time_stamp
    ++ (put_number 2 h.seq_number
        ++ (put_number 2 h.buffer_size
            ++ (h.sampling_rate ∷ h.bit_resolution ∷ h.num_incoming_channels_from_net
                ∷ h.num_outgoing_channels_to_net ∷ [])))

abbrev pub header_size : ℕ
header_size = 16

unfoldable pub get_peer_time_stamp : List ℕ → ℕ
unfolding get_number
get_peer_time_stamp packet = get_number 8 packet

unfoldable pub get_peer_sequence_number : List ℕ → ℕ
unfolding get_number
get_peer_sequence_number packet = get_number 2 (drop 8 packet)

unfoldable pub get_peer_buffer_size : List ℕ → ℕ
unfolding get_number
get_peer_buffer_size packet = get_number 2 (drop 10 packet)

unfoldable pub get_peer_sampling_rate : List ℕ → ℕ
unfolding get_number
get_peer_sampling_rate packet = get_number 1 (drop 12 packet)

unfoldable pub get_peer_bit_resolution : List ℕ → ℕ
unfolding get_number
get_peer_bit_resolution packet = get_number 1 (drop 13 packet)

unfoldable pub get_peer_num_incoming_channels : List ℕ → ℕ
unfolding get_number
get_peer_num_incoming_channels packet = get_number 1 (drop 14 packet)

unfoldable pub get_peer_num_outgoing_channels : List ℕ → ℕ
unfolding get_number
get_peer_num_outgoing_channels packet = get_number 1 (drop 15 packet)

-- `reinterpret_cast<DefaultHeaderStruct*>(full_packet)`
unfoldable pub peer_header : List ℕ → DefaultHeaderStruct
unfolding get_peer_time_stamp get_peer_sequence_number get_peer_buffer_size get_peer_sampling_rate
    get_peer_bit_resolution get_peer_num_incoming_channels get_peer_num_outgoing_channels
peer_header packet = record {
  time_stamp = get_peer_time_stamp packet;
  seq_number = get_peer_sequence_number packet;
  buffer_size = get_peer_buffer_size packet;
  sampling_rate = get_peer_sampling_rate packet;
  bit_resolution = get_peer_bit_resolution packet;
  num_incoming_channels_from_net = get_peer_num_incoming_channels packet;
  num_outgoing_channels_to_net = get_peer_num_outgoing_channels packet;
}

-- What the header is filled from: the clock and the getters of `JackTrip`.
pub record Audio : Type 0 where
  pub usec_time : ℕ
  pub buffer_size_in_samples : ℕ
  pub sample_rate_type : ℕ
  pub audio_bit_resolution : ℕ
  pub num_input_channels : ℕ
  pub num_output_channels : ℕ

unfoldable pub fill_header_common_from_audio : Audio → DefaultHeaderStruct → DefaultHeaderStruct
fill_header_common_from_audio a h = record h {
  time_stamp = a.usec_time % 2 ^ 64;
  buffer_size = u16 a.buffer_size_in_samples;
  sampling_rate = u8 a.sample_rate_type;
  bit_resolution = u8 a.audio_bit_resolution;
  num_incoming_channels_from_net = u8 a.num_output_channels;
  num_outgoing_channels_to_net =
      if a.num_input_channels == a.num_output_channels
      then 0
      else if 0 == a.num_input_channels
      then 255
      else u8 a.num_input_channels;
}

unfoldable pub increase_sequence_number : DefaultHeaderStruct → DefaultHeaderStruct
increase_sequence_number h = record h { seq_number = u16 (h.seq_number + 1) }

-- `validatePeerHeader`: the channels of audio in the packet.
pub effective_chans : DefaultHeaderStruct → ℕ
effective_chans h =
    if h.num_outgoing_channels_to_net == 0
    then h.num_incoming_channels_from_net
    else if h.num_outgoing_channels_to_net == 255
    then 0
    else h.num_outgoing_channels_to_net

abbrev pub max_buffer_size_in_samples : ℕ
max_buffer_size_in_samples = 4096

abbrev pub max_audio_channels : ℕ
max_audio_channels = 128

pub min_packet_size : DefaultHeaderStruct → ℕ
unfolding effective_chans
min_packet_size h = header_size + h.buffer_size * effective_chans h * (h.bit_resolution / 8)

pub validate_peer_header : DefaultHeaderStruct → ℕ → Bool
unfolding min_packet_size
validate_peer_header h received_bytes =
    if ltb received_bytes header_size
    then false
    else if h.buffer_size == 0 || ltb max_buffer_size_in_samples h.buffer_size
    then false
    else if h.num_incoming_channels_from_net == 0
        || ltb max_audio_channels h.num_incoming_channels_from_net
    then false
    else if not (h.num_outgoing_channels_to_net == 0)
        && not (h.num_outgoing_channels_to_net == 255)
        && ltb max_audio_channels h.num_outgoing_channels_to_net
    then false
    else if not (h.bit_resolution == 8)
        && not (h.bit_resolution == 16)
        && not (h.bit_resolution == 24)
        && not (h.bit_resolution == 32)
    then false
    else not (ltb received_bytes (min_packet_size h))

-- The settings that differ, in the order of the report.
pub data Mismatch : Type 0 where
  buffer_sizes : Mismatch
  sampling_rates : Mismatch
  bit_resolutions : Mismatch

-- `checkPeerSettings`: what the report that `signalError` carries is about; the result is whether
-- there is nothing in it.
pub check_peer_settings : Bool → DefaultHeaderStruct → DefaultHeaderStruct → List Mismatch
check_peer_settings buffer_requires_same_settings own peer =
    (if not (peer.buffer_size == own.buffer_size) && buffer_requires_same_settings
      then buffer_sizes ∷ []
      else [])
    ++ ((if peer.sampling_rate == own.sampling_rate then [] else sampling_rates ∷ [])
        ++ (if peer.bit_resolution == own.bit_resolution then [] else bit_resolutions ∷ []))

-- `JackTrip::getPeerNumOutgoingChannels`
unfoldable pub decode_num_outgoing_channels : DefaultHeaderStruct → ℕ
decode_num_outgoing_channels h =
    if 0 == h.num_outgoing_channels_to_net
    then h.num_incoming_channels_from_net
    else h.num_outgoing_channels_to_net

-- What `JamLinkHeader::fillHeaderCommonFromAudio` may signal.
pub data JamLinkError : Type 0 where
  one_channel_only : JamLinkError
  rate_48_only : JamLinkError
  buffer_64_only : JamLinkError
  rate_not_supported : JamLinkError

-- `ETX_XTND | ETX_MONO | ETX_16BIT`, with 64 samples
abbrev pub jam_link_common : ℕ
jam_link_common = 2 ^ 14 + 64

-- The switch on the rate: the field `Common` and what it signals. The bits of the rate are clear
-- before the `|`.
pub jam_link_rate : SamplingRateT → ℕ × List JamLinkError
jam_link_rate sr48 = (jam_link_common + 0 * 2 ^ 9, [])
jam_link_rate sr44 = (jam_link_common + 1 * 2 ^ 9, [])
jam_link_rate sr32 = (jam_link_common + 2 * 2 ^ 9, [])
jam_link_rate sr22 = (jam_link_common + 4 * 2 ^ 9, [])
jam_link_rate t = (jam_link_common, rate_not_supported ∷ [])

-- `rate_type != AudioInterface::SR48`
pub not_sr48 : SamplingRateT → List JamLinkError
not_sr48 sr48 = []
not_sr48 t = rate_48_only ∷ []

pub jam_link_fill : Audio → SamplingRateT → ℕ × List JamLinkError
unfolding jam_link_rate not_sr48
jam_link_fill a rate_type =
    let r = jam_link_rate rate_type in
    (
      r.0,
      (if a.num_input_channels == 1 then [] else one_channel_only ∷ [])
          ++ (not_sr48 rate_type
              ++ ((if a.buffer_size_in_samples == 64 then [] else buffer_64_only ∷ []) ++ r.1)),
    )

-- ===== src/Header/Validate.antt =====
-- What `validatePeerHeader` lets through.

use native.Mathlib.Nat.{mul-le-mul, add-mul, mul_comm}
use jacktrip.Base.{
  ap, arith, if◌then◌else◌, true, u16, u8, ℕ, ℕ_discrete, ◌*◌, ◌+◌, ◌-◌, ◌/◌, ◌<◌, ◌==◌, ◌^◌, ◌↔◌,
  ◌≡◌, ◌≢◌, ◌≤◌, ◌⊎◌,
}
use jacktrip.Header.{
  DefaultHeaderStruct, Audio, fill_header_common_from_audio, effective_chans, header_size,
  min_packet_size, validate_peer_header, decode_num_outgoing_channels,
}

-- A resolution that the program has.
abbrev pub IsResolution : ℕ → Type 0
IsResolution bits = (bits ≡ 8) ⊎ (bits ≡ 16) ⊎ (bits ≡ 24) ⊎ (bits ≡ 32)

-- The bounds that a validated header keeps.
record Valid (h : DefaultHeaderStruct) (received_bytes : ℕ) : Type 0 where
  buffer_pos : 0 < h.buffer_size
  buffer_le : h.buffer_size ≤ 4096
  incoming_pos : 0 < h.num_incoming_channels_from_net
  incoming_le : h.num_incoming_channels_from_net ≤ 128
  chans_le : effective_chans h ≤ 128
  resolution : IsResolution h.bit_resolution
  enough : min_packet_size h ≤ received_bytes

validate-Valid :
    (h : DefaultHeaderStruct) (received_bytes : ℕ)
    → validate_peer_header h received_bytes ≡ true
    → Valid h received_bytes
unfolding validate_peer_header effective_chans
validate-Valid h n e = record {
  buffer_pos = ground arith;
  buffer_le = ground arith;
  incoming_pos = ground arith;
  incoming_le = ground arith;
  chans_le = ground arith;
  resolution = ground arith;
  enough = ground arith;
}

header_le : (h : DefaultHeaderStruct) → header_size ≤ min_packet_size h
unfolding min_packet_size
header_le h = omega arith

Valid-validate :
    (h : DefaultHeaderStruct) (received_bytes : ℕ)
    → Valid h received_bytes
    → validate_peer_header h received_bytes ≡ true
unfolding validate_peer_header effective_chans
Valid-validate h n v = let le = header_le h in let b = v.buffer_pos in ground arith

-- The byte `k` of the sample `n` of the channel `c` lies within the audio.
sample_lt :
    (samples chans width c n k : ℕ)
    → c < chans
    → n < samples
    → k < width
    → (n + c * samples) * width + k < samples * chans * width
sample_lt samples chans width c n k hc hn hk =
    let place : n + c * samples + 1 ≤ samples * chans = omega (
      arith,
      mul-le-mul {n₁ = c + 1} {m₁ = samples} {n₂ = chans} {m₂ = samples} (omega arith)
          (omega arith),
      add-mul c 1 samples,
      mul_comm chans samples,
    ) in
    omega (
      arith,
      mul-le-mul {n₁ = n + c * samples + 1} {m₁ = width} {n₂ = samples * chans} {m₂ = width} place
          (omega arith),
      add-mul (n + c * samples) 1 width,
    )

-- In a packet that `validatePeerHeader` accepts every sample of every channel of the audio lies
-- within the bytes that were received, and the size that it computes is far from overflow.
pub validate_peer_header-reads :
    (h : DefaultHeaderStruct) (received_bytes c n k : ℕ)
    → validate_peer_header h received_bytes ≡ true
    → c < effective_chans h
    → n < h.buffer_size
    → k < h.bit_resolution / 8
    → (header_size + ((n + c * h.buffer_size) * (h.bit_resolution / 8) + k) < received_bytes)
      × (min_packet_size h ≤ 2 ^ 22)
unfolding min_packet_size
validate_peer_header-reads h received c n k e hc hn hk =
    let v = validate-Valid h received e in
    let lt = sample_lt h.buffer_size (effective_chans h) (h.bit_resolution / 8) c n k hc hn hk in
    let enough = v.enough in
    let area =
      mul-le-mul {n₁ = h.buffer_size} {m₁ = effective_chans h} {n₂ = 4096} {m₂ = 128} v.buffer_le
        v.chans_le in
    let width : h.bit_resolution / 8 ≤ 4 = let r = v.resolution in ground arith in
    let volume =
      mul-le-mul {n₁ = h.buffer_size * effective_chans h} {m₁ = h.bit_resolution / 8}
        {n₂ = 4096 * 128} {m₂ = 4} area width in
    (omega arith, omega arith)

-- What a header says of the audio that follows it: its ranges, the number of channels, which is that
-- of the incoming ones for a 0 and none for a 255, and that the header and every byte of every sample
-- of every channel are among the bytes received.
pub record Describes (h : DefaultHeaderStruct) (received_bytes : ℕ) : Type 0 where
  pub chans : ℕ
  pub chans_are :
      ((h.num_outgoing_channels_to_net ≡ 0) × (chans ≡ h.num_incoming_channels_from_net))
      ⊎ ((h.num_outgoing_channels_to_net ≡ 255) × (chans ≡ 0))
      ⊎ ((h.num_outgoing_channels_to_net ≢ 0)
          × (h.num_outgoing_channels_to_net ≢ 255)
          × (chans ≡ h.num_outgoing_channels_to_net))
  pub samples_pos : 0 < h.buffer_size
  pub samples_le : h.buffer_size ≤ 4096
  pub from_net_pos : 0 < h.num_incoming_channels_from_net
  pub from_net_le : h.num_incoming_channels_from_net ≤ 128
  pub channels_le : chans ≤ 128
  pub bits : IsResolution h.bit_resolution
  pub header_in : 16 ≤ received_bytes
  pub sample_in :
      (c n k : ℕ)
      → c < chans
      → n < h.buffer_size
      → k < h.bit_resolution / 8
      → 16 + ((n + c * h.buffer_size) * (h.bit_resolution / 8) + k) < received_bytes

effective_chans_lem :
    (h : DefaultHeaderStruct)
    → ((h.num_outgoing_channels_to_net ≡ 0)
        × (effective_chans h ≡ h.num_incoming_channels_from_net))
      ⊎ ((h.num_outgoing_channels_to_net ≡ 255) × (effective_chans h ≡ 0))
      ⊎ ((h.num_outgoing_channels_to_net ≢ 0)
          × (h.num_outgoing_channels_to_net ≢ 255)
          × (effective_chans h ≡ h.num_outgoing_channels_to_net))
unfolding effective_chans
effective_chans_lem h = ground arith

validate-Describes :
    (h : DefaultHeaderStruct) (received_bytes : ℕ)
    → validate_peer_header h received_bytes ≡ true
    → Describes h received_bytes
unfolding min_packet_size
validate-Describes h received e =
    let v = validate-Valid h received e in
    let enough = v.enough in
    record {
      chans = effective_chans h;
      chans_are = effective_chans_lem h;
      samples_pos = v.buffer_pos;
      samples_le = v.buffer_le;
      from_net_pos = v.incoming_pos;
      from_net_le = v.incoming_le;
      channels_le = v.chans_le;
      bits = v.resolution;
      header_in = omega (arith, enough);
      sample_in = λ c n k hc hn hk. omega (
        arith,
        enough,
        sample_lt h.buffer_size (effective_chans h) (h.bit_resolution / 8) c n k hc hn hk,
      );
    }

-- The place after the last byte of the last sample.
last_place :
    (samples chans width : ℕ)
    → 0 < samples
    → 0 < chans
    → 0 < width
    → (samples - 1 + (chans - 1) * samples) * width + (width - 1) + 1 ≡ samples * chans * width
last_place samples chans width s c w =
    let place : samples - 1 + (chans - 1) * samples + 1 ≡ samples * chans = omega (
      arith,
      ap (λ m. m * samples) (before_last chans c),
      add-mul (chans - 1) 1 samples,
      mul_comm chans samples,
    ) in
    omega (arith, ap (λ m. m * width) place, add-mul (samples - 1 + (chans - 1) * samples) 1 width)
  where
    before_last : (m : ℕ) → 0 < m → m ≡ m - 1 + 1
    before_last m l = omega arith

Describes-Valid :
    (h : DefaultHeaderStruct) (received_bytes : ℕ)
    → Describes h received_bytes
    → Valid h received_bytes
unfolding min_packet_size
Describes-Valid h received d =
    let same : effective_chans h ≡ d.chans =
      let are = effective_chans_lem h in let said_are = d.chans_are in ground arith in
    let width : 0 < h.bit_resolution / 8 = let r = d.bits in ground arith in
    record {
      buffer_pos = d.samples_pos;
      buffer_le = d.samples_le;
      incoming_pos = d.from_net_pos;
      incoming_le = d.from_net_le;
      chans_le = rw same d.channels_le;
      resolution = d.bits;
      enough = rw same (elim (ℕ_discrete d.chans 0) [
        | yes e ↦ rw e (omega (arith, d.header_in))
        | no p ↦
            let chans_pos : 0 < d.chans = omega (arith, p) in
            let last =
              d.sample_in (d.chans - 1) (h.buffer_size - 1) (h.bit_resolution / 8 - 1)
                (omega (arith, chans_pos)) (omega (arith, d.samples_pos)) (omega (arith, width)) in
            omega (
              arith,
              last,
              last_place h.buffer_size d.chans (h.bit_resolution / 8) d.samples_pos chans_pos width,
            )
      ]);
    }

-- A packet passes `validatePeerHeader` exactly if its header is received and has a buffer of 1 to 4096
-- samples, 1 to 128 incoming channels, at most 128 channels of audio and a resolution of 8, 16, 24 or
-- 32 bits, and every byte of every sample of these channels, laid out channel after channel behind
-- the header, is among the bytes received.
pub validate_peer_header_iff :
    (h : DefaultHeaderStruct) (received_bytes : ℕ)
    → (validate_peer_header h received_bytes ≡ true) ↔ Describes h received_bytes
validate_peer_header_iff h n =
    (validate-Describes h n, λ d. Valid-validate h n (Describes-Valid h n d))

-- The number of channels that a peer with no outgoing audio is said to have.
abbrev pub said : ℕ → ℕ
said inputs = if inputs == 0 then 255 else inputs

-- A header filled from 1 to 4096 samples, up to 128 inputs, 1 to 128 outputs and a resolution of
-- the program passes `validatePeerHeader` at the peer, in any packet that holds the audio of its
-- inputs; the peer finds the number of inputs in it, and `getPeerNumOutgoingChannels` gives that
-- number too, but 255 where there is no input.
pub fill-validate_peer_header :
    (a : Audio) (h : DefaultHeaderStruct) (received_bytes : ℕ)
    → 0 < a.buffer_size_in_samples
    → a.buffer_size_in_samples ≤ 4096
    → a.num_input_channels ≤ 128
    → 0 < a.num_output_channels
    → a.num_output_channels ≤ 128
    → IsResolution a.audio_bit_resolution
    → header_size + a.buffer_size_in_samples * a.num_input_channels * (a.audio_bit_resolution / 8)
      ≤ received_bytes
    → (validate_peer_header (fill_header_common_from_audio a h) received_bytes ≡ true)
      × (effective_chans (fill_header_common_from_audio a h) ≡ a.num_input_channels)
      × (decode_num_outgoing_channels (fill_header_common_from_audio a h)
          ≡ said a.num_input_channels)
unfolding fill_header_common_from_audio effective_chans decode_num_outgoing_channels
fill-validate_peer_header a h received b0 b1 i1 o0 o1 res enough =
    let g = fill_header_common_from_audio a h in
    let chans : effective_chans g ≡ a.num_input_channels = ground arith in
    let bits : u8 a.audio_bit_resolution ≡ a.audio_bit_resolution = ground arith in
    let samples : u16 a.buffer_size_in_samples ≡ a.buffer_size_in_samples = omega arith in
    (
      Valid-validate g received (record {
        buffer_pos = omega arith;
        buffer_le = omega arith;
        incoming_pos = omega arith;
        incoming_le = omega arith;
        chans_le = omega arith;
        resolution = rw bits res;
        enough = unfold min_packet_size in rw (chans, bits, samples) enough;
      }),
      chans,
      ground arith,
    )

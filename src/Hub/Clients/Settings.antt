-- ===== src/Hub/Clients/Settings.antt =====
-- The channels that a hub opens for a client.
use jacktrip.Header.Validate.{said}
use jacktrip.Header.{
  DefaultHeaderStruct, Audio, put_header_in_packet, peer_header, fill_header_common_from_audio,
  decode_num_outgoing_channels,
}
use jacktrip.Header.Layout.{Fits, peer_header-put_header_in_packet}
use jacktrip.Hub.Clients.{PeerSettings, refused, channels, process_peer_settings, settings_for}
use jacktrip.Base.{
  Bool-cases, List, ap, ap₂, arith, false, inl, inr, ltb, not, true, u16, u8, ℕ, ◌&&◌, ◌++◌, ◌<◌,
  ◌==◌, ◌^◌, ◌||◌, ◌∙◌, ◌≡◌, ◌≤◌,
}

unfoldable pub InRange : PeerSettings → Type 0
InRange refused = Unit
InRange (channels incoming outgoing) = (0 < incoming) × (incoming ≤ 128) × (outgoing ≤ 128)

settings_for-InRange :
    (samples incoming outgoing : ℕ) → InRange (settings_for samples incoming outgoing)
unfolding InRange settings_for
settings_for-InRange samples incoming outgoing =
    elim (Bool-cases (samples == 0 || ltb 4096 samples)) [
      | inl e ↦ rw e tt
      | inr e ↦ elim (Bool-cases (ltb incoming 1 || ltb 128 incoming)) [
        | inl f ↦ rw (e, f) tt
        | inr f ↦
            elim (Bool-cases (not (outgoing == 0) && not (outgoing == 255) && ltb 128 outgoing)) [
              | inl g ↦ rw (e, f, g) tt
              | inr g ↦ elim (Bool-cases (0 == outgoing)) [
                | inl d ↦ rw (e, f, g, d) (ground (arith, f), ground (arith, f), ground (arith, f))
                | inr d ↦ elim (Bool-cases (255 == outgoing)) [
                  | inl k ↦ rw (e, f, g, d, k) (ground (arith, f), ground (arith, f), omega arith)
                  | inr k ↦
                      rw (e, f, g, d, k)
                        (ground (arith, f), ground (arith, f), ground (arith, d, k, g))
                ]
              ]
            ]
      ]
    ]

settings_for_inputs :
    (samples incoming inputs : ℕ)
    → 0 < samples
    → samples ≤ 4096
    → 0 < incoming
    → incoming ≤ 128
    → inputs ≤ 128
    → settings_for samples incoming (said inputs) ≡ channels incoming inputs
unfolding settings_for
settings_for_inputs samples incoming inputs b0 b1 o0 o1 i1 =
    let t1 : (samples == 0 || ltb 4096 samples) ≡ false = ground arith in
    let t2 : (ltb incoming 1 || ltb 128 incoming) ≡ false = ground arith in
    let out = said inputs in
    let t3 : (not (out == 0) && not (out == 255) && ltb 128 out) ≡ false = ground arith in
    let t4 : (0 == out) ≡ false = ground arith in
    elim (Bool-cases (inputs == 0)) [
      | inl e ↦
          let zero_inputs : 0 ≡ inputs = ground (arith, e) in
          let t5 : (255 == out) ≡ true = ground arith in
          rw (t1, t2, t3, t4, t5) (ap (channels incoming) zero_inputs)
      | inr e ↦
          let same : out ≡ inputs = ground (arith, e) in
          let t5 : (255 == out) ≡ false = ground (arith, e) in
          rw (t1, t2, t3, t4, t5) (ap (channels incoming) same)
    ]

-- From any bytes whatever, the hub opens 1 to 128 channels in and at most 128 out, if it does not
-- refuse the client.
pub process_peer_settings-InRange : (packet : List ℕ) → InRange (process_peer_settings packet)
unfolding process_peer_settings
process_peer_settings-InRange packet =
    let h = peer_header packet in
    settings_for-InRange h.buffer_size h.num_incoming_channels_from_net
      (decode_num_outgoing_channels h)

decode-fill :
    (a : Audio) (h : DefaultHeaderStruct)
    → a.num_input_channels ≤ 128
    → 0 < a.num_output_channels
    → a.num_output_channels ≤ 128
    → decode_num_outgoing_channels (fill_header_common_from_audio a h) ≡ said a.num_input_channels
unfolding fill_header_common_from_audio decode_num_outgoing_channels
decode-fill a h i1 o0 o1 = ground arith

settings_for-fill :
    (a : Audio) (h : DefaultHeaderStruct)
    → 0 < a.buffer_size_in_samples
    → a.buffer_size_in_samples ≤ 4096
    → a.num_input_channels ≤ 128
    → 0 < a.num_output_channels
    → a.num_output_channels ≤ 128
    → (λ (g : DefaultHeaderStruct).
          settings_for g.buffer_size g.num_incoming_channels_from_net
            (decode_num_outgoing_channels g))
        (fill_header_common_from_audio a h)
      ≡ channels a.num_output_channels a.num_input_channels
unfolding fill_header_common_from_audio
settings_for-fill a h b0 b1 i1 o0 o1 =
    let samples : u16 a.buffer_size_in_samples ≡ a.buffer_size_in_samples = omega arith in
    let outputs : u8 a.num_output_channels ≡ a.num_output_channels = omega arith in
    rw (decode-fill a h i1 o0 o1) (
      ap₂ (λ x y. settings_for x y (said a.num_input_channels)) samples outputs
      ∙ settings_for_inputs a.buffer_size_in_samples a.num_output_channels a.num_input_channels b0
          b1 o0 o1 i1)

fill-Fits :
    (a : Audio) (h : DefaultHeaderStruct)
    → h.seq_number < 2 ^ 16
    → Fits (fill_header_common_from_audio a h)
unfolding fill_header_common_from_audio
fill-Fits a h seq = record { time_lt = omega arith; seq_lt = seq; buffer_lt = omega arith }

-- A client whose header is filled from 1 to 4096 samples, up to 128 inputs and 1 to 128 outputs gets
-- as many channels in as it has outputs and as many channels out as it has inputs, whatever follows
-- the header in its first packet.
pub fill-process_peer_settings :
    (a : Audio) (h : DefaultHeaderStruct) (audio : List ℕ)
    → h.seq_number < 2 ^ 16
    → 0 < a.buffer_size_in_samples
    → a.buffer_size_in_samples ≤ 4096
    → a.num_input_channels ≤ 128
    → 0 < a.num_output_channels
    → a.num_output_channels ≤ 128
    → process_peer_settings (put_header_in_packet (fill_header_common_from_audio a h) ++ audio)
      ≡ channels a.num_output_channels a.num_input_channels
unfolding process_peer_settings
fill-process_peer_settings a h audio seq b0 b1 i1 o0 o1 =
    ap
      (λ g.
        settings_for g.buffer_size g.num_incoming_channels_from_net
          (decode_num_outgoing_channels g))
      ((peer_header-put_header_in_packet (fill_header_common_from_audio a h) audio
        (fill-Fits a h seq)).0)
    ∙ settings_for-fill a h b0 b1 i1 o0 o1

-- ===== src/Web/Packet.antt =====
-- src/webrtc/WebRtcDataProtocol.cpp and src/webtransport/WebTransportDataProtocol.cpp: what a receiver
-- reads of a packet that was sent.

use jacktrip.Header.{
  DefaultHeaderStruct, Audio, put_header_in_packet, fill_header_common_from_audio, peer_header,
  get_peer_sequence_number, get_peer_buffer_size, decode_num_outgoing_channels, header_size,
}
use jacktrip.Header.Layout.{Fits, peer_header-put_header_in_packet}
use jacktrip.Udp.Receive.{Settings, grow}
use jacktrip.Udp.Send.{deinterleave}
use jacktrip.Interleave.RoundTrip.{interleave-deinterleave}
use jacktrip.Web.{host_audio, is_whole}
use jacktrip.Web.HostAudio.{peer_chans, length-grow, host_audio_mono, host_audio_interleaved}
use jacktrip.Base.{
  List, [], ap, append-nil, ap₂, arith, drop, drop-append_length, length, length-append, le→leb,
  min, refl, suc, sym, take, take-append_length, true, zero, ℕ, ℕ_discrete, ◌*◌, ◌++◌, ◌+◌, ◌<◌,
  ◌^◌, ◌∙◌, ◌∷◌, ◌≡◌, ◌≢◌, ◌≤◌,
}

-- The audio of `a`, with as many channels as the protocol has, fits in the fields of the header.
pub record Sendable (p : Settings) (a : Audio) (audio : List ℕ) : Type 0 where
  pub chans_same : a.num_input_channels ≡ p.chans
  pub chans_pos : 0 < p.chans
  pub chans_lt : p.chans < 256
  pub samples_lt : a.buffer_size_in_samples < 2 ^ 16
  pub whole : length audio ≡ a.buffer_size_in_samples * p.chans * p.smpl_size

-- Bytes that carry the audio: the audio itself for one channel, or what was put in a packet.
pub record Carries (p : Settings) (samples : ℕ) (audio wire : List ℕ) : Type 0 where
  pub size : length wire ≡ samples * p.chans * p.smpl_size
  pub mono : p.chans ≡ 1 → wire ≡ audio
  pub more :
      p.chans ≢ 1
      → (before : List ℕ) × (samples * p.chans * p.smpl_size ≤ length before)
        × (wire
            ≡ take
                (samples * p.chans * p.smpl_size)
                (deinterleave p samples audio 0 samples before))

take-take : (n : ℕ) (xs : List ℕ) → take n (take n xs) ≡ take n xs
take-take zero xs = refl
take-take (suc n) [] = refl
take-take (suc n) (x ∷ xs) = ap (λ r. x ∷ r) (take-take n xs)

pub take_whole : (n : ℕ) (xs : List ℕ) → length xs ≡ n → take n xs ≡ xs
take_whole n xs e = ap (take n) (sym (append-nil xs)) ∙ take-append_length n xs [] e

module _ (p : Settings) (a : Audio) (h : DefaultHeaderStruct) (audio wire : List ℕ) where
  unfoldable pub sent_header : DefaultHeaderStruct
  sent_header = fill_header_common_from_audio a h

  unfoldable pub sent_packet : List ℕ
  unfolding sent_header
  sent_packet = put_header_in_packet sent_header ++ wire

  filled-Fits : h.seq_number < 2 ^ 16 → Fits sent_header
  unfolding sent_header fill_header_common_from_audio
  filled-Fits l = record { time_lt = omega arith; seq_lt = l; buffer_lt = omega arith }

  header_back : h.seq_number < 2 ^ 16 → peer_header sent_packet ≡ sent_header
  unfolding sent_packet
  header_back l = (peer_header-put_header_in_packet sent_header wire (filled-Fits l)).0

  wire_back : h.seq_number < 2 ^ 16 → drop header_size sent_packet ≡ wire
  unfolding sent_packet
  wire_back l =
      drop-append_length header_size (put_header_in_packet sent_header) wire
        (peer_header-put_header_in_packet sent_header wire (filled-Fits l)).1

  pub samples_back :
      h.seq_number < 2 ^ 16
      → a.buffer_size_in_samples < 2 ^ 16
      → get_peer_buffer_size sent_packet ≡ a.buffer_size_in_samples
  unfolding peer_header sent_header fill_header_common_from_audio
  samples_back l n = ap (λ g. g.buffer_size) (header_back l) ∙ omega (arith, n)

  pub number_back : h.seq_number < 2 ^ 16 → get_peer_sequence_number sent_packet ≡ h.seq_number
  unfolding peer_header sent_header fill_header_common_from_audio
  number_back l = ap (λ g. g.seq_number) (header_back l)

  decoded :
      a.num_input_channels ≡ p.chans
      → 0 < p.chans
      → p.chans < 256
      → decode_num_outgoing_channels sent_header ≡ p.chans
  unfolding decode_num_outgoing_channels sent_header fill_header_common_from_audio
  decoded e l m = ground (arith, e, l, m)

  chans_back : h.seq_number < 2 ^ 16 → Sendable p a audio → peer_chans sent_packet ≡ p.chans
  chans_back l s =
      ap decode_num_outgoing_channels (header_back l) ∙ decoded s.chans_same s.chans_pos s.chans_lt

  pub length_back : h.seq_number < 2 ^ 16 → length sent_packet ≡ header_size + length wire
  unfolding sent_packet
  length_back l = omega (
    arith,
    length-append (put_header_in_packet sent_header) wire,
    (peer_header-put_header_in_packet sent_header wire (filled-Fits l)).1,
  )

  pub is_whole_back :
      h.seq_number < 2 ^ 16
      → Sendable p a audio
      → Carries p a.buffer_size_in_samples audio wire
      → is_whole p sent_packet ≡ true
  unfolding is_whole
  is_whole_back l s c =
      let size : get_peer_buffer_size sent_packet * peer_chans sent_packet * p.smpl_size
          ≡ length wire =
        ap₂ (λ n k. n * k * p.smpl_size) (samples_back l s.samples_lt) (chans_back l s)
        ∙ sym c.size in
      le→leb _ (length sent_packet) (omega (arith, size, length_back l))

  pub host_audio_back :
      (buffer : List ℕ)
      → h.seq_number < 2 ^ 16
      → Sendable p a audio
      → Carries p a.buffer_size_in_samples audio wire
      → (host_audio p sent_packet buffer).0 ≡ audio
  host_audio_back buffer l s c =
      let samples = a.buffer_size_in_samples in
      let size = samples * p.chans * p.smpl_size in
      elim (ℕ_discrete p.chans 1) [
        | yes e ↦
            host_audio_mono p sent_packet buffer e
            ∙ ap₂ (λ n src. take (n * p.chans * p.smpl_size) src) (samples_back l s.samples_lt)
                (wire_back l)
            ∙ take_whole size wire c.size
            ∙ c.mono e
        | no d ↦
            let k = c.more d in
            let all : min p.chans p.chans ≡ p.chans = omega arith in
            host_audio_interleaved p sent_packet buffer d
            ∙ rw (samples_back l s.samples_lt, chans_back l s, wire_back l, all)
                (interleave-deinterleave p samples audio wire k.0 (grow size buffer) s.whole k.1
                  (length-grow size buffer) (omega (arith, c.size))
                  (ap (take size) k.2
                    ∙ take-take size (deinterleave p samples audio 0 samples k.0)))
      ]

-- ===== src/Header/Layout.antt =====
-- A peer reads from a packet the header that was put in it.
use native.Mathlib.Nat.{pow-suc}
use jacktrip.Base.{[], List, arith, length, refl, suc, zero, ℕ, ◌++◌, ◌/◌, ◌<◌, ◌^◌, ◌≡◌}
use jacktrip.Header.{
  DefaultHeaderStruct, put_number, get_number, put_header_in_packet, header_size,
  get_peer_time_stamp, get_peer_sequence_number, get_peer_buffer_size, get_peer_sampling_rate,
  get_peer_bit_resolution, get_peer_num_incoming_channels, get_peer_num_outgoing_channels,
  peer_header,
}

pub get_number-put_number :
    (k n : ℕ) (rest : List ℕ) → n < 256 ^ k → get_number k (put_number k n ++ rest) ≡ n
unfolding get_number put_number
get_number-put_number zero n rest h = omega arith
get_number-put_number (suc k) n rest h =
    let below : n / 256 < 256 ^ k = omega (arith, pow-suc 256 k) in
    rw (get_number-put_number k (n / 256) rest below) (omega arith)

-- Each field has a value of its type.
pub record Fits (h : DefaultHeaderStruct) : Type 0 where
  pub time_lt : h.time_stamp < 2 ^ 64
  pub seq_lt : h.seq_number < 2 ^ 16
  pub buffer_lt : h.buffer_size < 2 ^ 16

same_header :
    (h g : DefaultHeaderStruct)
    → h.time_stamp ≡ g.time_stamp
    → h.seq_number ≡ g.seq_number
    → h.buffer_size ≡ g.buffer_size
    → h.sampling_rate ≡ g.sampling_rate
    → h.bit_resolution ≡ g.bit_resolution
    → h.num_incoming_channels_from_net ≡ g.num_incoming_channels_from_net
    → h.num_outgoing_channels_to_net ≡ g.num_outgoing_channels_to_net
    → h ≡ g
same_header h g t s b r d i o = λ j. record {
  time_stamp = t j;
  seq_number = s j;
  buffer_size = b j;
  sampling_rate = r j;
  bit_resolution = d j;
  num_incoming_channels_from_net = i j;
  num_outgoing_channels_to_net = o j;
}

-- From a packet that starts with a header whose fields have values of their types, whatever follows
-- it, a peer reads exactly that header; the header has 16 bytes.
pub peer_header-put_header_in_packet :
    (h : DefaultHeaderStruct) (audio : List ℕ)
    → Fits h
    → (peer_header (put_header_in_packet h ++ audio) ≡ h)
      × (length (put_header_in_packet h) ≡ header_size)
unfolding peer_header get_peer_time_stamp get_peer_sequence_number get_peer_buffer_size
    get_peer_sampling_rate get_peer_bit_resolution get_peer_num_incoming_channels
    get_peer_num_outgoing_channels put_header_in_packet put_number get_number
peer_header-put_header_in_packet h audio fits = (
  same_header (peer_header (put_header_in_packet h ++ audio)) h
      (get_number-put_number 8 h.time_stamp [] fits.time_lt)
      (get_number-put_number 2 h.seq_number [] fits.seq_lt)
      (get_number-put_number 2 h.buffer_size [] fits.buffer_lt) (omega arith) (omega arith)
      (omega arith) (omega arith),
  refl,
)

pub get_peer_sequence_number-put_header_in_packet :
    (h : DefaultHeaderStruct) (audio : List ℕ)
    → h.seq_number < 2 ^ 16
    → get_peer_sequence_number (put_header_in_packet h ++ audio) ≡ h.seq_number
unfolding get_peer_sequence_number put_header_in_packet put_number get_number
get_peer_sequence_number-put_header_in_packet h audio lt =
    get_number-put_number 2 h.seq_number [] lt

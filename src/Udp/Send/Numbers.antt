-- ===== src/Udp/Send/Numbers.antt =====
-- The packets of a datagram that is sent have descending numbers.
use native.Mathlib.Nat.{mul-le-mul_right, add-mul, mul_comm}
use jacktrip.Base.{
  All, List, [], ap, append_assoc, arith, drop, drop-append_add, drop-drop, false, length,
  length-append, length-take, ltb, refl, suc, sym, take, u16, zero, ℕ, ◌*◌, ◌++◌, ◌+◌, ◌-◌, ◌<◌,
  ◌^◌, ◌∙◌, ◌∷◌, ◌≡◌, ◌≤◌,
}
use jacktrip.Header.{
  DefaultHeaderStruct, Audio, get_number, put_header_in_packet, header_size,
  fill_header_common_from_audio, increase_sequence_number, get_peer_sequence_number,
}
use jacktrip.Header.Layout.{
  Fits, peer_header-put_header_in_packet, get_peer_sequence_number-put_header_in_packet,
}
use jacktrip.Udp.Receive.{Settings, seq_at}
use jacktrip.Udp.Receive.Select.{Descends}
use jacktrip.Udp.Send.{Sender, put_header_in_outgoing_packet, shift_in, send_packet_redundancy}

-- The first `sent` packets of the array are numbered down from the one sent last.
pub record Numbered (p : Settings) (sent : ℕ) (s : Sender) : Type 0 where
  pub seq_lt : s.header.seq_number < 2 ^ 16
  pub numbers :
      (i : ℕ)
      → i < sent
      → i < p.redundancy_factor
      → seq_at p s.redundant_packet i ≡ u16 (s.header.seq_number + (2 ^ 16 - 1 - i))

-- Reading within the part that is kept.
get_number-take :
    (k m n : ℕ) (xs : List ℕ)
    → m + k ≤ n
    → get_number k (drop m (take n xs)) ≡ get_number k (drop m xs)
unfolding get_number
get_number-take zero m n xs h = refl
get_number-take (suc k) zero zero xs h = absurd (omega arith)
get_number-take (suc k) zero (suc n) [] h = refl
get_number-take (suc k) zero (suc n) (x ∷ xs) h =
    ap (λ r. x + 256 * r) (get_number-take k zero n xs (omega arith))
get_number-take (suc k) (suc m) zero xs h = absurd (omega arith)
get_number-take (suc k) (suc m) (suc n) [] h = refl
get_number-take (suc k) (suc m) (suc n) (x ∷ xs) h = get_number-take (suc k) m n xs (omega arith)

-- The number of the packet `i` stands ten bytes before the end of its header.
seq_at_lem :
    (p : Settings) (xs : List ℕ) (i : ℕ)
    → seq_at p xs i ≡ get_number 2 (drop (i * p.full_packet_size + 8) xs)
unfolding seq_at get_peer_sequence_number
seq_at_lem p xs i = ap (get_number 2) (drop-drop 8 (i * p.full_packet_size) xs)

seq_at-shift_in :
    (p : Settings) (packet old : List ℕ) (i : ℕ)
    → length packet ≡ p.full_packet_size
    → header_size ≤ p.full_packet_size
    → suc i < p.redundancy_factor
    → seq_at p (shift_in p packet old) (suc i) ≡ seq_at p old i
unfolding shift_in
seq_at-shift_in p packet old i e low lt =
    let place : suc i * p.full_packet_size + 8 ≡ length packet + (i * p.full_packet_size + 8) =
      omega (arith, add-mul 1 i p.full_packet_size) in
    let within : i * p.full_packet_size + 8 + 2 ≤ p.full_packet_size * (p.redundancy_factor - 1) =
      omega (
        arith,
        mul-le-mul_right {m = i + 1} {n = p.redundancy_factor - 1} p.full_packet_size (omega arith),
        add-mul i 1 p.full_packet_size,
        mul_comm p.full_packet_size (p.redundancy_factor - 1),
      ) in
    seq_at_lem p _ (suc i)
    ∙ ap
        (λ n.
          get_number 2
            (drop n (packet ++ take (p.full_packet_size * (p.redundancy_factor - 1)) old)))
        place
    ∙ ap (get_number 2) (drop-append_add (i * p.full_packet_size + 8) packet _)
    ∙ get_number-take 2 (i * p.full_packet_size + 8) _ old within
    ∙ sym (seq_at_lem p old i)

-- The first packet has the number that its header had.
first_number :
    (p : Settings) (a : Audio) (h : DefaultHeaderStruct) (size : ℕ) (src old : List ℕ)
    → h.seq_number < 2 ^ 16
    → seq_at p (shift_in p (put_header_in_outgoing_packet a h size src) old) 0 ≡ h.seq_number
unfolding shift_in put_header_in_outgoing_packet seq_at
first_number p a h size src old lt =
    let g = fill_header_common_from_audio a h in
    let front = put_header_in_packet g in
    let rest = take (p.full_packet_size * (p.redundancy_factor - 1)) old in
    let same : g.seq_number ≡ h.seq_number = unfold fill_header_common_from_audio in refl in
    ap (λ n. get_peer_sequence_number (drop n ((front ++ take size src) ++ rest)))
      (zero_places p.full_packet_size)
    ∙ ap get_peer_sequence_number (append_assoc front (take size src) rest)
    ∙ get_peer_sequence_number-put_header_in_packet g (take size src ++ rest) (omega arith)
    ∙ same
  where
    zero_places : (n : ℕ) → 0 * n ≡ 0
    zero_places n = omega arith

-- The bytes of the packet for one channel.
packet_length :
    (p : Settings) (size : ℕ) (a : Audio) (h : DefaultHeaderStruct) (src : List ℕ)
    → Fits (fill_header_common_from_audio a h)
    → p.full_packet_size ≡ header_size + size
    → size ≤ length src
    → length (put_header_in_outgoing_packet a h size src) ≡ p.full_packet_size
unfolding put_header_in_outgoing_packet
packet_length p size a h src fits e le =
    let g = fill_header_common_from_audio a h in
    omega (
      arith,
      length-append (put_header_in_packet g) (take size src),
      (peer_header-put_header_in_packet g [] fits).1,
      length-take size src,
    )

next_seq :
    (a : Audio) (h : DefaultHeaderStruct)
    → (increase_sequence_number (fill_header_common_from_audio a h)).seq_number
      ≡ u16 (h.seq_number + 1)
unfolding increase_sequence_number fill_header_common_from_audio
next_seq a h = refl

fill-Fits :
    (a : Audio) (h : DefaultHeaderStruct)
    → h.seq_number < 2 ^ 16
    → Fits (fill_header_common_from_audio a h)
unfolding fill_header_common_from_audio
fill-Fits a h lt = record { time_lt = omega arith; seq_lt = lt; buffer_lt = omega arith }

numbers_after :
    (p : Settings) (size sent : ℕ) (a : Audio) (audio : List ℕ) (s : Sender)
    → p.redundancy_factor < 2 ^ 15
    → p.full_packet_size ≡ header_size + size
    → size ≤ length audio
    → Numbered p sent s
    → (i : ℕ) → i < suc sent
    → i < p.redundancy_factor
    → seq_at p
        (shift_in p (put_header_in_outgoing_packet a s.header size audio) s.redundant_packet)
        i
      ≡ u16 (u16 (s.header.seq_number + 1) + (2 ^ 16 - 1 - i))
numbers_after p size sent a audio s few e le n zero lt below =
    let bound = n.seq_lt in
    first_number p a s.header size audio s.redundant_packet bound ∙ omega arith
numbers_after p size sent a audio s few e le n (suc i) lt below =
    let bound = n.seq_lt in
    seq_at-shift_in p _ s.redundant_packet i
      (packet_length p size a s.header audio (fill-Fits a s.header bound) e le) (omega arith) below
    ∙ n.numbers i (omega arith) (omega arith)
    ∙ omega arith

-- A call with audio that fills the packet puts one more packet with its number in front.
send-Numbered :
    (p : Settings) (size sent : ℕ) (a : Audio) (audio : List ℕ) (s : Sender)
    → p.chans ≡ 1
    → p.redundancy_factor < 2 ^ 15
    → p.full_packet_size ≡ header_size + size
    → size ≤ length audio
    → Numbered p sent s
    → Numbered p (suc sent) (send_packet_redundancy p size a audio s)
unfolding send_packet_redundancy
send-Numbered p size sent a audio s mono few e le n =
    let one : ltb 1 p.chans ≡ false = ground arith in
    record {
      seq_lt = omega (arith, next_seq a s.header);
      numbers = λ i lt below.
          rw (one, next_seq a s.header) (numbers_after p size sent a audio s few e le n i lt below);
    }

-- The state after a sequence of calls, the first of them first.
pub send_all : Settings → ℕ → List (Audio × List ℕ) → Sender → Sender
send_all p size [] s = s
send_all p size ((a, audio) ∷ calls) s =
    send_all p size calls (send_packet_redundancy p size a audio s)

send_all-Numbered :
    (p : Settings) (size sent : ℕ) (calls : List (Audio × List ℕ)) (s : Sender)
    → p.chans ≡ 1
    → p.redundancy_factor < 2 ^ 15
    → p.full_packet_size ≡ header_size + size
    → All (λ c. size ≤ length c.1) calls
    → Numbered p sent s
    → Numbered p (length calls + sent) (send_all p size calls s)
unfolding send_all
send_all-Numbered p size sent [] s mono few e le n = rw (zero_sum sent) n
  where
    zero_sum : (k : ℕ) → 0 + k ≡ k
    zero_sum k = omega arith
send_all-Numbered p size sent ((a, audio) ∷ calls) s mono few e le n =
    rw (sums (length calls) sent) (
      send_all-Numbered p size (suc sent) calls (send_packet_redundancy p size a audio s) mono few e
        le.1 (send-Numbered p size sent a audio s mono few e le.0 n))
  where
    sums : (k l : ℕ) → suc k + l ≡ k + suc l
    sums k l = omega arith

-- After at least as many calls as the redundancy factor, each with the audio of a packet of one
-- channel, whatever the array held before, the packets of the datagram that is sent have descending
-- numbers modulo 2 ^ 16, from the one before the number that the next packet will have.
pub send_all-Descends :
    (p : Settings) (size : ℕ) (calls : List (Audio × List ℕ)) (s : Sender)
    → p.chans ≡ 1
    → p.redundancy_factor < 2 ^ 15
    → p.full_packet_size ≡ header_size + size
    → All (λ c. size ≤ length c.1) calls
    → s.header.seq_number < 2 ^ 16
    → p.redundancy_factor ≤ length calls
    → let t = send_all p size calls s in
      Descends
        (seq_at p t.redundant_packet)
        (u16 (t.header.seq_number + (2 ^ 16 - 1)))
        p.redundancy_factor
send_all-Descends p size calls s mono few e le lt enough i below =
    let none_sent : Numbered p 0 s = record { seq_lt = lt; numbers = λ j k. elim k [ ] } in
    let n = send_all-Numbered p size 0 calls s mono few e le none_sent in
    n.numbers i (omega arith) below ∙ omega arith

-- ===== src/Http3/Frame/Skip.antt =====
-- Frames of other types are passed over, and the first HEADERS frame is found.
use native.Mathlib.Nat.{mod-eq_of_lt}
use jacktrip.Base.{
  All, List, Option, [], append_assoc, arith, drop, drop-append_length, length, length-append, none,
  refl, some, suc, take-append_length, zero, ℕ, ◌++◌, ◌+◌, ◌<◌, ◌>>=◌, ◌^◌, ◌∷◌, ◌≡◌, ◌≢◌, ◌≤◌,
}
use jacktrip.Http3.Varint.{read_varint, encode_quic_varint}
use jacktrip.Http3.Varint.RoundTrip.{read_varint-encode, read_varint-nil, length-encode_quic_varint}
use jacktrip.Http3.Frame.{frame_headers, check_frame, parse_loop, parse_http3_frame}

-- A frame on the wire: its type, the length of its payload, the payload.
unfoldable pub frame_bytes : ℕ → List ℕ → List ℕ
frame_bytes frame_type payload =
    encode_quic_varint frame_type ++ (encode_quic_varint (length payload) ++ payload)

-- Frames one after the other, and the bytes after them.
unfoldable pub stream_bytes : List (ℕ × List ℕ) → List ℕ → List ℕ
stream_bytes [] rest = rest
stream_bytes ((t, p) ∷ fs) rest = frame_bytes t p ++ stream_bytes fs rest

-- A frame that is not HEADERS, with a type and a length that a varint holds.
abbrev pub IsOther : ℕ × List ℕ → Type 0
IsOther (t, p) = (t ≢ frame_headers) × (t < 2 ^ 62) × (length p < 2 ^ 62)

parse_loop-suc :
    (fuel : ℕ) (bytes : List ℕ)
    → parse_loop (suc fuel) bytes ≡ (
        read_varint bytes >>= λ r.
        read_varint r.1 >>= λ s. check_frame r.0 s.0 s.1 (parse_loop fuel (drop s.0 s.1)))
unfolding parse_loop
parse_loop-suc fuel [] = rw read_varint-nil
parse_loop-suc fuel (b ∷ bytes) = refl

-- A round at a frame whose fields are well formed.
parse_loop-frame :
    (fuel t : ℕ) (p rest : List ℕ)
    → t < 2 ^ 62
    → length p < 2 ^ 62
    → parse_loop (suc fuel) (frame_bytes t p ++ rest)
      ≡ check_frame t (length p) (p ++ rest) (parse_loop fuel rest)
unfolding frame_bytes
parse_loop-frame fuel t p rest ht hp =
    rw
      (
        parse_loop-suc fuel,
        append_assoc (encode_quic_varint t) (encode_quic_varint (length p) ++ p) rest,
        append_assoc (encode_quic_varint (length p)) p rest,
        read_varint-encode t (encode_quic_varint (length p) ++ (p ++ rest)) (omega arith),
        read_varint-encode (length p) (p ++ rest) (omega arith),
        mod-eq_of_lt ht,
        mod-eq_of_lt hp,
        drop-append_length (length p) p rest refl,
      )
      refl

check_frame_other :
    (t : ℕ) (p rest : List ℕ) (next : Option (List ℕ))
    → t ≢ frame_headers
    → check_frame t (length p) (p ++ rest) next ≡ next
unfolding check_frame
check_frame_other t p rest next h = ground (arith, length-append p rest)

check_frame_headers :
    (p rest : List ℕ) (next : Option (List ℕ))
    → check_frame frame_headers (length p) (p ++ rest) next ≡ some p
unfolding check_frame
check_frame_headers p rest next =
    ground (arith, length-append p rest, take-append_length (length p) p rest)

parse_loop-stream :
    (fs : List (ℕ × List ℕ)) (fuel : ℕ) (p rest : List ℕ)
    → All IsOther fs
    → length p < 2 ^ 62
    → length fs < fuel
    → parse_loop fuel (stream_bytes fs (frame_bytes frame_headers p ++ rest)) ≡ some p
unfolding stream_bytes
parse_loop-stream fs zero p rest ok hp h = elim h [ ]
parse_loop-stream [] (suc fuel) p rest ok hp h =
    rw (parse_loop-frame fuel frame_headers p rest (omega arith) hp) (check_frame_headers p rest _)
parse_loop-stream ((t, q) ∷ fs) (suc fuel) p rest ok hp h =
    rw
      (
        parse_loop-frame fuel t q (stream_bytes fs (frame_bytes frame_headers p ++ rest)) ok.0.1
            ok.0.2,
        check_frame_other t q _ _ ok.0.0,
      )
      (parse_loop-stream fs fuel p rest ok.1 hp (omega arith))

length-frame : (t : ℕ) (p : List ℕ) → 1 ≤ length (frame_bytes t p)
unfolding frame_bytes
length-frame t p = ground (
  arith,
  length-append (encode_quic_varint t) (encode_quic_varint (length p) ++ p),
  length-encode_quic_varint t,
)

length-stream :
    (fs : List (ℕ × List ℕ)) (rest : List ℕ)
    → length fs + length rest ≤ length (stream_bytes fs rest)
unfolding stream_bytes
length-stream [] rest = omega arith
length-stream ((t, p) ∷ fs) rest = omega (
  arith,
  length-stream fs rest,
  length-frame t p,
  length-append (frame_bytes t p) (stream_bytes fs rest),
)

-- After any number of frames of other types the payload of the first HEADERS frame is found,
-- whatever follows it.
pub parse_http3_frame-stream :
    (fs : List (ℕ × List ℕ)) (payload rest : List ℕ)
    → All IsOther fs
    → length payload < 2 ^ 62
    → parse_http3_frame (stream_bytes fs (frame_bytes frame_headers payload ++ rest)) ≡ some payload
unfolding parse_http3_frame
parse_http3_frame-stream fs payload rest ok hp = parse_loop-stream fs _ payload rest ok hp (
    omega (
      arith,
      length-stream fs (frame_bytes frame_headers payload ++ rest),
      length-frame frame_headers payload,
      length-append (frame_bytes frame_headers payload) rest,
    ))

parse_loop-others :
    (fs : List (ℕ × List ℕ)) (fuel : ℕ) (cut : List ℕ)
    → All IsOther fs
    → ((f : ℕ) → parse_loop f cut ≡ none)
    → parse_loop fuel (stream_bytes fs cut) ≡ none
unfolding stream_bytes
parse_loop-others [] fuel cut ok bad = bad fuel
parse_loop-others ((t, q) ∷ fs) zero cut ok bad = unfold parse_loop in refl
parse_loop-others ((t, q) ∷ fs) (suc fuel) cut ok bad =
    rw
      (
        parse_loop-frame fuel t q (stream_bytes fs cut) ok.0.1 ok.0.2,
        check_frame_other t q _ _ ok.0.0,
      )
      (parse_loop-others fs fuel cut ok.1 bad)

check_frame_short :
    (t n : ℕ) (payload : List ℕ) (next : Option (List ℕ))
    → length payload < n
    → check_frame t n payload next ≡ none
unfolding check_frame
check_frame_short t n payload next h = ground arith

parse_loop-cut :
    (t n : ℕ) (payload : List ℕ)
    → t < 2 ^ 62
    → n < 2 ^ 62
    → length payload < n
    → (fuel : ℕ)
    → parse_loop fuel (encode_quic_varint t ++ (encode_quic_varint n ++ payload)) ≡ none
parse_loop-cut t n payload ht hn short zero = unfold parse_loop in refl
parse_loop-cut t n payload ht hn short (suc fuel) =
    rw
      (
        parse_loop-suc fuel,
        read_varint-encode t (encode_quic_varint n ++ payload) (omega arith),
        read_varint-encode n payload (omega arith),
        mod-eq_of_lt ht,
        mod-eq_of_lt hn,
      )
      (check_frame_short t n payload _ short)

-- A stream with no HEADERS frame, and one whose next frame, of any type, declares more payload than
-- there is, are both refused.
pub parse_http3_frame-none :
    (fs : List (ℕ × List ℕ)) (t n : ℕ) (payload : List ℕ)
    → All IsOther fs
    → t < 2 ^ 62
    → n < 2 ^ 62
    → length payload < n
    → (parse_http3_frame (stream_bytes fs []) ≡ none)
      × (parse_http3_frame
            (stream_bytes fs (encode_quic_varint t ++ (encode_quic_varint n ++ payload)))
          ≡ none)
unfolding parse_http3_frame
parse_http3_frame-none fs t n payload ok ht hn short = (
  parse_loop-others fs _ [] ok parse_loop-nil,
  parse_loop-others fs _ _ ok (parse_loop-cut t n payload ht hn short),
)
  where
    parse_loop-nil : (fuel : ℕ) → parse_loop fuel [] ≡ none
    parse_loop-nil zero = unfold parse_loop in refl
    parse_loop-nil (suc fuel) = unfold parse_loop in refl

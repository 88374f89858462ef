-- ===== src/Http3/Frame.antt =====
-- src/http3/Http3Protocol.cpp: `parseHttp3Frame`, which looks for the first HEADERS frame.
pub mod Skip
use jacktrip.Base.{
  List, Option, [], drop, if◌then◌else◌, length, ltb, none, some, suc, take, zero, ℕ, ◌==◌, ◌>>=◌,
  ◌∷◌,
}
use jacktrip.Http3.Varint.{read_varint}

-- FRAME_HEADERS
abbrev pub frame_headers : ℕ
frame_headers = 0x01

-- The rest of a round, at the payload; `next` is what the loop goes on with.
pub check_frame : ℕ → ℕ → List ℕ → Option (List ℕ) → Option (List ℕ)
check_frame frame_type frame_length payload next =
    if ltb (length payload) frame_length
    then none
    else if frame_type == frame_headers
    then some (take frame_length payload)
    else next

-- The loop on fuel: a round reads at least two bytes. `none` is the result `false`.
pub parse_loop : ℕ → List ℕ → Option (List ℕ)
parse_loop zero bytes = none
parse_loop (suc fuel) [] = none
parse_loop (suc fuel) (b ∷ bytes) = do
  (frame_type, after_type) ← read_varint (b ∷ bytes)
  (frame_length, payload) ← read_varint after_type
  check_frame frame_type frame_length payload (parse_loop fuel (drop frame_length payload))

pub parse_http3_frame : List ℕ → Option (List ℕ)
unfolding parse_loop
parse_http3_frame bytes = parse_loop (length bytes) bytes

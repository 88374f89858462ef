-- ===== src/WebTransport/Response.antt =====
-- src/webtransport/WebTransportSession.cpp: the HTTP/3 frames that the server sends,
-- `buildSettingsFrame` and `buildResponseFrame`. `push_back` appends a byte.
pub mod RoundTrip
pub mod Digits
use jacktrip.Base.{
  List, Option, [], bit_or, codes, if◌then◌else◌, length, low_bits, ltb, none, shr, some, suc, u8,
  zero, ℕ, ◌%◌, ◌++◌, ◌+◌, ◌-◌, ◌/◌, ◌==◌, ◌∷◌,
}
use jacktrip.Http3.QpackInt.{push_remaining}

-- The head of a frame: its type, and the length of its payload as a varint of one or two bytes.
pub frame_head : ℕ → ℕ → List ℕ
frame_head frame_type payload_len =
    frame_type
    ∷ (if ltb payload_len 64
        then u8 payload_len ∷ []
        else bit_or 0x40 (u8 (shr payload_len 8)) ∷ u8 (low_bits payload_len 8) ∷ [])

pub settings_payload : List ℕ
settings_payload =
    0x01 ∷ 0x00 ∷ 0x07 ∷ 0x00 ∷ 0x08 ∷ 0x01 ∷ 0x33 ∷ 0x01 ∷ 0xab ∷ 0x60 ∷ 0x37 ∷ 0x42 ∷ 0x01 ∷ []

pub build_settings_frame : List ℕ
unfolding frame_head settings_payload
build_settings_frame = frame_head 0x04 (length settings_payload) ++ settings_payload

-- `std::to_string` of a number that is not negative, on fuel; the number itself is enough.
pub to_string_loop : ℕ → ℕ → List ℕ
to_string_loop zero n = (48 + n % 10) ∷ []
to_string_loop (suc fuel) n =
    let front = to_string_loop fuel (n / 10) in
    if ltb n 10 then (48 + n) ∷ [] else front ++ (48 + n % 10) ∷ []

pub to_string : ℕ → List ℕ
unfolding to_string_loop
to_string n = to_string_loop n n

-- The switch on the status code; `none` is the index -1.
pub static_index : ℕ → Option ℕ
static_index status =
    if status == 200
    then some 25
    else if status == 100
    then some 63
    else if status == 204
    then some 64
    else if status == 400
    then some 67
    else if status == 403
    then some 68
    else if status == 404
    then some 27
    else if status == 500
    then some 71
    else if status == 503
    then some 28
    else none

-- The literal with a name reference: index 24 of the static table and the digits.
pub status_literal : ℕ → List ℕ
unfolding to_string
status_literal status = 0x5F ∷ 0x09 ∷ u8 (length (to_string status)) ∷ to_string status

-- `staticIndex >= 0 && staticIndex < 64`
pub status_indexed : Option ℕ → ℕ → List ℕ
unfolding status_literal
status_indexed none status = status_literal status
status_indexed (some index) status =
    if ltb index 64 then bit_or 0xC0 (u8 index) ∷ [] else status_literal status

pub status_field : ℕ → List ℕ
unfolding static_index status_indexed
status_field status = status_indexed (static_index status) status

pub name_length : ℕ → List ℕ
unfolding push_remaining
name_length name_len =
    if ltb name_len 8
    then bit_or 0x20 (u8 name_len) ∷ []
    else 0x27 ∷ push_remaining (name_len - 7) (name_len - 7)

pub value_length : ℕ → List ℕ
unfolding push_remaining
value_length value_len =
    if ltb value_len 128
    then u8 value_len ∷ []
    else 0x7F ∷ push_remaining (value_len - 127) (value_len - 127)

abbrev pub header_name : List ℕ
header_name = codes "sec-webtransport-http3-draft"

abbrev pub header_value : List ℕ
header_value = codes "draft02"

pub draft_field : ℕ → List ℕ
unfolding name_length value_length
draft_field status =
    if status == 200
    then name_length (length header_name)
      ++ (header_name ++ (value_length (length header_value) ++ header_value))
    else []

pub qpack_payload : ℕ → List ℕ
unfolding status_field draft_field
qpack_payload status = 0x00 ∷ 0x00 ∷ (status_field status ++ draft_field status)

pub build_response_frame : ℕ → List ℕ
build_response_frame status =
    let payload = qpack_payload status in frame_head 0x01 (length payload) ++ payload

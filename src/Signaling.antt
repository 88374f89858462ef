-- ===== src/Signaling.antt =====
-- src/webrtc/WebRtcSignalingProtocol.cpp: the frames of signaling messages on a TCP stream,
-- `frameMessage` and `extractFramedMessage`. A `QByteArray` is the list of its bytes; the
-- `QDataStream` writes and reads a `quint32` with the highest byte first, as the source sets it.
pub mod RoundTrip
mod Tests
use jacktrip.Base.{
  Bool, List, [], drop, false, if◌then◌else◌, length, low_bits, ltb, shr, suc, take, true, u32,
  zero, ℕ, ◌*◌, ◌++◌, ◌+◌, ◌∷◌,
}

-- `stream << static_cast<quint32>(n)`
pub length_prefix : ℕ → List ℕ
length_prefix n =
    shr (u32 n) 24
    ∷ low_bits (shr (u32 n) 16) 8
    ∷ low_bits (shr (u32 n) 8) 8
    ∷ low_bits (u32 n) 8
    ∷ []

pub frame_message : List ℕ → List ℕ
unfolding length_prefix
frame_message message = length_prefix (length message) ++ message

-- The result, and `buffer` and `message` after the call.
pub record Extracted : Type 0 where
  pub complete : Bool
  pub buffer : List ℕ
  pub message : List ℕ

-- The part of the function after the length was read.
pub extract_body : ℕ → List ℕ → List ℕ → List ℕ → Extracted
extract_body n buffer rest message =
    if ltb (1024 * 1024) n
    then record { complete = false; buffer = []; message = message }
    else if ltb (length buffer) (4 + n)
    then record { complete = false; buffer = buffer; message = message }
    else record { complete = true; buffer = drop n rest; message = take n rest }

pub extract_framed_message : List ℕ → List ℕ → Extracted
unfolding extract_body
extract_framed_message (a ∷ b ∷ c ∷ d ∷ rest) message =
    extract_body (((a * 256 + b) * 256 + c) * 256 + d) (a ∷ b ∷ c ∷ d ∷ rest) rest message
extract_framed_message buffer message = record {
  complete = false;
  buffer = buffer;
  message = message;
}

-- ===== src/Signaling/Tests.antt =====
-- Frames of concrete messages.
use jacktrip.Base.{List, [], arith, codes, length, take, ℕ, ◌<◌, ◌∷◌, ◌≡◌}
use jacktrip.Signaling.{frame_message}
use jacktrip.Signaling.RoundTrip.{extract_all, frames, extract_all-frames}

abbrev hello : List ℕ
hello = codes "{\"type\":\"hello\"}"

abbrev two_messages : List (List ℕ)
two_messages = hello ∷ codes "{}" ∷ []

hello_bytes : 9 < length (frame_message hello)
unfolding frame_message
hello_bytes = omega arith

extract_all-frames_example :
    extract_all 3 (frames two_messages (take 9 (frame_message hello)))
    ≡ (two_messages, take 9 (frame_message hello))
extract_all-frames_example =
    extract_all-frames 3 9 two_messages hello (omega arith, (omega arith, tt)) (omega arith)
      hello_bytes (omega arith)

-- ===== src/WebTransport/Response/RoundTrip.antt =====
-- A peer that decodes the response as src/http3 does reads the status that was sent.
use native.Mathlib.Nat.{mod-eq_of_lt}
use jacktrip.Base.{
  same_string, List, [], ap, append-nil, append_assoc, arith, codes, false, get_elem?,
  if◌then◌else◌, length, length-append, refl, some, suc, sym, u8, zero, ℕ, ℕ_discrete, ◌++◌, ◌+◌,
  ◌<◌, ◌==◌, ◌^◌, ◌∙◌, ◌∷◌, ◌≡◌, ◌≢◌, ◌≤◌,
}
use jacktrip.WebTransport.Response.Digits.{to_string_loop-IsAscii, to_string_loop-length}
use jacktrip.Http3.Outcome.{failed, done, ◌>>=◌}
use jacktrip.Http3.StaticTable.{static_table}
use jacktrip.Http3.Frame.{frame_headers, parse_http3_frame}
use jacktrip.Http3.Varint.{encode_quic_varint}
use jacktrip.Http3.Varint.RoundTrip.{encode_short}
use jacktrip.Http3.Frame.Skip.{frame_bytes, stream_bytes, parse_http3_frame-stream}
use jacktrip.Http3.Headers.{
  Headers, insert, field_line, field_loop, decode_qpack_headers, non_empty,
}
use jacktrip.Http3.Headers.Fields.{
  IsAscii, KeepsAscii, is_empty-false, field_line-status, field_line-literal, field_line-indexed,
  decode_qpack_headers-lines, field_loop-line, field_loop-end, field_loop-failed,
  field_line-index_63, non_empty-cons,
}
use jacktrip.WebTransport.Response.{
  frame_head, qpack_payload, build_response_frame, draft_field, to_string_loop, to_string,
  status_literal, status_field, header_name, header_value,
}

abbrev pub status_name : List ℕ
status_name = codes ":status"

-- What the peer is told.
abbrev pub response_headers : ℕ → Headers
response_headers status =
    (status_name, to_string status)
    ∷ (if status == 200 then (header_name, header_value) ∷ [] else [])

module _ (from_utf8 : List ℕ → List ℕ) (keeps : KeepsAscii from_utf8) where
  -- The bytes of the `:status` field are one field line, which sets that header.
  record StatusLine (status : ℕ) : Type 0 where
    byte : ℕ
    bytes : List ℕ
    written : status_field status ≡ byte ∷ bytes
    short : length bytes ≤ 12
    read :
        (rest : List ℕ)
        → field_line from_utf8 byte (bytes ++ rest) []
          ≡ done (insert status_name (to_string status) [], rest)

  literal :
      (status : ℕ)
      → status < 10 ^ 10
      → status_field status ≡ status_literal status
      → StatusLine status
  unfolding status_literal to_string
  literal status h e =
      let bound = to_string_loop-length status status 9 h in
      let digits = to_string_loop status status in
      record {
        byte = 0x5F;
        bytes = 0x09 ∷ u8 (length digits) ∷ digits;
        written = e;
        short = omega arith;
        read = λ rest. rw (mod-eq_of_lt {n = length digits} {m = 256} (omega arith)) (
            field_line-status from_utf8 keeps digits rest [] (to_string_loop-IsAscii status status)
              (omega arith) (is_empty-false digits (omega arith)));
      }

  is_literal :
      (status : ℕ)
      → status ≢ 100
      → status ≢ 200
      → status ≢ 404
      → status ≢ 503
      → status_field status ≡ status_literal status
  unfolding status_field
  is_literal status a b c d = ground arith

  indexed :
      (index status : ℕ)
      → index < 63
      → status_field status ≡ (0xC0 + index) ∷ []
      → get_elem? static_table index ≡ some (status_name, to_string status)
      → IsAscii (to_string status)
      → StatusLine status
  indexed index status h written entry ascii = record {
    byte = 0xC0 + index;
    bytes = [];
    written = written;
    short = omega arith;
    read = λ rest.
        field_line-indexed from_utf8 keeps index status_name (to_string status) rest [] h entry
          (omega arith) ascii;
  }

  line_200 : StatusLine 200
  unfolding status_field static_table to_string
  line_200 = indexed 25 200 (omega arith) refl refl (omega arith)

  line_404 : StatusLine 404
  unfolding status_field static_table to_string
  line_404 = indexed 27 404 (omega arith) refl refl (omega arith)

  line_503 : StatusLine 503
  unfolding status_field static_table to_string
  line_503 = indexed 28 503 (omega arith) refl refl (omega arith)

  status_line : (status : ℕ) → status < 10 ^ 10 → status ≢ 100 → StatusLine status
  status_line status h not_100 = elim (ℕ_discrete status 200) [
    | yes e ↦ rw e line_200
    | no a ↦ elim (ℕ_discrete status 404) [
      | yes e ↦ rw e line_404
      | no b ↦ elim (ℕ_discrete status 503) [
        | yes e ↦ rw e line_503
        | no c ↦ literal status h (is_literal status not_100 a b c)
      ]
    ]
  ]

  other_status : (status : ℕ) → status ≢ 200 → (status == 200) ≡ false
  other_status status h = ground arith

  -- The field lines after the first give the rest of the headers.
  read_draft :
      (fuel status : ℕ)
      → length (draft_field status) ≤ fuel
      → (field_loop from_utf8 fuel (draft_field status) (insert status_name (to_string status) [])
          >>= non_empty)
        ≡ done (response_headers status)
  unfolding draft_field insert same_string
  read_draft fuel status h = elim (ℕ_discrete status 200) [
    | no a ↦ rw (other_status status a, field_loop-end from_utf8 keeps fuel) (non_empty-cons _ [])
    | yes e ↦ rw e (draft_200 fuel (rw e at h))
  ]
    where
      draft_200 :
          (f : ℕ)
          → length (draft_field 200) ≤ f
          → (field_loop from_utf8 f (draft_field 200) (insert status_name (to_string 200) [])
              >>= non_empty)
            ≡ done (response_headers 200)
      draft_200 zero small = absurd (omega arith)
      draft_200 (suc f) small =
          rw
            (
              field_loop-line from_utf8 keeps f 0x27 _ [] _ _ (
                  field_line-literal from_utf8 keeps header_name header_value []
                    ((status_name, to_string 200) ∷ []) (omega arith) (omega arith) refl
                    (omega arith)),
              field_loop-end from_utf8 keeps f,
            )
            (non_empty-cons _ _)

  decode_status :
      (status : ℕ)
      → status < 10 ^ 10
      → status ≢ 100
      → decode_qpack_headers from_utf8 (qpack_payload status) [] ≡ done (response_headers status)
  unfolding qpack_payload
  decode_status status h not_100 =
      let line = status_line status h not_100 in
      rw
        (
          decode_qpack_headers-lines from_utf8 keeps,
          line.written,
          field_loop-line from_utf8 keeps _ line.byte _ (draft_field status) [] _
              (line.read (draft_field status)),
        )
        (read_draft _ status (omega (arith, length-append line.bytes (draft_field status))))

  decode_100 : decode_qpack_headers from_utf8 (qpack_payload 100) [] ≡ failed
  unfolding qpack_payload status_field draft_field
  decode_100 =
      rw
        (
          decode_qpack_headers-lines from_utf8 keeps,
          field_loop-failed from_utf8 0 0xFF [] [] (field_line-index_63 from_utf8 []),
        )
        refl

  draft-length : (status : ℕ) → length (draft_field status) ≤ 39
  unfolding draft_field
  draft-length status = elim (ℕ_discrete status 200) [
    | yes e ↦ rw e (omega arith)
    | no a ↦ rw (other_status status a) (omega arith)
  ]

  payload-length : (status : ℕ) → status < 10 ^ 10 → length (qpack_payload status) < 64
  unfolding qpack_payload
  payload-length status h = elim (ℕ_discrete status 100) [
    | yes e ↦ rw e (unfold status_field draft_field in omega arith)
    | no a ↦
        let line = status_line status h a in
        omega (
          arith,
          draft-length status,
          length-append (status_field status) (draft_field status),
          ap length line.written,
          line.short,
        )
  ]

frame_head_lem :
    (n : ℕ)
    → n < 64
    → frame_head frame_headers n ≡ encode_quic_varint frame_headers ++ encode_quic_varint n
unfolding frame_head
frame_head_lem n h = rw (encode_short n h, encode_short 1 (omega arith)) (ground arith)

parse-build :
    (status : ℕ)
    → length (qpack_payload status) < 64
    → parse_http3_frame (build_response_frame status) ≡ some (qpack_payload status)
unfolding build_response_frame frame_bytes stream_bytes
parse-build status h =
    let payload = qpack_payload status in
    ap parse_http3_frame (
      ap (λ t. t ++ payload) (frame_head_lem (length payload) h)
      ∙ append_assoc (encode_quic_varint frame_headers) (encode_quic_varint (length payload))
          payload
      ∙ sym (append-nil (frame_bytes frame_headers payload)))
    ∙ parse_http3_frame-stream [] payload [] tt (omega arith)

-- For every status of up to ten digits the frame that `buildResponseFrame` builds is a HEADERS
-- frame, and decoding its payload gives exactly `:status` with the digits of the status, and the
-- WebTransport draft header if the status is 200; for the status 100 decoding fails instead.
-- `fromUtf8` is any function that keeps ASCII as it is.
pub build_response_frame-decode :
    (from_utf8 : List ℕ → List ℕ) (status : ℕ)
    → KeepsAscii from_utf8
    → status < 10 ^ 10
    → (parse_http3_frame (build_response_frame status) ≡ some (qpack_payload status))
      × (decode_qpack_headers from_utf8 (qpack_payload status) []
          ≡ (if status == 100 then failed else done (response_headers status)))
build_response_frame-decode from_utf8 status keeps h = (
  parse-build status (payload-length from_utf8 keeps status h),
  elim (ℕ_discrete status 100) [
    | yes e ↦ rw e (decode_100 from_utf8 keeps)
    | no a ↦ decode_status from_utf8 keeps status h a ∙ rw (not_100 a)
  ],
)
  where
    not_100 : status ≢ 100 → (status == 100) ≡ false
    not_100 a = ground arith

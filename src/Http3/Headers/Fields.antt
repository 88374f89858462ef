-- ===== src/Http3/Headers/Fields.antt =====
-- How single field lines are decoded, where `fromUtf8` keeps ASCII as it is.
use jacktrip.Base.{
  same_string, same_string_refl, All, Bool-cases, List, [], ap, arith, codes, drop-append_length,
  false, get_elem?, inl, inr, length, length-append, ltb-false, refl, some, suc, take-append_length,
  test_bit, true, zero, ℕ, ◌++◌, ◌+◌, ◌<◌, ◌∷◌, ◌≡◌,
}
use jacktrip.Http3.Outcome.{failed, done, ◌>>=◌}
use jacktrip.Http3.QpackInt.Small.{
  read_index_63, read_small, read_index_24, read_length_28, read_static_index, read_zero,
}
use jacktrip.Http3.StaticTable.{static_table}
use jacktrip.Http3.Huffman.{is_empty}
use jacktrip.Http3.Headers.{
  field_loop, non_empty, insert_entry, Headers, insert, lookup, take_string, read_string,
  insert_entry, referred_name, field_line, field_loop, non_empty, decode_qpack_headers,
}

abbrev pub IsAscii : List ℕ → Type 0
IsAscii bytes = All (λ b. b < 128) bytes

-- Qt documents that ASCII is a subset of UTF-8.
abbrev pub KeepsAscii : (List ℕ → List ℕ) → Type 0
KeepsAscii from_utf8 = (bytes : List ℕ) → IsAscii bytes → from_utf8 bytes ≡ bytes

lookup-insert_self :
    (name value : List ℕ) (headers : Headers) → lookup name (insert name value headers) ≡ some value
unfolding lookup insert
lookup-insert_self name value [] = rw (same_string_refl name)
lookup-insert_self name value ((n, v) ∷ headers) = elim (Bool-cases (same_string n name)) [
  | inl e ↦ rw (e, same_string_refl name)
  | inr e ↦ rw (e, e) (lookup-insert_self name value headers)
]

pub is_empty-false : (xs : List ℕ) → 0 < length xs → is_empty xs ≡ false
unfolding is_empty
is_empty-false [] h = elim h [ ]
is_empty-false (x ∷ xs) h = refl

module _ (from_utf8 : List ℕ → List ℕ) (keeps : KeepsAscii from_utf8) where
  -- A string of fewer than 127 bytes, not Huffman-coded, with a length of seven bits.
  read_plain :
      (s rest : List ℕ)
      → IsAscii s
      → length s < 127
      → read_string from_utf8 7 7 (length s ∷ (s ++ rest)) ≡ done (s, rest)
  unfolding read_string take_string
  read_plain s rest ascii h =
      rw
        (
          read_small (length s) (s ++ rest) h,
          ltb-false (length (s ++ rest)) (length s) (omega (arith, length-append s rest)),
          take-append_length (length s) s rest refl,
          drop-append_length (length s) s rest refl,
          keeps s ascii,
        )
        (ground arith)

  -- `:status` by reference to entry 24 of the static table, with the value in plain.
  pub field_line-status :
      (s rest : List ℕ) (headers : Headers)
      → IsAscii s
      → length s < 127
      → is_empty s ≡ false
      → field_line from_utf8 0x5F (0x09 ∷ length s ∷ (s ++ rest)) headers
        ≡ done (insert (codes ":status") s headers, rest)
  unfolding field_line referred_name static_table is_empty
  field_line-status s rest headers ascii h full =
      rw
        (
          read_index_24 (length s ∷ (s ++ rest)),
          read_plain s rest ascii h,
          keeps (codes ":status") (omega arith),
          full,
        )
        refl

  -- A name of 28 bytes and a value, both literal and in plain.
  pub field_line-literal :
      (name s rest : List ℕ) (headers : Headers)
      → IsAscii name
      → IsAscii s
      → length name ≡ 28
      → length s < 127
      → field_line from_utf8 0x27 (0x15 ∷ (name ++ (length s ∷ (s ++ rest)))) headers
        ≡ done (insert name s headers, rest)
  unfolding field_line read_string take_string
  field_line-literal name s rest headers name_ascii s_ascii e h =
      let more = length s ∷ (s ++ rest) in
      rw
        (
          read_length_28 (name ++ more),
          ltb-false (length (name ++ more)) 28 (omega (arith, length-append name more)),
          take-append_length 28 name more e,
          drop-append_length 28 name more e,
          keeps name name_ascii,
        )
        (rw (is_empty-false name (omega arith))
          (ap (λ m. m >>= λ x. done (insert name x.0 headers, x.1)) (read_plain s rest s_ascii h)))

  -- A field of the static table.
  pub field_line-indexed :
      (index : ℕ) (name s rest : List ℕ) (headers : Headers)
      → index < 63
      → get_elem? static_table index ≡ some (name, s)
      → IsAscii name
      → IsAscii s
      → field_line from_utf8 (0xC0 + index) rest headers ≡ done (insert name s headers, rest)
  unfolding field_line insert_entry
  field_line-indexed index name s rest headers h e name_ascii s_ascii =
      let bits : (test_bit (0xC0 + index) 7 ≡ true) × (test_bit (0xC0 + index) 6 ≡ true) =
        (ground arith, ground arith) in
      rw (bits.0, read_static_index index rest h, bits.1, e, keeps name name_ascii, keeps s s_ascii)
        refl

  -- The two empty fields in front of the field lines.
  pub decode_qpack_headers-lines :
      (lines : List ℕ) (headers : Headers)
      → decode_qpack_headers from_utf8 (0x00 ∷ 0x00 ∷ lines) headers
        ≡ (field_loop from_utf8 (length lines) lines headers >>= non_empty)
  unfolding decode_qpack_headers
  decode_qpack_headers-lines lines headers =
      rw
        (
          (read_zero 0 (0 ∷ lines)).0,
          (read_zero 0 lines).1,
          ltb-false (suc (suc (length lines))) 2 (omega arith),
        )
        refl

  -- A round of the loop over the field lines, and its end.
  pub field_loop-line :
      (fuel b : ℕ) (bytes rest : List ℕ) (headers after : Headers)
      → field_line from_utf8 b bytes headers ≡ done (after, rest)
      → field_loop from_utf8 (suc fuel) (b ∷ bytes) headers ≡ field_loop from_utf8 fuel rest after
  unfolding field_loop
  field_loop-line fuel b bytes rest headers after e = rw e refl

  pub field_loop-end :
      (fuel : ℕ) (headers : Headers) → field_loop from_utf8 fuel [] headers ≡ done headers
  unfolding field_loop
  field_loop-end zero headers = refl
  field_loop-end (suc fuel) headers = refl

pub non_empty-cons :
    (h : List ℕ × List ℕ) (headers : Headers) → non_empty (h ∷ headers) ≡ done (h ∷ headers)
unfolding non_empty
non_empty-cons h headers = refl

-- An index that fills its prefix with no byte after it.
pub field_line-index_63 :
    (from_utf8 : List ℕ → List ℕ) (headers : Headers)
    → field_line from_utf8 0xFF [] headers ≡ failed
unfolding field_line
field_line-index_63 from_utf8 headers = rw read_index_63 refl

pub field_loop-failed :
    (from_utf8 : List ℕ → List ℕ) (fuel b : ℕ) (bytes : List ℕ) (headers : Headers)
    → field_line from_utf8 b bytes headers ≡ failed
    → field_loop from_utf8 (suc fuel) (b ∷ bytes) headers ≡ failed
unfolding field_loop
field_loop-failed from_utf8 fuel b bytes headers e = rw e refl

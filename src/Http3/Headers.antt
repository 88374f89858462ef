-- ===== src/Http3/Headers.antt =====
-- src/http3/Http3Protocol.cpp: `decodeQPackHeaders`. A `QString` is the list of its characters; the
-- function `QString::fromUtf8` of Qt is a parameter.
pub mod Fields
pub mod Fuel
use jacktrip.Base.{
  same_string, Bool, List, Option, [], drop, false, get_elem?, if◌then◌else◌, length, ltb, none,
  some, suc, take, test_bit, true, zero, ℕ, ◌&&◌, ◌==◌, ◌||◌, ◌∷◌,
}
use jacktrip.Http3.Outcome.{Outcome, done, failed, ◌>>=◌}
use jacktrip.Http3.QpackInt.{read_qpack_int}
use jacktrip.Http3.StaticTable.{static_table}
use jacktrip.Http3.Huffman.{is_empty, decode_huffman}

-- `QMap<QString, QString>`
abbrev pub Headers : Type 0
Headers = List (List ℕ × List ℕ)

-- `headers[name] = value`
unfoldable pub insert : List ℕ → List ℕ → Headers → Headers
insert name value [] = (name, value) ∷ []
insert name value ((n, v) ∷ headers) =
    if same_string n name then (name, value) ∷ headers else (n, v) ∷ insert name value headers

-- `headers.value(name)`, if there is one
unfoldable pub lookup : List ℕ → Headers → Option (List ℕ)
lookup name [] = none
lookup name ((n, v) ∷ headers) = if same_string n name then some v else lookup name headers

-- `return !headers.isEmpty()`
pub non_empty : Headers → Outcome Headers
non_empty [] = failed
non_empty (h ∷ headers) = done (h ∷ headers)

module _ (from_utf8 : List ℕ → List ℕ) where
  -- The bytes of a string of length `n`, Huffman-coded or not, that must lie in the buffer.
  pub take_string : Bool → ℕ → List ℕ → Outcome (List ℕ × List ℕ)
  take_string huffman n bytes =
      if ltb (length bytes) n
      then failed
      else done (
        if huffman then decode_huffman (take n bytes) else from_utf8 (take n bytes),
        drop n bytes,
      )

  -- A string whose flag and length stand at the head of the buffer.
  pub read_string : ℕ → ℕ → List ℕ → Outcome (List ℕ × List ℕ)
  unfolding take_string
  read_string huffman_bit prefix_bits [] = failed
  read_string huffman_bit prefix_bits (b ∷ bytes) = do
    (n, rest) ← read_qpack_int prefix_bits (b ∷ bytes)
    take_string (test_bit b huffman_bit) n rest

  -- Indexed Header Field, at the entry of the static table if there is one.
  pub insert_entry : Bool → Option (List ℕ × List ℕ) → Headers → Headers
  insert_entry is_static none headers = headers
  insert_entry is_static (some (name, value)) headers =
      if is_static then insert (from_utf8 name) (from_utf8 value) headers else headers

  -- The name of a Literal Header Field with Name Reference; empty if there is none.
  pub referred_name : Bool → Option (List ℕ × List ℕ) → List ℕ
  referred_name is_static none = []
  referred_name is_static (some (name, value)) = if is_static then from_utf8 name else []

  -- A field line at the byte `b`: the headers after it and the bytes left.
  pub field_line : ℕ → List ℕ → Headers → Outcome (Headers × List ℕ)
  unfolding insert_entry referred_name read_string
  field_line b bytes headers =
      if test_bit b 7
      then (do
        (index, rest) ← read_qpack_int 6 (b ∷ bytes)
        done (insert_entry (test_bit b 6) (get_elem? static_table index) headers, rest))
      else if test_bit b 6
      then (do
        (name_index, rest) ← read_qpack_int 4 (b ∷ bytes)
        (value, rest') ← read_string 7 7 rest
        let name = referred_name (test_bit b 4) (get_elem? static_table name_index)
        done
            (if is_empty name || is_empty value then headers else insert name value headers, rest'))
      else if test_bit b 5
      then (do
        (name, rest) ← read_string 3 3 (b ∷ bytes)
        (value, rest') ← read_string 7 7 rest
        done (if is_empty name then headers else insert name value headers, rest'))
      else done (headers, bytes)

  -- The loop over the field lines on fuel: a round reads at least one byte.
  pub field_loop : ℕ → List ℕ → Headers → Outcome Headers
  unfolding field_line
  field_loop fuel [] headers = done headers
  field_loop zero (b ∷ bytes) headers = failed
  field_loop (suc fuel) (b ∷ bytes) headers = do
    (headers', rest) ← field_line b bytes headers
    field_loop fuel rest headers'

  -- The headers of a decoding that returns `true`; one that returns `false` fails.
  pub decode_qpack_headers : List ℕ → Headers → Outcome Headers
  unfolding field_loop non_empty
  decode_qpack_headers bytes headers = if ltb (length bytes) 2 then failed else (do
    (required_insert_count, rest) ← read_qpack_int 8 bytes
    (delta_base, lines) ← read_qpack_int 7 rest
    headers' ← field_loop (length lines) lines headers
    non_empty headers')

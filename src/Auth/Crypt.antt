-- ===== src/Auth/Crypt.antt =====
-- src/Auth.cpp: `char64`, `charGroup`, `generateSalt` and `generateSha512Hash`. `sha512` is the hash of
-- Qt over everything that was added since the last reset, `to_utf8` QString::toUtf8; strings are lists
-- of code units.
mod Fuel
pub mod Salt
use jacktrip.Base.{
  Bool, List, [], bit_or, codes, false, get_or, if◌then◌else◌, leb, length, low_bits, ltb, not, shl,
  shr, suc, take, true, zero, ℕ, ◌%◌, ◌&&◌, ◌++◌, ◌+◌, ◌-◌, ◌==◌, ◌∷◌,
}

abbrev pub is_empty : List ℕ → Bool
is_empty [] = true
is_empty (x ∷ xs) = false

-- A string without a character.
unfoldable pub lacks : ℕ → List ℕ → Bool
lacks c [] = true
lacks c (x ∷ xs) = not (x == c) && lacks c xs

pub char64 : ℕ → ℕ
char64 value =
    if leb 64 value
    then 0
    else if ltb value 12
    then value + 46
    else if ltb value 38
    then value + 53
    else value + 59

-- `n` characters of 6 bits each, the lowest first.
pub chars_of : ℕ → ℕ → List ℕ
unfolding char64
chars_of w zero = []
chars_of w (suc n) = char64 (low_bits w 6) ∷ chars_of (shr w 6) n

pub char_group : ℕ → ℕ → ℕ → ℕ → List ℕ
unfolding chars_of
char_group byte2 byte1 byte0 n = chars_of (bit_or (bit_or (shl byte2 16) (shl byte1 8)) byte0) n

-- The numbers are those that the random generator gives.
pub generate_salt : List ℕ → List ℕ
unfolding char64
generate_salt [] = []
generate_salt (value ∷ values) = char64 value ∷ generate_salt values

-- `n` bytes of copies of a block of 64 bytes, on fuel; `n` itself is enough.
pub stretch : ℕ → ℕ → List ℕ → List ℕ
stretch zero n block = take n block
stretch (suc fuel) n block =
    let rest = stretch fuel (n - 64) block in if ltb 64 n then block ++ rest else take n block

-- One of two blocks for every bit, on fuel; the number itself is enough.
pub bit_blocks : ℕ → ℕ → List ℕ → List ℕ → List ℕ
bit_blocks zero n odd even = []
bit_blocks (suc fuel) n odd even =
    let rest = bit_blocks fuel (shr n 1) odd even in
    if n == 0 then [] else (if n % 2 == 1 then odd else even) ++ rest

pub copies : ℕ → List ℕ → List ℕ
copies zero block = []
copies (suc n) block = block ++ copies n block

-- Which bytes of the result stand in a group of four characters, in their order.
pub groups : List (ℕ × ℕ × ℕ)
groups =
    (0, 21, 42)
    ∷ (22, 43, 1)
    ∷ (44, 2, 23)
    ∷ (3, 24, 45)
    ∷ (25, 46, 4)
    ∷ (47, 5, 26)
    ∷ (6, 27, 48)
    ∷ (28, 49, 7)
    ∷ (50, 8, 29)
    ∷ (9, 30, 51)
    ∷ (31, 52, 10)
    ∷ (53, 11, 32)
    ∷ (12, 33, 54)
    ∷ (34, 55, 13)
    ∷ (56, 14, 35)
    ∷ (15, 36, 57)
    ∷ (37, 58, 16)
    ∷ (59, 17, 38)
    ∷ (18, 39, 60)
    ∷ (40, 61, 19)
    ∷ (62, 20, 41)
    ∷ []

pub encode_groups : List ℕ → List (ℕ × ℕ × ℕ) → List ℕ
unfolding char_group
encode_groups result [] = char_group 0 0 (get_or result 63 0) 2
encode_groups result (g ∷ gs) =
    char_group (get_or result g.0 0) (get_or result g.1 0) (get_or result g.2 0) 4
    ++ encode_groups result gs

module _ (to_utf8 sha512 : List ℕ → List ℕ) where
  -- A round of step 21.
  pub mix : ℕ → List ℕ → List ℕ → List ℕ → List ℕ
  mix n p s a = sha512 (
      (if n % 2 == 1 then p else a)
      ++ ((if n % 3 == 0 then [] else s)
          ++ ((if n % 7 == 0 then [] else p) ++ (if n % 2 == 1 then a else p))))

  -- The rounds from `n` on.
  pub mix_loop : ℕ → ℕ → List ℕ → List ℕ → List ℕ → List ℕ
  unfolding mix
  mix_loop zero n p s a = a
  mix_loop (suc rounds) n p s a = mix_loop rounds (n + 1) p s (mix n p s a)

  -- Steps 1 to 21, for the bytes of the password and of the salt.
  pub crypt_result : List ℕ → List ℕ → List ℕ
  unfolding stretch bit_blocks copies mix_loop
  crypt_result passwd salt =
      let m = length passwd in
      let b = sha512 (passwd ++ (salt ++ passwd)) in
      let a = sha512 (passwd ++ (salt ++ (stretch m m b ++ bit_blocks m m b passwd))) in
      let p = stretch m m (sha512 (copies m passwd)) in
      let s = stretch (length salt) (length salt) (sha512 (copies (16 + get_or a 0 0) salt)) in
      mix_loop 5000 0 p s a

  pub generate_sha512_hash : List ℕ → List ℕ → List ℕ
  unfolding crypt_result encode_groups groups
  generate_sha512_hash password salt_string =
      let passwd = take 256 (to_utf8 password) in
      let salt = take 16 (to_utf8 salt_string) in
      codes "$6$" ++ (salt ++ (36 ∷ encode_groups (crypt_result passwd salt) groups))

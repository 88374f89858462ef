-- ===== src/Auth/Crypt/Salt.antt =====
-- src/Auth.cpp: the characters of a hash.
use jacktrip.Auth.Crypt.{
  is_empty, lacks, char64, chars_of, char_group, generate_salt, encode_groups, groups, crypt_result,
  generate_sha512_hash,
}
use jacktrip.Base.{
  Bool, List, [], ap, append-nil, arith, bit_or, codes, false, get_or, length, low_bits, ltb, refl,
  shl, shr, suc, sym, take, take-append_length, true, zero, ℕ, ◌&&◌, ◌++◌, ◌==◌, ◌∙◌, ◌∷◌, ◌≡◌,
}

-- What a string of the code's own characters is.
pub is_ascii : List ℕ → Bool
is_ascii [] = true
is_ascii (x ∷ xs) = ltb x 128 && is_ascii xs

pub char64-not_dollar : (v : ℕ) → (char64 v == 36) ≡ false
unfolding char64
char64-not_dollar v = ground arith

pub char64-not_colon : (v : ℕ) → (char64 v == 58) ≡ false
unfolding char64
char64-not_colon v = ground arith

pub char64-not_newline : (v : ℕ) → (char64 v == 10) ≡ false
unfolding char64
char64-not_newline v = ground arith

pub char64-not_return : (v : ℕ) → (char64 v == 13) ≡ false
unfolding char64
char64-not_return v = ground arith

char64-lt : (v : ℕ) → ltb (char64 v) 128 ≡ true
unfolding char64
char64-lt v = ground arith

pub lacks-append :
    (c : ℕ) (xs ys : List ℕ) → lacks c xs ≡ true → lacks c ys ≡ true → lacks c (xs ++ ys) ≡ true
unfolding lacks
lacks-append c [] ys p q = q
lacks-append c (x ∷ xs) ys p q = ground (arith, p, q, lacks-append c xs ys)

-- A separator of the code, which no character of a salt or a digest is.
module _ (c : ℕ) (other : (v : ℕ) → (char64 v == c) ≡ false) where
  pub generate_salt-lacks : (values : List ℕ) → lacks c (generate_salt values) ≡ true
  unfolding lacks generate_salt
  generate_salt-lacks [] = refl
  generate_salt-lacks (v ∷ values) = rw (other v) (generate_salt-lacks values)

  chars_of-lacks : (w n : ℕ) → lacks c (chars_of w n) ≡ true
  unfolding lacks chars_of
  chars_of-lacks w zero = refl
  chars_of-lacks w (suc n) = rw (other (low_bits w 6)) (chars_of-lacks (shr w 6) n)

  char_group-lacks : (byte2 byte1 byte0 n : ℕ) → lacks c (char_group byte2 byte1 byte0 n) ≡ true
  unfolding char_group
  char_group-lacks byte2 byte1 byte0 n =
      chars_of-lacks (bit_or (bit_or (shl byte2 16) (shl byte1 8)) byte0) n

  encode_groups-lacks :
      (result : List ℕ) (gs : List (ℕ × ℕ × ℕ)) → lacks c (encode_groups result gs) ≡ true
  unfolding encode_groups
  encode_groups-lacks result [] = char_group-lacks 0 0 (get_or result 63 0) 2
  encode_groups-lacks result (g ∷ gs) =
      lacks-append c
        (char_group (get_or result g.0 0) (get_or result g.1 0) (get_or result g.2 0) 4)
        (encode_groups result gs)
        (char_group-lacks (get_or result g.0 0) (get_or result g.1 0) (get_or result g.2 0) 4)
        (encode_groups-lacks result gs)

generate_salt-is_ascii : (values : List ℕ) → is_ascii (generate_salt values) ≡ true
unfolding is_ascii generate_salt
generate_salt-is_ascii [] = refl
generate_salt-is_ascii (v ∷ values) = rw (char64-lt v) (generate_salt-is_ascii values)

length-generate_salt : (values : List ℕ) → length (generate_salt values) ≡ length values
unfolding generate_salt
length-generate_salt [] = refl
length-generate_salt (v ∷ values) = omega (arith, length-generate_salt values)

-- What is read of the salt again.
module _ (to_utf8 sha512 : List ℕ → List ℕ) where
  -- The digest after the last separator.
  pub digest : List ℕ → List ℕ → List ℕ
  digest password values =
      encode_groups
        (crypt_result to_utf8 sha512 (take 256 (to_utf8 password)) (generate_salt values)) groups

  take_salt :
      (values : List ℕ)
      → ((s : List ℕ) → is_ascii s ≡ true → to_utf8 s ≡ s)
      → length values ≡ 16
      → take 16 (to_utf8 (generate_salt values)) ≡ generate_salt values
  take_salt values ascii e =
      let salt = generate_salt values in
      ap (take 16) (ascii salt (generate_salt-is_ascii values) ∙ sym (append-nil salt))
      ∙ take-append_length 16 salt [] (length-generate_salt values ∙ e)

  pub hash_lem :
      (password values : List ℕ)
      → ((s : List ℕ) → is_ascii s ≡ true → to_utf8 s ≡ s)
      → length values ≡ 16
      → generate_sha512_hash to_utf8 sha512 password (generate_salt values)
        ≡ codes "$6$" ++ (generate_salt values ++ (36 ∷ digest password values))
  unfolding generate_sha512_hash digest
  hash_lem password values ascii e =
      ap
        (λ s.
          codes "$6$"
          ++ (s
              ++ (36
                  ∷ encode_groups (crypt_result to_utf8 sha512 (take 256 (to_utf8 password)) s)
                      groups)))
        (take_salt values ascii e)

module _ (c : ℕ) (other : (v : ℕ) → (char64 v == c) ≡ false) where
  pub digest-lacks :
      (to_utf8 sha512 : List ℕ → List ℕ) (password values : List ℕ)
      → lacks c (digest to_utf8 sha512 password values) ≡ true
  unfolding digest
  digest-lacks to_utf8 sha512 password values =
      encode_groups-lacks c other
        (crypt_result to_utf8 sha512 (take 256 (to_utf8 password)) (generate_salt values)) groups

  pub hash-lacks :
      (to_utf8 sha512 : List ℕ → List ℕ) (password values : List ℕ)
      → ((s : List ℕ) → is_ascii s ≡ true → to_utf8 s ≡ s)
      → length values ≡ 16
      → lacks c (codes "$6$") ≡ true
      → lacks c (36 ∷ []) ≡ true
      → lacks c (generate_sha512_hash to_utf8 sha512 password (generate_salt values)) ≡ true
  unfolding lacks
  hash-lacks to_utf8 sha512 password values ascii e l k =
      let salt = generate_salt values in
      let last = digest to_utf8 sha512 password values in
      let d : lacks c (36 ∷ last) ≡ true =
        lacks-append c (36 ∷ []) last k (digest-lacks to_utf8 sha512 password values) in
      rw (hash_lem to_utf8 sha512 password values ascii e) (
        lacks-append c (codes "$6$") (salt ++ (36 ∷ last)) l
          (lacks-append c salt (36 ∷ last) (generate_salt-lacks c other values) d))

encode_groups-is_empty : (result : List ℕ) → is_empty (encode_groups result groups) ≡ false
unfolding encode_groups groups char_group chars_of
encode_groups-is_empty result = refl

pub digest-is_empty :
    (to_utf8 sha512 : List ℕ → List ℕ) (password values : List ℕ)
    → is_empty (digest to_utf8 sha512 password values) ≡ false
unfolding digest
digest-is_empty to_utf8 sha512 password values =
    encode_groups-is_empty
      (crypt_result to_utf8 sha512 (take 256 (to_utf8 password)) (generate_salt values))

pub generate_salt-is_empty :
    (values : List ℕ) → length values ≡ 16 → is_empty (generate_salt values) ≡ false
unfolding generate_salt
generate_salt-is_empty [] e = absurd (omega arith)
generate_salt-is_empty (v ∷ values) e = refl

-- ===== src/Hub/Handshake/Opening.antt =====
-- The first 76 bytes of a client's message with credentials.

use jacktrip.Header.{put_number, get_number}
use jacktrip.Header.Layout.{get_number-put_number}
use jacktrip.Base.{
  List, ap, arith, drop, drop-append_length, drop-drop, false, leb, length, length-append, ltb, sym,
  take, take-append_add, take-append_length, ℕ, ◌++◌, ◌+◌, ◌<◌, ◌^◌, ◌||◌, ◌∙◌, ◌≡◌, ◌≤◌,
}

-- The first 76 bytes of a message with credentials, and what follows them.
abbrev pub opening : ℕ → List ℕ → ℕ → ℕ → List ℕ → List ℕ
opening port field m n rest =
    put_number 4 port ++ (field ++ (put_number 4 m ++ (put_number 4 n ++ rest)))

-- The parts of the opening.
pub record Parts (port : ℕ) (field : List ℕ) (m n : ℕ) (rest : List ℕ) : Type 0 where
  pub long : length (opening port field m n rest) ≡ 76 + length rest
  pub port_at : get_number 4 (opening port field m n rest) ≡ port
  pub field_at : take 64 (drop 4 (opening port field m n rest)) ≡ field
  pub first_at : get_number 4 (drop 68 (opening port field m n rest)) ≡ m
  pub second_at : get_number 4 (drop 72 (opening port field m n rest)) ≡ n
  pub rest_at : drop 8 (drop 64 (drop 4 (opening port field m n rest))) ≡ rest

pub opening-Parts :
    (port : ℕ) (field : List ℕ) (m n : ℕ) (rest : List ℕ)
    → length field ≡ 64
    → port < 2 ^ 32
    → m < 2 ^ 32
    → n < 2 ^ 32
    → Parts port field m n rest
unfolding put_number
opening-Parts port field m n rest w p1 m1 n1 =
    let after = drop-append_length 64 field (put_number 4 m ++ (put_number 4 n ++ rest)) w in
    record {
      long = omega (arith, length-append field (put_number 4 m ++ (put_number 4 n ++ rest)), w);
      port_at = get_number-put_number 4 port _ p1;
      field_at = take-append_length 64 field _ w;
      first_at = ap (get_number 4) after ∙ get_number-put_number 4 m _ m1;
      second_at =
          ap (get_number 4) (
            sym (drop-drop 4 64 (field ++ (put_number 4 m ++ (put_number 4 n ++ rest))))
            ∙ ap (drop 4) after)
          ∙ get_number-put_number 4 n rest n1;
      rest_at = ap (drop 8) after;
    }

pub small_lengths :
    (m n : ℕ)
    → m ≤ 255
    → n ≤ 255
    → (leb 0x80000000 m || ltb 255 m || leb 0x80000000 n || ltb 255 n) ≡ false
small_lengths m n h k = ground arith

pub same_test : (r m n : ℕ) → ltb (76 + r) (76 + m + n + 2) ≡ ltb r (m + n + 2)
same_test r m n = ground arith

pub take-opening :
    (port : ℕ) (field : List ℕ) (m n : ℕ) (rest : List ℕ) (j : ℕ)
    → length field ≡ 64
    → take (76 + j) (opening port field m n rest) ≡ opening port field m n (take j rest)
unfolding put_number
take-opening port field m n rest j w =
    let e1 : 76 + j ≡ 4 + (72 + j) = omega arith in
    let e2 : 72 + j ≡ length field + (8 + j) = omega (arith, w) in
    let e3 : 8 + j ≡ 4 + (4 + j) = omega arith in
    let more = put_number 4 m ++ (put_number 4 n ++ rest) in
    ap (λ k. take k (opening port field m n rest)) e1
    ∙ take-append_add (put_number 4 port) (field ++ more) (72 + j)
    ∙ ap (λ r. put_number 4 port ++ r)
        (ap (λ k. take k (field ++ more)) e2
          ∙ take-append_add field more (8 + j)
          ∙ ap (λ r. field ++ r)
              (ap (λ k. take k more) e3
                ∙ take-append_add (put_number 4 m) (put_number 4 n ++ rest) (4 + j)
                ∙ ap (λ r. put_number 4 m ++ r) (take-append_add (put_number 4 n) rest j)))

-- ===== src/Hub/Handshake/Messages.antt =====
-- The hub reads from a client's message with credentials what the client put in, and only once all of
-- it has arrived.
use jacktrip.Interleave.Bytes.{get_elem?-append_add, get_elem?-take}
use mathlib.Core.Path.{subst}
use jacktrip.Hub.Handshake.{
  work_back, truncated_length, name_field, auth_message, PortRead, is_continuation,
  read_credentials, check_auth_and_read_port, auth_ok,
}
use jacktrip.Hub.Handshake.Opening.{
  opening, Parts, opening-Parts, small_lengths, same_test, take-opening,
}
use jacktrip.Base.{
  Bool-cases, List, [], ap, arith, dec_lt, drop-append_length, false, get_elem?,
  get_elem?-append_left, get_elem?-replicate, get_or, if◌then◌else◌, inl, inr, length,
  length-append, length-replicate, length-take, ltb, ltb-false, lt→ltb, refl, replicate, some, suc,
  take, take-append_length, true, zero, ℕ, ℕ_discrete, ◌++◌, ◌+◌, ◌-◌, ◌<◌, ◌==◌, ◌^◌, ◌∙◌, ◌∷◌,
  ◌≡◌, ◌≤◌,
}

-- A field of 64 bytes for a name: its first `kept` bytes, at most 63, and zeros. A longer name is cut
-- before the last byte up to byte 63 that starts a character.
pub record FieldOf (name field : List ℕ) : Type 0 where
  pub kept : ℕ
  pub kept_le : kept ≤ 63
  pub within : kept ≤ length name
  pub whole : length name ≤ 63 → kept ≡ length name
  pub boundary : kept < length name → 0 < kept → is_continuation (get_or name kept 0) ≡ false
  pub longest :
      (m : ℕ) → kept < m → m ≤ 63 → m < length name → is_continuation (get_or name m 0) ≡ true
  pub sized : length field ≡ 64
  pub starts : (i : ℕ) → i < kept → get_elem? field i ≡ get_elem? name i
  pub zeros : (i : ℕ) → kept ≤ i → i < 64 → get_elem? field i ≡ some 0

work_back_le : (name : List ℕ) (n : ℕ) → work_back name n ≤ n
unfolding work_back
work_back_le name zero = omega arith
work_back_le name (suc n) = elim (Bool-cases (is_continuation (get_or name (suc n) 0))) [
  | inl e ↦ rw e (omega (arith, work_back_le name n))
  | inr e ↦ rw e (omega arith)
]

work_back_boundary :
    (name : List ℕ) (n : ℕ)
    → 0 < work_back name n
    → is_continuation (get_or name (work_back name n) 0) ≡ false
unfolding work_back
work_back_boundary name zero = λ h. absurd (omega (arith, h))
work_back_boundary name (suc n) = elim (Bool-cases (is_continuation (get_or name (suc n) 0))) [
  | inl e ↦ rw e (work_back_boundary name n)
  | inr e ↦ rw e (λ h. e)
]

work_back_longest :
    (name : List ℕ) (n m : ℕ)
    → work_back name n < m
    → m ≤ n
    → is_continuation (get_or name m 0) ≡ true
unfolding work_back
work_back_longest name zero m h l = absurd (omega (arith, h, l))
work_back_longest name (suc n) m h l = elim (Bool-cases (is_continuation (get_or name (suc n) 0))) [
  | inl e ↦ elim (ℕ_discrete m (suc n)) [
    | yes p ↦ rw p e
    | no p ↦
        work_back_longest name n m (subst (λ b. (if b then work_back name n else suc n) < m) e h)
          (omega (arith, l, p))
  ]
  | inr e ↦ absurd (omega (arith, subst (λ b. (if b then work_back name n else suc n) < m) e h, l))
]

-- Where the name is cut.
record Cut (name : List ℕ) (n : ℕ) : Type 0 where
  n_le : n ≤ 63
  n_within : n ≤ length name
  n_whole : length name ≤ 63 → n ≡ length name
  n_boundary : n < length name → 0 < n → is_continuation (get_or name n 0) ≡ false
  n_longest : (m : ℕ) → n < m → m ≤ 63 → m < length name → is_continuation (get_or name m 0) ≡ true

truncated_length-Cut : (name : List ℕ) → Cut name (truncated_length name)
unfolding truncated_length
truncated_length-Cut name = elim (dec_lt 63 (length name)) [
  | yes p ↦
      let low = work_back_le name 63 in
      rw (lt→ltb 63 (length name) p) (record {
        n_le = low;
        n_within = omega (arith, low, p);
        n_whole = λ h. absurd (omega (arith, h, p));
        n_boundary = λ h k. work_back_boundary name 63 k;
        n_longest = λ m h k l. work_back_longest name 63 m h k;
      })
  | no p ↦ rw (ltb-false 63 (length name) (omega (arith, p))) (record {
    n_le = omega (arith, p);
    n_within = omega arith;
    n_whole = λ h. refl;
    n_boundary = λ h k. absurd (omega (arith, h));
    n_longest = λ m h k l. absurd (omega (arith, h, l));
  })
]

-- The field that is sent starts with as much of the name as fits in 63 bytes, all of a name that is no
-- longer and else as much as ends before a byte that starts a character, and zeros fill it up to 64
-- bytes.
pub name_field_lem : (name : List ℕ) → FieldOf name (name_field name)
unfolding name_field
name_field_lem name =
    let n = truncated_length name in
    let cut = truncated_length-Cut name in
    let start = take n name in
    let rest = replicate {A = ℕ} (64 - n) 0 in
    let start_len = length-take n name in
    let rest_len = length-replicate {A = ℕ} (64 - n) 0 in
    record {
      kept = n;
      kept_le = cut.n_le;
      within = cut.n_within;
      whole = cut.n_whole;
      boundary = cut.n_boundary;
      longest = cut.n_longest;
      sized = omega (arith, cut.n_le, cut.n_within, length-append start rest, start_len, rest_len);
      starts = λ i l.
          get_elem?-append_left start rest i (omega (arith, l, start_len, cut.n_within))
          ∙ get_elem?-take n name i l;
      zeros = λ i l h.
          get_elem?-append_add start rest (i - n) i (omega (arith, l, start_len, cut.n_within))
          ∙ get_elem?-replicate (64 - n) 0 (i - n) (omega (arith, h, l));
    }

module _ (from_utf8 : List ℕ → List ℕ) (check_credentials : List ℕ → List ℕ → ℕ) where
  check_opening :
      (port : ℕ) (field : List ℕ) (m n : ℕ) (rest : List ℕ)
      → Parts port field m n rest
      → m ≤ 255
      → n ≤ 255
      → check_auth_and_read_port from_utf8 check_credentials (opening port field m n rest) ≡ (
          if ltb (length rest) (m + n + 2)
          then record { udp_port = 0; remote_name = []; left = opening port field m n rest }
          else read_credentials from_utf8 check_credentials m n (opening port field m n rest))
  unfolding check_auth_and_read_port
  check_opening port field m n rest p mle nle =
      let t1 : ltb (length (opening port field m n rest)) 76 ≡ false =
        ltb-false _ 76 (omega (arith, p.long)) in
      let t2 = small_lengths m n mle nle in
      let t3 : ltb (length (opening port field m n rest)) (76 + m + n + 2)
          ≡ ltb (length rest) (m + n + 2) =
        ap (λ k. ltb k (76 + m + n + 2)) p.long ∙ same_test (length rest) m n in
      rw (p.first_at, p.second_at, t1, t2, t3) refl

  -- What is left of the message after the opening.
  abbrev secrets : List ℕ → List ℕ → List ℕ
  secrets username password = username ++ (0 ∷ (password ++ (0 ∷ [])))

  read_secrets :
      (port : ℕ) (field username password : List ℕ)
      → Parts port field (length username) (length password) (secrets username password)
      → read_credentials from_utf8 check_credentials
          (length username)
          (length password)
          (opening port field (length username) (length password) (secrets username password))
        ≡ (record {
          udp_port =
              if check_credentials username password == auth_ok
              then port
              else check_credentials username password;
          remote_name = from_utf8 field;
          left = [];
        })
  unfolding read_credentials
  read_secrets port field username password p =
      let m = length username in
      let n = length password in
      let user = take-append_length m username (0 ∷ (password ++ (0 ∷ []))) refl in
      let past = drop-append_length m username (0 ∷ (password ++ (0 ∷ []))) refl in
      let pass = take-append_length n password (0 ∷ []) refl in
      let last = drop-append_length n password (0 ∷ []) refl in
      rw (p.rest_at, p.field_at, p.port_at, user, past, pass, last) refl

  -- What is returned while a part of the message is missing.
  abbrev pub missing : List ℕ → PortRead
  missing bytes = record { udp_port = 0; remote_name = []; left = bytes }

  check_short :
      (bytes : List ℕ)
      → length bytes < 76
      → check_auth_and_read_port from_utf8 check_credentials bytes ≡ missing bytes
  unfolding check_auth_and_read_port
  check_short bytes h = rw (lt→ltb (length bytes) 76 h) refl

  check_part :
      (port : ℕ) (field : List ℕ) (m n : ℕ) (rest : List ℕ) (k : ℕ)
      → length field ≡ 64
      → ((bytes : List ℕ) → Parts port field m n bytes)
      → m ≤ 255
      → n ≤ 255
      → length rest ≡ m + n + 2
      → k < length (opening port field m n rest)
      → check_auth_and_read_port from_utf8 check_credentials (take k (opening port field m n rest))
        ≡ missing (take k (opening port field m n rest))
  check_part port field m n rest k w parts mle nle sized lt = elim (dec_lt k 76) [
    | yes p ↦
        check_short (take k (opening port field m n rest))
          (omega (arith, p, length-take k (opening port field m n rest)))
    | no p ↦
        let e : 76 + (k - 76) ≡ k = omega (arith, p) in
        let less : length (take (k - 76) rest) < m + n + 2 =
          omega (arith, p, lt, sized, (parts rest).long, length-take (k - 76) rest) in
        subst
          (λ i.
            check_auth_and_read_port from_utf8 check_credentials
              (take i (opening port field m n rest))
            ≡ missing (take i (opening port field m n rest)))
          e
          (rw (take-opening port field m n rest (k - 76) w) (
            check_opening port field m n (take (k - 76) rest) (parts (take (k - 76) rest)) mle nle
            ∙ rw (lt→ltb (length (take (k - 76) rest)) (m + n + 2) less) refl))
  ]

  -- A message with credentials: a user name and a password of at most 255 bytes, and a port that is a
  -- number of 32 bits. While a part of it is missing, the hub reads nothing and waits; once it is there,
  -- the hub finds exactly the user name, the password and the field of the name in it, answers with the
  -- port if the credentials are right and else with the code of the refusal, and leaves nothing.
  pub check_auth_and_read_port-auth_message :
      (port : ℕ) (name username password : List ℕ)
      → port < 2 ^ 32
      → length username ≤ 255
      → length password ≤ 255
      → (check_auth_and_read_port from_utf8 check_credentials
            (auth_message port name username password)
          ≡ (record {
            udp_port =
                if check_credentials username password == auth_ok
                then port
                else check_credentials username password;
            remote_name = from_utf8 (name_field name);
            left = [];
          }))
        × ((k : ℕ)
            → k < length (auth_message port name username password)
            → check_auth_and_read_port from_utf8 check_credentials
                (take k (auth_message port name username password))
              ≡ missing (take k (auth_message port name username password)))
  unfolding auth_message
  check_auth_and_read_port-auth_message port name username password p1 u1 w1 =
      let field = (name_field_lem name).sized in
      let m = length username in
      let n = length password in
      let parts : (rest : List ℕ) → Parts port (name_field name) m n rest = λ rest.
        opening-Parts port (name_field name) m n rest field p1 (omega (arith, u1))
          (omega (arith, w1)) in
      let sized : length (secrets username password) ≡ m + n + 2 = omega (
        arith,
        length-append username (0 ∷ (password ++ (0 ∷ []))),
        length-append password (0 ∷ []),
      ) in
      (
        check_opening port (name_field name) m n (secrets username password) (parts _) u1 w1
            ∙ rw (ltb-false (length (secrets username password)) (m + n + 2) (omega (arith, sized)))
                (read_secrets port (name_field name) username password (parts _)),
        λ k lt.
            check_part port (name_field name) m n (secrets username password) k field parts u1 w1
              sized lt,
      )

-- ===== src/Hub/Handshake/Tests.antt =====
-- Messages of clients at concrete names and ports.
use jacktrip.Header.{put_number}
use jacktrip.Hub.Handshake.{
  name_field, client_message, auth_message, check_auth_and_read_port, ready_read, encrypt, close,
  proceed, auth_ok, auth_required, auth_not_required,
}
use jacktrip.Hub.Handshake.Messages.{
  FieldOf, missing, name_field_lem, check_auth_and_read_port-auth_message,
}
use jacktrip.Auth.{Qt, Clock, Auth, check_credentials}
use jacktrip.Hub.Handshake.Credentials.{check_decoded}
use jacktrip.Hub.Handshake.Replies.{reaction_to, ready_read-client_message, ready_read-auth_message}
use jacktrip.Base.{
  List, [], arith, false, if◌then◌else◌, length, none, replicate, same_string, take, true, ℕ, ◌++◌,
  ◌<◌, ◌==◌, ◌∷◌, ◌≡◌,
}

-- Decoding keeps ASCII as it is; the password is the user name.
abbrev same_bytes : List ℕ → List ℕ
same_bytes bytes = bytes

abbrev same_credentials : List ℕ → List ℕ → ℕ
same_credentials username password = if same_string username password then auth_ok else 0x40000

abbrev long_name : List ℕ
long_name = replicate 62 65 ++ (0xC3 ∷ 0xA4 ∷ [])

abbrev user : List ℕ
user = 117 ∷ 49 ∷ []

name_field_lem_example : FieldOf long_name (name_field long_name)
name_field_lem_example = name_field_lem long_name

check_auth_and_read_port-auth_message_example :
    (check_auth_and_read_port same_bytes same_credentials (auth_message 4464 long_name user user)
      ≡ (record {
        udp_port =
            if same_credentials user user == auth_ok then 4464 else same_credentials user user;
        remote_name = same_bytes (name_field long_name);
        left = [];
      }))
    × ((k : ℕ)
        → k < length (auth_message 4464 long_name user user)
        → check_auth_and_read_port same_bytes same_credentials
            (take k (auth_message 4464 long_name user user))
          ≡ missing same_bytes same_credentials (take k (auth_message 4464 long_name user user)))
check_auth_and_read_port-auth_message_example =
    check_auth_and_read_port-auth_message same_bytes same_credentials 4464 long_name user user
      (omega arith) (omega arith) (omega arith)

ready_read-client_message_example :
    (ready_read same_bytes same_credentials true false false (client_message 790 long_name)
      ≡ proceed 790 (same_bytes (name_field long_name)))
    × (ready_read same_bytes same_credentials true true false (client_message 790 long_name)
        ≡ close (put_number 4 auth_required))
ready_read-client_message_example =
    ready_read-client_message same_bytes same_credentials true 790 long_name (omega arith)

-- Qt's functions on strings that hold no separator, with the string in place of its hash.
abbrev plain_qt : Qt
plain_qt = record {
  split = λ c s. s ∷ [];
  section = λ c n s. s;
  to_utf8 = λ s. s;
  time_from = λ s. none;
  read_lines = λ s. s ∷ [];
  sha512 = λ s. s;
}

abbrev noon : Clock
noon = record { day_of_week = 3; current_time = 720 }

-- The user u1, who may come at any time.
abbrev users : Auth
users = record { password_table = (user, user) ∷ []; times_table = (user, 42 ∷ []) ∷ [] }

abbrev check : List ℕ → List ℕ → ℕ
check = check_decoded plain_qt same_bytes noon users

ready_read-auth_message_example :
    (ready_read same_bytes check true true false (put_number 4 auth_ok)
      ≡ encrypt (put_number 4 auth_ok))
    × (ready_read same_bytes check true false false (put_number 4 auth_ok)
        ≡ close (put_number 4 auth_not_required))
    × (ready_read same_bytes check true true true (auth_message 4464 long_name user user)
        ≡ reaction_to 4464
            (same_bytes (name_field long_name))
            (check_credentials plain_qt noon user user users))
ready_read-auth_message_example =
    ready_read-auth_message plain_qt same_bytes noon users true true 4464 long_name user user
      (omega arith) (omega arith) (omega arith) (omega arith)

-- ===== src/Hub/Handshake.antt =====
-- src/JackTrip.cpp and src/UdpHubListener.cpp: what a client sends a hub over TCP, and what the hub
-- makes of it, for a build without WEBRTC_SUPPORT. Strings of the client are their UTF-8 bytes, and a
-- number of type `qint32` is its two's complement. `from_utf8` is QString::fromUtf8 of Qt, and
-- `check_credentials` the number that `Auth` answers for the bytes of a user name and a password, which
-- Hub/Handshake/Credentials gives.
pub mod Opening
pub mod Messages
pub mod Credentials
pub mod Replies
mod Tests
use jacktrip.Header.{put_number, get_number}
use jacktrip.Base.{
  Bool, List, [], drop, false, get_or, if◌then◌else◌, leb, length, ltb, not, replicate, suc, take,
  true, u16, zero, ℕ, ◌%◌, ◌&&◌, ◌*◌, ◌++◌, ◌+◌, ◌-◌, ◌/◌, ◌==◌, ◌||◌, ◌∷◌,
}

-- gMaxRemoteNameLength and gMaxCredentialLength
abbrev pub max_remote_name_length : ℕ
max_remote_name_length = 64

abbrev pub max_credential_length : ℕ
max_credential_length = 255

-- Auth::AuthResponseT
abbrev pub auth_ok : ℕ
auth_ok = 0x10000

abbrev pub auth_required : ℕ
auth_required = 0x20000

abbrev pub auth_not_required : ℕ
auth_not_required = 0x30000

abbrev pub auth_wrong_creds : ℕ
auth_wrong_creds = 0x40000

-- `(byte & 0xc0) == 0x80`
abbrev pub is_continuation : ℕ → Bool
is_continuation byte = byte / 64 % 4 == 2

-- The loop that works back to the start of a character.
pub work_back : List ℕ → ℕ → ℕ
work_back name zero = zero
work_back name (suc n) =
    let back = work_back name n in if is_continuation (get_or name (suc n) 0) then back else suc n

pub truncated_length : List ℕ → ℕ
unfolding work_back
truncated_length name =
    if ltb (max_remote_name_length - 1) (length name)
    then work_back name (max_remote_name_length - 1)
    else length name

-- The field of the name, which was filled with zeros; the terminator is copied with the name.
pub name_field : List ℕ → List ℕ
unfolding truncated_length
name_field name =
    let n = truncated_length name in take n name ++ replicate (max_remote_name_length - n) 0

-- `receivedConnectionTCP`, without authentication.
pub client_message : ℕ → List ℕ → List ℕ
unfolding name_field put_number
client_message port name = put_number 4 port ++ name_field name

-- `connectionSecured`
pub auth_message : ℕ → List ℕ → List ℕ → List ℕ → List ℕ
unfolding name_field put_number
auth_message port name username password =
    put_number 4 port
    ++ (name_field name
        ++ (put_number 4 (length username)
            ++ (put_number 4 (length password) ++ (username ++ (0 ∷ (password ++ (0 ∷ [])))))))

-- What was read: a port, the name of the client if there was one, and the bytes that are left.
pub record PortRead : Type 0 where
  pub udp_port : ℕ
  pub remote_name : List ℕ
  pub left : List ℕ

-- A number of type `qint32` is negative, or above 65535.
abbrev pub is_negative : ℕ → Bool
is_negative n = leb 0x80000000 n

abbrev pub is_response : ℕ → Bool
is_response n = not (is_negative n) && ltb 65535 n

module _ (from_utf8 : List ℕ → List ℕ) (check_credentials : List ℕ → List ℕ → ℕ) where
  pub read_client_udp_port : List ℕ → PortRead
  unfolding get_number
  read_client_udp_port incoming =
      let rest = drop 4 incoming in
      if length rest == max_remote_name_length
      then record {
        udp_port = get_number 4 incoming;
        remote_name = from_utf8 (take max_remote_name_length rest);
        left = drop max_remote_name_length rest;
      }
      else record { udp_port = get_number 4 incoming; remote_name = []; left = rest }

  -- The end of `checkAuthAndReadPort`, once the lengths are known.
  pub read_credentials : ℕ → ℕ → List ℕ → PortRead
  unfolding get_number
  read_credentials username_length password_length incoming =
      let name = drop 4 incoming in
      let username = drop 8 (drop max_remote_name_length name) in
      let password = drop 1 (drop username_length username) in
      let response =
        check_credentials (take username_length username) (take password_length password) in
      record {
        udp_port = if response == auth_ok then get_number 4 incoming else response;
        remote_name = from_utf8 (take max_remote_name_length name);
        left = drop 1 (drop password_length password);
      }

  pub check_auth_and_read_port : List ℕ → PortRead
  unfolding read_credentials get_number
  check_auth_and_read_port incoming =
      let size = max_remote_name_length + 3 * 4 in
      let username_length = get_number 4 (drop (max_remote_name_length + 4) incoming) in
      let password_length = get_number 4 (drop (max_remote_name_length + 2 * 4) incoming) in
      if ltb (length incoming) size
      then record { udp_port = 0; remote_name = []; left = incoming }
      else if is_negative username_length
          || ltb max_credential_length username_length
          || is_negative password_length
          || ltb max_credential_length password_length
      then record { udp_port = auth_wrong_creds; remote_name = []; left = incoming }
      else if ltb (length incoming) (size + username_length + password_length + 2)
      then record { udp_port = 0; remote_name = []; left = incoming }
      else read_credentials username_length password_length incoming

-- What `readyRead` does: wait for more with some bytes not yet read, start the encryption after sending some bytes, close the
-- connection after sending some, or go on to admit the client with a port and a name.
pub data Reaction : Type 0 where
  wait : List ℕ → Reaction
  encrypt : List ℕ → Reaction
  close : List ℕ → Reaction
  proceed : ℕ → List ℕ → Reaction

-- A TLS ClientHello.
pub is_client_hello : List ℕ → Bool
is_client_hello incoming =
    get_or incoming 0 0 == 0x16
    && get_or incoming 1 0 == 0x03
    && leb 0x01 (get_or incoming 2 0)
    && leb (get_or incoming 2 0) 0x04

module _ (from_utf8 : List ℕ → List ℕ) (check_credentials : List ℕ → List ℕ → ℕ) where
  pub with_port : PortRead → Reaction
  with_port r = if r.udp_port == 0 then wait r.left else proceed (u16 r.udp_port) r.remote_name

  pub after_port : Bool → PortRead → Reaction
  unfolding with_port put_number
  after_port require_auth r =
      if r.udp_port == auth_ok
      then if require_auth
        then encrypt (put_number 4 auth_ok)
        else close (put_number 4 auth_not_required)
      else if require_auth
      then close (put_number 4 auth_required)
      else with_port r

  pub after_check : PortRead → Reaction
  unfolding with_port put_number
  after_check r = if is_response r.udp_port then close (put_number 4 r.udp_port) else with_port r

  pub ready_read : Bool → Bool → Bool → List ℕ → Reaction
  unfolding is_client_hello after_port after_check read_client_udp_port check_auth_and_read_port
  ready_read tls_configured require_auth false incoming =
      if ltb (length incoming) 3
      then wait incoming
      else if is_client_hello incoming
      then if tls_configured then encrypt [] else close []
      else if ltb (length incoming) 4
      then wait incoming
      else after_port require_auth (read_client_udp_port from_utf8 check_credentials incoming)
  ready_read tls_configured require_auth true incoming =
      after_check (check_auth_and_read_port from_utf8 check_credentials incoming)

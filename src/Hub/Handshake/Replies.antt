-- ===== src/Hub/Handshake/Replies.antt =====
-- What the hub does with the messages of a client.
use jacktrip.Hub.Handshake.Credentials.{response_code, check_decoded}
use jacktrip.Auth.{
  Qt, Clock, Auth, AuthResponse, allowed, wrong_creds, wrong_time, check_credentials,
}
use jacktrip.Header.{put_number}
use jacktrip.Header.Layout.{get_number-put_number}
use jacktrip.Hub.Handshake.{
  name_field, client_message, auth_message, is_response, read_client_udp_port, wait, encrypt, close,
  proceed, is_client_hello, with_port, after_port, after_check, ready_read, auth_ok, auth_required,
  auth_not_required, Reaction,
}
use jacktrip.Hub.Handshake.Messages.{name_field_lem, check_auth_and_read_port-auth_message}
use jacktrip.Base.{
  Bool, Bool-cases, List, [], ap, append-nil, arith, codes, drop, drop-append_length, false,
  if◌then◌else◌, inl, inr, leb, length, ltb, refl, sym, take, take-append_length, true, u16, ℕ, ◌%◌,
  ◌*◌, ◌++◌, ◌/◌, ◌<◌, ◌==◌, ◌^◌, ◌∙◌, ◌≡◌, ◌≤◌,
}

take_all : (n : ℕ) (xs : List ℕ) → length xs ≡ n → take n xs ≡ xs
take_all n xs e = ap (take n) (sym (append-nil xs)) ∙ take-append_length n xs [] e

drop_all : (n : ℕ) (xs : List ℕ) → length xs ≡ n → drop n xs ≡ []
drop_all n xs e = ap (drop n) (sym (append-nil xs)) ∙ drop-append_length n xs [] e

-- No port is taken for a TLS ClientHello.
is_client_hello_port :
    (port : ℕ) (rest : List ℕ) → port < 65536 → is_client_hello (put_number 4 port ++ rest) ≡ false
unfolding is_client_hello put_number
is_client_hello_port port rest h =
    let third : port / 256 / 256 % 256 ≡ 0 = omega (arith, h) in
    let low : leb 1 (port / 256 / 256 % 256) ≡ false = ground (arith, third) in ground (arith, low)

module _ (from_utf8 : List ℕ → List ℕ) (check_credentials : List ℕ → List ℕ → ℕ) where
  read_client_message :
      (port : ℕ) (name : List ℕ)
      → port < 65536
      → read_client_udp_port from_utf8 check_credentials (client_message port name)
        ≡ (record { udp_port = port; remote_name = from_utf8 (name_field name); left = [] })
  unfolding read_client_udp_port client_message
  read_client_message port name h =
      let field = (name_field_lem name).sized in
      rw
        (
          field,
          get_number-put_number 4 port (name_field name) (omega (arith, h)),
          take_all 64 (name_field name) field,
          drop_all 64 (name_field name) field,
        )
        refl

  length-client_message : (port : ℕ) (name : List ℕ) → length (client_message port name) ≡ 68
  unfolding client_message put_number
  length-client_message port name = omega (arith, (name_field_lem name).sized)

  client_message_hello :
      (port : ℕ) (name : List ℕ) → port < 65536 → is_client_hello (client_message port name) ≡ false
  unfolding client_message
  client_message_hello port name h = is_client_hello_port port (name_field name) h

  -- A client that does not authenticate, with a port of 16 bits, before the encryption: no such message
  -- is taken for a TLS ClientHello. A hub that requires no authentication goes on with exactly that
  -- port and the field of the name, and waits for more if the port is 0; one that does answers so and
  -- closes the connection.
  pub ready_read-client_message :
      (tls_configured : Bool) (port : ℕ) (name : List ℕ)
      → port < 65536
      → (ready_read from_utf8 check_credentials tls_configured false false
            (client_message port name)
          ≡ (if port == 0 then wait [] else proceed port (from_utf8 (name_field name))))
        × (ready_read from_utf8 check_credentials tls_configured true false
              (client_message port name)
            ≡ close (put_number 4 auth_required))
  unfolding ready_read after_port with_port
  ready_read-client_message tls_configured port name h =
      let long : ltb (length (client_message port name)) 3 ≡ false =
        rw (length-client_message port name) refl in
      let long4 : ltb (length (client_message port name)) 4 ≡ false =
        rw (length-client_message port name) refl in
      let hello : is_client_hello (client_message port name) ≡ false =
        client_message_hello port name h in
      let other : (port == auth_ok) ≡ false = ground (arith, h) in
      let small : u16 port ≡ port = omega (arith, h) in
      (
        rw (long, long4, hello, read_client_message port name h, other, small) refl,
        rw (long, long4, hello, read_client_message port name h, other) refl,
      )

  answered :
      (port response : ℕ) (name : List ℕ)
      → 0 < port
      → port < 65536
      → is_response response ≡ true
      → after_check from_utf8 check_credentials (record {
        udp_port = if response == auth_ok then port else response;
        remote_name = name;
        left = [];
      })
        ≡ (if response == auth_ok then proceed port name else close (put_number 4 response))
  unfolding after_check with_port
  answered port response name p0 p1 codes = elim (Bool-cases (response == auth_ok)) [
    | inl e ↦
        let low : is_response port ≡ false = ground (arith, p1) in
        let some_port : (port == 0) ≡ false = ground (arith, p0) in
        let small : u16 port ≡ port = omega (arith, p1) in rw (e, low, some_port, small) refl
    | inr e ↦ rw (e, codes) refl
  ]

  after_encryption :
      (tls_configured require_auth : Bool) (port : ℕ) (name username password : List ℕ)
      → 0 < port
      → port < 65536
      → length username ≤ 255
      → length password ≤ 255
      → is_response (check_credentials username password) ≡ true
      → ready_read from_utf8 check_credentials tls_configured require_auth true
          (auth_message port name username password)
        ≡ (if check_credentials username password == auth_ok
            then proceed port (from_utf8 (name_field name))
            else close (put_number 4 (check_credentials username password)))
  unfolding ready_read
  after_encryption tls_configured require_auth port name username password p0 p1 u1 w1 codes =
      ap (after_check from_utf8 check_credentials)
        (check_auth_and_read_port-auth_message from_utf8 check_credentials port name username
          password (omega (arith, p1)) u1 w1).0
      ∙ answered port (check_credentials username password) (from_utf8 (name_field name)) p0 p1
          codes

-- What the hub does once it has the whole message: it goes on, or it sends the number of the refusal
-- and closes the connection.
abbrev pub reaction_to : ℕ → List ℕ → AuthResponse → Reaction
reaction_to port name allowed = proceed port name
reaction_to port name wrong_creds = close (put_number 4 (4 * 2 ^ 16))
reaction_to port name wrong_time = close (put_number 4 (5 * 2 ^ 16))

response_code-reaction_to :
    (port : ℕ) (name : List ℕ) (r : AuthResponse)
    → (is_response (response_code r) ≡ true)
      × ((if response_code r == auth_ok
            then proceed port name
            else close (put_number 4 (response_code r)))
          ≡ reaction_to port name r)
unfolding response_code
response_code-reaction_to port name allowed = (refl, refl)
response_code-reaction_to port name wrong_creds = (refl, refl)
response_code-reaction_to port name wrong_time = (refl, refl)

module _ (qt : Qt) (from_utf8 : List ℕ → List ℕ) (clock : Clock) (auth : Auth) where
  -- A client that authenticates, with a user name and a password of up to 255 bytes each: before the
  -- encryption, which it asks for, a hub that requires authentication agrees, and one that does not
  -- answers so and closes the connection. Afterwards the whole message with a port of 16 bits other
  -- than 0 lets the hub go on with exactly that port and the field of the name if `checkCredentials`
  -- of `Auth` allows the user name and the password, decoded, and has it send 4 * 2^16 for wrong
  -- credentials or 5 * 2^16 for a wrong time and close the connection if not.
  pub ready_read-auth_message :
      (tls_configured require_auth : Bool) (port : ℕ) (name username password : List ℕ)
      → 0 < port
      → port < 65536
      → length username ≤ 255
      → length password ≤ 255
      → (ready_read from_utf8
            (check_decoded qt from_utf8 clock auth)
            tls_configured
            true
            false
            (put_number 4 auth_ok)
          ≡ encrypt (put_number 4 auth_ok))
        × (ready_read from_utf8
              (check_decoded qt from_utf8 clock auth)
              tls_configured
              false
              false
              (put_number 4 auth_ok)
            ≡ close (put_number 4 auth_not_required))
        × (ready_read from_utf8
              (check_decoded qt from_utf8 clock auth)
              tls_configured
              require_auth
              true
              (auth_message port name username password)
            ≡ reaction_to port
                (from_utf8 (name_field name))
                (check_credentials qt clock (from_utf8 username) (from_utf8 password) auth))
  unfolding ready_read check_decoded
  ready_read-auth_message tls_configured require_auth port name username password p0 p1 u1 w1 =
      let check = check_decoded qt from_utf8 clock auth in
      let r = check_credentials qt clock (from_utf8 username) (from_utf8 password) auth in
      let k = response_code-reaction_to port (from_utf8 (name_field name)) r in
      (
        refl,
        refl,
        after_encryption from_utf8 check tls_configured require_auth port name username password p0
              p1 u1 w1 k.0
            ∙ k.1,
      )

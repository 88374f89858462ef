-- ===== src/Hub/Handshake/Credentials.antt =====
-- src/UdpHubListener.cpp and src/Auth.h: the credentials of a message as `Auth` checks them, and the
-- numbers of its answers.
use jacktrip.Auth.{
  Qt, Clock, Auth, AuthResponse, allowed, wrong_creds, wrong_time, check_credentials,
}
use jacktrip.Hub.Handshake.{auth_ok, auth_wrong_creds}
use jacktrip.Base.{List, ℕ}

abbrev pub auth_wrong_time : ℕ
auth_wrong_time = 0x50000

-- The values of Auth::AuthResponseT.
unfoldable pub response_code : AuthResponse → ℕ
response_code allowed = auth_ok
response_code wrong_creds = auth_wrong_creds
response_code wrong_time = auth_wrong_time

-- The end of `checkAuthAndReadPort`: `username` and `password` are the bytes of the message.
unfoldable pub check_decoded : Qt → (List ℕ → List ℕ) → Clock → Auth → List ℕ → List ℕ → ℕ
unfolding response_code
check_decoded qt from_utf8 clock auth username password =
    response_code (check_credentials qt clock (from_utf8 username) (from_utf8 password) auth)

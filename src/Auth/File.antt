-- ===== src/Auth/File.antt =====
-- src/Auth.cpp: the file of the users, a line for each of them. A text is a list of code units; `none`
-- is a file that cannot be opened.
pub mod Storable
pub mod Reload
pub mod RoundTrip
use jacktrip.Auth.Crypt.{is_empty}
use jacktrip.Auth.{Qt, Auth, Table, find, put, value_of, starts_with, colon, newline, dollar}
use jacktrip.Base.{
  Bool, List, Option, [], codes, false, if◌then◌else◌, map, none, not, some, true, ℕ, ◌&&◌, ◌++◌,
  ◌||◌, ◌∷◌,
}

pub no_users : Auth
no_users = record { password_table = []; times_table = [] }

-- getUsers
pub get_users : Auth → List (List ℕ)
get_users a = map (λ e. e.0) a.password_table

-- getTimes
pub get_times : List ℕ → Auth → List ℕ
unfolding value_of
get_times username a = value_of (find username a.times_table)

-- "%1:%2:%3"
pub file_line : Table → List ℕ × List ℕ → List ℕ
unfolding value_of
file_line times_table e = e.0 ++ (colon ∷ e.1 ++ (colon ∷ value_of (find e.0 times_table)))

pub file_text : Table → Table → List ℕ
unfolding file_line
file_text times_table [] = []
file_text times_table (e ∷ t) = file_line times_table e ++ (newline ∷ file_text times_table t)

pub write_file : Auth → List ℕ
unfolding file_text
write_file a = file_text a.times_table a.password_table

pub has_salt_and_digest : List (List ℕ) → Bool
has_salt_and_digest (first ∷ method ∷ salt ∷ digest ∷ rest) =
    not (is_empty salt) && not (is_empty digest)
has_salt_and_digest parts = false

module _ (qt : Qt) where
  pub is_usable : List ℕ → Bool
  unfolding starts_with has_salt_and_digest
  is_usable hash =
      if starts_with hash (codes "$6$") then has_salt_and_digest (qt.split dollar hash) else false

  pub load_line : List (List ℕ) → Bool × Auth → Bool × Auth
  unfolding is_usable
  load_line (name ∷ hash ∷ times ∷ rest) r =
      if is_usable hash
      then (
        r.0,
        record {
          password_table = put name hash r.1.password_table;
          times_table = put name times r.1.times_table;
        },
      )
      else (false, r.1)
  load_line parts r = (false, r.1)

  -- The loop over the lines: whether there was no error so far, and the users.
  pub load_lines : List (List ℕ) → Bool × Auth → Bool × Auth
  unfolding load_line
  load_lines [] r = r
  load_lines (line ∷ lines) r = load_lines lines (load_line (qt.split colon line) r)

  pub load_auth_file : Option (List ℕ) → Bool × Auth
  unfolding load_lines no_users
  load_auth_file none = (true, no_users)
  load_auth_file (some text) = load_lines (qt.read_lines text) (true, no_users)

  pub set_file_name : Bool → Bool → Option (List ℕ) → Bool × Auth
  unfolding load_auth_file
  set_file_name monitor_changes read_file file =
      if read_file || monitor_changes then load_auth_file file else (true, no_users)

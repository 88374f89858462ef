-- ===== src/Auth.antt =====
-- src/Auth.cpp: the users of a hub server. Strings are lists of code units; the two tables are
-- association lists, and the file is the list of its lines. Looking a missing key up with `[]` adds it
-- with an empty value, which no function shows, so that it is left out. Auth/Crypt has the hash of a
-- password.
pub mod Crypt
pub mod Tables
pub mod Edit
pub mod File
mod Tests
use jacktrip.Auth.Crypt.{is_empty, generate_salt, generate_sha512_hash}
use jacktrip.Base.{
  Bool, List, Option, [], codes, drop, false, get_or, if◌then◌else◌, leb, length, none, not,
  same_string, some, take, true, ℕ, ◌&&◌, ◌-◌, ◌||◌, ◌∷◌,
}

-- QHash<QString, QString>
abbrev pub Table : Type 0
Table = List (List ℕ × List ℕ)

unfoldable pub find : List ℕ → Table → Option (List ℕ)
find name [] = none
find name (e ∷ t) = if same_string name e.0 then some e.1 else find name t

-- `table[name] = value`
unfoldable pub put : List ℕ → List ℕ → Table → Table
put name value [] = (name, value) ∷ []
put name value (e ∷ t) =
    let rest = put name value t in if same_string name e.0 then (name, value) ∷ t else e ∷ rest

unfoldable pub remove : List ℕ → Table → Table
remove name [] = []
remove name (e ∷ t) = let rest = remove name t in if same_string name e.0 then rest else e ∷ rest

-- The value of a key, empty if there is none.
pub value_of : Option (List ℕ) → List ℕ
value_of none = []
value_of (some v) = v

pub is_known : Option (List ℕ) → Bool
is_known none = false
is_known (some v) = true

pub record Auth : Type 0 where
  pub password_table : Table
  pub times_table : Table

-- Auth::AuthResponseT, where a credential was checked.
pub data AuthResponse : Type 0 where
  allowed : AuthResponse
  wrong_creds : AuthResponse
  wrong_time : AuthResponse

abbrev pub comma : ℕ
comma = 44

abbrev pub newline : ℕ
newline = 10

abbrev pub carriage_return : ℕ
carriage_return = 13

abbrev pub dash : ℕ
dash = 45

abbrev pub star : ℕ
star = 42

abbrev pub dollar : ℕ
dollar = 36

abbrev pub colon : ℕ
colon = 58

-- What the class uses of Qt: QString::split at a character, QString::section with one field, the lines that a QTextStream reads, a
-- time in minutes read with the format "hhmm", if it is valid.
pub record Qt : Type 0 where
  pub split : ℕ → List ℕ → List (List ℕ)
  pub section : ℕ → ℕ → List ℕ → List ℕ
  pub to_utf8 : List ℕ → List ℕ
  pub time_from : List ℕ → Option ℕ
  pub read_lines : List ℕ → List (List ℕ)
  pub sha512 : List ℕ → List ℕ

-- The day of the week, from 1 for Monday, and the time in minutes.
pub record Clock : Type 0 where
  pub day_of_week : ℕ
  pub current_time : ℕ

pub contains : List (List ℕ) → List ℕ → Bool
contains [] s = false
contains (x ∷ xs) s = same_string x s || contains xs s

-- m_days
pub days : List (List ℕ)
days = codes "Mo" ∷ codes "Tu" ∷ codes "We" ∷ codes "Th" ∷ codes "Fr" ∷ codes "Sa" ∷ codes "Su" ∷ []

pub starts_with : List ℕ → List ℕ → Bool
starts_with s prefix = same_string (take (length prefix) s) prefix

module _ (qt : Qt) where
  -- A range of times that is valid and holds the time.
  pub in_range : ℕ → List (List ℕ) → Bool
  in_range now (a ∷ b ∷ []) = elim (qt.time_from a) [
    | none ↦ false
    | some start ↦ elim (qt.time_from b) [ none ↦ false | some end ↦ leb start now && leb now end ]
  ]
  in_range now parts = false

  -- The loop over the entries of the schedule.
  pub schedule_allows : Clock → List (List ℕ) → Bool
  unfolding starts_with in_range days
  schedule_allows c [] = false
  schedule_allows c (entry ∷ entries) =
      let access_time = drop 2 entry in
      let later = schedule_allows c entries in
      if starts_with entry (get_or days (c.day_of_week - 1) [])
      then if same_string access_time (star ∷ [])
        then true
        else in_range c.current_time (qt.split dash access_time) || later
      else later

  pub check_times : Clock → List (List ℕ) → Bool
  unfolding schedule_allows contains
  check_times c ([] ∷ []) = false
  check_times c entries = if contains entries (star ∷ []) then true else schedule_allows c entries

  pub check_time : Clock → List ℕ → Auth → Bool
  unfolding check_times value_of
  check_time c username a = check_times c (qt.split comma (value_of (find username a.times_table)))

  -- The comparison of the hashes, for the one that is stored.
  pub check_hash : Clock → List ℕ → List ℕ → Auth → Option (List ℕ) → AuthResponse
  check_hash c username password a none = wrong_creds
  check_hash c username password a (some stored) =
      if same_string
        (generate_sha512_hash qt.to_utf8 qt.sha512 password (qt.section dollar 2 stored)) stored
      then if check_time c username a then allowed else wrong_time
      else wrong_creds

  pub check_credentials : Clock → List ℕ → List ℕ → Auth → AuthResponse
  unfolding check_hash
  check_credentials c username password a =
      if is_empty username || is_empty password
      then wrong_creds
      else check_hash c username password a (find username a.password_table)

  pub delete_user : List ℕ → Auth → Auth
  delete_user username a = record {
    password_table = remove username a.password_table;
    times_table = remove username a.times_table;
  }

  -- A range of times, for an entry of a schedule; what is not a range is not looked at.
  pub valid_range : List (List ℕ) → Bool
  valid_range (a ∷ b ∷ []) = elim (qt.time_from a) [
    | none ↦ false
    | some start ↦ elim (qt.time_from b) [ none ↦ false | some end ↦ true ]
  ]
  valid_range parts = true

  pub valid_entry : List ℕ → Bool
  unfolding contains valid_range days
  valid_entry entry =
      if same_string entry (star ∷ [])
      then true
      else if contains days (take 2 entry)
      then if same_string (drop 2 entry) (star ∷ [])
        then true
        else valid_range (qt.split dash (drop 2 entry))
      else false

  pub valid_entries : List (List ℕ) → Bool
  unfolding valid_entry
  valid_entries [] = true
  valid_entries (entry ∷ entries) = valid_entry entry && valid_entries entries

  pub verify_times : List (List ℕ) → Bool
  unfolding valid_entries
  verify_times ([] ∷ []) = true
  verify_times entries = valid_entries entries

  pub verify_time_format : List ℕ → Bool
  unfolding verify_times
  verify_time_format times = verify_times (qt.split comma times)

  -- `values` are the random numbers that `generateSalt` draws.
  pub edit_user : List ℕ → List ℕ → List ℕ → List ℕ → Auth → Auth
  unfolding verify_time_format
  edit_user username times password values a =
      let known = is_known (find username a.password_table) in
      let passwords =
        if is_empty password
        then a.password_table
        else put username
            (generate_sha512_hash qt.to_utf8 qt.sha512 password (generate_salt values))
            a.password_table in
      if not known && is_empty password then a else record {
        password_table = passwords;
        times_table =
            if verify_time_format times then put username times a.times_table else a.times_table;
      }

-- ===== src/Auth/Tests.antt =====
-- The users of a hub at concrete calls, with simple functions in place of Qt's: a string is its own
-- UTF-8, the hash is the first 64 bytes, a time is its number.
use jacktrip.Auth.{
  Qt, Clock, allowed, wrong_creds, wrong_time, check_times, check_credentials, edit_user,
  delete_user, verify_time_format, comma, newline,
}
use jacktrip.Auth.Crypt.{lacks}
use jacktrip.Auth.Edit.{check_credentials-edit_user, change_of_other_users}
use jacktrip.Auth.File.{no_users, write_file, load_auth_file}
use jacktrip.Auth.File.RoundTrip.{
  UserChange, edit_change, delete_change, change_users, load_auth_file-write_file,
}
use jacktrip.Base.{
  Bool-cases, List, Option, [], ap, append-nil, append_assoc, arith, codes, false, get_or,
  if◌then◌else◌, inl, inr, none, refl, replicate, same_string, some, sym, take, true, ℕ, ◌*◌, ◌++◌,
  ◌+◌, ◌-◌, ◌==◌, ◌∙◌, ◌∷◌, ◌≡◌,
}

-- The first part of the string before a separator, in front of the others.
add_to_first : ℕ → List (List ℕ) → List (List ℕ)
add_to_first x [] = (x ∷ []) ∷ []
add_to_first x (part ∷ parts) = (x ∷ part) ∷ parts

split_at : ℕ → List ℕ → List (List ℕ)
unfolding add_to_first
split_at c [] = [] ∷ []
split_at c (x ∷ xs) = let rest = split_at c xs in if x == c then [] ∷ rest else add_to_first x rest

split_at_first :
    (c : ℕ) (x rest : List ℕ)
    → lacks c x ≡ true
    → split_at c (x ++ (c ∷ rest)) ≡ x ∷ split_at c rest
unfolding split_at lacks add_to_first
split_at_first c [] rest l = ground arith
split_at_first c (x ∷ xs) rest l = elim (Bool-cases (x == c)) [
  | inl e ↦ absurd (ground (arith, e, l))
  | inr e ↦ rw (e, split_at_first c xs rest (ground (arith, e, l))) refl
]

split_at_last : (c : ℕ) (x : List ℕ) → lacks c x ≡ true → split_at c x ≡ x ∷ []
unfolding split_at lacks add_to_first
split_at_last c [] l = refl
split_at_last c (x ∷ xs) l = elim (Bool-cases (x == c)) [
  | inl e ↦ absurd (ground (arith, e, l))
  | inr e ↦ rw (e, split_at_last c xs (ground (arith, e, l))) refl
]

-- The lines before each newline; what follows the last one is a line too.
lines_of : List ℕ → List ℕ → List (List ℕ)
lines_of [] [] = []
lines_of (y ∷ line) [] = (y ∷ line) ∷ []
lines_of line (x ∷ xs) =
    let next = lines_of (line ++ (x ∷ [])) xs in
    let first = lines_of [] xs in if x == newline then line ∷ first else next

lines_of_first :
    (start line rest : List ℕ)
    → lacks newline line ≡ true
    → lines_of start (line ++ (newline ∷ rest)) ≡ (start ++ line) ∷ lines_of [] rest
unfolding lines_of lacks
lines_of_first start [] rest l = ap (λ s. s ∷ lines_of [] rest) (sym (append-nil start))
lines_of_first start (x ∷ xs) rest l = elim (Bool-cases (x == newline)) [
  | inl e ↦ absurd (ground (arith, e, l))
  | inr e ↦ rw e (
      lines_of_first (start ++ (x ∷ [])) xs rest (ground (arith, e, l))
      ∙ ap (λ s. s ∷ lines_of [] rest) (append_assoc start (x ∷ []) xs))
]

time_from : List ℕ → Option ℕ
time_from (a ∷ b ∷ c ∷ d ∷ []) = some ((a - 48) * 600 + (b - 48) * 60 + (c - 48) * 10 + (d - 48))
time_from s = none

abbrev qt : Qt
qt = record {
  split = split_at;
  section = λ c n s. get_or (split_at c s) n [];
  to_utf8 = λ s. s;
  time_from = time_from;
  read_lines = lines_of [];
  sha512 = take 64;
}

abbrev values : List ℕ
values = replicate 16 7

-- Wednesday, 12:00
abbrev noon : Clock
noon = record { day_of_week = 3; current_time = 720 }

check_credentials-edit_user_example :
    check_credentials qt noon
      (codes "ann")
      (codes "pw")
      (edit_user qt (codes "ann") (codes "Mo*,We0900-1700") (codes "pw") values no_users)
    ≡ (if check_times qt noon (qt.split comma (codes "Mo*,We0900-1700"))
        then allowed
        else wrong_time)
unfolding verify_time_format split_at time_from same_string
check_credentials-edit_user_example =
    check_credentials-edit_user qt (λ t e. refl) split_at_first split_at_last (λ c n t. refl) noon
      (codes "ann") (codes "Mo*,We0900-1700") (codes "pw") values no_users refl refl refl refl

at_noon : check_times qt noon (qt.split comma (codes "Mo*,We0900-1700")) ≡ true
unfolding check_times split_at time_from same_string
at_noon = refl

change_of_other_users_example :
    (check_credentials qt noon
        (codes "ann")
        (codes "pw")
        (edit_user qt (codes "bob") (codes "*") (codes "pw") values no_users)
      ≡ check_credentials qt noon (codes "ann") (codes "pw") no_users)
    × (check_credentials qt noon (codes "ann") (codes "pw") (delete_user qt (codes "bob") no_users)
        ≡ check_credentials qt noon (codes "ann") (codes "pw") no_users)
    × (check_credentials qt noon (codes "bob") (codes "pw") (delete_user qt (codes "bob") no_users)
        ≡ wrong_creds)
unfolding same_string
change_of_other_users_example =
    change_of_other_users qt noon (codes "bob") (codes "ann") (codes "pw") (codes "*") (codes "pw")
      values no_users refl

-- Two users are added, one is changed and one is deleted.
abbrev changes : List UserChange
changes =
    edit_change (codes "ann") (codes "*") (codes "pw") values
    ∷ edit_change (codes "bob") (codes "Mo0900-1200") (codes "key") values
    ∷ edit_change (codes "ann") (codes "We*") [] values
    ∷ delete_change (codes "bob")
    ∷ []

load_auth_file-write_file_example :
    ((load_auth_file qt (some (write_file (change_users qt changes no_users)))).0 ≡ true)
    × ((c : Clock) (username password : List ℕ)
        → check_credentials qt c username password
            (load_auth_file qt (some (write_file (change_users qt changes no_users)))).1
          ≡ check_credentials qt c username password (change_users qt changes no_users))
unfolding lacks lines_of
load_auth_file-write_file_example =
    load_auth_file-write_file qt (λ t e. refl) split_at_first split_at_last refl
      (λ line rest l r. lines_of_first [] line rest l) changes
      (
        ((refl, refl, refl), (refl, refl, refl), refl),
        (
          ((refl, refl, refl), (refl, refl, refl), refl),
          (((refl, refl, refl), (refl, refl, refl), refl), (tt, tt)),
        ),
      )

-- A time that is not a range is taken for a user, who is never let in.
lax_times :
    (verify_time_format qt (codes "We1200") ≡ true)
    × (check_times qt noon (qt.split comma (codes "We1200")) ≡ false)
unfolding verify_time_format check_times split_at time_from same_string
lax_times = (refl, refl)

-- ===== src/Auth/File/RoundTrip.antt =====
-- src/Auth.cpp: users who were edited and written to the file are the users who are read from it.
use mathlib.Core.Bool.{false≢true}
use mathlib.Core.Path.{subst}
use jacktrip.Auth.{
  Qt, Clock, Auth, find, value_of, newline, carriage_return, is_known, check_credentials, edit_user,
  delete_user,
}
use jacktrip.Auth.Crypt.{lacks}
use jacktrip.Auth.Crypt.Salt.{is_ascii}
use jacktrip.Auth.Edit.{check_credentials_of_values}
use jacktrip.Auth.File.{no_users, write_file, load_auth_file, load_lines}
use jacktrip.Auth.File.Storable.{
  Plain, Storable, no_users-Storable, edit_user-Storable, delete_user-Storable,
}
use jacktrip.Auth.File.Reload.{Reloaded, or_else, pick, load_lines-Reloaded, read_lines-file_text}
use jacktrip.Base.{
  All, Bool, List, Option, [], length, none, refl, some, sym, true, ℕ, ◌++◌, ◌∙◌, ◌∷◌, ◌≡◌,
}

-- A call of `editUser` or `deleteUser`; the values are what the random generator gives.
pub data UserChange : Type 0 where
  edit_change : List ℕ → List ℕ → List ℕ → List ℕ → UserChange
  delete_change : List ℕ → UserChange

pub change_users : Qt → List UserChange → Auth → Auth
change_users qt [] a = a
change_users qt (edit_change username times password values ∷ changes) a =
    change_users qt changes (edit_user qt username times password values a)
change_users qt (delete_change username ∷ changes) a =
    change_users qt changes (delete_user qt username a)

-- A name and times that fit in a line of the file, and a salt of 16 characters.
abbrev pub PlainChange : UserChange → Type 0
PlainChange (edit_change username times password values) =
    Plain username × Plain times × (length values ≡ 16)
PlainChange (delete_change username) = Unit

or_else-none : (o : Option (List ℕ)) → or_else o none ≡ o
unfolding or_else
or_else-none none = refl
or_else-none (some v) = refl

pick_known : (o : Option (List ℕ)) (v w : List ℕ) → is_known o ≡ true → pick o v w ≡ v
unfolding pick is_known
pick_known none v w e = absurd (false≢true e)
pick_known (some x) v w e = refl

same_credentials :
    (qt : Qt) (a : Auth) (r : Bool × Auth)
    → Reloaded a.times_table a.password_table no_users r
    → (c : Clock) (username password : List ℕ)
    → check_credentials qt c username password r.1 ≡ check_credentials qt c username password a
unfolding no_users find value_of
same_credentials qt a r h c username password =
    check_credentials_of_values qt c username password a r.1
      (h.passwords username ∙ or_else-none (find username a.password_table))
      (λ k.
        h.times username
        ∙ pick_known (find username a.password_table) (value_of (find username a.times_table)) [] k)

module _ (qt : Qt) (ascii : (s : List ℕ) → is_ascii s ≡ true → qt.to_utf8 s ≡ s)
    (split_first : (c : ℕ) (x rest : List ℕ)
      → lacks c x ≡ true
      → qt.split c (x ++ (c ∷ rest)) ≡ x ∷ qt.split c rest)
    (split_last : (c : ℕ) (x : List ℕ) → lacks c x ≡ true → qt.split c x ≡ x ∷ []) where
  change_users-Storable :
      (changes : List UserChange) (a : Auth)
      → All PlainChange changes
      → Storable qt a
      → Storable qt (change_users qt changes a)
  unfolding change_users
  change_users-Storable [] a p s = s
  change_users-Storable (edit_change username times password values ∷ changes) a p s =
      change_users-Storable changes (edit_user qt username times password values a) p.1 (
        edit_user-Storable qt ascii split_first split_last username times password values a p.0.0
          p.0.1 p.0.2 s)
  change_users-Storable (delete_change username ∷ changes) a p s =
      change_users-Storable changes (delete_user qt username a) p.1
        (delete_user-Storable qt username a s)

  module _ (read_none : qt.read_lines [] ≡ [])
      (read_first : (line rest : List ℕ)
        → lacks newline line ≡ true
        → lacks carriage_return line ≡ true
        → qt.read_lines (line ++ (newline ∷ rest)) ≡ line ∷ qt.read_lines rest) where
    load-write_file :
        (a : Auth)
        → Storable qt a
        → Reloaded a.times_table a.password_table no_users (load_auth_file qt (some (write_file a)))
    unfolding load_auth_file write_file
    load-write_file a s =
        subst
          (λ lines.
            Reloaded a.times_table a.password_table no_users (load_lines qt lines (true, no_users)))
          (sym (
            read_lines-file_text qt read_none read_first a.times_table a.password_table s.hashes
              s.times))
          (load_lines-Reloaded qt split_first split_last a.times_table a.password_table no_users
            s.names s.hashes s.times)

    -- After any calls of `editUser` and `deleteUser` on no users, with names and times that have no
    -- colon, newline or carriage return and with salts of 16 characters, the file that `writeFile`
    -- writes is read by `loadAuthFile` without an error, and the users that it gives get the same
    -- answer of `checkCredentials` for every name and password at every time.
    pub load_auth_file-write_file :
        (changes : List UserChange)
        → All PlainChange changes
        → ((load_auth_file qt (some (write_file (change_users qt changes no_users)))).0 ≡ true)
          × ((c : Clock) (username password : List ℕ)
              → check_credentials qt c username password
                  (load_auth_file qt (some (write_file (change_users qt changes no_users)))).1
                ≡ check_credentials qt c username password (change_users qt changes no_users))
    load_auth_file-write_file changes p =
        let a = change_users qt changes no_users in
        let h =
          load-write_file a (change_users-Storable changes no_users p (no_users-Storable qt)) in
        (h.no_error, same_credentials qt a (load_auth_file qt (some (write_file a))) h)

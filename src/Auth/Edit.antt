-- ===== src/Auth/Edit.antt =====
-- src/Auth.cpp: a user who was added or changed is let in with the password given, at the times given;
-- a user who was deleted is not; nobody else is concerned.
use jacktrip.Auth.{
  find, is_known, value_of, Auth, allowed, wrong_creds, wrong_time, Qt, Clock, dollar, check_times,
  comma, check_time, check_hash, check_credentials, delete_user, verify_time_format, edit_user,
}
use jacktrip.Auth.Tables.{find-put_self, find-put_other, find-remove_self, find-remove_other}
use jacktrip.Auth.Crypt.{is_empty, generate_sha512_hash, generate_salt, lacks}
use jacktrip.Auth.Crypt.Salt.{
  is_ascii, hash_lem, digest, generate_salt-lacks, digest-lacks, char64-not_dollar,
}
use jacktrip.Base.{
  Bool-cases, List, Option, [], ap, codes, false, get_or, if◌then◌else◌, inl, inr, length, none,
  not, refl, same_string, same_string_refl, some, true, ℕ, ◌&&◌, ◌++◌, ◌||◌, ◌∙◌, ◌∷◌, ◌≡◌,
}

-- Users whom a change does not name.
module _ (qt : Qt) (c : Clock) (other password : List ℕ) (a b : Auth) where
  check_hash_of_values :
      (stored : Option (List ℕ))
      → (is_known stored ≡ true
          → value_of (find other b.times_table) ≡ value_of (find other a.times_table))
      → check_hash qt c other password b stored ≡ check_hash qt c other password a stored
  unfolding check_hash check_time is_known
  check_hash_of_values none q = refl
  check_hash_of_values (some s) q = rw (q refl) refl

  pub check_credentials_of_values :
      find other b.password_table ≡ find other a.password_table
      → (is_known (find other a.password_table) ≡ true
          → value_of (find other b.times_table) ≡ value_of (find other a.times_table))
      → check_credentials qt c other password b ≡ check_credentials qt c other password a
  unfolding check_credentials
  check_credentials_of_values p q =
      rw p (rw (check_hash_of_values (find other a.password_table) q) refl)

  check_credentials_of_tables :
      find other b.password_table ≡ find other a.password_table
      → find other b.times_table ≡ find other a.times_table
      → check_credentials qt c other password b ≡ check_credentials qt c other password a
  check_credentials_of_tables p q = check_credentials_of_values p (λ k. ap value_of q)

module _ (qt : Qt) (c : Clock) (username : List ℕ) where
  find-edit_user_passwords :
      (other times password values : List ℕ) (a : Auth)
      → same_string other username ≡ false
      → find other (edit_user qt username times password values a).password_table
        ≡ find other a.password_table
  unfolding edit_user
  find-edit_user_passwords other times password values a d = elim (Bool-cases (is_empty password)) [
    | inl p ↦ elim (Bool-cases (is_known (find username a.password_table))) [
      | inl q ↦ rw (p, q) refl
      | inr q ↦ rw (p, q) refl
    ]
    | inr p ↦ elim (Bool-cases (is_known (find username a.password_table))) [
      | inl q ↦
          rw (p, q)
            (find-put_other username other
              (generate_sha512_hash qt.to_utf8 qt.sha512 password (generate_salt values))
              a.password_table d)
      | inr q ↦
          rw (p, q)
            (find-put_other username other
              (generate_sha512_hash qt.to_utf8 qt.sha512 password (generate_salt values))
              a.password_table d)
    ]
  ]

  find-edit_user_times :
      (other times password values : List ℕ) (a : Auth)
      → same_string other username ≡ false
      → find other (edit_user qt username times password values a).times_table
        ≡ find other a.times_table
  unfolding edit_user
  find-edit_user_times other times password values a d =
      elim (Bool-cases (not (is_known (find username a.password_table)) && is_empty password)) [
        | inl p ↦ rw p refl
        | inr p ↦ elim (Bool-cases (verify_time_format qt times)) [
          | inl v ↦ rw (p, v) (find-put_other username other times a.times_table d)
          | inr v ↦ rw (p, v) refl
        ]
      ]

  find-edit_user_password :
      (times password values : List ℕ) (a : Auth)
      → is_empty password ≡ false
      → find username (edit_user qt username times password values a).password_table
        ≡ some (generate_sha512_hash qt.to_utf8 qt.sha512 password (generate_salt values))
  unfolding edit_user
  find-edit_user_password times password values a p =
      elim (Bool-cases (is_known (find username a.password_table))) [
        | inl q ↦
            rw (p, q)
              (find-put_self username
                (generate_sha512_hash qt.to_utf8 qt.sha512 password (generate_salt values))
                a.password_table)
        | inr q ↦
            rw (p, q)
              (find-put_self username
                (generate_sha512_hash qt.to_utf8 qt.sha512 password (generate_salt values))
                a.password_table)
      ]

  find-edit_user_time :
      (times password values : List ℕ) (a : Auth)
      → is_empty password ≡ false
      → verify_time_format qt times ≡ true
      → find username (edit_user qt username times password values a).times_table ≡ some times
  unfolding edit_user
  find-edit_user_time times password values a p v =
      elim (Bool-cases (is_known (find username a.password_table))) [
        | inl q ↦ rw (p, q, v) (find-put_self username times a.times_table)
        | inr q ↦ rw (p, q, v) (find-put_self username times a.times_table)
      ]

  check_credentials_unknown :
      (secret : List ℕ) (a : Auth)
      → find username a.password_table ≡ none
      → check_credentials qt c username secret a ≡ wrong_creds
  unfolding check_credentials check_hash
  check_credentials_unknown secret a p = elim (Bool-cases (is_empty username || is_empty secret)) [
    | inl q ↦ rw q refl
    | inr q ↦ rw (q, p) refl
  ]

  -- A change of a user by `editUser` or `deleteUser` leaves the answer of `checkCredentials` for every
  -- other name as it was, with any password and at any time; a user who was deleted is refused with
  -- any password.
  pub change_of_other_users :
      (other secret times password values : List ℕ) (a : Auth)
      → same_string other username ≡ false
      → (check_credentials qt c other secret (edit_user qt username times password values a)
          ≡ check_credentials qt c other secret a)
        × (check_credentials qt c other secret (delete_user qt username a)
            ≡ check_credentials qt c other secret a)
        × (check_credentials qt c username secret (delete_user qt username a) ≡ wrong_creds)
  unfolding delete_user
  change_of_other_users other secret times password values a d =
      let edited = edit_user qt username times password values a in
      let deleted = delete_user qt username a in
      (
        check_credentials_of_tables qt c other secret a edited
            (find-edit_user_passwords other times password values a d)
            (find-edit_user_times other times password values a d),
        check_credentials_of_tables qt c other secret a deleted
            (find-remove_other username other a.password_table d)
            (find-remove_other username other a.times_table d),
        check_credentials_unknown secret deleted (find-remove_self username a.password_table),
      )

  -- A user who is stored, at the times that are stored.
  check_credentials_stored :
      (password times stored : List ℕ) (a : Auth)
      → is_empty username ≡ false
      → is_empty password ≡ false
      → find username a.password_table ≡ some stored
      → generate_sha512_hash qt.to_utf8 qt.sha512 password (qt.section dollar 2 stored) ≡ stored
      → find username a.times_table ≡ some times
      → check_credentials qt c username password a
        ≡ (if check_times qt c (qt.split comma times) then allowed else wrong_time)
  unfolding check_credentials check_hash check_time
  check_credentials_stored password times stored a u w f h t =
      rw (u, w, f, h, same_string_refl stored, t) refl

-- What the code relies on of Qt: a salt is ASCII, a string is split at each separator, and a section
-- is a field of the split.
module _ (qt : Qt) (ascii : (s : List ℕ) → is_ascii s ≡ true → qt.to_utf8 s ≡ s)
    (split_first : (c : ℕ) (x rest : List ℕ)
      → lacks c x ≡ true
      → qt.split c (x ++ (c ∷ rest)) ≡ x ∷ qt.split c rest)
    (split_last : (c : ℕ) (x : List ℕ) → lacks c x ≡ true → qt.split c x ≡ x ∷ []) where
  pub split-hash :
      (password values : List ℕ)
      → length values ≡ 16
      → qt.split dollar (generate_sha512_hash qt.to_utf8 qt.sha512 password (generate_salt values))
        ≡ [] ∷ codes "6" ∷ generate_salt values ∷ digest qt.to_utf8 qt.sha512 password values ∷ []
  unfolding lacks
  split-hash password values e =
      let salt = generate_salt values in
      let last = digest qt.to_utf8 qt.sha512 password values in
      ap (qt.split dollar) (hash_lem qt.to_utf8 qt.sha512 password values ascii e)
      ∙ split_first dollar [] (54 ∷ 36 ∷ (salt ++ (36 ∷ last))) refl
      ∙ ap (λ r. [] ∷ r) (split_first dollar (codes "6") (salt ++ (36 ∷ last)) refl)
      ∙ ap (λ r. [] ∷ codes "6" ∷ r)
          (split_first dollar salt last (generate_salt-lacks dollar char64-not_dollar values))
      ∙ ap (λ r. [] ∷ codes "6" ∷ salt ∷ r)
          (split_last dollar last
            (digest-lacks dollar char64-not_dollar qt.to_utf8 qt.sha512 password values))

  -- After `editUser` with a name and a password that are not empty and with times that
  -- `verifyTimeFormat` accepts, `checkCredentials` with this name and password lets the user in if
  -- the new times allow it and otherwise answers that it is the wrong time; whatever the users were,
  -- for each salt of 16 characters.
  pub check_credentials-edit_user :
      (section_field : (c n : ℕ) (s : List ℕ) → qt.section c n s ≡ get_or (qt.split c s) n [])
      (c : Clock) (username times password values : List ℕ) (a : Auth)
      → is_empty username ≡ false
      → is_empty password ≡ false
      → verify_time_format qt times ≡ true
      → length values ≡ 16
      → check_credentials qt c username password (edit_user qt username times password values a)
        ≡ (if check_times qt c (qt.split comma times) then allowed else wrong_time)
  check_credentials-edit_user section_field c username times password values a u w v e =
      let hash = generate_sha512_hash qt.to_utf8 qt.sha512 password (generate_salt values) in
      let after = edit_user qt username times password values a in
      let salt : qt.section dollar 2 hash ≡ generate_salt values =
        section_field dollar 2 hash ∙ ap (λ r. get_or r 2 []) (split-hash password values e) in
      check_credentials_stored qt c username password times hash after u w
        (find-edit_user_password qt c username times password values a w)
        (ap (generate_sha512_hash qt.to_utf8 qt.sha512 password) salt)
        (find-edit_user_time qt c username times password values a w v)

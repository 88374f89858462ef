-- ===== src/Auth/File/Storable.antt =====
-- src/Auth.cpp: what a table of users must be for its file to be read again, and that the operations of
-- the class keep it.
use mathlib.Core.Bool.{false≢true}
use jacktrip.Auth.{
  Qt, Auth, Table, find, put, remove, value_of, starts_with, colon, newline, carriage_return,
  edit_user, delete_user, verify_time_format, is_known,
}
use jacktrip.Auth.Crypt.{is_empty, generate_sha512_hash, generate_salt, lacks}
use jacktrip.Auth.Crypt.Salt.{
  is_ascii, hash-lacks, hash_lem, digest-is_empty, generate_salt-is_empty, char64-not_colon,
  char64-not_newline, char64-not_return,
}
use jacktrip.Auth.Edit.{split-hash}
use jacktrip.Auth.Tables.{find-put_other, find-remove_self, find-remove_other}
use jacktrip.Auth.File.{no_users, is_usable, has_salt_and_digest}
use jacktrip.Base.{
  All, Bool-cases, List, [], ap, codes, false, inl, inr, length, none, not, refl, same_string,
  same_string_eq, same_string_refl, sym, true, ℕ, ◌&&◌, ◌++◌, ◌∙◌, ◌∷◌, ◌≡◌,
}

-- A string that neither ends a field nor a line of the file.
abbrev pub Plain : List ℕ → Type 0
Plain s = (lacks colon s ≡ true) × (lacks newline s ≡ true) × (lacks carriage_return s ≡ true)

-- No name stands twice in a table.
abbrev pub Distinct : Table → Type 0
Distinct [] = Unit
Distinct (e ∷ t) = (find e.0 t ≡ none) × Distinct t

abbrev pub StoredHash : Qt → List ℕ × List ℕ → Type 0
StoredHash qt e = Plain e.0 × Plain e.1 × (is_usable qt e.1 ≡ true)

abbrev pub StoredTimes : List ℕ × List ℕ → Type 0
StoredTimes e = Plain e.1

pub record Storable (qt : Qt) (a : Auth) : Type 0 where
  pub names : Distinct a.password_table
  pub hashes : All (StoredHash qt) a.password_table
  pub times : All StoredTimes a.times_table

pub value_of-Plain :
    (name : List ℕ) (t : Table) → All StoredTimes t → Plain (value_of (find name t))
unfolding value_of find lacks
value_of-Plain name [] h = (refl, refl, refl)
value_of-Plain name (e ∷ t) h = elim (Bool-cases (same_string name e.0)) [
  | inl p ↦ rw p h.0
  | inr p ↦ rw p (value_of-Plain name t h.1)
]

put-All :
    (P : List ℕ × List ℕ → Type 0) (name value : List ℕ) (t : Table)
    → P (name, value)
    → All P t
    → All P (put name value t)
unfolding put
put-All P name value [] p h = (p, tt)
put-All P name value (e ∷ t) p h = elim (Bool-cases (same_string name e.0)) [
  | inl q ↦ rw q (p, h.1)
  | inr q ↦ rw q (h.0, put-All P name value t p h.1)
]

remove-All :
    (P : List ℕ × List ℕ → Type 0) (name : List ℕ) (t : Table) → All P t → All P (remove name t)
unfolding remove
remove-All P name [] h = tt
remove-All P name (e ∷ t) h = elim (Bool-cases (same_string name e.0)) [
  | inl q ↦ rw q (remove-All P name t h.1)
  | inr q ↦ rw q (h.0, remove-All P name t h.1)
]

same_string_sym : (xs ys : List ℕ) → same_string xs ys ≡ false → same_string ys xs ≡ false
same_string_sym xs ys h = elim (Bool-cases (same_string ys xs)) [
  | inl p ↦
      absurd
        (false≢true (sym h ∙ (ap (same_string xs) (same_string_eq ys xs p) ∙ same_string_refl xs)))
  | inr p ↦ p
]

put-Distinct : (name value : List ℕ) (t : Table) → Distinct t → Distinct (put name value t)
unfolding put find
put-Distinct name value [] h = (refl, tt)
put-Distinct name value (e ∷ t) h = elim (Bool-cases (same_string name e.0)) [
  | inl q ↦ rw q (rw (same_string_eq name e.0 q) h.0, h.1)
  | inr q ↦ rw q (
    find-put_other name e.0 value t (same_string_sym name e.0 q) ∙ h.0,
    put-Distinct name value t h.1,
  )
]

find-remove-none :
    (name key : List ℕ) (t : Table) → find key t ≡ none → find key (remove name t) ≡ none
find-remove-none name key t h = elim (Bool-cases (same_string key name)) [
  | inl p ↦ rw (same_string_eq key name p) (find-remove_self name t)
  | inr p ↦ find-remove_other name key t p ∙ h
]

remove-Distinct : (name : List ℕ) (t : Table) → Distinct t → Distinct (remove name t)
unfolding remove
remove-Distinct name [] h = tt
remove-Distinct name (e ∷ t) h = elim (Bool-cases (same_string name e.0)) [
  | inl q ↦ rw q (remove-Distinct name t h.1)
  | inr q ↦ rw q (find-remove-none name e.0 t h.0, remove-Distinct name t h.1)
]

pub no_users-Storable : (qt : Qt) → Storable qt no_users
unfolding no_users
no_users-Storable qt = record { names = tt; hashes = tt; times = tt }

pub delete_user-Storable :
    (qt : Qt) (username : List ℕ) (a : Auth)
    → Storable qt a
    → Storable qt (delete_user qt username a)
unfolding delete_user
delete_user-Storable qt username a s = record {
  names = remove-Distinct username a.password_table s.names;
  hashes = remove-All (StoredHash qt) username a.password_table s.hashes;
  times = remove-All StoredTimes username a.times_table s.times;
}

-- A table is as it was, or has the new entry.
module _ (qt : Qt) (username times password values : List ℕ) (a : Auth) (P : Table → Type 0) where
  edited_passwords :
      P a.password_table
      → P (
          put username
            (generate_sha512_hash qt.to_utf8 qt.sha512 password (generate_salt values))
            a.password_table)
      → P (edit_user qt username times password values a).password_table
  unfolding edit_user
  edited_passwords p q = elim (Bool-cases (is_empty password)) [
    | inl e ↦ elim (Bool-cases (is_known (find username a.password_table))) [
      | inl k ↦ rw (e, k) p
      | inr k ↦ rw (e, k) p
    ]
    | inr e ↦ elim (Bool-cases (is_known (find username a.password_table))) [
      | inl k ↦ rw (e, k) q
      | inr k ↦ rw (e, k) q
    ]
  ]

  edited_times :
      P a.times_table
      → P (put username times a.times_table)
      → P (edit_user qt username times password values a).times_table
  unfolding edit_user
  edited_times p q =
      elim (Bool-cases (not (is_known (find username a.password_table)) && is_empty password)) [
        | inl e ↦ rw e p
        | inr e ↦ elim (Bool-cases (verify_time_format qt times)) [
          | inl v ↦ rw (e, v) q
          | inr v ↦ rw (e, v) p
        ]
      ]

module _ (qt : Qt) (ascii : (s : List ℕ) → is_ascii s ≡ true → qt.to_utf8 s ≡ s)
    (split_first : (c : ℕ) (x rest : List ℕ)
      → lacks c x ≡ true
      → qt.split c (x ++ (c ∷ rest)) ≡ x ∷ qt.split c rest)
    (split_last : (c : ℕ) (x : List ℕ) → lacks c x ≡ true → qt.split c x ≡ x ∷ []) where
  starts_with-hash :
      (password values : List ℕ)
      → length values ≡ 16
      → starts_with
          (generate_sha512_hash qt.to_utf8 qt.sha512 password (generate_salt values))
          (codes "$6$")
        ≡ true
  unfolding starts_with same_string
  starts_with-hash password values e =
      ap (λ h. starts_with h (codes "$6$")) (hash_lem qt.to_utf8 qt.sha512 password values ascii e)

  is_usable-hash :
      (password values : List ℕ)
      → length values ≡ 16
      → is_usable qt (generate_sha512_hash qt.to_utf8 qt.sha512 password (generate_salt values))
        ≡ true
  unfolding is_usable has_salt_and_digest
  is_usable-hash password values e =
      rw
        (
          starts_with-hash password values e,
          split-hash qt ascii split_first split_last password values e,
          generate_salt-is_empty values e,
          digest-is_empty qt.to_utf8 qt.sha512 password values,
        )
        refl

  hash-Plain :
      (password values : List ℕ)
      → length values ≡ 16
      → Plain (generate_sha512_hash qt.to_utf8 qt.sha512 password (generate_salt values))
  unfolding lacks
  hash-Plain password values e = (
    hash-lacks colon char64-not_colon qt.to_utf8 qt.sha512 password values ascii e refl refl,
    hash-lacks newline char64-not_newline qt.to_utf8 qt.sha512 password values ascii e refl refl,
    hash-lacks carriage_return char64-not_return qt.to_utf8 qt.sha512 password values ascii e refl
        refl,
  )

  pub edit_user-Storable :
      (username times password values : List ℕ) (a : Auth)
      → Plain username
      → Plain times
      → length values ≡ 16
      → Storable qt a
      → Storable qt (edit_user qt username times password values a)
  edit_user-Storable username times password values a u t e s =
      let hash = generate_sha512_hash qt.to_utf8 qt.sha512 password (generate_salt values) in
      let h : StoredHash qt (username, hash) =
        (u, hash-Plain password values e, is_usable-hash password values e) in
      record {
        names =
            edited_passwords qt username times password values a Distinct s.names
              (put-Distinct username hash a.password_table s.names);
        hashes =
            edited_passwords qt username times password values a (All (StoredHash qt)) s.hashes
              (put-All (StoredHash qt) username hash a.password_table h s.hashes);
        times =
            edited_times qt username times password values a (All StoredTimes) s.times
              (put-All StoredTimes username times a.times_table t s.times);
      }

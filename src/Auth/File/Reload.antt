-- ===== src/Auth/File/Reload.antt =====
-- src/Auth.cpp: the lines that are written are the lines that are read, and each stores its user again.

use mathlib.Core.Path.{subst}
use jacktrip.Auth.{Qt, Auth, Table, find, put, value_of, colon, newline, carriage_return}
use jacktrip.Auth.Crypt.{lacks}
use jacktrip.Auth.Crypt.Salt.{lacks-append}
use jacktrip.Auth.Tables.{find-put_other, find-put_self}
use jacktrip.Auth.File.{file_line, file_text, load_line, load_lines}
use jacktrip.Auth.File.Storable.{Distinct, StoredHash, StoredTimes, value_of-Plain}
use jacktrip.Base.{
  All, Bool, Bool-cases, List, Option, [], ap, inl, inr, map, none, refl, same_string,
  same_string_eq, some, sym, true, ℕ, ◌++◌, ◌∙◌, ◌∷◌, ◌≡◌,
}

-- A field of the entry in the first table if it has one, otherwise of the second.
unfoldable pub or_else : Option (List ℕ) → Option (List ℕ) → Option (List ℕ)
or_else none o = o
or_else (some v) o = some v

unfoldable pub pick : Option (List ℕ) → List ℕ → List ℕ → List ℕ
pick none v w = w
pick (some x) v w = v

-- What the users are after the lines of the entries `t` were read into `a`.
pub record Reloaded (times_table t : Table) (a : Auth) (r : Bool × Auth) : Type 0 where
  pub no_error : r.0 ≡ true
  pub passwords :
      (name : List ℕ)
      → find name r.1.password_table ≡ or_else (find name t) (find name a.password_table)
  pub times :
      (name : List ℕ)
      → value_of (find name r.1.times_table)
        ≡ pick (find name t) (value_of (find name times_table)) (value_of (find name a.times_table))

-- The users with one more, as a line of the file stores it.
with_user : Table → List ℕ × List ℕ → Auth → Auth
with_user times_table e a = record {
  password_table = put e.0 e.1 a.password_table;
  times_table = put e.0 (value_of (find e.0 times_table)) a.times_table;
}

find-with_user :
    (times_table t : Table) (e : List ℕ × List ℕ) (a : Auth) (name : List ℕ)
    → find e.0 t ≡ none
    → or_else (find name t) (find name (with_user times_table e a).password_table)
      ≡ or_else (find name (e ∷ t)) (find name a.password_table)
unfolding find with_user or_else
find-with_user times_table t e a name d = elim (Bool-cases (same_string name e.0)) [
  | inl p ↦ rw (p, same_string_eq name e.0 p, d, find-put_self e.0 e.1 a.password_table) refl
  | inr p ↦ rw (p, find-put_other e.0 name e.1 a.password_table p) refl
]

value_of-with_user :
    (times_table t : Table) (e : List ℕ × List ℕ) (a : Auth) (name : List ℕ)
    → find e.0 t ≡ none
    → pick
        (find name t)
        (value_of (find name times_table))
        (value_of (find name (with_user times_table e a).times_table))
      ≡ pick
          (find name (e ∷ t))
          (value_of (find name times_table))
          (value_of (find name a.times_table))
unfolding find with_user pick value_of
value_of-with_user times_table t e a name d =
    let v = value_of (find e.0 times_table) in
    elim (Bool-cases (same_string name e.0)) [
      | inl p ↦ rw (p, same_string_eq name e.0 p, d, find-put_self e.0 v a.times_table) refl
      | inr p ↦ rw (p, find-put_other e.0 name v a.times_table p) refl
    ]

lines-lack :
    (c : ℕ) (times_table : Table) (e : List ℕ × List ℕ)
    → lacks c (colon ∷ []) ≡ true
    → lacks c e.0 ≡ true
    → lacks c e.1 ≡ true
    → lacks c (value_of (find e.0 times_table)) ≡ true
    → lacks c (file_line times_table e) ≡ true
unfolding file_line
lines-lack c times_table e k name hash times =
    let v = value_of (find e.0 times_table) in
    lacks-append c e.0 (colon ∷ e.1 ++ (colon ∷ v)) name (
      lacks-append c (colon ∷ []) (e.1 ++ (colon ∷ v)) k
        (lacks-append c e.1 (colon ∷ v) hash (lacks-append c (colon ∷ []) v k times)))

module _ (qt : Qt)
    (split_first : (c : ℕ) (x rest : List ℕ)
      → lacks c x ≡ true
      → qt.split c (x ++ (c ∷ rest)) ≡ x ∷ qt.split c rest)
    (split_last : (c : ℕ) (x : List ℕ) → lacks c x ≡ true → qt.split c x ≡ x ∷ []) where
  load_line-file_line :
      (times_table : Table) (e : List ℕ × List ℕ) (a : Auth)
      → StoredHash qt e
      → All StoredTimes times_table
      → load_line qt (qt.split colon (file_line times_table e)) (true, a)
        ≡ (true, with_user times_table e a)
  unfolding load_line file_line with_user
  load_line-file_line times_table e a s h =
      let v = value_of (find e.0 times_table) in
      let parts : qt.split colon (e.0 ++ (colon ∷ (e.1 ++ (colon ∷ v)))) ≡ e.0 ∷ e.1 ∷ v ∷ [] =
        split_first colon e.0 (e.1 ++ (colon ∷ v)) s.0.0
        ∙ ap (λ r. e.0 ∷ r) (split_first colon e.1 v s.1.0)
        ∙ ap (λ r. e.0 ∷ e.1 ∷ r) (split_last colon v (value_of-Plain e.0 times_table h).0) in
      rw (parts, s.2) refl

  pub load_lines-Reloaded :
      (times_table t : Table) (a : Auth)
      → Distinct t
      → All (StoredHash qt) t
      → All StoredTimes times_table
      → Reloaded times_table t a (load_lines qt (map (file_line times_table) t) (true, a))
  unfolding load_lines find or_else pick
  load_lines-Reloaded times_table [] a d s h = record {
    no_error = refl;
    passwords = λ name. refl;
    times = λ name. refl;
  }
  load_lines-Reloaded times_table (e ∷ t) a d s h =
      let next = with_user times_table e a in
      let later = load_lines-Reloaded times_table t next d.1 s.1 h in
      let lines = map (file_line times_table) t in
      subst (λ r. Reloaded times_table (e ∷ t) a (load_lines qt lines r))
        (sym (load_line-file_line times_table e a s.0 h))
        record {
          no_error = later.no_error;
          passwords = λ name. later.passwords name ∙ find-with_user times_table t e a name d.0;
          times = λ name. later.times name ∙ value_of-with_user times_table t e a name d.0;
        }

-- What the code relies on of QTextStream: it reads the lines of the text.
module _ (qt : Qt) (read_none : qt.read_lines [] ≡ [])
    (read_first : (line rest : List ℕ)
      → lacks newline line ≡ true
      → lacks carriage_return line ≡ true
      → qt.read_lines (line ++ (newline ∷ rest)) ≡ line ∷ qt.read_lines rest) where
  pub read_lines-file_text :
      (times_table t : Table)
      → All (StoredHash qt) t
      → All StoredTimes times_table
      → qt.read_lines (file_text times_table t) ≡ map (file_line times_table) t
  unfolding file_text lacks
  read_lines-file_text times_table [] s h = read_none
  read_lines-file_text times_table (e ∷ t) s h =
      let v = value_of-Plain e.0 times_table h in
      let u = s.0 in
      read_first (file_line times_table e) (file_text times_table t)
        (lines-lack newline times_table e refl u.0.1 u.1.1 v.1)
        (lines-lack carriage_return times_table e refl u.0.2 u.1.2 v.2)
      ∙ ap (λ r. file_line times_table e ∷ r) (read_lines-file_text times_table t s.1 h)

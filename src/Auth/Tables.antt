-- ===== src/Auth/Tables.antt =====
-- A table of the users, after a key was given a value or removed.
use jacktrip.Auth.{Table, find, put, remove}
use jacktrip.Base.{
  Bool-cases, List, [], false, inl, inr, none, refl, same_string, same_string_eq, same_string_refl,
  some, sym, true, ℕ, ◌∷◌, ◌≡◌,
}

pub find-put_self : (name value : List ℕ) (t : Table) → find name (put name value t) ≡ some value
unfolding find put
find-put_self name value [] = rw (same_string_refl name) refl
find-put_self name value (e ∷ t) = elim (Bool-cases (same_string name e.0)) [
  | inl p ↦ rw (p, same_string_refl name) refl
  | inr p ↦ rw (p, p) (find-put_self name value t)
]

other_name :
    (name other key : List ℕ)
    → same_string name key ≡ true
    → same_string other name ≡ false
    → same_string other key ≡ false
other_name name other key p d = rw (sym (same_string_eq name key p)) d

pub find-put_other :
    (name other value : List ℕ) (t : Table)
    → same_string other name ≡ false
    → find other (put name value t) ≡ find other t
unfolding find put
find-put_other name other value [] d = rw d refl
find-put_other name other value (e ∷ t) d = elim (Bool-cases (same_string name e.0)) [
  | inl p ↦ let q = other_name name other e.0 p d in rw p (rw (d, q) refl)
  | inr p ↦ elim (Bool-cases (same_string other e.0)) [
    | inl q ↦ rw (p, q) refl
    | inr q ↦ rw (p, q) (find-put_other name other value t d)
  ]
]

pub find-remove_self : (name : List ℕ) (t : Table) → find name (remove name t) ≡ none
unfolding find remove
find-remove_self name [] = refl
find-remove_self name (e ∷ t) = elim (Bool-cases (same_string name e.0)) [
  | inl p ↦ rw p (find-remove_self name t)
  | inr p ↦ rw (p, p) (find-remove_self name t)
]

pub find-remove_other :
    (name other : List ℕ) (t : Table)
    → same_string other name ≡ false
    → find other (remove name t) ≡ find other t
unfolding find remove
find-remove_other name other [] d = refl
find-remove_other name other (e ∷ t) d = elim (Bool-cases (same_string name e.0)) [
  | inl p ↦ let q = other_name name other e.0 p d in rw (p, q) (find-remove_other name other t d)
  | inr p ↦ elim (Bool-cases (same_string other e.0)) [
    | inl q ↦ rw (p, q) refl
    | inr q ↦ rw (p, q) (find-remove_other name other t d)
  ]
]

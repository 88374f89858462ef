-- ===== src/Ring/Contents.antt =====
-- What a ring holds: the queue of the items from the tail to the head.
use native.Mathlib.Nat.{mod-eq_of_lt, mod_self}
use jacktrip.Base.{
  List, [], ap, arith, dec_lt, get_elem?, get_elem?-append_left, get_elem?-append_length,
  get_elem?-set_ne, get_elem?-set_self, if◌then◌else◌, length, length-append, length-replicate,
  length-set, ltb, ltb-false, lt→ltb, set, some, suc, sym, ℕ, ◌++◌, ◌+◌, ◌-◌, ◌<◌, ◌==◌, ◌∙◌, ◌∷◌,
  ◌≡◌, ◌≢◌,
}
use jacktrip.Ring.{RingBuffer, new, next, distance, clear, count, empty}

module _ (size : ℕ) where
  -- The position `i` places after `start`.
  abbrev pub slot : ℕ → ℕ → ℕ
  slot start i = if ltb (start + i) size then start + i else start + i - size

  pub next_lem : (c : ℕ) → c < size → next size c ≡ slot c 1
  unfolding next
  next_lem c h = elim (dec_lt (c + 1) size) [
    | yes p ↦ rw (lt→ltb (c + 1) size p) (mod-eq_of_lt p)
    | no p ↦
        let e : c + 1 ≡ size = omega arith in
        rw (ltb-false (c + 1) size (omega arith), e) (mod_self size ∙ omega arith)
  ]

module _ {ℓ} {A : Type ℓ} (size : ℕ) where
  -- The ring holds the queue `q`.
  pub record Holds (s : RingBuffer A) (q : List A) : Type ℓ where
    pub sized : length s.ring ≡ size
    pub tail_lt : s.tail < size
    pub room : length q < size
    pub head_at : s.head ≡ slot size s.tail (length q)
    pub items : (i : ℕ) → i < length q → get_elem? s.ring (slot size s.tail i) ≡ get_elem? q i

  pub new-Holds : (blank : A) → 0 < size → Holds (new size blank) []
  unfolding new
  new-Holds blank h = record {
    sized = length-replicate size blank;
    tail_lt = h;
    room = h;
    head_at = ground arith;
    items = λ i k. elim k [ ];
  }

  pub count-Holds : (s : RingBuffer A) (q : List A) → Holds s q → count size s ≡ length q
  unfolding count distance
  count-Holds s q h = rw h.head_at (ground (arith, h.tail_lt, h.room))

  pub empty-Holds : (s : RingBuffer A) (q : List A) → Holds s q → empty size s ≡ (length q == 0)
  unfolding empty
  empty-Holds s q h = rw h.head_at (ground (arith, h.tail_lt, h.room))

  -- The test of `push` for an overrun.
  pub full-Holds :
      (s : RingBuffer A) (q : List A)
      → Holds s q
      → (next size s.head == s.tail) ≡ (length q + 1 == size)
  full-Holds s q h =
      let below : slot size s.tail (length q) < size = ground (arith, h.tail_lt, h.room) in
      rw (h.head_at, next_lem size (slot size s.tail (length q)) below)
        (ground (arith, h.tail_lt, h.room))

  push_items :
      (s : RingBuffer A) (q : List A) (v : A)
      → Holds s q
      → (i : ℕ) → i < length (q ++ (v ∷ []))
      → get_elem? (set s.ring s.head v) (slot size s.tail i) ≡ get_elem? (q ++ (v ∷ [])) i
  push_items s q v h i lt =
      let below : slot size s.tail (length q) < size = ground (arith, h.tail_lt, h.room) in
      elim (dec_lt i (length q)) [
        | yes p ↦
            get_elem?-set_ne s.ring s.head (slot size s.tail i) v
              (λ e. other i p (sym h.head_at ∙ e))
            ∙ h.items i p
            ∙ sym (get_elem?-append_left q (v ∷ []) i p)
        | no p ↦
            let e : i ≡ length q = omega (arith, length-append q (v ∷ [])) in
            rw (e, get_elem?-append_length q (v ∷ []), h.head_at)
              (get_elem?-set_self s.ring (slot size s.tail (length q)) v
                (omega (arith, h.sized, below)))
      ]
    where
      other : (j : ℕ) → j < length q → slot size s.tail (length q) ≢ slot size s.tail j
      other j p e = ground (arith, h.tail_lt, h.room)

  -- A push that finds room appends its value.
  pub push-Holds :
      (s : RingBuffer A) (q : List A) (v : A)
      → Holds s q
      → length q + 1 < size
      → Holds (record s { ring = set s.ring s.head v; head = next size s.head }) (q ++ (v ∷ []))
  push-Holds s q v h lt =
      let below : slot size s.tail (length q) < size = ground (arith, h.tail_lt, h.room) in
      record {
        sized = length-set s.ring s.head v ∙ h.sized;
        tail_lt = h.tail_lt;
        room = omega (arith, length-append q (v ∷ []));
        head_at =
            rw
              (
                h.head_at,
                next_lem size (slot size s.tail (length q)) below,
                length-append q (v ∷ []),
              )
              (ground (arith, h.tail_lt, h.room));
        items = push_items s q v h;
      }

  -- A pop takes the item at the tail.
  pub pop-Holds :
      (s : RingBuffer A) (x : A) (q : List A)
      → Holds s (x ∷ q)
      → Holds (record s { tail = next size s.tail }) q × (get_elem? s.ring s.tail ≡ some x)
  pop-Holds s x q h = (
    record {
      sized = h.sized;
      tail_lt = rw (next_lem size s.tail h.tail_lt) (ground (arith, h.tail_lt));
      room = omega (arith, h.room);
      head_at = rw (next_lem size s.tail h.tail_lt, h.head_at) (ground (arith, h.tail_lt, h.room));
      items = λ i lt. rw (next_lem size s.tail h.tail_lt) (
          ap (get_elem? s.ring) (slot_suc s.tail i h.tail_lt (omega (arith, h.room)))
          ∙ h.items (suc i) (omega arith));
    },
    ap (get_elem? s.ring) (slot_zero s.tail h.tail_lt) ∙ h.items 0 (omega arith),
  )
    where
      slot_suc :
          (t i : ℕ) → t < size → suc i < size → slot size (slot size t 1) i ≡ slot size t (suc i)
      slot_suc t i lt k = ground arith

      slot_zero : (t : ℕ) → t < size → t ≡ slot size t 0
      slot_zero t lt = ground arith

  pub clear-Holds : (s : RingBuffer A) (q : List A) → Holds s q → Holds (clear size s) []
  unfolding clear
  clear-Holds s q h = record {
    sized = h.sized;
    tail_lt = omega (arith, h.tail_lt);
    room = omega (arith, h.tail_lt);
    head_at = let t = h.tail_lt in ground arith;
    items = λ i k. elim k [ ];
  }

  -- The counters have no part in it.
  pub counters-Holds :
      (s : RingBuffer A) (q : List A) (misses drops : ℕ)
      → Holds s q
      → Holds (record s { underruns = misses; overruns = drops }) q
  counters-Holds s q misses drops h = record {
    sized = h.sized;
    tail_lt = h.tail_lt;
    room = h.room;
    head_at = h.head_at;
    items = h.items;
  }

  -- The test of `pop` for an underrun.
  pub bare-Holds :
      (s : RingBuffer A) (q : List A) → Holds s q → (s.tail == s.head) ≡ (length q == 0)
  bare-Holds s q h = rw h.head_at (ground (arith, h.tail_lt, h.room))

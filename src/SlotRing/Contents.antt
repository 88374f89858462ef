-- ===== src/SlotRing/Contents.antt =====
-- What the ring of slots holds: the queue of the slots from the read position on.
use native.Mathlib.Nat.{mod-eq_of_lt, add-mod_right, mul-lt-mul_of_pos_left, mul-add, mul-one}
use jacktrip.SlotRing.{Doubles, SlotRing, put_slot}
use jacktrip.SlotRing.Blocks.{flat, IsEven, copy_to-flat, set-IsEven}
use jacktrip.Base.{
  List, [], ap, arith, dec_lt, drop, get_elem?, get_elem?-append_left, get_elem?-append_length,
  get_elem?-drop, get_elem?-set_ne, get_elem?-set_self, if◌then◌else◌, length, length-append,
  length-drop, length-set, ltb, ltb-false, lt→ltb, set, sym, ℕ, ◌%◌, ◌*◌, ◌++◌, ◌+◌, ◌-◌, ◌<◌, ◌∙◌,
  ◌∷◌, ◌≡◌, ◌≤◌,
}

module _ (num_slots : ℕ) where
  -- The block `i` places after `start`.
  abbrev pub place : ℕ → ℕ → ℕ
  place start i = if ltb (start + i) num_slots then start + i else start + i - num_slots

module _ (num_slots : ℕ) where
  place-place :
      (t d i : ℕ)
      → t < num_slots
      → d + i ≤ num_slots
      → place num_slots (place num_slots t d) i ≡ place num_slots t (d + i)
  place-place t d i h k = ground arith

module _ (slot_size num_slots : ℕ) where
  -- A position advances by whole slots and wraps around.
  advance_place :
      (c d : ℕ)
      → 0 < slot_size
      → c < num_slots
      → d ≤ num_slots
      → (slot_size * c + slot_size * d) % (slot_size * num_slots) ≡ slot_size * place num_slots c d
  advance_place c d pos h k = elim (dec_lt (c + d) num_slots) [
    | yes p ↦
        rw (lt→ltb (c + d) num_slots p, sym (mul-add slot_size c d))
          (mod-eq_of_lt (mul-lt-mul_of_pos_left p pos))
    | no p ↦
        let e : c + d ≡ (c + d - num_slots) + num_slots = omega arith in
        let low : c + d - num_slots < num_slots = omega arith in
        rw (ltb-false (c + d) num_slots (omega arith), sym (mul-add slot_size c d))
          (ap (λ n. slot_size * n % (slot_size * num_slots)) e
            ∙ ap (λ n. n % (slot_size * num_slots))
                (mul-add slot_size (c + d - num_slots) num_slots)
            ∙ add-mod_right (slot_size * (c + d - num_slots)) (slot_size * num_slots)
            ∙ mod-eq_of_lt (mul-lt-mul_of_pos_left low pos))
  ]

module _ (D : Doubles) (slot_size num_slots : ℕ) where
  -- The ring holds the slots `q`, the oldest first.
  pub record Holds (s : SlotRing D) (q : List (List ℕ)) : Type 0 where
    pub cells : List (List ℕ)
    pub tail : ℕ
    pub layout : s.ring_buffer ≡ flat cells
    pub even : IsEven slot_size cells
    pub sized : length cells ≡ num_slots
    pub tail_lt : tail < num_slots
    pub read_from : s.read_position ≡ slot_size * tail
    pub write_to : s.write_position ≡ slot_size * place num_slots tail (length q)
    pub room : length q ≤ num_slots
    pub full : s.full_slots ≡ length q
    pub items : (i : ℕ) → i < length q → get_elem? cells (place num_slots tail i) ≡ get_elem? q i

  -- The statistics have no part in it.
  pub record SameSlots (s t : SlotRing D) : Type 0 where
    pub same_buffer : t.ring_buffer ≡ s.ring_buffer
    pub same_read : t.read_position ≡ s.read_position
    pub same_write : t.write_position ≡ s.write_position
    pub same_full : t.full_slots ≡ s.full_slots

  pub SameSlots-Holds :
      (s t : SlotRing D) (q : List (List ℕ)) → SameSlots s t → Holds s q → Holds t q
  SameSlots-Holds s t q e h = record {
    cells = h.cells;
    tail = h.tail;
    layout = e.same_buffer ∙ h.layout;
    even = h.even;
    sized = h.sized;
    tail_lt = h.tail_lt;
    read_from = e.same_read ∙ h.read_from;
    write_to = e.same_write ∙ h.write_to;
    room = h.room;
    full = e.same_full ∙ h.full;
    items = h.items;
  }

  put_items :
      (cells : List (List ℕ)) (tail : ℕ) (q : List (List ℕ)) (v : List ℕ)
      → length cells ≡ num_slots
      → tail < num_slots
      → length q < num_slots
      → ((i : ℕ) → i < length q → get_elem? cells (place num_slots tail i) ≡ get_elem? q i)
      → (i : ℕ) → i < length (q ++ (v ∷ []))
      → get_elem? (set cells (place num_slots tail (length q)) v) (place num_slots tail i)
        ≡ get_elem? (q ++ (v ∷ [])) i
  put_items cells tail q v sized below lt items i k =
      let end : place num_slots tail (length q) < num_slots = ground arith in
      elim (dec_lt i (length q)) [
        | yes p ↦
            get_elem?-set_ne cells (place num_slots tail (length q)) (place num_slots tail i) v
              (λ e. ground arith)
            ∙ items i p
            ∙ sym (get_elem?-append_left q (v ∷ []) i p)
        | no p ↦
            let e : i ≡ length q = omega (arith, length-append q (v ∷ [])) in
            rw (e, get_elem?-append_length q (v ∷ []))
              (get_elem?-set_self cells (place num_slots tail (length q)) v (omega arith))
      ]

  -- A slot written where there is room is appended.
  pub put_slot-Holds :
      (s : SlotRing D) (q : List (List ℕ)) (v : List ℕ)
      → 0 < slot_size
      → length v ≡ slot_size
      → length q < num_slots
      → Holds s q
      → Holds (put_slot D slot_size num_slots v s) (q ++ (v ∷ []))
  unfolding put_slot
  put_slot-Holds s q v pos w lt h =
      let tail = h.tail in
      let below = h.tail_lt in
      let end : place num_slots tail (length q) < num_slots = ground arith in
      record {
        cells = set h.cells (place num_slots tail (length q)) v;
        tail = tail;
        layout =
            rw (h.layout, h.write_to)
              (copy_to-flat slot_size h.cells (place num_slots tail (length q)) v h.even
                (omega (arith, h.sized)) w);
        even = set-IsEven slot_size h.cells (place num_slots tail (length q)) v h.even w;
        sized = length-set h.cells (place num_slots tail (length q)) v ∙ h.sized;
        tail_lt = below;
        read_from = h.read_from;
        write_to = rw h.write_to (
            ap (λ n. (slot_size * place num_slots tail (length q) + n) % (slot_size * num_slots))
              (sym (mul-one slot_size))
            ∙ advance_place slot_size num_slots (place num_slots tail (length q)) 1 pos end
                (omega arith)
            ∙ ap (λ n. slot_size * n)
                (place-place num_slots tail (length q) 1 below (omega arith)
                  ∙ ap (place num_slots tail) (sym (length-append q (v ∷ [])))));
        room = omega (arith, length-append q (v ∷ []));
        full = omega (arith, length-append q (v ∷ []), h.full);
        items = put_items h.cells tail q v h.sized below lt h.items;
      }

  -- Dropping the first `d` slots.
  pub drop-Holds :
      (s : SlotRing D) (q : List (List ℕ)) (d : ℕ)
      → 0 < slot_size
      → d ≤ length q
      → Holds s q
      → Holds
          (record s {
            read_position = (s.read_position + slot_size * d) % (slot_size * num_slots);
            full_slots = s.full_slots - d;
          })
          (drop d q)
  drop-Holds s q d pos le h =
      let below = h.tail_lt in
      let room = h.room in
      record {
        cells = h.cells;
        tail = place num_slots h.tail d;
        layout = h.layout;
        even = h.even;
        sized = h.sized;
        tail_lt = ground arith;
        read_from =
            rw h.read_from (advance_place slot_size num_slots h.tail d pos below (omega arith));
        write_to =
            h.write_to
            ∙ ap (λ n. slot_size * n)
                (ap (place num_slots h.tail) (omega (arith, length-drop d q))
                  ∙ sym (
                      place-place num_slots h.tail d (length (drop d q)) below
                        (omega (arith, length-drop d q))));
        room = omega (arith, length-drop d q);
        full = omega (arith, length-drop d q, h.full);
        items = λ i lt.
            let more : d + i < length q = omega (arith, length-drop d q) in
            ap (get_elem? h.cells) (place-place num_slots h.tail d i below (omega arith))
            ∙ h.items (d + i) more
            ∙ sym (get_elem?-drop d q i);
      }

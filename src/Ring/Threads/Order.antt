-- ===== src/Ring/Threads/Order.antt =====
-- In every interleaving of the two threads the values come out in the order they went in.
use mathlib.Core.Path.{subst}
use jacktrip.Base.{
  Bool-cases, List, [], ap, append_assoc, arith, get_elem?, get_elem?-set_ne, get_elem?-set_self,
  inl, inr, length, length-append, length-set, set, set_same, some, sym, ℕ, ◌++◌, ◌+◌, ◌<◌, ◌==◌,
  ◌∙◌, ◌∷◌, ◌≡◌, ◌≢◌, ◌≤◌,
}
use jacktrip.Ring.{RingBuffer, next}
use jacktrip.Ring.Contents.{slot, next_lem, Holds, push-Holds, counters-Holds}
use jacktrip.Ring.Threads.{
  Producer, no_push, loaded_tail, wrote_item, Consumer, no_pop, loaded_head, read_item, System,
  producer_turn,
}

module _ {ℓ} {A : Type ℓ} (size : ℕ) where
  -- The tail that the producer loaded is one of the past: the ring held `ahead` items from there.
  pub record Past (head : ℕ) (q : List A) (tail : ℕ) : Type ℓ where
    pub ahead : ℕ
    pub enough : length q ≤ ahead
    pub ahead_lt : ahead < size
    pub tail_lt : tail < size
    pub reaches : head ≡ slot size tail ahead

  pub record Written (items : List A) (head : ℕ) (q : List A) (v : A) : Type ℓ where
    pub space : length q + 1 < size
    pub there : get_elem? items head ≡ some v

  unfoldable pub ProducerIsAt : List A → ℕ → List A → Producer A → Type ℓ
  ProducerIsAt items head q no_push = Unit
  ProducerIsAt items head q (loaded_tail v tail) = Past head q tail
  ProducerIsAt items head q (wrote_item v) = Written items head q v

  -- The head that the consumer loaded is one of the past: `seen` of the items were there.
  pub record Seen (tail : ℕ) (q : List A) (head : ℕ) : Type ℓ where
    pub seen : ℕ
    pub seen_le : seen ≤ length q
    pub stands : head ≡ slot size tail seen

  pub record First (q : List A) (x : A) : Type ℓ where
    pub others : List A
    pub splits : q ≡ x ∷ others

  unfoldable pub ConsumerIsAt : ℕ → List A → Consumer A → Type ℓ
  ConsumerIsAt tail q no_pop = Unit
  ConsumerIsAt tail q (loaded_head head) = Seen tail q head
  ConsumerIsAt tail q (read_item x) = First q x

  -- The queue `q` in the ring is what was pushed and not yet popped.
  pub record Ordered (s : System A) (q : List A) : Type ℓ where
    pub holds : Holds size s.shared q
    pub order : s.popped ++ q ≡ s.pushed
    pub producer_at : ProducerIsAt s.shared.ring s.shared.head q s.producer
    pub consumer_at : ConsumerIsAt s.shared.tail q s.consumer

  -- Some queue is.
  abbrev pub IsOrdered : System A → Type ℓ
  IsOrdered s = (q : List A) × Ordered s q

  full_test :
      (head : ℕ) (q : List A) (tail : ℕ) (p : Past head q tail)
      → head < size
      → (next size head == tail) ≡ (p.ahead + 1 == size)
  full_test head q tail p lt =
      rw (next_lem size head lt, p.reaches) (ground (arith, p.ahead_lt, p.tail_lt))

  head_lt : (s : RingBuffer A) (q : List A) → Holds size s q → s.head < size
  head_lt s q h = rw h.head_at (ground (arith, h.tail_lt, h.room))

  -- Writing the place of the head leaves the queue.
  write-Holds :
      (s : RingBuffer A) (q : List A) (v : A)
      → Holds size s q
      → Holds size (record s { ring = set s.ring s.head v }) q
  write-Holds s q v h = record {
    sized = length-set s.ring s.head v ∙ h.sized;
    tail_lt = h.tail_lt;
    room = h.room;
    head_at = h.head_at;
    items = λ i lt.
        get_elem?-set_ne s.ring s.head (slot size s.tail i) v (λ e. other i lt (sym h.head_at ∙ e))
        ∙ h.items i lt;
  }
    where
      other : (j : ℕ) → j < length q → slot size s.tail (length q) ≢ slot size s.tail j
      other j p e = ground (arith, h.tail_lt, h.room)

  -- Storing the head appends the item that stands there.
  store-Holds :
      (s : RingBuffer A) (q : List A) (v : A)
      → Holds size s q
      → Written s.ring s.head q v
      → Holds size (record s { head = next size s.head }) (q ++ (v ∷ []))
  store-Holds s q v h w =
      subst
        (λ items. Holds size (record s { ring = items; head = next size s.head }) (q ++ (v ∷ [])))
        (set_same s.ring s.head v w.there) (push-Holds size s q v h w.space)

  -- The consumer is where it was when the queue grows, and the producer when it shrinks.
  grow-ConsumerIsAt :
      (tail : ℕ) (q : List A) (v : A) (c : Consumer A)
      → ConsumerIsAt tail q c
      → ConsumerIsAt tail (q ++ (v ∷ [])) c
  unfolding ConsumerIsAt
  grow-ConsumerIsAt tail q v no_pop c = tt
  grow-ConsumerIsAt tail q v (loaded_head head) c = record {
    seen = c.seen;
    seen_le = omega (arith, c.seen_le, length-append q (v ∷ []));
    stands = c.stands;
  }
  grow-ConsumerIsAt tail q v (read_item x) c = record {
    others = c.others ++ (v ∷ []);
    splits = ap (λ r. r ++ (v ∷ [])) c.splits;
  }

  pub shrink-ProducerIsAt :
      (items : List A) (head : ℕ) (x : A) (q : List A) (p : Producer A)
      → ProducerIsAt items head (x ∷ q) p
      → ProducerIsAt items head q p
  unfolding ProducerIsAt
  shrink-ProducerIsAt items head x q no_push p = tt
  shrink-ProducerIsAt items head x q (loaded_tail v tail) p = record {
    ahead = p.ahead;
    enough = omega (arith, p.enough);
    ahead_lt = p.ahead_lt;
    tail_lt = p.tail_lt;
    reaches = p.reaches;
  }
  shrink-ProducerIsAt items head x q (wrote_item v) p = record {
    space = omega (arith, p.space);
    there = p.there;
  }

  pub producer_turn-Ordered :
      (value : A) (s : System A) (q : List A) (p : Producer A)
      → Ordered s q
      → ProducerIsAt s.shared.ring s.shared.head q p
      → IsOrdered (producer_turn size value s p)
  unfolding producer_turn ProducerIsAt
  producer_turn-Ordered value s q no_push o at = (
    q,
    record {
      holds = o.holds;
      order = o.order;
      producer_at = record {
        ahead = length q;
        enough = omega arith;
        ahead_lt = o.holds.room;
        tail_lt = o.holds.tail_lt;
        reaches = o.holds.head_at;
      };
      consumer_at = o.consumer_at;
    },
  )
  producer_turn-Ordered value s q (loaded_tail v tail) o at =
      let test = full_test s.shared.head q tail at (head_lt s.shared q o.holds) in
      elim (Bool-cases (at.ahead + 1 == size)) [
        | inl e ↦
            rw (test, e)
              (
                q,
                record {
                  holds = counters-Holds size s.shared q s.shared.underruns _ o.holds;
                  order = o.order;
                  producer_at = tt;
                  consumer_at = o.consumer_at;
                },
              )
        | inr e ↦
            rw (test, e)
              (
                q,
                record {
                  holds = write-Holds s.shared q v o.holds;
                  order = o.order;
                  producer_at = record {
                    space = ground (arith, at.enough, at.ahead_lt);
                    there =
                        get_elem?-set_self s.shared.ring s.shared.head v
                          (omega (arith, o.holds.sized, head_lt s.shared q o.holds));
                  };
                  consumer_at = o.consumer_at;
                },
              )
      ]
  producer_turn-Ordered value s q (wrote_item v) o at = (
    q ++ (v ∷ []),
    record {
      holds = store-Holds s.shared q v o.holds at;
      order = sym (append_assoc s.popped q (v ∷ [])) ∙ ap (λ r. r ++ (v ∷ [])) o.order;
      producer_at = tt;
      consumer_at = grow-ConsumerIsAt s.shared.tail q v s.consumer o.consumer_at;
    },
  )

-- ===== src/Ring/Threads/Fifo.antt =====
-- In every interleaving of the two threads the values come out in the order they went in.
use mathlib.Core.Path.{subst}
use jacktrip.Base.{
  Bool-cases, List, [], ap, append_assoc, arith, false, get_or, get_or_of_get_elem?, inl, inr,
  length, refl, sym, ℕ, ◌++◌, ◌<◌, ◌==◌, ◌∙◌, ◌∷◌, ◌≡◌,
}
use jacktrip.Ring.{RingBuffer, new, count}
use jacktrip.Ring.Contents.{Holds, new-Holds, count-Holds, pop-Holds, counters-Holds}
use jacktrip.Ring.Threads.{
  no_push, Consumer, no_pop, loaded_head, read_item, System, consumer_turn, Turn, producer_next,
  consumer_next, turn, interleaving,
}
use jacktrip.Ring.Threads.Order.{
  ProducerIsAt, ConsumerIsAt, Seen, First, Ordered, IsOrdered, shrink-ProducerIsAt,
  producer_turn-Ordered,
}

module _ {ℓ} {A : Type ℓ} (size : ℕ) where
  -- A consumer that finds its tail apart from the head it loaded reads the first item.
  read-First :
      (value : A) (s : RingBuffer A) (q : List A) (head : ℕ)
      → Holds size s q
      → Seen size s.tail q head
      → (s.tail == head) ≡ false
      → First size q (get_or s.ring s.tail value)
  read-First value s [] head h c e =
      let none_seen : c.seen ≡ 0 = omega (arith, c.seen_le) in
      absurd (ground (arith, h.tail_lt, c.stands))
  read-First value s (x ∷ q) head h c e = record {
    others = q;
    splits =
        ap (λ y. y ∷ q)
          (sym (get_or_of_get_elem? s.ring s.tail x value (pop-Holds size s x q h).1));
  }

  consumer_turn-Ordered :
      (value : A) (s : System A) (q : List A) (c : Consumer A)
      → Ordered size s q
      → ConsumerIsAt size s.shared.tail q c
      → IsOrdered size (consumer_turn size value s c)
  unfolding consumer_turn ConsumerIsAt
  consumer_turn-Ordered value s q no_pop o at = (
    q,
    record {
      holds = o.holds;
      order = o.order;
      producer_at = o.producer_at;
      consumer_at = record { seen = length q; seen_le = omega arith; stands = o.holds.head_at };
    },
  )
  consumer_turn-Ordered value s q (loaded_head head) o at =
      elim (Bool-cases (s.shared.tail == head)) [
        | inl e ↦ rw e (
          q,
          record {
            holds = counters-Holds size s.shared q _ s.shared.overruns o.holds;
            order = o.order;
            producer_at = o.producer_at;
            consumer_at = tt;
          },
        )
        | inr e ↦ rw e (
          q,
          record {
            holds = o.holds;
            order = o.order;
            producer_at = o.producer_at;
            consumer_at = read-First value s.shared q head o.holds at e;
          },
        )
      ]
  consumer_turn-Ordered value s q (read_item x) o at =
      let holds = subst (Holds size s.shared) at.splits o.holds in
      let at_producer =
        subst (λ r. ProducerIsAt size s.shared.ring s.shared.head r s.producer) at.splits
          o.producer_at in
      (
        at.others,
        record {
          holds = (pop-Holds size s.shared x at.others holds).0;
          order =
              append_assoc s.popped (x ∷ []) at.others
              ∙ ap (λ r. s.popped ++ r) (sym at.splits)
              ∙ o.order;
          producer_at =
              shrink-ProducerIsAt size s.shared.ring s.shared.head x at.others s.producer
                at_producer;
          consumer_at = tt;
        },
      )

  interleaving-Ordered :
      (ts : List (Turn A)) (s : System A)
      → IsOrdered size s
      → IsOrdered size (interleaving size ts s)
  unfolding interleaving turn
  interleaving-Ordered [] s o = o
  interleaving-Ordered (producer_next value ∷ ts) s o =
      interleaving-Ordered ts (turn size (producer_next value) s)
        (producer_turn-Ordered size value s o.0 s.producer o.1 o.1.producer_at)
  interleaving-Ordered (consumer_next value ∷ ts) s o =
      interleaving-Ordered ts (turn size (consumer_next value) s)
        (consumer_turn-Ordered value s o.0 s.consumer o.1 o.1.consumer_at)

  -- A new ring and two threads that are not in a call.
  abbrev pub start : A → System A
  start blank = record {
    shared = new size blank;
    producer = no_push;
    consumer = no_pop;
    pushed = [];
    popped = [];
  }

  -- The values popped are the first of the values pushed, and the others wait in the ring.
  pub record InOrder (s : System A) : Type ℓ where
    pub waiting : List A
    pub in_order : s.popped ++ waiting ≡ s.pushed
    pub few : length waiting < size
    pub counted : count size s.shared ≡ length waiting

  -- After any interleaving of the two threads on a new ring, the values popped are the first of the
  -- values pushed, in the same order; those that are left are fewer than `size`, and `size()` gives
  -- their number.
  pub interleaving-InOrder :
      (blank : A) (ts : List (Turn A)) → 0 < size → InOrder (interleaving size ts (start blank))
  interleaving-InOrder blank ts pos =
      let new_ordered : Ordered size (start blank) [] = record {
        holds = new-Holds size blank pos;
        order = refl;
        producer_at = unfold ProducerIsAt in tt;
        consumer_at = unfold ConsumerIsAt in tt;
      } in
      let r = interleaving-Ordered ts (start blank) ([], new_ordered) in
      record {
        waiting = r.0;
        in_order = r.1.order;
        few = r.1.holds.room;
        counted = count-Holds size _ r.0 r.1.holds;
      }

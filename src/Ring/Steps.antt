-- ===== src/Ring/Steps.antt =====
-- include/lob/spsc_ring.hpp: `try_push` and `try_pop` one memory access at a time, on the producer's and
-- the consumer's thread. A release store is seen at once, and a thread takes its accesses in the order of
-- the code; the value of a slot is written and read by plain accesses between the atomic ones.
use orderbooks.Prelude.{ℕ, List, [], ◌∷◌, ◌++◌, if◌then◌else◌}
use orderbooks.Prelude.Word.{add_u64}
use orderbooks.Ring.{
  Ring, new_ring, store_value, store_seq, store_head, store_tail, reload_tail, index, looks_full,
  is_published,
}

-- What the producer has done of a `try_push`: nothing, the guard, the value, the sequence.
pub data Producer (A : Type 0) : Type 0 where
  idle : Producer A
  cleared wrote : A → Producer A
  published : Producer A

-- What the consumer has done of a `try_pop`: nothing, the guard, the copy.
pub data Consumer (A : Type 0) : Type 0 where
  waiting ready : Consumer A
  copied : A → Consumer A

-- The ring and its two threads, with the elements that were published and those that were handed out.
pub record Machine (A : Type 0) : Type 0 where
  pub ring : Ring A
  pub producer : Producer A
  pub consumer : Consumer A
  pub pushed : List A
  pub popped : List A

pub data Move (A : Type 0) : Type 0 where
  produce : A → Move A
  consume : Move A

module _ {A : Type 0} where
  abbrev pub new_machine : A → Machine A
  new_machine empty = record {
    ring = new_ring empty;
    producer = idle;
    consumer = waiting;
    pushed = [];
    popped = [];
  }

  module _ (k : ℕ) where
    -- The guard of `try_push`, with the reload of the tail where the copy says full.
    unfoldable pub guard_push : A → Machine A → Machine A
    guard_push v m =
        if looks_full k m.ring
        then (let r = reload_tail m.ring in
            if looks_full k r
            then record m { ring = r }
            else record m { ring = r; producer = cleared v })
        else record m { producer = cleared v }

    -- The next access of the producer; `v` is what it pushes if it is idle.
    unfoldable pub producer_step : Producer A → A → Machine A → Machine A
    unfolding guard_push
    producer_step idle v m = guard_push v m
    producer_step (cleared x) v m = record m {
      ring = store_value (index k m.ring.head) x m.ring;
      producer = wrote x;
    }
    producer_step (wrote x) v m = record m {
      ring = store_seq (index k m.ring.head) (add_u64 m.ring.head 1) m.ring;
      producer = published;
      pushed = m.pushed ++ (x ∷ []);
    }
    producer_step published v m = record m {
      ring = store_head (add_u64 m.ring.head 1) m.ring;
      producer = idle;
    }

    -- The next access of the consumer.
    unfoldable pub consumer_step : Consumer A → Machine A → Machine A
    consumer_step waiting m =
        if is_published k m.ring m.ring.tail then record m { consumer = ready } else m
    consumer_step ready m = record m {
      consumer = copied (m.ring.slots (index k m.ring.tail)).value;
    }
    consumer_step (copied x) m = record m {
      ring = store_tail (add_u64 m.ring.tail 1) m.ring;
      consumer = waiting;
      popped = m.popped ++ (x ∷ []);
    }

    abbrev pub step : Move A → Machine A → Machine A
    step (produce v) m = producer_step m.producer v m
    step consume m = consumer_step m.consumer m

    -- The machine after the moves of a schedule.
    unfoldable pub schedule : List (Move A) → Machine A → Machine A
    unfolding producer_step consumer_step
    schedule [] m = m
    schedule (s ∷ ss) m = schedule ss (step s m)

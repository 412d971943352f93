-- ===== src/Clock.antt =====
-- `VirtualClock` of src/network/simulator.py. Times are whole nanoseconds, the precision that
-- `schedule` rounds to.
pub mod Heap
pub mod Order
pub mod Cancel
use blockchain_application.Prelude.{
  ℕ, ◌+◌, Bool, ◌&&◌, ◌||◌, Option, none, some, List, [], ◌∷◌, ltb, if◌then◌else◌, ◌==◌, contains,
  keep, nat_eq, not,
}

pub record Event (A : Type 0) : Type 0 where
  pub time : ℕ
  pub id : ℕ
  pub callback : A

-- The heap is the list of its events in the order in which `heappop` gives them.
pub record Clock (A : Type 0) : Type 0 where
  pub now : ℕ
  pub heap : List (Event A)
  pub seq : ℕ
  pub cancelled : List ℕ

-- What one round of the loop in `run` does after its stop condition.
pub data Popped (A : Type 0) : Type 0 where
  -- the heap is empty
  idle : Popped A
  -- a cancelled event was thrown away
  skipped : Clock A → Popped A
  -- the next event lies after the deadline
  expired : Clock A → Popped A
  -- the event is to be run
  fire : Event A → Clock A → Popped A

-- `when > until`, for a deadline that may be missing.
abbrev pub is_after : ℕ → Option ℕ → Bool
is_after time none = Bool.false
is_after time (some deadline) = ltb deadline time

abbrev pub deadline_or : Option ℕ → ℕ → ℕ
deadline_or none now = now
deadline_or (some deadline) now = deadline

module _ {A : Type 0} where
  -- The order of the tuples `(time, id, callback)`; ids are distinct.
  abbrev pub precedes : Event A → Event A → Bool
  precedes a b = ltb a.time b.time || ((a.time == b.time) && ltb a.id b.id)

  -- `heapq.heappush`
  unfoldable pub push : Event A → List (Event A) → List (Event A)
  push a [] = a ∷ []
  push a (b ∷ heap) = let rest = push a heap in if precedes a b then a ∷ (b ∷ heap) else b ∷ rest

  -- The clock with the new event; its id is the new `seq`.
  unfoldable pub schedule : ℕ → A → Clock A → Clock A
  schedule delay callback c = record c {
    seq = c.seq + 1;
    heap = push (record { time = c.now + delay; id = c.seq + 1; callback = callback }) c.heap;
  }

  unfoldable pub cancel : Option ℕ → Clock A → Clock A
  cancel none c = c
  cancel (some id) c = record c {
    cancelled = if contains c.cancelled id then c.cancelled else id ∷ c.cancelled;
  }

  unfoldable pub reset : Clock A → Clock A
  reset c = record { now = 0; heap = []; seq = 0; cancelled = [] }

  pop_from : Option ℕ → List (Event A) → Clock A → Popped A
  pop_from until [] c = idle
  pop_from until (e ∷ heap) c =
      if contains c.cancelled e.id
      then skipped (record c { heap = heap; cancelled = keep (λ i. not (i == e.id)) c.cancelled })
      else if is_after e.time until
      then expired (record c { heap = push e heap; now = deadline_or until c.now })
      else fire e (record c { heap = heap; now = e.time })

  unfoldable pub pop : Option ℕ → Clock A → Popped A
  unfolding pop_from
  pop until c = pop_from until c.heap c

abbrev pub fresh : {A : Type 0} → Clock A
fresh = record { now = 0; heap = []; seq = 0; cancelled = [] }

-- ===== src/Forwarder/Queue.antt =====
-- How long a retry waits, and what the queue holds.
use ot_sec_file_transfer.Base.{
  ℕ, zero, suc, ◌-◌, ◌*◌, ◌^◌, ◌≤◌, ◌≡◌, min, arith, false, ◌||◌, List, [], ◌∷◌, ◌++◌, Text, same,
  same_iff,
}
use ot_sec_file_transfer.Forwarder.{
  ForwarderOptions, Pending, is_queued, enqueue, enqueue_all, doubled, backoff,
}

module _ (o : ForwarderOptions) where
  power_pos : (n : ℕ) → 1 ≤ 2 ^ n
  power_pos zero = omega arith
  power_pos (suc n) = omega (arith, power_pos n)

  power_suc : (wait n : ℕ) → wait * 2 ^ suc n ≡ wait * 2 * 2 ^ n
  power_suc wait n = grind arith

  product_le : (a b : ℕ) → 1 ≤ b → a ≤ a * b
  product_le a b h = grind arith

  min-doubled :
      (rounds wait : ℕ)
      → min (doubled o rounds wait) o.max_retry ≡ min (wait * 2 ^ rounds) o.max_retry
  unfolding doubled
  min-doubled zero wait = ground arith
  min-doubled (suc rounds) wait = ground (
    arith,
    min-doubled rounds (wait * 2),
    power_suc wait rounds,
    product_le wait (2 ^ suc rounds) (power_pos (suc rounds)),
  )

  -- The wait after `attempts` failures is `first_retry` doubled `attempts - 1` times, and at most
  -- `max_retry`.
  pub backoff_lem :
      (attempts : ℕ) → backoff o attempts ≡ min (o.first_retry * 2 ^ (attempts - 1)) o.max_retry
  unfolding backoff
  backoff_lem attempts = min-doubled (attempts - 1) o.first_retry

-- Every id stands once in the queue.
abbrev pub IsUnique : List Pending → Type 0
IsUnique [] = Unit
IsUnique (p ∷ queue) = (is_queued p.id queue ≡ false) × IsUnique queue

is_queued-append :
    (id : Text) (p : Pending) (queue : List Pending)
    → is_queued id (queue ++ (p ∷ [])) ≡ (is_queued id queue || same p.id id)
unfolding is_queued
is_queued-append id p [] = ground arith
is_queued-append id p (q ∷ queue) = ground (arith, is_queued-append id p queue)

append-IsUnique :
    (p : Pending) (queue : List Pending)
    → is_queued p.id queue ≡ false
    → IsUnique queue
    → IsUnique (queue ++ (p ∷ []))
unfolding is_queued
append-IsUnique p [] h hs = ground arith
append-IsUnique p (q ∷ queue) h hs = ground (
  arith,
  is_queued-append q.id p queue,
  append-IsUnique p queue,
  same_iff p.id q.id,
  same_iff q.id p.id,
)

enqueue-IsUnique :
    (id : Text) (now : ℕ) (queue : List Pending) → IsUnique queue → IsUnique (enqueue id now queue)
unfolding enqueue
enqueue-IsUnique id now queue h =
    ground (arith, append-IsUnique (record { id = id; attempts = 0; due = now }) queue)

-- Queueing ids, as `start` does, keeps every id once in the queue.
pub enqueue_all-IsUnique :
    (ids : List Text) (now : ℕ) (queue : List Pending)
    → IsUnique queue
    → IsUnique (enqueue_all ids now queue)
unfolding enqueue_all
enqueue_all-IsUnique [] now queue h = h
enqueue_all-IsUnique (id ∷ ids) now queue h =
    enqueue_all-IsUnique ids now (enqueue id now queue) (enqueue-IsUnique id now queue h)

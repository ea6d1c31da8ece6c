-- ===== src/Sys/WorkQueue/Invariant.antt =====
-- sys/minimal_osd.cpp: what every step of the work queue keeps.
use libchdman_rs.Prelude.{
  ℕ, zero, suc, ◌+◌, ◌<◌, ◌≡◌, refl, true, false, ◌&&◌, List, [], ◌∷◌, ◌++◌, ◌⊎◌, if◌then◌else◌,
  ltb, leb, ◌==◌, length, ap, total, arith,
}
use libchdman_rs.Sys.WorkQueue.{
  Worker, waiting, running, finished, notifying, exited, Client, free, on_item, on_queue, Queue,
  fresh,
}

-- How often `x` is in the queue.
abbrev pub queued : ℕ → List ℕ → ℕ
queued x [] = 0
queued x (y ∷ ys) = (if x == y then 1 else 0) + queued x ys

abbrev pub busy : Worker → ℕ
busy waiting = 0
busy (running _) = 1
busy (finished _ _) = 1
busy (notifying _) = 0
busy exited = 0

abbrev pub runs : ℕ → Worker → ℕ
runs x waiting = 0
runs x (running y) = if x == y then 1 else 0
runs x (finished _ _) = 0
runs x (notifying _) = 0
runs x exited = 0

abbrev pub finishes : ℕ → Worker → ℕ
finishes x waiting = 0
finishes x (running _) = 0
finishes x (finished y _) = if x == y then 1 else 0
finishes x (notifying _) = 0
finishes x exited = 0

abbrev pub waits : Client → ℕ
waits free = 0
waits (on_item _ _) = 0
waits (on_queue _) = 1

-- An item that exists.
abbrev pub born : ℕ → ℕ → ℕ
born next x = if ltb x next then 1 else 0

-- What a worker has read of its item before the callback.
abbrev pub IsCurrent : Queue → Worker → Type 0
IsCurrent q waiting = Unit
IsCurrent q (running _) = Unit
IsCurrent q (finished x released) = (q.item x).auto_release ≡ released
IsCurrent q (notifying _) = Unit
IsCurrent q exited = Unit

-- The workers that are about to notify all threads.
abbrev pub notifies : Worker → ℕ
notifies waiting = 0
notifies (running _) = 0
notifies (finished _ _) = 0
notifies (notifying w) = if w then 1 else 0
notifies exited = 0

-- A thread that waits for an item, which the worker will see, and was not woken waits for something
-- that has not happened, or a worker is about to notify it.
abbrev pub IsBlocked : ℕ → Queue → Client → Type 0
IsBlocked n q free = Unit
IsBlocked n q (on_item x woken) =
    ((q.item x).waited_on ≡ true)
    × ((q.item x).auto_release ≡ false)
    × (x < q.next)
    × ((woken ≡ true) ⊎ ((q.item x).completed ≡ false) ⊎ (0 < total notifies n q.worker))
IsBlocked n q (on_queue woken) =
    (woken ≡ true) ⊎ (0 < q.pending_items) ⊎ (0 < total notifies n q.worker)

pub record Inv (n m : ℕ) (q : Queue) : Type 0 where
  pub pending : q.pending_items ≡ length q.items + total busy n q.worker
  pub waiters : q.queue_waiters ≡ total waits m q.client
  pub placed :
      (x : ℕ) → queued x q.items + total (runs x) n q.worker + (q.item x).calls ≡ born q.next x
  pub settled : (x : ℕ) → total (finishes x) n q.worker + (q.item x).retired ≡ (q.item x).calls
  pub completed : (x : ℕ) → (q.item x).completed ≡ true → (q.item x).retired ≡ 1
  pub freed :
      (x : ℕ)
      → (q.item x).freed ≡ true
      → ((q.item x).calls ≡ 1) × (((q.item x).auto_release ≡ true) ⊎ ((q.item x).retired ≡ 1))
  pub done :
      (x : ℕ)
      → (q.item x).retired ≡ 1
      → (q.item x).auto_release ≡ false
      → (q.item x).completed ≡ true
  pub current : (i : ℕ) → i < n → IsCurrent q (q.worker i)
  pub blocked : (j : ℕ) → j < m → IsBlocked n q (q.client j)

pub queued-append : (x : ℕ) (xs ys : List ℕ) → queued x (xs ++ ys) ≡ queued x xs + queued x ys
queued-append x [] ys = omega arith
queued-append x (y ∷ xs) ys = omega (arith, queued-append x xs ys)

pub length-fresh : (a k : ℕ) → length (fresh a k) ≡ k
unfolding fresh
length-fresh a zero = refl
length-fresh a (suc k) = ap suc (length-fresh (a + 1) k)

pub queued-fresh : (x a k : ℕ) → queued x (fresh a k) ≡ (if leb a x && ltb x (a + k) then 1 else 0)
unfolding fresh
queued-fresh x a zero = ground arith
queued-fresh x a (suc k) = ground (arith, queued-fresh x (a + 1) k)

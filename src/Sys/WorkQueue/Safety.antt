-- ===== src/Sys/WorkQueue/Safety.antt =====
-- sys/minimal_osd.cpp: what holds of the work queue in every reachable state.
use libchdman_rs.Prelude.{
  ℕ, ◌+◌, ◌<◌, ◌≤◌, ◌≡◌, Bool, false, Option, List, [], ◌∷◌, length, ◌⊎◌, total, total_mono, arith,
}
use libchdman_rs.Sys.WorkQueue.{
  Worker, waiting, running, finished, notifying, exited, on_item, on_queue, Queue, num_threads,
  Reach,
}
use libchdman_rs.Sys.WorkQueue.Invariant.{queued, busy, runs, finishes, notifies, Inv}
use libchdman_rs.Sys.WorkQueue.Preserve.{finished_once}
use libchdman_rs.Sys.WorkQueue.Reachable.{Reach-Inv}

-- A work queue has at least 1 and at most 16 threads.
pub num_threads_bounds :
    (multi : Bool) (hardware : ℕ) (forced max_threads : Option ℕ)
    → (1 ≤ num_threads multi hardware forced max_threads)
      × (num_threads multi hardware forced max_threads ≤ 16)
unfolding num_threads
num_threads_bounds multi hardware forced max_threads = ground arith

queued-le-length : (x : ℕ) (xs : List ℕ) → queued x xs ≤ length xs
queued-le-length x [] = omega arith
queued-le-length x (y ∷ xs) = ground (arith, queued-le-length x xs)

runs-le-busy : (x : ℕ) (w : Worker) → runs x w ≤ busy w
runs-le-busy x waiting = omega arith
runs-le-busy x (running y) = ground arith
runs-le-busy x (finished y r) = omega arith
runs-le-busy x (notifying w) = omega arith
runs-le-busy x exited = omega arith

finishes-le-busy : (x : ℕ) (w : Worker) → finishes x w ≤ busy w
finishes-le-busy x waiting = omega arith
finishes-le-busy x (running y) = omega arith
finishes-le-busy x (finished y r) = ground arith
finishes-le-busy x (notifying w) = omega arith
finishes-le-busy x exited = omega arith

module _ {callback : ℕ → ℕ → ℕ} {n m : ℕ} {q : Queue} (reach : Reach callback n m q) where
  inv : Inv n m q
  inv = Reach-Inv reach

  -- pending_items is the number of queued items plus the number of workers with an item in hand.
  pub pending_items_exact : q.pending_items ≡ length q.items + total busy n q.worker
  pending_items_exact = inv.pending

  -- When nothing is pending, each item had its callback called exactly once and was retired.
  pub drained_called_once :
      q.pending_items ≡ 0 → (x : ℕ) → x < q.next → ((q.item x).calls ≡ 1) × ((q.item x).retired ≡ 1)
  drained_called_once idle x made = ground (
    arith,
    inv.pending,
    inv.placed x,
    inv.settled x,
    queued-le-length x q.items,
    total_mono (runs x) busy (runs-le-busy x) n q.worker,
    total_mono (finishes x) busy (finishes-le-busy x) n q.worker,
  )

  -- No item is called twice, and an item in the queue is neither called, complete nor deleted.
  pub called_at_most_once :
      (x : ℕ)
      → ((q.item x).calls ≤ 1)
        × (0 < queued x q.items + total (runs x) n q.worker
            → ((q.item x).calls ≡ 0) × ((q.item x).completed ≡ false) × ((q.item x).freed ≡ false))
  called_at_most_once x = (ground (arith, inv.placed x), unused)
    where
      unused :
          0 < queued x q.items + total (runs x) n q.worker
          → ((q.item x).calls ≡ 0) × ((q.item x).completed ≡ false) × ((q.item x).freed ≡ false)
      unused h = ground (arith, inv.placed x, inv.settled x, inv.completed x, inv.freed x)

  -- An item that a worker is about to mark complete was not deleted.
  pub no_use_after_free :
      (i x : ℕ) → i < n → q.worker i ≡ finished x false → (q.item x).freed ≡ false
  no_use_after_free i x h at = ground (arith, finished_once inv i x false h at, inv.freed x)

  -- In every state that is reached, for a thread that waits on done_cv in osd_work_item_wait or
  -- osd_work_queue_wait and has not been notified since it last found its predicate false: what it
  -- waits for has not happened yet (the item is not complete, or something is pending), or a worker
  -- is about to notify all.
  pub no_lost_wakeup :
      (j : ℕ)
      → j < m
      → ((x : ℕ)
          → q.client j ≡ on_item x false
          → ((q.item x).completed ≡ false) ⊎ (0 < total notifies n q.worker))
        × (q.client j ≡ on_queue false → (0 < q.pending_items) ⊎ (0 < total notifies n q.worker))
  no_lost_wakeup j h = (
    λ x e. ground (arith, rw e at (inv.blocked j h)),
    λ e. ground (arith, rw e at (inv.blocked j h)),
  )

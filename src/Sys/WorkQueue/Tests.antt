-- ===== src/Sys/WorkQueue/Tests.antt =====
-- sys/minimal_osd.cpp: runs of the work queue, and its theorems at them.
use libchdman_rs.Prelude.{
  ℕ, ◌+◌, ◌<◌, ◌≤◌, ◌≡◌, refl, true, false, none, some, [], ◌∷◌, length, ◌⊎◌, total, arith,
}
use libchdman_rs.Sys.WorkQueue.{
  on_item, on_queue, Queue, num_threads, fresh, queue_multiple, pop, call, retire, begin_item_wait,
  enqueue, take, process, settle, wait_item, start, Reach, here, later,
}
use libchdman_rs.Sys.WorkQueue.Invariant.{queued, busy, runs, notifies}
use libchdman_rs.Sys.WorkQueue.Safety.{
  num_threads_bounds, pending_items_exact, drained_called_once, called_at_most_once,
  no_use_after_free, no_lost_wakeup,
}

abbrev double : ℕ → ℕ → ℕ
double p thread = p + p

-- One worker, two items with parameters 7 and 10.
abbrev queued_two : Queue
queued_two = queue_multiple 2 7 3 false start

abbrev popped : Queue
popped = pop 0 0 (1 ∷ []) queued_two

abbrev called : Queue
called = call double 0 0 popped

abbrev waited : Queue
waited = begin_item_wait 0 1 called

abbrev retired_one : Queue
retired_one = retire 0 0 false waited

steps : Unit {0}
unfolding queue_multiple fresh pop call retire begin_item_wait
steps = tt

Reach-queued : Reach double 1 1 queued_two
Reach-queued = later here (enqueue 2 7 3 false)

Reach-popped : Reach double 1 1 popped
unfolding steps
Reach-popped = later Reach-queued (take 0 0 (1 ∷ []) (omega arith) refl refl)

Reach-called : Reach double 1 1 called
unfolding steps
Reach-called = later Reach-popped (process 0 0 (omega arith) refl)

Reach-waited : Reach double 1 1 waited
unfolding steps
Reach-waited = later Reach-called (wait_item 0 1 (omega arith) refl (omega arith) refl refl)

Reach-retired : Reach double 1 1 retired_one
unfolding steps
Reach-retired = later Reach-waited (settle 0 0 false (omega arith) refl)

-- One item, queued and served: nothing is pending.
abbrev drained : Queue
drained = retire 0 0 false (call double 0 0 (pop 0 0 [] (queue_multiple 1 7 0 false start)))

Reach-drained : Reach double 1 1 drained
unfolding steps
Reach-drained =
    later
      (later (later (later here (enqueue 1 7 0 false)) (take 0 0 [] (omega arith) refl refl))
        (process 0 0 (omega arith) refl))
      (settle 0 0 false (omega arith) refl)

result_stored : (retired_one.item 0).result ≡ 14
unfolding steps
result_stored = refl

num_threads_bounds_example :
    (1 ≤ num_threads true 64 none (some 20)) × (num_threads true 64 none (some 20) ≤ 16)
num_threads_bounds_example = num_threads_bounds true 64 none (some 20)

pending_items_exact_example :
    retired_one.pending_items ≡ length retired_one.items + total busy 1 retired_one.worker
pending_items_exact_example = pending_items_exact Reach-retired

drained_called_once_example : ((drained.item 0).calls ≡ 1) × ((drained.item 0).retired ≡ 1)
unfolding steps
drained_called_once_example = drained_called_once Reach-drained refl 0 (omega arith)

called_at_most_once_example :
    ((popped.item 1).calls ≤ 1)
    × (0 < queued 1 popped.items + total (runs 1) 1 popped.worker
        → ((popped.item 1).calls ≡ 0)
          × ((popped.item 1).completed ≡ false)
          × ((popped.item 1).freed ≡ false))
called_at_most_once_example = called_at_most_once Reach-popped 1

no_use_after_free_example : (called.item 0).freed ≡ false
unfolding steps
no_use_after_free_example = no_use_after_free Reach-called 0 0 (omega arith) refl

no_lost_wakeup_example :
    ((x : ℕ)
      → waited.client 0 ≡ on_item x false
      → ((waited.item x).completed ≡ false) ⊎ (0 < total notifies 1 waited.worker))
    × (waited.client 0 ≡ on_queue false
        → (0 < waited.pending_items) ⊎ (0 < total notifies 1 waited.worker))
no_lost_wakeup_example = no_lost_wakeup Reach-waited 0 (omega arith)

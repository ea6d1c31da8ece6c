-- ===== src/Sys/WorkQueue/Preserve.antt =====
-- sys/minimal_osd.cpp: each step of the work queue keeps its invariant.
use libchdman_rs.Prelude.{
  ℕ, zero, suc, ◌+◌, ◌<◌, ◌≡◌, refl, Bool, false, List, ◌∷◌, inl, inr, ◌==◌, Bool-cases,
  length-append, update, total, total-update, le-total, total-congr, arith,
}
use libchdman_rs.Sys.WorkQueue.{
  Worker, waiting, running, finished, notifying, exited, Client, free, on_item, on_queue, Queue,
  fresh, queue_multiple, wake_client, pop, call, wake, retire, notify,
}
use libchdman_rs.Sys.WorkQueue.Invariant.{
  busy, runs, finishes, notifies, waits, IsCurrent, IsBlocked, Inv, queued-append, length-fresh,
  queued-fresh,
}

module _ {n m : ℕ} {q : Queue} (inv : Inv n m q) where
  -- An item that a worker holds exists.
  held-lt : (i x : ℕ) (released : Bool) → i < n → q.worker i ≡ finished x released → x < q.next
  held-lt i x released h e =
      ground (arith, inv.placed x, inv.settled x, le-total (finishes x) n q.worker i h)

  pub queue_multiple-Inv :
      (k base step : ℕ) (auto : Bool) → Inv n m (queue_multiple k base step auto q)
  unfolding queue_multiple
  queue_multiple-Inv zero base step auto = inv
  queue_multiple-Inv (suc k) base step auto = record {
    pending = omega (
      arith,
      inv.pending,
      length-append q.items (fresh q.next (suc k)),
      length-fresh q.next (suc k),
    );
    waiters = inv.waiters;
    placed = λ x. ground (
      arith,
      inv.placed x,
      queued-append x q.items (fresh q.next (suc k)),
      queued-fresh x q.next (suc k),
    );
    settled = λ x. ground (arith, inv.placed x, inv.settled x);
    completed = λ x. ground (arith, inv.completed x);
    freed = λ x. ground (arith, inv.freed x);
    done = λ x. ground (arith, inv.done x);
    current = λ i h. current_kept (q.worker i) (held i h) (inv.current i h);
    blocked = λ j h. blocked_kept (q.client j) (inv.blocked j h);
  }
    where
      held : (i : ℕ) → i < n → (x : ℕ) (r : Bool) → q.worker i ≡ finished x r → x < q.next
      held i h x r e = held-lt i x r h e

      current_kept :
          (w : Worker)
          → ((x : ℕ) (r : Bool) → w ≡ finished x r → x < q.next)
          → IsCurrent q w
          → IsCurrent (queue_multiple (suc k) base step auto q) w
      current_kept waiting b c = tt
      current_kept (running _) b c = tt
      current_kept (finished x r) b c = ground (arith, b x r refl)
      current_kept (notifying _) b c = tt
      current_kept exited b c = tt

      blocked_kept :
          (c : Client) → IsBlocked n q c → IsBlocked n (queue_multiple (suc k) base step auto q) c
      blocked_kept free b = tt
      blocked_kept (on_item x woken) b = ground arith
      blocked_kept (on_queue woken) b = ground arith

  pub pop-Inv :
      (i x : ℕ) (xs : List ℕ)
      → i < n
      → q.worker i ≡ waiting
      → q.items ≡ x ∷ xs
      → Inv n m (pop i x xs q)
  unfolding pop
  pop-Inv i x xs h idle front = record {
    pending = ground (arith, inv.pending, total-update busy n q.worker i (running x) h);
    waiters = inv.waiters;
    placed = λ y. ground (arith, inv.placed y, total-update (runs y) n q.worker i (running x) h);
    settled =
        λ y. ground (arith, inv.settled y, total-update (finishes y) n q.worker i (running x) h);
    completed = inv.completed;
    freed = inv.freed;
    done = inv.done;
    current = λ j hj. ground (arith, inv.current j hj);
    blocked = λ j hj. blocked_kept (q.client j) (inv.blocked j hj);
  }
    where
      blocked_kept : (c : Client) → IsBlocked n q c → IsBlocked n (pop i x xs q) c
      blocked_kept free b = tt
      blocked_kept (on_item y woken) b =
          ground (arith, total-update notifies n q.worker i (running x) h)
      blocked_kept (on_queue woken) b =
          ground (arith, total-update notifies n q.worker i (running x) h)

  pub leave-Inv :
      (i : ℕ)
      → i < n
      → q.worker i ≡ waiting
      → Inv n m (record q { worker = update q.worker i exited })
  leave-Inv i h idle = record {
    pending = ground (arith, inv.pending, total-update busy n q.worker i exited h);
    waiters = inv.waiters;
    placed = λ y. ground (arith, inv.placed y, total-update (runs y) n q.worker i exited h);
    settled = λ y. ground (arith, inv.settled y, total-update (finishes y) n q.worker i exited h);
    completed = inv.completed;
    freed = inv.freed;
    done = inv.done;
    current = λ j hj. ground (arith, inv.current j hj);
    blocked = λ j hj. blocked_kept (q.client j) (inv.blocked j hj);
  }
    where
      blocked_kept :
          (c : Client)
          → IsBlocked n q c
          → IsBlocked n (record q { worker = update q.worker i exited }) c
      blocked_kept free b = tt
      blocked_kept (on_item y woken) b = ground (arith, total-update notifies n q.worker i exited h)
      blocked_kept (on_queue woken) b = ground (arith, total-update notifies n q.worker i exited h)

  pub call-Inv :
      (callback : ℕ → ℕ → ℕ) (i x : ℕ)
      → i < n
      → q.worker i ≡ running x
      → Inv n m (call callback i x q)
  unfolding call
  call-Inv callback i x h at = record {
    pending =
        ground (
          arith,
          inv.pending,
          total-update busy n q.worker i (finished x (q.item x).auto_release) h,
        );
    waiters = inv.waiters;
    placed = λ y. ground (
      arith,
      inv.placed y,
      total-update (runs y) n q.worker i (finished x (q.item x).auto_release) h,
    );
    settled = λ y. ground (
      arith,
      inv.settled y,
      total-update (finishes y) n q.worker i (finished x (q.item x).auto_release) h,
    );
    completed = λ y. ground (arith, inv.completed y);
    freed = λ y.
        ground (arith, inv.freed y, inv.placed y, inv.settled y, le-total (runs y) n q.worker i h);
    done = λ y. ground (arith, inv.done y);
    current = current_kept;
    blocked = λ j hj. blocked_kept (q.client j) (inv.blocked j hj);
  }
    where
      worker_kept : (w : Worker) → IsCurrent q w → IsCurrent (call callback i x q) w
      worker_kept waiting c = tt
      worker_kept (running _) c = tt
      worker_kept (finished y r) c = ground arith
      worker_kept (notifying _) c = tt
      worker_kept exited c = tt

      current_kept :
          (j : ℕ)
          → j < n
          → IsCurrent
              (call callback i x q)
              (update q.worker i (finished x (q.item x).auto_release) j)
      current_kept j hj = elim (Bool-cases (i == j)) [
        | inl e ↦ rw e (ground arith)
        | inr e ↦ rw e (worker_kept (q.worker j) (inv.current j hj))
      ]

      blocked_kept : (c : Client) → IsBlocked n q c → IsBlocked n (call callback i x q) c
      blocked_kept free b = tt
      blocked_kept (on_item y woken) b =
          ground (arith, total-update notifies n q.worker i (finished x (q.item x).auto_release) h)
      blocked_kept (on_queue woken) b =
          ground (arith, total-update notifies n q.worker i (finished x (q.item x).auto_release) h)

  -- The item of a worker that has called it: called once, and not yet retired or complete.
  pub finished_once :
      (i x : ℕ) (released : Bool)
      → i < n
      → q.worker i ≡ finished x released
      → ((q.item x).calls ≡ 1)
        × ((q.item x).retired ≡ 0)
        × ((q.item x).completed ≡ false)
        × ((q.item x).auto_release ≡ released)
  finished_once i x released h at = ground (
    arith,
    inv.placed x,
    inv.settled x,
    inv.completed x,
    inv.current i h,
    le-total (finishes x) n q.worker i h,
  )

  pub retire-Inv :
      (i x : ℕ) (released : Bool)
      → i < n
      → q.worker i ≡ finished x released
      → Inv n m (retire i x released q)
  unfolding retire wake
  retire-Inv i x released h at = record {
    pending =
        ground
          (arith, inv.pending, total-update busy n q.worker i (notifying (wake x released q)) h);
    waiters = inv.waiters;
    placed = λ y.
        ground (
          arith,
          inv.placed y,
          total-update (runs y) n q.worker i (notifying (wake x released q)) h,
        );
    settled = λ y. ground (
      arith,
      inv.settled y,
      total-update (finishes y) n q.worker i (notifying (wake x released q)) h,
    );
    completed = λ y. ground (arith, inv.completed y, once);
    freed = λ y. ground (arith, inv.freed y, once);
    done = λ y. ground (arith, inv.done y, once);
    current = current_kept;
    blocked = λ j hj. blocked_kept j hj (q.client j) refl (inv.blocked j hj);
  }
    where
      once :
          ((q.item x).calls ≡ 1)
          × ((q.item x).retired ≡ 0)
          × ((q.item x).completed ≡ false)
          × ((q.item x).auto_release ≡ released)
      once = finished_once i x released h at

      worker_kept : (w : Worker) → IsCurrent q w → IsCurrent (retire i x released q) w
      worker_kept waiting c = tt
      worker_kept (running _) c = tt
      worker_kept (finished y r) c = ground arith
      worker_kept (notifying _) c = tt
      worker_kept exited c = tt

      current_kept :
          (j : ℕ)
          → j < n
          → IsCurrent (retire i x released q) (update q.worker i (notifying (wake x released q)) j)
      current_kept j hj = elim (Bool-cases (i == j)) [
        | inl e ↦ rw e tt
        | inr e ↦ rw e (worker_kept (q.worker j) (inv.current j hj))
      ]

      notices :
          total notifies n (update q.worker i (notifying (wake x released q)))
            + notifies (q.worker i)
          ≡ total notifies n q.worker + notifies (notifying (wake x released q))
      notices = total-update notifies n q.worker i (notifying (wake x released q)) h

      blocked_kept :
          (j : ℕ)
          → j < m
          → (c : Client) → q.client j ≡ c
          → IsBlocked n q c
          → IsBlocked n (retire i x released q) c
      blocked_kept j hj free e b = tt
      blocked_kept j hj (on_item y woken) e b = ground (arith, once, notices)
      blocked_kept j hj (on_queue woken) e b =
          ground (arith, inv.waiters, le-total waits m q.client j hj, notices)

  -- The notification.
  pub notify-Inv : (i : ℕ) (w : Bool) → i < n → q.worker i ≡ notifying w → Inv n m (notify i w q)
  unfolding notify
  notify-Inv i w h at = record {
    pending = ground (arith, inv.pending, total-update busy n q.worker i waiting h);
    waiters = omega (arith, inv.waiters, waits_kept);
    placed = λ y. ground (arith, inv.placed y, total-update (runs y) n q.worker i waiting h);
    settled = λ y. ground (arith, inv.settled y, total-update (finishes y) n q.worker i waiting h);
    completed = inv.completed;
    freed = inv.freed;
    done = inv.done;
    current = λ j hj. ground (arith, inv.current j hj);
    blocked = λ j hj. blocked_kept (q.client j) (inv.blocked j hj);
  }
    where
      weight_kept : (c : Client) → waits (wake_client w c) ≡ waits c
      weight_kept free = refl
      weight_kept (on_item y v) = refl
      weight_kept (on_queue v) = refl

      waits_kept : total waits m (λ j. wake_client w (q.client j)) ≡ total waits m q.client
      waits_kept = total-congr waits m _ _ (λ j. weight_kept (q.client j))

      blocked_kept : (c : Client) → IsBlocked n q c → IsBlocked n (notify i w q) (wake_client w c)
      blocked_kept free b = tt
      blocked_kept (on_item y woken) b =
          ground (arith, total-update notifies n q.worker i waiting h)
      blocked_kept (on_queue woken) b = ground (arith, total-update notifies n q.worker i waiting h)

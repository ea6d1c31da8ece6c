-- ===== src/Sys/WorkQueue/Reachable.antt =====
-- sys/minimal_osd.cpp: the steps of the threads that use the queue keep its invariant, so it holds in
-- every state that is reached.
use libchdman_rs.Prelude.{
  ℕ, ◌+◌, ◌-◌, ◌<◌, ◌≤◌, ◌≡◌, refl, Bool, true, false, inl, inr, if◌then◌else◌, ◌==◌, Bool-cases,
  update, total-update, le-total, total_zero, arith,
}
use libchdman_rs.Sys.WorkQueue.{
  Worker, waiting, running, finished, notifying, exited, Client, free, on_item, on_queue, Queue,
  begin_item_wait, begin_queue_wait, end_queue_wait, delete_item, Step, enqueue, take, leave,
  process, announce, settle, wait_item, wait_queue, return_item, return_queue, wait_item_again,
  wait_queue_again, release, stop, start, Reach, here, later,
}
use libchdman_rs.Sys.WorkQueue.Invariant.{
  busy, runs, finishes, waits, born, IsCurrent, IsBlocked, Inv,
}
use libchdman_rs.Sys.WorkQueue.Preserve.{
  queue_multiple-Inv, pop-Inv, leave-Inv, call-Inv, retire-Inv, notify-Inv,
}

module _ {n m : ℕ} {q : Queue} (inv : Inv n m q) where
  begin_item_wait-Inv :
      (j x : ℕ)
      → j < m
      → q.client j ≡ free
      → x < q.next
      → (q.item x).auto_release ≡ false
      → Inv n m (begin_item_wait j x q)
  unfolding begin_item_wait
  begin_item_wait-Inv j x h idle known own = record {
    pending = inv.pending;
    waiters = ground (
      arith,
      inv.waiters,
      total-update waits m q.client j (if (q.item x).completed then free else on_item x false) h,
    );
    placed = λ y. ground (arith, inv.placed y);
    settled = λ y. ground (arith, inv.settled y);
    completed = λ y. ground (arith, inv.completed y);
    freed = λ y. ground (arith, inv.freed y);
    done = λ y. ground (arith, inv.done y);
    current = λ i hi. worker_kept (q.worker i) (inv.current i hi);
    blocked = blocked_kept;
  }
    where
      worker_kept : (w : Worker) → IsCurrent q w → IsCurrent (begin_item_wait j x q) w
      worker_kept waiting c = tt
      worker_kept (running _) c = tt
      worker_kept (finished y r) c = ground arith
      worker_kept (notifying _) c = tt
      worker_kept exited c = tt

      client_kept : (c : Client) → IsBlocked n q c → IsBlocked n (begin_item_wait j x q) c
      client_kept free b = tt
      client_kept (on_item y woken) b = ground arith
      client_kept (on_queue woken) b = ground arith

      own_kept :
          (b : Bool)
          → (q.item x).completed ≡ b
          → IsBlocked n (begin_item_wait j x q) (if b then free else on_item x false)
      own_kept true e = tt
      own_kept false e = ground arith

      blocked_kept :
          (k : ℕ)
          → k < m
          → IsBlocked n
              (begin_item_wait j x q)
              (update q.client j (if (q.item x).completed then free else on_item x false) k)
      blocked_kept k hk = elim (Bool-cases (j == k)) [
        | inl e ↦ rw e (own_kept (q.item x).completed refl)
        | inr e ↦ rw e (client_kept (q.client k) (inv.blocked k hk))
      ]

  -- A change of one client that leaves it unblocked, and of nothing else.
  client-Inv :
      (j k : ℕ) (c : Client)
      → j < m
      → k + waits (q.client j) ≡ q.queue_waiters + waits c
      → IsBlocked n q c
      → Inv n m (record q { queue_waiters = k; client = update q.client j c })
  client-Inv j k c h count own = record {
    pending = inv.pending;
    waiters = omega (arith, inv.waiters, total-update waits m q.client j c h);
    placed = inv.placed;
    settled = inv.settled;
    completed = inv.completed;
    freed = inv.freed;
    done = inv.done;
    current = λ i hi. worker_kept (q.worker i) (inv.current i hi);
    blocked = blocked_kept;
  }
    where
      next_queue : Queue
      next_queue = record q { queue_waiters = k; client = update q.client j c }

      worker_kept : (w : Worker) → IsCurrent q w → IsCurrent next_queue w
      worker_kept waiting b = tt
      worker_kept (running _) b = tt
      worker_kept (finished y r) b = b
      worker_kept (notifying _) b = tt
      worker_kept exited b = tt

      client_kept : (d : Client) → IsBlocked n q d → IsBlocked n next_queue d
      client_kept free b = tt
      client_kept (on_item y woken) b = ground arith
      client_kept (on_queue woken) b = ground arith

      blocked_kept : (i : ℕ) → i < m → IsBlocked n next_queue (update q.client j c i)
      blocked_kept i hi = elim (Bool-cases (j == i)) [
        | inl e ↦ rw e (client_kept c own)
        | inr e ↦ rw e (client_kept (q.client i) (inv.blocked i hi))
      ]

  begin_queue_wait-Inv : (j : ℕ) → j < m → q.client j ≡ free → Inv n m (begin_queue_wait j q)
  unfolding begin_queue_wait
  begin_queue_wait-Inv j h idle = elim (Bool-cases (q.pending_items == 0)) [
    | inl e ↦ rw e inv
    | inr e ↦
        rw e (client-Inv j (q.queue_waiters + 1) (on_queue false) h (ground arith) (ground arith))
  ]

  end_queue_wait-Inv :
      (j : ℕ) (woken : Bool) → j < m → q.client j ≡ on_queue woken → Inv n m (end_queue_wait j q)
  unfolding end_queue_wait
  end_queue_wait-Inv j woken h at =
      client-Inv j (q.queue_waiters - 1) free h
        (ground (arith, inv.waiters, le-total waits m q.client j h)) tt

  return_item-Inv :
      (j x : ℕ) (woken : Bool)
      → j < m
      → q.client j ≡ on_item x woken
      → Inv n m (record q { client = update q.client j free })
  return_item-Inv j x woken h at = client-Inv j q.queue_waiters free h (ground arith) tt

  wait_item_again-Inv :
      (j x : ℕ) (woken : Bool)
      → j < m
      → q.client j ≡ on_item x woken
      → (q.item x).completed ≡ false
      → Inv n m (record q { client = update q.client j (on_item x false) })
  wait_item_again-Inv j x woken h at open_ =
      client-Inv j q.queue_waiters (on_item x false) h (ground (arith, at))
        (ground (arith, inv.blocked j h, at, open_))

  wait_queue_again-Inv :
      (j : ℕ) (woken : Bool)
      → j < m
      → q.client j ≡ on_queue woken
      → (q.pending_items == 0) ≡ false
      → Inv n m (record q { client = update q.client j (on_queue false) })
  wait_queue_again-Inv j woken h at open_ =
      client-Inv j q.queue_waiters (on_queue false) h (ground (arith, at)) (ground (arith, open_))

  delete_item-Inv : (x : ℕ) → (q.item x).completed ≡ true → Inv n m (delete_item x q)
  unfolding delete_item
  delete_item-Inv x complete = record {
    pending = inv.pending;
    waiters = inv.waiters;
    placed = λ y. ground (arith, inv.placed y);
    settled = λ y. ground (arith, inv.settled y);
    completed = λ y. ground (arith, inv.completed y);
    freed = λ y. ground (arith, inv.freed y, inv.completed x, inv.placed x, inv.settled x, known y);
    done = λ y. ground (arith, inv.done y);
    current = λ i hi. worker_kept (q.worker i) (inv.current i hi);
    blocked = λ j hj. client_kept (q.client j) (inv.blocked j hj);
  }
    where
      known : (y : ℕ) → born q.next y ≤ 1
      known y = ground arith

      worker_kept : (w : Worker) → IsCurrent q w → IsCurrent (delete_item x q) w
      worker_kept waiting c = tt
      worker_kept (running _) c = tt
      worker_kept (finished y r) c = ground arith
      worker_kept (notifying _) c = tt
      worker_kept exited c = tt

      client_kept : (c : Client) → IsBlocked n q c → IsBlocked n (delete_item x q) c
      client_kept free b = tt
      client_kept (on_item y woken) b = ground arith
      client_kept (on_queue woken) b = ground arith

stop-Inv : {n m : ℕ} {q : Queue} → Inv n m q → Inv n m (record q { should_exit = true })
stop-Inv {n} {m} {q} inv = record {
  pending = inv.pending;
  waiters = inv.waiters;
  placed = inv.placed;
  settled = inv.settled;
  completed = inv.completed;
  freed = inv.freed;
  done = inv.done;
  current = λ i hi. worker_kept (q.worker i) (inv.current i hi);
  blocked = λ j hj. client_kept (q.client j) (inv.blocked j hj);
}
  where
    worker_kept : (w : Worker) → IsCurrent q w → IsCurrent (record q { should_exit = true }) w
    worker_kept waiting b = tt
    worker_kept (running _) b = tt
    worker_kept (finished y r) b = b
    worker_kept (notifying _) b = tt
    worker_kept exited b = tt

    client_kept : (d : Client) → IsBlocked n q d → IsBlocked n (record q { should_exit = true }) d
    client_kept free b = tt
    client_kept (on_item y woken) b = ground arith
    client_kept (on_queue woken) b = ground arith

start-Inv : (n m : ℕ) → Inv n m start
start-Inv n m = record {
  pending = omega (arith, total_zero busy n (λ _. waiting) (λ _. refl));
  waiters = omega (arith, total_zero waits m (λ _. free) (λ _. refl));
  placed = λ x. ground (arith, total_zero (runs x) n (λ _. waiting) (λ _. refl));
  settled = λ x. ground (arith, total_zero (finishes x) n (λ _. waiting) (λ _. refl));
  completed = λ x h. ground arith;
  freed = λ x h. ground arith;
  done = λ x h. ground arith;
  current = λ i hi. tt;
  blocked = λ j hj. tt;
}

module _ {callback : ℕ → ℕ → ℕ} {n m : ℕ} where
  Step-Inv : {q r : Queue} → Step callback n m q r → Inv n m q → Inv n m r
  Step-Inv (enqueue k base step auto) inv = queue_multiple-Inv inv k base step auto
  Step-Inv (take i x xs h idle front) inv = pop-Inv inv i x xs h idle front
  Step-Inv (leave i h idle _ _) inv = leave-Inv inv i h idle
  Step-Inv (process i x h at) inv = call-Inv inv callback i x h at
  Step-Inv (settle i x released h at) inv = retire-Inv inv i x released h at
  Step-Inv (announce i w h at) inv = notify-Inv inv i w h at
  Step-Inv (wait_item_again j x woken h at open_) inv = wait_item_again-Inv inv j x woken h at open_
  Step-Inv (wait_queue_again j woken h at open_) inv = wait_queue_again-Inv inv j woken h at open_
  Step-Inv (wait_item j x h idle made own _) inv = begin_item_wait-Inv inv j x h idle made own
  Step-Inv (wait_queue j h idle) inv = begin_queue_wait-Inv inv j h idle
  Step-Inv (return_item j x woken h at) inv = return_item-Inv inv j x woken h at
  Step-Inv (return_queue j woken h at) inv = end_queue_wait-Inv inv j woken h at
  Step-Inv (release x complete _) inv = delete_item-Inv inv x complete
  Step-Inv stop inv = stop-Inv inv

  pub Reach-Inv : {q : Queue} → Reach callback n m q → Inv n m q
  Reach-Inv here = start-Inv n m
  Reach-Inv (later r st) = Step-Inv st (Reach-Inv r)

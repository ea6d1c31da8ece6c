-- ===== src/Sys/WorkQueue.antt =====
-- sys/minimal_osd.cpp, the work queue: the worker threads, the threads that wait, and the items.
-- Items are named by the order of their allocation. One step is what one thread does under the
-- queue's mutex, the call of a callback between two such sections, or the notification behind one. A
-- worker in `cv.wait` may wake at any step, so the notifications of `cv` are no steps of their own.
pub mod Invariant
pub mod Preserve
pub mod Reachable
pub mod Safety
mod Tests
use libchdman_rs.Prelude.{
  ℕ, zero, suc, ◌+◌, ◌-◌, ◌*◌, ◌<◌, ◌≡◌, Bool, true, false, not, ◌&&◌, ◌||◌, Option, none, some,
  List, [], ◌∷◌, ◌++◌, if◌then◌else◌, ltb, leb, ◌==◌, length, update, max,
}

-- osd_work_item. `freed` records that it was deleted; `calls` counts the calls of its callback, and
-- `retired` the critical sections that a worker entered after such a call.
pub record Item : Type 0 where
  pub param : ℕ
  pub auto_release : Bool  -- WORK_ITEM_FLAG_AUTO_RELEASE
  pub result : ℕ
  pub completed : Bool
  pub waited_on : Bool
  pub freed : Bool
  pub calls : ℕ
  pub retired : ℕ

-- Where `worker_thread` stands.
pub data Worker : Type 0 where
  waiting : Worker  -- in `cv.wait`
  running : (item : ℕ) → Worker  -- with an item popped, before the callback returns
  finished : (item : ℕ) → (released : Bool) → Worker  -- before the second critical section
  notifying : (wake : Bool) → Worker  -- behind it, before `if (wake) queue->done_cv.notify_all()`
  exited : Worker

-- Where a thread that uses the queue stands. `woken` says that `done_cv` was notified since it
-- began to wait, or found its predicate false and waited again.
pub data Client : Type 0 where
  free : Client
  on_item : (item : ℕ) → (woken : Bool) → Client  -- in osd_work_item_wait
  on_queue : (woken : Bool) → Client  -- in osd_work_queue_wait

-- osd_work_queue, with the threads and the items. `next` is the name of the next new item.
pub record Queue : Type 0 where
  pub items : List ℕ
  pub pending_items : ℕ
  pub queue_waiters : ℕ
  pub should_exit : Bool
  pub next : ℕ
  pub item : ℕ → Item
  pub worker : ℕ → Worker
  pub client : ℕ → Client

-- osd_work_queue_alloc: the threads that a queue asks for. `hardware` is
-- std::thread::hardware_concurrency, and `forced` the value of LIBCHDMAN_TEST_FORCE_NPROC where it is
-- set; a value that is no positive number is 0.
unfoldable pub asked_threads : Bool → ℕ → Option ℕ → ℕ
asked_threads false hardware forced = 1
asked_threads true hardware none = max 1 hardware
asked_threads true hardware (some f) = if ltb 0 f then f else max 1 hardware

-- The value of OSDWORKQUEUEMAXTHREADS, where it is set, as an upper bound; 0 where it is not a
-- positive number.
unfoldable pub capped_threads : Option ℕ → ℕ → ℕ
capped_threads none asked = asked
capped_threads (some limit) asked = if ltb 0 limit && ltb limit asked then limit else asked

-- WORK_MAX_THREADS of osdcore.h.
abbrev pub work_max_threads : ℕ
work_max_threads = 16

-- osd_work_queue_alloc: the number of worker threads.
unfoldable pub num_threads : Bool → ℕ → Option ℕ → Option ℕ → ℕ
unfolding asked_threads capped_threads
num_threads multi hardware forced max_threads =
    let asked = capped_threads max_threads (asked_threads multi hardware forced) in
    if ltb work_max_threads asked then work_max_threads else asked

-- The names of `k` new items.
unfoldable pub fresh : ℕ → ℕ → List ℕ
fresh a zero = []
fresh a (suc k) = a ∷ fresh (a + 1) k

abbrev pub new_item : ℕ → Bool → Item
new_item p auto = record {
  param = p;
  auto_release = auto;
  result = 0;
  completed = false;
  waited_on = false;
  freed = false;
  calls = 0;
  retired = 0;
}

-- osd_work_item_queue_multiple; `k` is 0 where numitems is not positive.
unfoldable pub queue_multiple : ℕ → ℕ → ℕ → Bool → Queue → Queue
queue_multiple zero base step auto q = q
queue_multiple (suc k) base step auto q = record q {
  items = q.items ++ fresh q.next (suc k);
  pending_items = q.pending_items + suc k;
  next = q.next + suc k;
  item = λ id.
      if leb q.next id && ltb id (q.next + suc k)
      then new_item (base + (id - q.next) * step) auto
      else q.item id;
}

-- `done_cv.notify_all()`.
unfoldable pub wake_client : Bool → Client → Client
wake_client wake free = free
wake_client wake (on_item x woken) = on_item x (wake || woken)
wake_client wake (on_queue woken) = on_queue (wake || woken)

-- worker_thread, after the wait: pops the front item.
unfoldable pub pop : ℕ → ℕ → List ℕ → Queue → Queue
pop i x xs q = record q { items = xs; worker = update q.worker i (running x) }

-- worker_thread, between the critical sections: the callback, and the deletion of an item that was
-- queued with WORK_ITEM_FLAG_AUTO_RELEASE.
unfoldable pub call : (ℕ → ℕ → ℕ) → ℕ → ℕ → Queue → Queue
call callback i x q =
    let it = q.item x in
    record q {
      item = update q.item x (record it {
        result = callback it.param i;
        freed = it.auto_release || it.freed;
        calls = it.calls + 1;
      });
      worker = update q.worker i (finished x it.auto_release);
    }

-- What the second critical section computes: whether somebody has to be woken.
unfoldable pub wake : ℕ → Bool → Queue → Bool
wake x released q =
    not released && (q.item x).waited_on || ltb 0 q.queue_waiters && (q.pending_items - 1) == 0

-- worker_thread, the second critical section.
unfoldable pub retire : ℕ → ℕ → Bool → Queue → Queue
unfolding wake
retire i x released q =
    let it = q.item x in
    record q {
      pending_items = q.pending_items - 1;
      item =
          update q.item x
            (record it { completed = not released || it.completed; retired = it.retired + 1 });
      worker = update q.worker i (notifying (wake x released q));
    }

-- worker_thread, behind the second critical section: the notification, where there is one.
unfoldable pub notify : ℕ → Bool → Queue → Queue
unfolding wake_client
notify i w q = record q {
  worker = update q.worker i waiting;
  client = λ j. wake_client w (q.client j);
}

-- osd_work_item_wait past its fast path: under the lock, `waited_on` is set, and the thread waits
-- unless the item is complete.
unfoldable pub begin_item_wait : ℕ → ℕ → Queue → Queue
begin_item_wait j x q =
    let it = q.item x in
    record q {
      item = update q.item x (record it { waited_on = true });
      client = update q.client j (if it.completed then free else on_item x false);
    }

-- osd_work_queue_wait: the count of waiters goes up, and down again where nothing is pending.
unfoldable pub begin_queue_wait : ℕ → Queue → Queue
begin_queue_wait j q = if q.pending_items == 0 then q else record q {
  queue_waiters = q.queue_waiters + 1;
  client = update q.client j (on_queue false);
}

-- The end of osd_work_queue_wait, by its predicate or by the timeout.
unfoldable pub end_queue_wait : ℕ → Queue → Queue
end_queue_wait j q = record q {
  queue_waiters = q.queue_waiters - 1;
  client = update q.client j free;
}

-- `delete item` at the end of osd_work_item_release.
unfoldable pub delete_item : ℕ → Queue → Queue
delete_item x q = record q { item = update q.item x (record (q.item x) { freed = true }) }

-- A queue of `n` workers with callback `callback`, used by `m` threads. A thread waits for, or
-- releases, an item that exists, that it may not share with the worker (no auto release) and that
-- was not released before.
pub data Step (callback : ℕ → ℕ → ℕ) (n m : ℕ) (q : Queue) : Queue → Type 0 where
  enqueue :
      (k base step : ℕ) (auto : Bool) → Step callback n m q (queue_multiple k base step auto q)
  take :
      (i x : ℕ) (xs : List ℕ)
      → i < n
      → q.worker i ≡ waiting
      → q.items ≡ x ∷ xs
      → Step callback n m q (pop i x xs q)
  leave :
      (i : ℕ)
      → i < n
      → q.worker i ≡ waiting
      → q.should_exit ≡ true
      → q.items ≡ []
      → Step callback n m q (record q { worker = update q.worker i exited })
  process : (i x : ℕ) → i < n → q.worker i ≡ running x → Step callback n m q (call callback i x q)
  announce :
      (i : ℕ) (w : Bool) → i < n → q.worker i ≡ notifying w → Step callback n m q (notify i w q)
  settle :
      (i x : ℕ) (released : Bool)
      → i < n
      → q.worker i ≡ finished x released
      → Step callback n m q (retire i x released q)
  wait_item :
      (j x : ℕ)
      → j < m
      → q.client j ≡ free
      → x < q.next
      → (q.item x).auto_release ≡ false
      → (q.item x).freed ≡ false
      → Step callback n m q (begin_item_wait j x q)
  wait_queue : (j : ℕ) → j < m → q.client j ≡ free → Step callback n m q (begin_queue_wait j q)
  -- by its predicate, or by the timeout
  return_item :
      (j x : ℕ) (woken : Bool)
      → j < m
      → q.client j ≡ on_item x woken
      → Step callback n m q (record q { client = update q.client j free })
  return_queue :
      (j : ℕ) (woken : Bool)
      → j < m
      → q.client j ≡ on_queue woken
      → Step callback n m q (end_queue_wait j q)
  -- a notified thread that finds its predicate false waits again
  wait_item_again :
      (j x : ℕ) (woken : Bool)
      → j < m
      → q.client j ≡ on_item x woken
      → (q.item x).completed ≡ false
      → Step callback n m q (record q { client = update q.client j (on_item x false) })
  wait_queue_again :
      (j : ℕ) (woken : Bool)
      → j < m
      → q.client j ≡ on_queue woken
      → (q.pending_items == 0) ≡ false
      → Step callback n m q (record q { client = update q.client j (on_queue false) })
  release :
      (x : ℕ)
      → (q.item x).completed ≡ true
      → (q.item x).freed ≡ false
      → Step callback n m q (delete_item x q)
  stop : Step callback n m q (record q { should_exit = true })

-- A new queue.
abbrev pub start : Queue
start = record {
  items = [];
  pending_items = 0;
  queue_waiters = 0;
  should_exit = false;
  next = 0;
  item = λ _. new_item 0 false;
  worker = λ _. waiting;
  client = λ _. free;
}

pub data Reach (callback : ℕ → ℕ → ℕ) (n m : ℕ) : Queue → Type 0 where
  here : Reach callback n m start
  later : {q r : Queue} → Reach callback n m q → Step callback n m q r → Reach callback n m r

-- ===== src/ConcurrentQueue/Tests.antt =====
-- generic/queue.hpp: the theorems at two entries in a queue of 64.
use my_async.Prelude.{ℕ, ◌≤◌, ◌≡◌, ◌++◌, length}
use my_async.RingQueue.Fifo.{contents}
use my_async.ConcurrentQueue.{ConcurrentQueue, new_queue, Reachable}
use my_async.ConcurrentQueue.Fifo.{first_in_first_out}
use my_async.ConcurrentQueue.Stuck.{stuck, lost_wake}

-- The entries 5 and 6, of which 5 has been popped.
abbrev five_popped : ConcurrentQueue ℕ
five_popped = stuck 0 5 6

lost_wake_example : Reachable (new_queue 0 64 3) five_popped
lost_wake_example = lost_wake 0 5 6

first_in_first_out_example :
    (five_popped.pushed ≡ five_popped.popped ++ contents five_popped.queue)
    × (length (contents five_popped.queue) ≤ 64)
first_in_first_out_example = first_in_first_out 0 64 3 five_popped (lost_wake 0 5 6)

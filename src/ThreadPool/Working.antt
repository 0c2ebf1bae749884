-- ===== src/ThreadPool/Working.antt =====
-- generic/thread_pool.cpp: the list of the working threads.
use my_async.Prelude.{refl, inl, Option, none, [], ◌∷◌}
use my_async.ThreadPool.{
  Place, waiting, running, finished, removed, Thread, returned, ThreadPool, new_thread, new_pool,
  submit, look_for_thread, emplace_thread, give_job, move_thread, do_task, remove_working,
  push_free, submits, looks, creates, gives, lists, takes, runs, relocks, removes, frees, leaves,
  Reachable, initial, next,
}

-- The pool when a thread has done its job and is free, and the call that gave it comes last.
abbrev pub all_done : {Job : Type 0} → Job → ThreadPool Job
all_done job = record {
  threads = new_thread ∷ [];
  free_threads = 0 ∷ [];
  working_threads = 0 ∷ [];
  calls = returned 0 ∷ [];
  submitted = job ∷ [];
  done = job ∷ [];
}

-- With any job, a pool can reach a state in which the job is done, its only thread waits and is a
-- free one, no call is in progress, and the thread still is in the list of the working threads.
pub working-stale : {Job : Type 0} (job : Job) → Reachable 1 (all_done job)
working-stale {Job} job =
    let at_place : Option Job → Place Job → Thread Job = λ o p. record { task = o; place = p } in
    let s₁ = submit 0 job (new_pool 1) in
    let s₂ = look_for_thread 0 job s₁ in
    let s₃ = emplace_thread 0 job s₂ in
    let s₄ = give_job 0 0 job new_thread s₃ in
    let s₅ = move_thread 0 (at_place none (running job)) s₄ in
    let s₆ = do_task 0 job (at_place none (running job)) s₅ in
    let s₇ = move_thread 0 (at_place none finished) s₆ in
    let s₈ = remove_working 0 (at_place none finished) s₇ in
    let s₉ = push_free 0 (at_place none removed) s₈ in
    let s₁₀ = move_thread 0 (at_place none waiting) s₉ in
    let r₄ =
      next s₃ s₄
        (next s₂ s₃
          (next s₁ s₂ (next (new_pool 1) s₁ initial (submits 0 job (inl refl))) (looks 0 job refl))
          (creates 0 job refl))
        (gives 0 0 job new_thread refl refl refl) in
    let r₇ =
      next s₆ s₇ (next s₅ s₆ (next s₄ s₅ r₄ (takes 0 job refl)) (runs 0 job none refl))
        (relocks 0 none refl) in
    let r₁₀ =
      next s₉ s₁₀ (next s₈ s₉ (next s₇ s₈ r₇ (removes 0 none refl)) (frees 0 none refl))
        (leaves 0 none refl) in
    next s₁₀ (all_done job) r₁₀ (lists 0 0 refl)

-- ===== src/ThreadPool/Jobs.antt =====
-- generic/thread_pool.cpp: no job is lost or done twice, a free thread has no work, and the pool does
-- not get stuck.
use my_async.Prelude.{
  ℕ, ◌+◌, ◌<◌, ◌≡◌, refl, ◌⊎◌, inl, inr, Option, none, some, List, [], ◌∷◌, get_elem?, length,
  arith, total, total-append, total-set, total-replicate, weight_at-get,
}
use my_async.ThreadPool.{
  Place, waiting, running, relocking, finished, removed, leaving, Thread, Call, idle, submitting,
  creating, given, worked, returned, ThreadPool, new_thread, work_on, look, Step, submits, looks,
  creates, gives, lists, takes, runs, relocks, removes, frees, leaves, Reachable, initial, next,
}
use my_async.ThreadPool.Owners.{
  points_to, has_task, works, busy, one, IsOwned, busy_once, given_idle, Reachable-IsOwned,
}

module _ {Job : Type 0} (f : Job → ℕ) where
  -- The weight of the jobs that a call or a thread has.
  abbrev pub call_job : Call Job → ℕ
  call_job (submitting job) = f job
  call_job (creating job) = f job
  call_job (given i job) = f job
  call_job _ = 0

  abbrev pub task_job : Option Job → ℕ
  task_job none = 0
  task_job (some job) = f job

  abbrev pub place_job : Place Job → ℕ
  place_job (running job) = f job
  place_job _ = 0

  abbrev pub thread_job : Thread Job → ℕ
  thread_job t = task_job t.task + place_job t.place

  -- The weight of the jobs that are waiting or being done.
  abbrev pub pending : ThreadPool Job → ℕ
  pending s = total call_job s.calls + total thread_job s.threads

  abbrev Kept : ThreadPool Job → Type 0
  Kept s = total f s.submitted ≡ total f s.done + pending s

  no_task : (o : Option Job) → has_task o ≡ 0 → task_job o ≡ 0
  no_task none h = refl
  no_task (some job) h = absurd (omega (arith, h))

  look-job : (job : Job) (free : List ℕ) → call_job (look job free).0 ≡ f job
  look-job job [] = refl
  look-job job (i ∷ free) = refl

  Step-Kept : {s s' : ThreadPool Job} → Step s s' → IsOwned s → Kept s → Kept s'
  Step-Kept {s} (submits c job (inl e)) v k =
      omega (arith, k, total-set call_job s.calls c idle (submitting job) e)
  Step-Kept {s} (submits c job (inr (i, e))) v k =
      omega (arith, k, total-set call_job s.calls c (returned i) (submitting job) e)
  Step-Kept {s} (looks c job e) v k = omega (
    arith,
    k,
    total-set call_job s.calls c (submitting job) (look job s.free_threads).0 e,
    look-job job s.free_threads,
  )
  Step-Kept {s} (creates c job e) v k = omega (
    arith,
    k,
    total-set call_job s.calls c (creating job) (given (length s.threads) job) e,
    total-append thread_job s.threads (new_thread ∷ []),
  )
  Step-Kept {s} (gives c i job t e h u) v k = omega (
    arith,
    k,
    no_task t.task (omega (arith, given_idle s c i job t v e h)),
    total-set call_job s.calls c (given i job) (worked i) e,
    total-set thread_job s.threads i t (work_on job t) h,
  )
  Step-Kept {s} (lists c i e) v k =
      omega (arith, k, total-set call_job s.calls c (worked i) (returned i) e)
  Step-Kept {s} (takes i job h) v k =
      let t' : Thread Job = record { task = none; place = running job } in
      omega (arith, k, total-set thread_job s.threads i _ t' h)
  Step-Kept {s} (runs i job task h) v k =
      let t' : Thread Job = record { task = task; place = relocking } in
      omega (arith, k, total-set thread_job s.threads i _ t' h)
  Step-Kept {s} (relocks i task h) v k =
      let t' : Thread Job = record { task = none; place = finished } in
      omega (
        arith,
        k,
        no_task task (omega (arith, busy_once s i _ v h)),
        total-set thread_job s.threads i _ t' h,
      )
  Step-Kept {s} (removes i task h) v k =
      let t' : Thread Job = record { task = task; place = removed } in
      omega (arith, k, total-set thread_job s.threads i _ t' h)
  Step-Kept {s} (frees i task h) v k =
      let t' : Thread Job = record { task = task; place = leaving } in
      omega (arith, k, total-set thread_job s.threads i _ t' h)
  Step-Kept {s} (leaves i task h) v k =
      let t' : Thread Job = record { task = task; place = waiting } in
      omega (arith, k, total-set thread_job s.threads i _ t' h)

-- However the steps of the n callers of submitJob and of the threads of a pool interleave, no job
-- is lost and none is done twice: for every way to weigh jobs, what has been submitted weighs as
-- much as what has been done and what calls and threads have together.
pub no_job_lost :
    {Job : Type 0} (n : ℕ) (s : ThreadPool Job) (f : Job → ℕ)
    → Reachable n s
    → total f s.submitted ≡ total f s.done + pending f s
no_job_lost n s f initial = omega (arith, total-replicate (call_job f) n idle refl)
no_job_lost n s f (next s₀ _ r t) = Step-Kept f t (Reachable-IsOwned r) (no_job_lost n s₀ f r)

without_task : {Job : Type 0} (o : Option Job) → has_task o ≡ 0 → o ≡ none
without_task none h = refl
without_task (some job) h = absurd (omega (arith, h))

at_rest : {Job : Type 0} (p : Place Job) → works p ≡ 0 → (p ≡ waiting) ⊎ (p ≡ leaving)
at_rest waiting h = inl refl
at_rest leaving h = inr refl
at_rest (running job) h = absurd (omega (arith, h))
at_rest relocking h = absurd (omega (arith, h))
at_rest finished h = absurd (omega (arith, h))
at_rest removed h = absurd (omega (arith, h))

-- A thread among the free ones stands there once, has no job, and is at the end of its loop or in
-- the wait.
free_thread :
    {Job : Type 0} (n : ℕ) (s : ThreadPool Job) (i : ℕ) (t : Thread Job)
    → Reachable n s
    → get_elem? s.threads i ≡ some t
    → 0 < total (points_to i) s.free_threads
    → (total (points_to i) s.free_threads ≡ 1)
      × (t.task ≡ none)
      × ((t.place ≡ waiting) ⊎ (t.place ≡ leaving))
free_thread n s i t r h free =
    let v = Reachable-IsOwned r i in
    let b = weight_at-get busy s.threads i t h in
    let o = weight_at-get one s.threads i t h in
    (
      omega (arith, v, b, o),
      without_task t.task (omega (arith, v, b, o)),
      at_rest t.place (omega (arith, v, b, o)),
    )

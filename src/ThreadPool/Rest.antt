-- ===== src/ThreadPool/Rest.antt =====
-- generic/thread_pool.cpp: the pool comes to rest without new calls, and what it has done then.
use my_async.Prelude.{
  ℕ, ◌+◌, ◌≤◌, ◌<◌, ◌≡◌, refl, ap, ◌∙◌, subst, inl, inr, Bool, true, false, Option, none, some,
  List, [], ◌∷◌, get_elem?, length, arith, same_self, total, weight_at, total-append, total-set,
  total-get, weight_at-pos, find, ◌==◌, Bool-cases,
}
use my_async.ThreadPool.{
  Place, waiting, running, relocking, finished, removed, leaving, Thread, Call, idle, submitting,
  creating, given, worked, returned, ThreadPool, new_thread, work_on, look, Step, submits, looks,
  creates, gives, lists, takes, runs, relocks, removes, frees, leaves, Reachable,
}
use my_async.ThreadPool.Owners.{held, one, IsOwned, Reachable-IsOwned}
use my_async.ThreadPool.Jobs.{call_job, thread_job, no_job_lost}

-- A step that is not a new call of submitJob.
abbrev pub is_work : {Job : Type 0} {s s' : ThreadPool Job} → Step s s' → Bool
is_work (submits c job e) = false
is_work _ = true

-- A bound on the steps that are left.
abbrev pub call_rank : {Job : Type 0} → Call Job → ℕ
call_rank idle = 0
call_rank (submitting job) = 12
call_rank (creating job) = 11
call_rank (given i job) = 10
call_rank (worked i) = 1
call_rank (returned i) = 0

abbrev pub task_rank : {Job : Type 0} → Option Job → ℕ
task_rank none = 0
task_rank (some job) = 6

abbrev pub place_rank : {Job : Type 0} → Place Job → ℕ
place_rank waiting = 0
place_rank (running job) = 5
place_rank relocking = 4
place_rank finished = 3
place_rank removed = 2
place_rank leaving = 1

abbrev pub thread_rank : {Job : Type 0} → Thread Job → ℕ
thread_rank t = task_rank t.task + place_rank t.place

abbrev pub rank : {Job : Type 0} → ThreadPool Job → ℕ
rank s = total call_rank s.calls + total thread_rank s.threads

look-rank : {Job : Type 0} (job : Job) (free : List ℕ) → call_rank (look job free).0 ≤ 11
look-rank job [] = omega arith
look-rank job (i ∷ free) = omega arith

-- Every step of the callers or the threads of a pool that is not a new call of submitJob makes
-- the rank of the state smaller: without new calls the pool comes to rest.
pub work_terminates :
    {Job : Type 0} (s s' : ThreadPool Job) (t : Step s s') → is_work t ≡ true → rank s' < rank s
work_terminates s s' (submits c job e) w = absurd (false_ne_true w)
  where
    false_ne_true : false ≡ true → ⊥
    false_ne_true e = cc
work_terminates s s' (looks c job e) w = omega (
  arith,
  total-set call_rank s.calls c (submitting job) (look job s.free_threads).0 e,
  look-rank job s.free_threads,
)
work_terminates s s' (creates c job e) w = omega (
  arith,
  total-set call_rank s.calls c (creating job) (given (length s.threads) job) e,
  total-append thread_rank s.threads (new_thread ∷ []),
)
work_terminates s s' (gives c i job t e h u) w = omega (
  arith,
  total-set call_rank s.calls c (given i job) (worked i) e,
  total-set thread_rank s.threads i t (work_on job t) h,
)
work_terminates s s' (lists c i e) w =
    omega (arith, total-set call_rank s.calls c (worked i) (returned i) e)
work_terminates s s' (takes i job h) w =
    omega
      (arith, total-set thread_rank s.threads i _ (record { task = none; place = running job }) h)
work_terminates s s' (runs i job task h) w =
    omega (arith, total-set thread_rank s.threads i _ (record { task = task; place = relocking }) h)
work_terminates s s' (relocks i task h) w =
    omega (arith, total-set thread_rank s.threads i _ (record { task = none; place = finished }) h)
work_terminates s s' (removes i task h) w =
    omega (arith, total-set thread_rank s.threads i _ (record { task = task; place = removed }) h)
work_terminates s s' (frees i task h) w =
    omega (arith, total-set thread_rank s.threads i _ (record { task = task; place = leaving }) h)
work_terminates s s' (leaves i task h) w =
    omega (arith, total-set thread_rank s.threads i _ (record { task = task; place = waiting }) h)

-- A pool at rest: no step is left but a new call.
abbrev pub AtRest : {Job : Type 0} → ThreadPool Job → Type 0
AtRest {Job} s = (s' : ThreadPool Job) (t : Step s s') → is_work t ≡ true → ⊥

module _ {Job : Type 0} {s : ThreadPool Job} (rest : AtRest s) where
  -- A thread that has work would take a step.
  place_at_rest :
      (i : ℕ) (task : Option Job) (place : Place Job)
      → get_elem? s.threads i ≡ some (record { task = task; place = place })
      → record { task = task; place = place } ≡ new_thread
  place_at_rest i none waiting h = refl
  place_at_rest i (some job) waiting h = absurd (rest _ (takes i job h) refl)
  place_at_rest i task (running job) h = absurd (rest _ (runs i job task h) refl)
  place_at_rest i task relocking h = absurd (rest _ (relocks i task h) refl)
  place_at_rest i task finished h = absurd (rest _ (removes i task h) refl)
  place_at_rest i task removed h = absurd (rest _ (frees i task h) refl)
  place_at_rest i task leaving h = absurd (rest _ (leaves i task h) refl)

  thread_at_rest : (i : ℕ) (t : Thread Job) → get_elem? s.threads i ≡ some t → t ≡ new_thread
  thread_at_rest i t h = place_at_rest i t.task t.place h

  threads_pending : (f : Job → ℕ) → total (thread_job f) s.threads ≡ 0
  threads_pending f = elim (Bool-cases (total (thread_job f) s.threads == 0)) [
    | inl z ↦ ground arith
    | inr nz ↦
        let some_job : 0 < total (thread_job f) s.threads = ground arith in
        let (i, t, h, pos) = find (thread_job f) s.threads some_job in
        absurd (omega (arith, subst (λ u. 0 < thread_job f u) (thread_at_rest i t h) pos))
  ]

  module _ (owned : IsOwned s) where
    call_at_rest :
        (f : Job → ℕ) (c : ℕ) (call : Call Job)
        → get_elem? s.calls c ≡ some call
        → call_job f call ≡ 0
    call_at_rest f c idle e = refl
    call_at_rest f c (submitting job) e = absurd (rest _ (looks c job e) refl)
    call_at_rest f c (creating job) e = absurd (rest _ (creates c job e) refl)
    call_at_rest f c (given i job) e =
        let here : 0 < weight_at one s.threads i =
          omega (arith, owned i, total-get (held i) s.calls c (given i job) e, same_self i) in
        let (t, h) = weight_at-pos one s.threads i here in
        absurd (rest _ (gives c i job new_thread e (h ∙ ap some (thread_at_rest i t h)) refl) refl)
    call_at_rest f c (worked i) e = refl
    call_at_rest f c (returned i) e = refl

    calls_pending : (f : Job → ℕ) → total (call_job f) s.calls ≡ 0
    calls_pending f = elim (Bool-cases (total (call_job f) s.calls == 0)) [
      | inl z ↦ ground arith
      | inr nz ↦
          let some_job : 0 < total (call_job f) s.calls = ground arith in
          let (c, call, e, pos) = find (call_job f) s.calls some_job in
          absurd (omega (arith, pos, call_at_rest f c call e))
    ]

-- In every reachable state of a pool in which no step but a new call of submitJob is possible,
-- every job that has been submitted has been done: with any way to weigh jobs both weigh the
-- same.
pub AtRest-done :
    {Job : Type 0} (n : ℕ) (s : ThreadPool Job) (f : Job → ℕ)
    → Reachable n s
    → AtRest s
    → total f s.done ≡ total f s.submitted
AtRest-done n s f r rest =
    let calls = calls_pending rest (Reachable-IsOwned r) f in
    let threads = threads_pending rest f in omega (arith, no_job_lost n s f r, calls, threads)

-- ===== src/ThreadPool/Owners.antt =====
-- generic/thread_pool.cpp: a thread of the pool is a free one, or has been given to one call, or works
-- on one job.
use my_async.Prelude.{
  ℕ, ◌+◌, ◌*◌, ◌≤◌, ◌≡◌, refl, subst, inl, inr, Option, none, some, List, [], ◌∷◌, get_elem?, set,
  length, arith, same, same_self, total, weight_at, total-append, total-set, total-replicate,
  total-get, weight_at-get, weight_at-set, weight_at-append_one,
}
use my_async.ThreadPool.{
  Place, waiting, running, relocking, finished, removed, leaving, Thread, Call, idle, submitting,
  creating, given, worked, returned, ThreadPool, new_thread, work_on, look, Step, submits, looks,
  creates, gives, lists, takes, runs, relocks, removes, frees, leaves, Reachable, initial, next,
}

-- The claims on thread `j`: its entries among the free ones, a call that it has been given to, and
-- the work that it has.
abbrev pub points_to : ℕ → ℕ → ℕ
points_to j i = same i j

module _ {Job : Type 0} where
  abbrev pub held : ℕ → Call Job → ℕ
  held j (given i job) = same i j
  held j _ = 0

  abbrev pub has_task : Option Job → ℕ
  has_task none = 0
  has_task (some job) = 1

  abbrev pub works : Place Job → ℕ
  works waiting = 0
  works (running job) = 1
  works relocking = 1
  works finished = 1
  works removed = 1
  works leaving = 0

  abbrev pub busy : Thread Job → ℕ
  busy t = has_task t.task + works t.place

  abbrev pub one : Thread Job → ℕ
  one t = 1

  abbrev pub IsOwned : ThreadPool Job → Type 0
  IsOwned s =
      (j : ℕ)
      → total (points_to j) s.free_threads + total (held j) s.calls + weight_at busy s.threads j
        ≡ weight_at one s.threads j

  -- A thread has at most one piece of work, and none while a call holds it.
  pub busy_once :
      (s : ThreadPool Job) (i : ℕ) (t : Thread Job)
      → IsOwned s
      → get_elem? s.threads i ≡ some t
      → busy t ≤ 1
  busy_once s i t v h =
      omega (arith, v i, weight_at-get busy s.threads i t h, weight_at-get one s.threads i t h)

  pub given_idle :
      (s : ThreadPool Job) (c i : ℕ) (job : Job) (t : Thread Job)
      → IsOwned s
      → get_elem? s.calls c ≡ some (given i job)
      → get_elem? s.threads i ≡ some t
      → busy t ≡ 0
  given_idle s c i job t v e h = omega (
    arith,
    v i,
    weight_at-get busy s.threads i t h,
    weight_at-get one s.threads i t h,
    total-get (held i) s.calls c (given i job) e,
    same_self i,
  )

  busy-set :
      (ts : List (Thread Job)) (i : ℕ) (t t' : Thread Job) (m n j : ℕ)
      → get_elem? ts i ≡ some t
      → busy t ≡ m
      → busy t' ≡ n
      → (weight_at busy (set ts i t') j + m * same i j ≡ weight_at busy ts j + n * same i j)
        × (weight_at one (set ts i t') j ≡ weight_at one ts j)
  busy-set ts i t t' m n j h e e' = (
    subst (λ k. weight_at busy (set ts i t') j + k * same i j ≡ weight_at busy ts j + n * same i j)
        e
        (subst
          (λ k.
            weight_at busy (set ts i t') j + busy t * same i j ≡ weight_at busy ts j + k * same i j)
          e' (weight_at-set busy ts i t t' j h)),
    omega (arith, weight_at-set one ts i t t' j h),
  )

  busy-keeps :
      (ts : List (Thread Job)) (i : ℕ) (t t' : Thread Job) (j : ℕ)
      → get_elem? ts i ≡ some t
      → busy t' ≡ busy t
      → (weight_at busy (set ts i t') j ≡ weight_at busy ts j)
        × (weight_at one (set ts i t') j ≡ weight_at one ts j)
  busy-keeps ts i t t' j h e =
      let (b, o) = busy-set ts i t t' (busy t) (busy t) j h refl e in (omega (arith, b), o)

  look_owned :
      (job : Job) (free : List ℕ) (j : ℕ)
      → total (points_to j) (look job free).1 + held j (look job free).0 ≡ total (points_to j) free
  look_owned job [] j = refl
  look_owned job (i ∷ free) j = omega arith

  Step-IsOwned : {s s' : ThreadPool Job} → Step s s' → IsOwned s → IsOwned s'
  Step-IsOwned {s} (submits c job (inl e)) v j =
      omega (arith, v j, total-set (held j) s.calls c idle (submitting job) e)
  Step-IsOwned {s} (submits c job (inr (i, e))) v j =
      omega (arith, v j, total-set (held j) s.calls c (returned i) (submitting job) e)
  Step-IsOwned {s} (looks c job e) v j = omega (
    arith,
    v j,
    total-set (held j) s.calls c (submitting job) (look job s.free_threads).0 e,
    look_owned job s.free_threads j,
  )
  Step-IsOwned {s} (creates c job e) v j = omega (
    arith,
    v j,
    total-set (held j) s.calls c (creating job) (given (length s.threads) job) e,
    weight_at-append_one busy s.threads new_thread j,
    weight_at-append_one one s.threads new_thread j,
  )
  Step-IsOwned {s} (gives c i job t e h u) v j =
      let b = given_idle s c i job t v e h in
      let w = busy-set s.threads i t (work_on job t) 0 1 j h b (omega (arith, b)) in
      omega (arith, v j, total-set (held j) s.calls c (given i job) (worked i) e, w.0, w.1)
  Step-IsOwned {s} (lists c i e) v j =
      omega (arith, v j, total-set (held j) s.calls c (worked i) (returned i) e)
  Step-IsOwned {s} (takes i job h) v j =
      let w = busy-keeps s.threads i _ (record { task = none; place = running job }) j h refl in
      omega (arith, v j, w.0, w.1)
  Step-IsOwned {s} (runs i job task h) v j =
      let w = busy-keeps s.threads i _ (record { task = task; place = relocking }) j h refl in
      omega (arith, v j, w.0, w.1)
  Step-IsOwned {s} (relocks i task h) v j =
      let b = busy_once s i _ v h in
      let w =
        busy-keeps s.threads i _ (record { task = none; place = finished }) j h
          (omega (arith, b)) in
      omega (arith, v j, w.0, w.1)
  Step-IsOwned {s} (removes i task h) v j =
      let w = busy-keeps s.threads i _ (record { task = task; place = removed }) j h refl in
      omega (arith, v j, w.0, w.1)
  Step-IsOwned {s} (frees i task h) v j =
      let b = busy_once s i _ v h in
      let w =
        busy-set s.threads i _ (record { task = task; place = leaving }) 1 0 j h (omega (arith, b))
          (omega (arith, b)) in
      omega (arith, v j, w.0, w.1, total-append (points_to j) s.free_threads (i ∷ []))
  Step-IsOwned {s} (leaves i task h) v j =
      let w = busy-keeps s.threads i _ (record { task = task; place = waiting }) j h refl in
      omega (arith, v j, w.0, w.1)

  pub Reachable-IsOwned : {n : ℕ} {s : ThreadPool Job} → Reachable n s → IsOwned s
  Reachable-IsOwned {n} initial = λ j. omega (arith, total-replicate (held j) n idle refl)
  Reachable-IsOwned (next s s' r t) = Step-IsOwned t (Reachable-IsOwned r)

-- ===== src/ThreadPool/Tests.antt =====
-- generic/thread_pool.cpp: the theorems at a pool of one thread that has done one job.
use my_async.Prelude.{ℕ, zero, suc, ◌+◌, ◌<◌, ◌≡◌, refl, none, some, [], ◌∷◌, get_elem?, total, ap}
use my_async.ThreadPool.{
  Thread, returned, new_thread, new_pool, submit, look_for_thread, submits, looks, creates, gives,
  lists, takes, runs, relocks, removes, frees, leaves, Reachable,
}
use my_async.ThreadPool.Jobs.{pending, no_job_lost}
use my_async.ThreadPool.Rest.{rank, work_terminates, AtRest, AtRest-done}
use my_async.ThreadPool.Working.{all_done, working-stale}

-- A job, and a thread with none.
abbrev job_seven : ℕ
job_seven = 7

abbrev spare : Thread ℕ
spare = new_thread

only : {A : Type 0} (x y : A) (i : ℕ) → get_elem? (x ∷ []) i ≡ some y → x ≡ y
only x y zero e = some_injective e
  where
    some_injective : some x ≡ some y → x ≡ y
    some_injective e = cc
only x y (suc i) e = absurd (none_ne_some e)
  where
    none_ne_some : none ≡ some y → ⊥
    none_ne_some e = cc

all_done-AtRest : AtRest (all_done job_seven)
all_done-AtRest s' (submits c job e) w = cc
all_done-AtRest s' (looks c job e) w = let z = only (returned 0) _ c e in cc
all_done-AtRest s' (creates c job e) w = let z = only (returned 0) _ c e in cc
all_done-AtRest s' (gives c i job t e h u) w = let z = only (returned 0) _ c e in cc
all_done-AtRest s' (lists c i e) w = let z = only (returned 0) _ c e in cc
all_done-AtRest s' (takes i job h) w =
    let z = ap (λ (t : Thread ℕ). t.task) (only new_thread _ i h) in cc
all_done-AtRest s' (runs i job task h) w =
    let z = ap (λ (t : Thread ℕ). t.place) (only new_thread _ i h) in cc
all_done-AtRest s' (relocks i task h) w =
    let z = ap (λ (t : Thread ℕ). t.place) (only new_thread _ i h) in cc
all_done-AtRest s' (removes i task h) w =
    let z = ap (λ (t : Thread ℕ). t.place) (only new_thread _ i h) in cc
all_done-AtRest s' (frees i task h) w =
    let z = ap (λ (t : Thread ℕ). t.place) (only new_thread _ i h) in cc
all_done-AtRest s' (leaves i task h) w =
    let z = ap (λ (t : Thread ℕ). t.place) (only new_thread _ i h) in cc

no_job_lost_example :
    total (λ k. k) (7 ∷ []) ≡ total (λ k. k) (7 ∷ []) + pending (λ k. k) (all_done job_seven)
no_job_lost_example = no_job_lost 1 (all_done job_seven) (λ k. k) (working-stale job_seven)

work_terminates_example :
    rank (look_for_thread 0 job_seven (submit 0 job_seven (new_pool 1)))
    < rank (submit 0 job_seven (new_pool 1))
work_terminates_example =
    work_terminates (submit 0 job_seven (new_pool 1))
      (look_for_thread 0 job_seven (submit 0 job_seven (new_pool 1))) (looks 0 job_seven refl) refl

AtRest-done_example : total (λ k. k) (7 ∷ []) ≡ total (λ k. k) (7 ∷ [])
AtRest-done_example =
    AtRest-done 1 (all_done job_seven) (λ k. k) (working-stale job_seven) all_done-AtRest

working-stale_example : Reachable 1 (all_done job_seven)
working-stale_example = working-stale job_seven

-- ===== src/Timers/Tests.antt =====
-- generic/generic_io.cpp: runs of the timer queue, and its theorems at small queues.
use my_async.Prelude.{ℕ, refl, true, false, inl, none, some, [], ◌∷◌, arith, if◌then◌else◌, ◌==◌}
use my_async.Timers.{GenericIoContext, await_suspend, do_cancel, run_duration}
use my_async.Timers.Running.{IsRunning}
use my_async.Timers.Due.{Quiet, Ran, run_duration-Ran}
use my_async.Timers.Start.{Started, await_suspend-Started, Cancelled, do_cancel-Cancelled}
use my_async.RbTree.Heap.{left, right, red, black}
use my_async.RbTree.Tree.{Tree, leaf, node}

-- Two timers, 1 and 2, that expire at 10 and 20.
abbrev two : GenericIoContext
two = record {
  timers = record {
    child = λ d i. if i == 1 then elim d [ left ↦ none | right ↦ some 2 ] else none;
    parent = λ i. if i == 1 then none else some 1;
    color = λ i. if i == 1 then black else red;
    owned = λ i. true;
    root = some 1;
  };
  expires = λ i. if i == 1 then 10 else 20;
  cancelled = λ i. false;
  resumed = [];
}

abbrev two_tree : Tree
two_tree = node black leaf 1 (node red leaf 2 leaf)

two-IsRunning : IsRunning two two_tree
two-IsRunning = record {
  links = record {
    here = (refl, refl, refl, refl, tt, (refl, refl, refl, refl, tt, tt));
    link = refl;
    around = tt;
    apart = λ i. ground arith;
  };
  black_root = refl;
  owned = λ i p. refl;
  sorted = ((refl, tt), (tt, tt));
}

abbrev nothing : ℕ → GenericIoContext → GenericIoContext
nothing i s = s

nothing-Quiet : Quiet nothing
nothing-Quiet = record { timers = λ i s. refl; expires = λ i s. refl; resumed = λ i s. refl }

run_duration-Ran_example :
    Ran (run_duration nothing 3 (15 ∷ (16 ∷ [])) two) (15 ∷ (16 ∷ [])) two two_tree
run_duration-Ran_example =
    run_duration-Ran nothing nothing-Quiet 3 (15 ∷ (16 ∷ [])) two two_tree two-IsRunning
      (omega arith) (omega arith)

await_suspend-Started_example : Started (await_suspend 3 5 15 two) 5 15 two two_tree
await_suspend-Started_example =
    await_suspend-Started 3 5 15 two two_tree two-IsRunning refl (omega arith)

do_cancel-Cancelled_example : Cancelled (do_cancel 3 1 two) 1 two two_tree
do_cancel-Cancelled_example =
    do_cancel-Cancelled 3 1 two two_tree two-IsRunning (omega arith) (inl refl) (omega arith)

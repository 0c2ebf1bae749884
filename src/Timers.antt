-- ===== src/Timers.antt =====
-- generic/generic_io.hpp, generic/generic_io.cpp, generic/timeout.hpp: the timers of an event loop, in a
-- RbTree in the order of their expiry. What a coroutine does when it is resumed is a parameter.
pub mod Running
pub mod Due
pub mod Start
mod Tests
use my_async.Prelude.{
  ℕ, ◌-◌, Bool, true, false, Option, none, some, List, [], ◌∷◌, ◌++◌, ltb, leb, if◌then◌else◌,
}
use my_async.Expected.{Expected, value, error, make_error_code, operation_canceled}
use my_async.RbTree.{do_insert, get_front, empty}
use my_async.RbTree.Erase.{erase_from_parent}
use my_async.RbTree.Heap.{Nodes, follow, update}

-- The timers are known by the addresses of their promises. `resumed` records the calls of `resume`.
pub record GenericIoContext : Type 0 where
  pub timers : Nodes
  pub expires : ℕ → ℕ
  pub cancelled : ℕ → Bool
  pub resumed : List ℕ

-- `TimerNode::operator<`.
abbrev pub earlier : (ℕ → ℕ) → ℕ → ℕ → Bool
earlier expires a b = ltb (expires a) (expires b)

abbrev pub set_timers : Nodes → GenericIoContext → GenericIoContext
set_timers h s = record s { timers = h }

unfoldable pub enqueue_timer_node : ℕ → ℕ → GenericIoContext → Option GenericIoContext
enqueue_timer_node fuel timer s =
    follow (do_insert (earlier s.expires) fuel timer s.timers) (λ h. some (set_timers h s))

-- `Awaiter::await_suspend` of a timer that expires at `time`.
unfoldable pub await_suspend : ℕ → ℕ → ℕ → GenericIoContext → Option GenericIoContext
unfolding enqueue_timer_node
await_suspend fuel timer time s =
    enqueue_timer_node fuel timer (record s { expires = update s.expires timer time })

unfoldable pub await_resume : ℕ → GenericIoContext → Expected (Unit {0})
await_resume timer s =
    if s.cancelled timer then error (make_error_code operation_canceled) else value tt

unfoldable pub do_cancel : ℕ → ℕ → GenericIoContext → Option GenericIoContext
do_cancel fuel timer s =
    follow (erase_from_parent fuel timer s.timers)
      λ h. some (set_timers h (record s { cancelled = update s.cancelled timer true }))

-- `resume` of the coroutine of a timer.
abbrev pub record_resume : ℕ → GenericIoContext → GenericIoContext
record_resume timer s = record s { resumed = s.resumed ++ (timer ∷ []) }

module _ (resume : ℕ → GenericIoContext → GenericIoContext) where
  -- The callback that `co_sleep` registers.
  unfoldable pub cancel_sleep : ℕ → ℕ → GenericIoContext → Option GenericIoContext
  unfolding do_cancel
  cancel_sleep fuel timer s =
      follow (do_cancel fuel timer s) (λ s'. some (resume timer (record_resume timer s')))

  -- A timer that has expired.
  unfoldable pub fire : ℕ → ℕ → GenericIoContext → Option GenericIoContext
  fire fuel timer s₀ =
      let s = record s₀ { cancelled = update s₀.cancelled timer false } in
      follow (erase_from_parent fuel timer s.timers)
        λ h. some (resume timer (record_resume timer (set_timers h s)))

  -- `runDuration` with the readings of the clock, one for each round that finds a timer. `none` is
  -- an undefined step, or a lack of readings.
  unfoldable pub run_duration : ℕ → List ℕ → GenericIoContext → Option (Option ℕ × GenericIoContext)
  run_duration fuel [] s = if empty s.timers then some (none, s) else none
  run_duration fuel (now ∷ later) s =
      if empty s.timers
      then some (none, s)
      else follow (get_front fuel s.timers) λ timer.
        if leb (s.expires timer) now
        then follow (fire fuel timer s) (run_duration fuel later)
        else some (some (s.expires timer - now), s)

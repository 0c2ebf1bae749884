-- ===== src/Cancel.antt =====
-- generic/cancel.hpp: the source of a cancellation, its tokens and the cancellers that are
-- registered with it.
pub mod Order
mod Tests
use mathlib.Core.Option
use my_async.Prelude.{ℕ, Bool, true, false, Option, none, some, List, [], ◌∷◌, if◌then◌else◌}
use my_async.Expected.{Expected, value, operation_canceled, of_errc}
use my_async.ListHead.{Links, follow, new_list, do_push_front, do_empty, do_clear}
use my_async.ListHead.Walk.{for_each}

-- `mCancellers` holds the cancellers' addresses. `std::make_unique` sets `mCanceled` to false.
pub record CancelSourceImpl : Type 0 where
  pub cancellers : Links
  pub canceled : Bool

unfoldable pub new_source : CancelSourceImpl
new_source = record { cancellers = new_list; canceled = false }

unfoldable pub do_register : ℕ → CancelSourceImpl → Option CancelSourceImpl
do_register canceller c =
    Option.map (λ links. record c { cancellers = links }) (do_push_front canceller c.cancellers)

-- `doCancel` gives the cancellers whose `doCancel` it called, in order. They leave this source as it
-- is. The loops over the list run on `fuel`.
unfoldable pub do_cancel : ℕ → CancelSourceImpl → Option (List ℕ × CancelSourceImpl)
do_cancel fuel c =
    if c.canceled
    then some ([], c)
    else if do_empty c.cancellers
    then some ([], record c { canceled = true })
    else elim (for_each fuel c.cancellers) [
      | none ↦ none
      | some called ↦
          Option.map (λ links. (called, record { cancellers = links; canceled = true }))
            (do_clear fuel c.cancellers)
    ]

-- A CancelToken is a pointer to its source, or null.
abbrev pub CancelToken : Type 0
CancelToken = Option CancelSourceImpl

pub is_cancel_possible : CancelToken → Bool
is_cancel_possible none = false
is_cancel_possible (some c) = true

unfoldable pub is_canceled : CancelToken → Bool
is_canceled none = false
is_canceled (some c) = c.canceled

abbrev pub canceled_error : Bool → Expected (Unit {0})
canceled_error true = of_errc operation_canceled
canceled_error false = value tt

-- `as_expect` follows the pointer without a test.
unfoldable pub as_expect : CancelToken → Option (Expected (Unit {0}))
as_expect none = none
as_expect (some c) = some (canceled_error c.canceled)

-- `operator()`, the check that `co_await token` makes.
unfoldable pub check_token : CancelToken → Expected (Unit {0})
unfolding is_canceled
check_token t = canceled_error (is_canceled t)

-- Registrations one after the other.
unfoldable pub register_all : List ℕ → CancelSourceImpl → Option CancelSourceImpl
register_all [] c = some c
register_all (x ∷ xs) c = elim (do_register x c) [ none ↦ none | some c' ↦ register_all xs c' ]

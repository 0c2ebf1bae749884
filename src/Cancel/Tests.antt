-- ===== src/Cancel/Tests.antt =====
-- A source of generic/cancel.hpp with three cancellers.
use my_async.Prelude.{◌≡◌, some, [], ◌∷◌, arith}
use my_async.Cancel.{CancelSourceImpl, new_source, register_all}
use my_async.Cancel.Order.{Canceled, register_all-Canceled}

register_all-Canceled_example :
    (c : CancelSourceImpl) × (register_all (4 ∷ 5 ∷ 6 ∷ []) new_source ≡ some c)
    × Canceled 4 c (6 ∷ 5 ∷ [])
register_all-Canceled_example =
    register_all-Canceled 4 4 (5 ∷ 6 ∷ [])
      (
        (omega arith, (omega arith, (omega arith, tt))),
        ((omega arith, (omega arith, tt)), ((omega arith, tt), (tt, tt))),
      )
      (omega arith)

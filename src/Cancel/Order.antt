-- ===== src/Cancel/Order.antt =====
-- generic/cancel.hpp: which cancellers `doCancel` calls, and in which order.
use my_async.Prelude.{
  ℕ, ◌+◌, ◌<◌, ◌≡◌, refl, sym, true, false, some, List, [], ◌∷◌, ◌++◌, length, length-append, arith,
  subst,
}
use my_async.ListHead.Ring.{IsRing, IsFresh, Distinct}
use my_async.ListHead.Insert.{do_push_front-IsRing}
use my_async.ListHead.Walk.{do_clear-Cleared, for_each_lem, do_empty_lem, new_list-IsRing}
use my_async.Cancel.{CancelSourceImpl, new_source, do_register, do_cancel, register_all}

-- A source that has not been cancelled and holds these cancellers.
pub record Holds (c : CancelSourceImpl) (xs : List ℕ) : Type 0 where
  pub ring : IsRing c.cancellers xs
  pub active : c.canceled ≡ false

-- What a cancellation that calls `called` leaves: the source is cancelled, its list is empty, and to
-- cancel it again calls nobody and changes nothing.
pub record Canceled (fuel : ℕ) (c : CancelSourceImpl) (called : List ℕ) : Type 0 where
  pub left : CancelSourceImpl
  pub runs : do_cancel fuel c ≡ some (called, left)
  pub canceled : left.canceled ≡ true
  pub emptied : IsRing left.cancellers []
  pub again : do_cancel fuel left ≡ some ([], left)

-- `doCancel` calls the cancellers from the last registered on, but not the one that was registered
-- first.
pub do_cancel-Canceled :
    (fuel : ℕ) (c : CancelSourceImpl) (xs : List ℕ) (first : ℕ)
    → Holds c (xs ++ (first ∷ []))
    → length xs + 1 < fuel
    → Canceled fuel c xs
unfolding do_cancel
do_cancel-Canceled fuel c xs first held enough =
    let (links, e, done) =
      do_clear-Cleared fuel c.cancellers (xs ++ (first ∷ [])) held.ring
        (omega (arith, length-append xs (first ∷ []))) in
    let visited = for_each_lem c.cancellers fuel xs first held.ring enough in
    let some_left = do_empty_lem c.cancellers (xs ++ (first ∷ [])) held.ring in
    record {
      left = record { cancellers = links; canceled = true };
      runs = rw held.active (rw some_left (rw (visited, do_cancel) (rw e refl)));
      canceled = refl;
      emptied = done.ring;
      again = refl;
    }

-- The list after these registrations, the newest in front.
abbrev pub newest_first : List ℕ → List ℕ → List ℕ
newest_first [] ys = ys
newest_first (x ∷ xs) ys = newest_first xs (x ∷ ys)

newest_first-append :
    (xs ys : List ℕ) (first : ℕ)
    → newest_first xs (ys ++ (first ∷ [])) ≡ newest_first xs ys ++ (first ∷ [])
newest_first-append [] ys first = refl
newest_first-append (x ∷ xs) ys first = newest_first-append xs (x ∷ ys) first

newest_first-Distinct : (xs ys : List ℕ) → Distinct (newest_first xs ys) → Distinct ys
newest_first-Distinct [] ys d = d
newest_first-Distinct (x ∷ xs) ys d = (newest_first-Distinct xs (x ∷ ys) d).1

newest_first-IsFresh : (n : ℕ) (xs ys : List ℕ) → IsFresh n (newest_first xs ys) → IsFresh n ys
newest_first-IsFresh n [] ys h = h
newest_first-IsFresh n (x ∷ xs) ys h = (newest_first-IsFresh n xs (x ∷ ys) h).1

-- Each registration puts its canceller in front.
pub register_all-Holds :
    (xs ys : List ℕ) (c : CancelSourceImpl)
    → Holds c ys
    → Distinct (0 ∷ newest_first xs ys)
    → (c' : CancelSourceImpl) × (register_all xs c ≡ some c') × Holds c' (newest_first xs ys)
unfolding register_all do_register
register_all-Holds [] ys c held d = (c, refl, held)
register_all-Holds (x ∷ xs) ys c held d =
    let fresh = newest_first-Distinct xs (x ∷ ys) d.1 in
    let nonzero = (newest_first-IsFresh 0 xs (x ∷ ys) d.0).0 in
    let (links, e, ring) =
      do_push_front-IsRing c.cancellers ys x held.ring (λ h. nonzero (sym h), fresh.0) in
    let (c', e', rest) =
      register_all-Holds xs (x ∷ ys) (record c { cancellers = links })
        (record { ring = ring; active = held.active }) d in
    (c', rw (e, register_all) e', rest)

-- Of different cancellers registered with a new source, its cancellation calls all but the very
-- first, in the reverse order of their registration. The source is then cancelled, its list is
-- empty, and to cancel it again calls nobody and changes nothing.
pub register_all-Canceled :
    (fuel first : ℕ) (xs : List ℕ)
    → Distinct (0 ∷ newest_first (first ∷ xs) [])
    → length (newest_first xs []) + 1 < fuel
    → (c : CancelSourceImpl) × (register_all (first ∷ xs) new_source ≡ some c)
      × Canceled fuel c (newest_first xs [])
unfolding new_source
register_all-Canceled fuel first xs d enough =
    let (c, e, held) =
      register_all-Holds (first ∷ xs) [] new_source
        (record { ring = new_list-IsRing; active = refl }) d in
    (
      c,
      e,
      do_cancel-Canceled fuel c (newest_first xs []) first
          (subst (Holds c) (newest_first-append xs [] first) held) enough,
    )

-- ===== src/ListHead/Tests.antt =====
-- Concrete rings of utils/ilist.hpp.
use my_async.Prelude.{ℕ, ◌≡◌, refl, none, some, List, [], ◌∷◌, arith, false}
use my_async.ListHead.{Links, update, do_insert_before, do_erase, do_empty}
use my_async.ListHead.Ring.{IsRing, IsFresh}
use my_async.ListHead.Insert.{do_insert_before-IsRing}
use my_async.ListHead.Erase.{IsOut, do_erase-IsOut}
use my_async.ListHead.Walk.{do_empty_lem}

-- The list with the nodes 3, 7 and 5.
abbrev ring : Links
ring = record {
  next = update (update (update (update (λ _. none) 0 (some 3)) 3 (some 7)) 7 (some 5)) 5 (some 0);
  prev = update (update (update (update (λ _. none) 0 (some 5)) 3 (some 0)) 7 (some 3)) 5 (some 7);
}

abbrev ring-IsRing : IsRing ring (3 ∷ 7 ∷ 5 ∷ [])
unfolding update
ring-IsRing = record {
  linked = (refl, refl, (refl, refl, (refl, refl, (refl, refl))));
  distinct = (
    (omega arith, (omega arith, (omega arith, tt))),
    ((omega arith, (omega arith, tt)), ((omega arith, tt), (tt, tt))),
  );
}

abbrev nine-IsFresh : IsFresh 9 (0 ∷ 3 ∷ 7 ∷ 5 ∷ [])
nine-IsFresh = (omega arith, (omega arith, (omega arith, (omega arith, tt))))

do_insert_before-IsRing_example :
    (s' : Links) × (do_insert_before 7 9 ring ≡ some s') × IsRing s' (3 ∷ 9 ∷ 7 ∷ 5 ∷ [])
do_insert_before-IsRing_example =
    do_insert_before-IsRing ring (3 ∷ []) (5 ∷ []) 7 9 ring-IsRing nine-IsFresh

do_erase-IsOut_example : (s' : Links) × (do_erase 7 ring ≡ some s') × IsOut s' 7 (3 ∷ 5 ∷ [])
do_erase-IsOut_example = do_erase-IsOut ring (3 ∷ []) 7 (5 ∷ []) ring-IsRing

abbrev nodes : List ℕ
nodes = 3 ∷ 7 ∷ 5 ∷ []

do_empty_lem_example : do_empty ring ≡ false
do_empty_lem_example = do_empty_lem ring (3 ∷ 7 ∷ 5 ∷ []) ring-IsRing

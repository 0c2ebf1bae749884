-- ===== src/ListHead/Walk.antt =====
-- utils/ilist.hpp: the loops over a ListHead, `doClear` and a range-based for.
use my_async.Prelude.{
  ℕ, zero, suc, ◌+◌, ◌<◌, ◌≡◌, ◌≢◌, refl, sym, ◌∙◌, some, none, List, [], ◌∷◌, ◌++◌, ◌==◌, false,
  true, arith, length, if◌then◌else◌, Option,
}
use mathlib.Core.Option
use my_async.ListHead.{
  Links, follow, set_next, set_prev, unlink, do_empty, clear_from, do_clear, new_list,
  do_iter_begin, do_iter_end,
}
use my_async.ListHead.Ring.{
  update_self, update_other, IsFresh, Linked, Linked-split, Distinct, Distinct-middle, IsRing,
  Linked-set_next, Linked-set_prev,
}

-- The new list is an empty ring.
pub new_list-IsRing : IsRing new_list []
unfolding new_list
new_list-IsRing = record {
  linked = (update_self (λ _. none) 0 (some 0), update_self (λ _. none) 0 (some 0));
  distinct = (tt, tt);
}

-- `for (auto &value: list)`: the nodes that the loop visits from `current` on, up to the iterator
-- `end`; it runs on fuel, a round for each node.
unfoldable pub visits : ℕ → ℕ → ℕ → Links → Option (List ℕ)
visits zero current end s = none
visits (suc f) current end s =
    if current == end
    then some []
    else follow (s.next current) λ after. Option.map (◌∷◌ current) (visits f after end s)

unfoldable pub for_each : ℕ → Links → Option (List ℕ)
unfolding visits
for_each fuel s =
    follow (do_iter_begin s) λ begin. follow (do_iter_end s) λ end. visits fuel begin end s

module _ (s : Links) where
  visits-Linked :
      (f u : ℕ) (xs : List ℕ) (end : ℕ)
      → Linked s u xs end
      → IsFresh end (u ∷ xs)
      → length xs + 1 < f
      → visits f u end s ≡ some (u ∷ xs)
  unfolding visits
  visits-Linked zero u xs end l h fuel = absurd (omega arith)
  visits-Linked (suc (suc f)) u [] end (n, p) (h, hs) fuel =
      let going : (u == end) ≡ false = ground arith in
      let there : (end == end) ≡ true = ground arith in rw going (rw n (rw there refl))
  visits-Linked (suc zero) u [] end (n, p) (h, hs) fuel = absurd (omega arith)
  visits-Linked (suc f) u (x ∷ xs) end (n, p, l) (h, hs) fuel =
      let going : (u == end) ≡ false = ground arith in
      rw going (rw n (rw (visits-Linked f x xs end l hs (omega arith)) refl))

  -- A range-based for over a list that is not empty ends and visits all the nodes but the last
  -- one, since `end()` is the last node.
  pub for_each_lem :
      (fuel : ℕ) (xs : List ℕ) (node : ℕ)
      → IsRing s (xs ++ (node ∷ []))
      → length xs + 1 < fuel
      → for_each fuel s ≡ some xs
  unfolding for_each visits
  for_each_lem zero [] node ring enough = absurd (omega arith)
  for_each_lem (suc f) [] node ring enough =
      let there : (node == node) ≡ true = ground arith in
      rw ring.linked.0 (rw ring.linked.2.1 (rw there refl))
  for_each_lem fuel (x ∷ xs) node ring enough =
      let (l, r) = Linked-split s 0 (x ∷ xs) node [] 0 ring.linked in
      let (fresh, _, _) = Distinct-middle (x ∷ xs) node [] ring.distinct.1 in
      rw ring.linked.0 (rw r.1 (visits-Linked fuel x xs node l.2 fresh (omega arith)))

  -- And `doEmpty` answers false for every ring, the empty one too.
  pub do_empty_lem : (xs : List ℕ) → IsRing s xs → do_empty s ≡ false
  unfolding do_empty
  do_empty_lem [] ring = rw (ring.linked.0, do_empty) refl
  do_empty_lem (x ∷ xs) ring = rw (ring.linked.0, do_empty) refl

-- Both links of each of these nodes are null.
abbrev pub Unlinked : Links → List ℕ → Type 0
Unlinked s [] = Unit {0}
Unlinked s (x ∷ xs) = (s.next x ≡ none) × (s.prev x ≡ none) × Unlinked s xs

-- A list whose nodes `xs` have been taken out, with the links of all other nodes kept.
pub record Cleared (s s' : Links) (xs : List ℕ) : Type 0 where
  pub no_links : Unlinked s' xs
  pub ring : IsRing s' []
  pub kept : (i : ℕ) → IsFresh i (0 ∷ xs) → (s'.next i ≡ s.next i) × (s'.prev i ≡ s.prev i)

Linked-unlink :
    (s : Links) (u : ℕ) (xs : List ℕ) (node : ℕ)
    → Linked s u xs 0
    → IsFresh node (u ∷ xs)
    → node ≢ 0
    → Linked (unlink node s) u xs 0
Linked-unlink s u xs node l h hz =
    Linked-set_prev (set_next node none s) u xs 0 node none h.1 hz
      (Linked-set_next s u xs 0 node none h l)

-- The links that the last round leaves.
abbrev closed : Links → Links
closed s = set_prev 0 (some 0) (set_next 0 (some 0) s)

unlink-kept :
    (s : Links) (node i : ℕ)
    → i ≢ node
    → ((unlink node s).next i ≡ s.next i) × ((unlink node s).prev i ≡ s.prev i)
unlink-kept s node i h = (update_other s.next node i none h, update_other s.prev node i none h)

closed-kept :
    (s : Links) (i : ℕ) → i ≢ 0 → ((closed s).next i ≡ s.next i) × ((closed s).prev i ≡ s.prev i)
closed-kept s i h = (update_other s.next 0 i (some 0) h, update_other s.prev 0 i (some 0) h)

closed-IsRing : (s : Links) → IsRing (closed s) []
closed-IsRing s = record {
  linked = (update_self s.next 0 (some 0), update_self s.prev 0 (some 0));
  distinct = (tt, tt);
}

clear_from-Cleared :
    (f : ℕ) (s : Links) (u : ℕ) (xs : List ℕ)
    → Linked s u xs 0
    → Distinct (u ∷ xs)
    → IsFresh 0 (u ∷ xs)
    → length xs + 1 < f
    → (s' : Links) × (clear_from f u s ≡ some s') × Cleared s s' (u ∷ xs)
unfolding clear_from
clear_from-Cleared zero s u xs l d h fuel = absurd (omega arith)
clear_from-Cleared (suc zero) s u xs l d h fuel = absurd (omega arith)
clear_from-Cleared (suc (suc f)) s u [] l d (hz, _) fuel =
    let going : (u == 0) ≡ false = ground arith in
    let (cn, cp) = closed-kept (unlink u s) u (λ e. hz (sym e)) in
    (
      closed (unlink u s),
      rw going (rw l.0 refl),
      record {
        no_links = (cn ∙ update_self s.next u none, cp ∙ update_self s.prev u none, tt);
        ring = closed-IsRing (unlink u s);
        kept = λ i (iz, (iu, _)).
            let (n, p) = closed-kept (unlink u s) i iz in
            let (n', p') = unlink-kept s u i iu in (n ∙ n', p ∙ p');
      },
    )
clear_from-Cleared (suc (suc f)) s u (x ∷ xs) (ln, lp, l) (du, d) (hz, h) fuel =
    let going : (u == 0) ≡ false = ground arith in
    let (s', e, rest) =
      clear_from-Cleared (suc f) (unlink u s) x xs (Linked-unlink s x xs u l du (λ e. hz (sym e))) d
        h (omega arith) in
    let (kn, kp) = rest.kept u (λ e. hz (sym e), du) in
    (
      s',
      rw going (rw ln e),
      record {
        no_links = (kn ∙ update_self s.next u none, kp ∙ update_self s.prev u none, rest.no_links);
        ring = rest.ring;
        kept = λ i (iz, (iu, ixs)).
            let (n, p) = rest.kept i (iz, ixs) in
            let (n', p') = unlink-kept s u i iu in (n ∙ n', p ∙ p');
      },
    )

-- `doClear` of a ring ends with fuel for one round more than it has nodes: it leaves the empty
-- ring, both links of each node that was in the list null, and all other nodes as they were.
pub do_clear-Cleared :
    (fuel : ℕ) (s : Links) (xs : List ℕ)
    → IsRing s xs
    → length xs < fuel
    → (s' : Links) × (do_clear fuel s ≡ some s') × Cleared s s' xs
unfolding do_clear clear_from
do_clear-Cleared zero s xs ring fuel = absurd (omega arith)
do_clear-Cleared (suc f) s [] ring fuel = (
  closed s,
  rw ring.linked.0 refl,
  record { no_links = tt; ring = closed-IsRing s; kept = λ i (iz, _). closed-kept s i iz },
)
do_clear-Cleared (suc f) s (x ∷ xs) ring fuel =
    let (s', e, done) =
      clear_from-Cleared (suc f) s x xs ring.linked.2 ring.distinct.1 ring.distinct.0
        (omega arith) in
    (s', rw ring.linked.0 e, done)

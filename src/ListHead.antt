-- ===== src/ListHead.antt =====
-- utils/ilist.hpp: ListHead, the operations of an intrusive list on the links of its nodes.
-- A node is known by its address; the root is node 0. A pointer is `none` when it is null, and to
-- follow a null pointer is undefined: the operation gives `none`.
pub mod Ring
pub mod Insert
pub mod Erase
pub mod Walk
mod Tests
use my_async.Prelude.{ℕ, zero, suc, Bool, true, false, not, Option, none, some, ◌==◌, if◌then◌else◌}

-- The links of all the nodes.
pub record Links : Type 0 where
  pub next : ℕ → Option ℕ
  pub prev : ℕ → Option ℕ

-- One link set.
unfoldable pub update : (ℕ → Option ℕ) → ℕ → Option ℕ → ℕ → Option ℕ
update links node p i = if i == node then p else links i

abbrev pub set_next : ℕ → Option ℕ → Links → Links
set_next node p s = record s { next = update s.next node p }

abbrev pub set_prev : ℕ → Option ℕ → Links → Links
set_prev node p s = record s { prev = update s.prev node p }

-- `p->…`.
abbrev pub follow {ℓ} : {A : Type ℓ} → Option ℕ → (ℕ → Option A) → Option A
follow none k = none
follow (some node) k = k node

-- The constructor: every other node has null links.
unfoldable pub new_list : Links
unfolding update
new_list = record { next = update (λ _. none) 0 (some 0); prev = update (λ _. none) 0 (some 0) }

unfoldable pub do_push_front : ℕ → Links → Option Links
do_push_front node s₀ =
    let s₁ = set_next node (s₀.next 0) s₀ in
    let s₂ = set_prev node (some 0) s₁ in
    let s₃ = set_next 0 (some node) s₂ in
    follow (s₃.next node) λ after. some (set_prev after (some node) s₃)

unfoldable pub do_push_back : ℕ → Links → Option Links
do_push_back node s₀ =
    let s₁ = set_next node (some 0) s₀ in
    let s₂ = set_prev node (s₁.prev 0) s₁ in
    let s₃ = set_prev 0 (some node) s₂ in
    follow (s₃.prev node) λ before. some (set_next before (some node) s₃)

-- The last assignment writes the link of `pivot` again; that of the node behind it stays.
unfoldable pub do_insert_after : ℕ → ℕ → Links → Option Links
do_insert_after pivot node s₀ =
    let s₁ = set_next node (s₀.next pivot) s₀ in
    let s₂ = set_prev node (some pivot) s₁ in
    let s₃ = set_next pivot (some node) s₂ in
    follow (s₃.prev node) λ before. some (set_next before (some node) s₃)

unfoldable pub do_insert_before : ℕ → ℕ → Links → Option Links
do_insert_before pivot node s₀ =
    let s₁ = set_next node (some pivot) s₀ in
    let s₂ = set_prev node (s₁.prev pivot) s₁ in
    let s₃ = set_prev pivot (some node) s₂ in
    follow (s₃.prev node) λ before. some (set_next before (some node) s₃)

-- Both links of a node set to null.
abbrev pub unlink : ℕ → Links → Links
unlink node s = set_prev node none (set_next node none s)

unfoldable pub do_erase : ℕ → Links → Option Links
do_erase node s₀ = follow (s₀.next node) λ after.
    let s₁ = set_prev after (s₀.prev node) s₀ in
    follow (s₁.prev node) λ before. some (unlink node (set_next before (s₁.next node) s₁))

-- `erase_from_parent`: a node that is in no list stays as it is.
pub erase_from_parent : ℕ → Links → Option Links
erase_from_parent node s = elim (s.next node) [
  | none ↦ some s
  | some after ↦
      follow (s.prev node)
        λ before. some (unlink node (set_prev after (some before) (set_next before (some after) s)))
]

-- The root's links are compared with null.
unfoldable pub do_empty : Links → Bool
do_empty s = elim (s.next 0) [ none ↦ true | some _ ↦ false ]

unfoldable pub do_pop_front : Links → Option (Option ℕ × Links)
do_pop_front s₀ = follow (s₀.next 0) λ node.
    if node == 0
    then some (none, s₀)
    else follow (s₀.next node) λ after.
      let s₁ = set_prev after (some 0) s₀ in
      some (some node, unlink node (set_next 0 (s₁.next node) s₁))

unfoldable pub do_pop_back : Links → Option (Option ℕ × Links)
do_pop_back s₀ = follow (s₀.prev 0) λ node.
    if node == 0
    then some (none, s₀)
    else follow (s₀.next node) λ after.
      let s₁ = set_prev after (s₀.prev node) s₀ in
      follow (s₁.prev node)
        λ before. some (some node, unlink node (set_next before (s₁.next node) s₁))

-- The loop of `doClear` from `current` on; it runs on fuel, a round for each node.
unfoldable pub clear_from : ℕ → ℕ → Links → Option Links
clear_from zero current s = none
clear_from (suc f) current s =
    if current == 0
    then some (set_prev 0 (some 0) (set_next 0 (some 0) s))
    else follow (s.next current) λ after. clear_from f after (unlink current s)

unfoldable pub do_clear : ℕ → Links → Option Links
unfolding clear_from
do_clear fuel s = follow (s.next 0) λ current. clear_from fuel current s

abbrev pub do_iter_begin : Links → Option ℕ
do_iter_begin s = s.next 0

-- The last node, not the root.
abbrev pub do_iter_end : Links → Option ℕ
do_iter_end s = s.prev 0

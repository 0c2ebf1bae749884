-- ===== src/RbTree/Links.antt =====
-- utils/rbtree.hpp: when the links of a RbTree stand for a tree with a place in it.
use my_async.Prelude.{ℕ, ◌+◌, ◌≤◌, ◌<◌, ◌≡◌, ◌∙◌, Option, some, arith}
use my_async.RbTree.Heap.{Side, left, right, opposite, Color, Nodes}
use my_async.RbTree.Tree.{
  Tree, leaf, node, join, pointer, count, Route, top, below, above, count_path, count-join,
  pointer-join,
}

-- The links of a subtree whose root has the given parent.
abbrev pub Rep : Nodes → Option ℕ → Tree → Type 0
Rep h p leaf = Unit {0}
Rep h p (node c l a r) =
    (h.parent a ≡ p)
    × (h.color a ≡ c)
    × (h.child left a ≡ pointer l)
    × (h.child right a ≡ pointer r)
    × Rep h (some a) l
    × Rep h (some a) r

-- The link from above to a subtree, and the links of what is above.
abbrev pub Link : Nodes → Option ℕ → Route → Type 0
Link h o top = h.root ≡ o
Link h o (below d c a s π) = h.child d a ≡ o

abbrev pub Around : Nodes → Route → Type 0
Around h top = Unit {0}
Around h (below d c a s π) =
    (h.parent a ≡ above π)
    × (h.color a ≡ c)
    × (h.child (opposite d) a ≡ pointer s)
    × Rep h (some a) s
    × Link h (some a) π
    × Around h π

-- The nodes stand for the subtree at that place, and no address stands twice.
pub record At (h : Nodes) (t : Tree) (π : Route) : Type 0 where
  pub here : Rep h (above π) t
  pub link : Link h (pointer t) π
  pub around : Around h π
  pub apart : (i : ℕ) → count i t + count_path i π ≤ 1

-- Two states of the nodes agree on one of them.
abbrev pub Agree : Nodes → Nodes → ℕ → Type 0
Agree h h' i =
    (h'.parent i ≡ h.parent i)
    × (h'.color i ≡ h.color i)
    × (h'.child left i ≡ h.child left i)
    × (h'.child right i ≡ h.child right i)

pub Rep-Agree :
    (h h' : Nodes) (p : Option ℕ) (t : Tree)
    → ((i : ℕ) → 0 < count i t → Agree h h' i)
    → Rep h p t
    → Rep h' p t
Rep-Agree h h' p leaf e r = tt
Rep-Agree h h' p (node c l a r) e (r₀, r₁, r₂, r₃, r₄, r₅) =
    let (e₀, e₁, e₂, e₃) = e a (ground arith) in
    (
      e₀ ∙ r₀,
      e₁ ∙ r₁,
      e₂ ∙ r₂,
      e₃ ∙ r₃,
      Rep-Agree h h' (some a) l (λ i m. e i (omega arith)) r₄,
      Rep-Agree h h' (some a) r (λ i m. e i (omega arith)) r₅,
    )

pub Agree-child : (h h' : Nodes) (i : ℕ) (d : Side) → Agree h h' i → h'.child d i ≡ h.child d i
Agree-child h h' i left (e₀, e₁, e₂, e₃) = e₂
Agree-child h h' i right (e₀, e₁, e₂, e₃) = e₃

-- What is above stays when its nodes and the root do,
pub Around-Agree :
    (h h' : Nodes) (o : Option ℕ) (π : Route)
    → ((i : ℕ) → 0 < count_path i π → Agree h h' i)
    → h'.root ≡ h.root
    → Link h o π
    → Around h π
    → Link h' o π × Around h' π
Around-Agree h h' o top e q k r = (q ∙ k, tt)
Around-Agree h h' o (below d c a s π) e q k (r₀, r₁, r₂, r₃, r₄, r₅) =
    let here = e a (ground arith) in
    let (k', r') = Around-Agree h h' (some a) π (λ i m. e i (omega arith)) q r₄ r₅ in
    (
      Agree-child h h' a d here ∙ k,
      (
        here.0 ∙ r₀,
        here.1 ∙ r₁,
        Agree-child h h' a (opposite d) here ∙ r₂,
        Rep-Agree h h' (some a) s (λ i m. e i (omega arith)) r₃,
        k',
        r',
      ),
    )

-- The parts of a node given by a side.
pub Rep-join :
    (h : Nodes) (p : Option ℕ) (d : Side) (c : Color) (a : ℕ) (s t : Tree)
    → Rep h p (join d c a s t)
    → (h.parent a ≡ p)
      × (h.color a ≡ c)
      × (h.child d a ≡ pointer s)
      × (h.child (opposite d) a ≡ pointer t)
      × Rep h (some a) s
      × Rep h (some a) t
Rep-join h p left c a s t r = r
Rep-join h p right c a s t (r₀, r₁, r₂, r₃, r₄, r₅) = (r₀, r₁, r₃, r₂, r₅, r₄)

pub join-Rep :
    (h : Nodes) (p : Option ℕ) (d : Side) (c : Color) (a : ℕ) (s t : Tree)
    → (h.parent a ≡ p)
    → (h.color a ≡ c)
    → (h.child d a ≡ pointer s)
    → (h.child (opposite d) a ≡ pointer t)
    → Rep h (some a) s
    → Rep h (some a) t
    → Rep h p (join d c a s t)
join-Rep h p left c a s t r₀ r₁ r₂ r₃ r₄ r₅ = (r₀, r₁, r₂, r₃, r₄, r₅)
join-Rep h p right c a s t r₀ r₁ r₂ r₃ r₄ r₅ = (r₀, r₁, r₃, r₂, r₅, r₄)

-- The place moves up to the parent,
pub At-up :
    (h : Nodes) (t : Tree) (d : Side) (c : Color) (a : ℕ) (s : Tree) (π : Route)
    → At h t (below d c a s π)
    → At h (join d c a t s) π
At-up h t d c a s π m =
    let (r₀, r₁, r₂, r₃, r₄, r₅) = m.around in
    record {
      here = join-Rep h (above π) d c a t s r₀ r₁ m.link r₂ m.here r₃;
      link = rw (pointer-join d c a t s) r₄;
      around = r₅;
      apart = λ i. omega (arith, m.apart i, count-join d c a i t s);
    }

-- or down to a child.
pub At-down :
    (h : Nodes) (t : Tree) (d : Side) (c : Color) (a : ℕ) (s : Tree) (π : Route)
    → At h (join d c a t s) π
    → At h t (below d c a s π)
At-down h t d c a s π m =
    let (r₀, r₁, r₂, r₃, r₄, r₅) = Rep-join h (above π) d c a t s m.here in
    let k : Link h (some a) π = rw (← pointer-join d c a t s) m.link in
    record {
      here = r₄;
      link = r₂;
      around = (r₀, r₁, r₃, r₅, k, m.around);
      apart = λ i. omega (arith, m.apart i, count-join d c a i t s);
    }

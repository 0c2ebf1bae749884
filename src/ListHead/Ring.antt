-- ===== src/ListHead/Ring.antt =====
-- utils/ilist.hpp: the ring of nodes that the links of a ListHead form.
use my_async.Prelude.{ℕ, ◌≡◌, ◌≢◌, ap, sym, ◌∙◌, Option, some, List, [], ◌∷◌, ◌++◌, arith}
use my_async.ListHead.{Links, update, set_next, set_prev}

pub update_self : (links : ℕ → Option ℕ) (node : ℕ) (p : Option ℕ) → update links node p node ≡ p
unfolding update
update_self links node p = ground arith

pub update_other :
    (links : ℕ → Option ℕ) (node i : ℕ) (p : Option ℕ) → i ≢ node → update links node p i ≡ links i
unfolding update
update_other links node i p h = ground arith

-- `node` is not among `xs`.
abbrev pub IsFresh : ℕ → List ℕ → Type 0
IsFresh node [] = Unit {0}
IsFresh node (x ∷ xs) = (node ≢ x) × IsFresh node xs

-- The links lead from `a` through `xs` to `b`, and back.
abbrev pub Linked : Links → ℕ → List ℕ → ℕ → Type 0
Linked s a [] b = (s.next a ≡ some b) × (s.prev b ≡ some a)
Linked s a (x ∷ xs) b = (s.next a ≡ some x) × (s.prev x ≡ some a) × Linked s x xs b

-- A link that none of these pointers is may be set.
pub Linked-set_next :
    (s : Links) (a : ℕ) (xs : List ℕ) (b node : ℕ) (p : Option ℕ)
    → IsFresh node (a ∷ xs)
    → Linked s a xs b
    → Linked (set_next node p s) a xs b
Linked-set_next s a [] b node p (h, hs) (n, q) =
    (update_other s.next node a p (λ e. h (sym e)) ∙ n, q)
Linked-set_next s a (x ∷ xs) b node p (h, hs) (n, q, l) =
    (update_other s.next node a p (λ e. h (sym e)) ∙ n, q, Linked-set_next s x xs b node p hs l)

pub Linked-set_prev :
    (s : Links) (a : ℕ) (xs : List ℕ) (b node : ℕ) (p : Option ℕ)
    → IsFresh node xs
    → node ≢ b
    → Linked s a xs b
    → Linked (set_prev node p s) a xs b
Linked-set_prev s a [] b node p hs hb (n, q) =
    (n, update_other s.prev node b p (λ e. hb (sym e)) ∙ q)
Linked-set_prev s a (x ∷ xs) b node p (h, hs) hb (n, q, l) =
    (n, update_other s.prev node x p (λ e. h (sym e)) ∙ q, Linked-set_prev s x xs b node p hs hb l)

-- A path of links may be cut at a node of it, and joined.
pub Linked-append :
    (s : Links) (a : ℕ) (xs : List ℕ) (m : ℕ) (ys : List ℕ) (b : ℕ)
    → Linked s a xs m
    → Linked s m ys b
    → Linked s a (xs ++ (m ∷ ys)) b
Linked-append s a [] m ys b (n, q) l = (n, q, l)
Linked-append s a (x ∷ xs) m ys b (n, q, k) l = (n, q, Linked-append s x xs m ys b k l)

pub Linked-split :
    (s : Links) (a : ℕ) (xs : List ℕ) (m : ℕ) (ys : List ℕ) (b : ℕ)
    → Linked s a (xs ++ (m ∷ ys)) b
    → Linked s a xs m × Linked s m ys b
Linked-split s a [] m ys b (n, q, l) = ((n, q), l)
Linked-split s a (x ∷ xs) m ys b (n, q, l) =
    let (k, r) = Linked-split s x xs m ys b l in ((n, q, k), r)

-- No node stands twice.
abbrev pub Distinct : List ℕ → Type 0
Distinct [] = Unit {0}
Distinct (x ∷ xs) = IsFresh x xs × Distinct xs

pub IsFresh-append : (n : ℕ) (xs ys : List ℕ) → IsFresh n (xs ++ ys) → IsFresh n xs × IsFresh n ys
IsFresh-append n [] ys h = (tt, h)
IsFresh-append n (x ∷ xs) ys (h, hs) = let (l, r) = IsFresh-append n xs ys hs in ((h, l), r)

pub append-IsFresh : (n : ℕ) (xs ys : List ℕ) → IsFresh n xs → IsFresh n ys → IsFresh n (xs ++ ys)
append-IsFresh n [] ys l r = r
append-IsFresh n (x ∷ xs) ys (h, l) r = (h, append-IsFresh n xs ys l r)

-- The entry between two parts of a list without repetition, and the list without it.
pub Distinct-middle :
    (xs : List ℕ) (m : ℕ) (ys : List ℕ)
    → Distinct (xs ++ (m ∷ ys))
    → IsFresh m xs × IsFresh m ys × Distinct (xs ++ ys)
Distinct-middle [] m ys (h, d) = (tt, h, d)
Distinct-middle (x ∷ xs) m ys (h, d) =
    let (l, r, rest) = Distinct-middle xs m ys d in
    let (hl, (hm, hr)) = IsFresh-append x xs (m ∷ ys) h in
    ((λ e. hm (sym e), l), r, (append-IsFresh x xs ys hl hr, rest))

pub middle-Distinct :
    (xs : List ℕ) (m : ℕ) (ys : List ℕ)
    → IsFresh m (xs ++ ys)
    → Distinct (xs ++ ys)
    → Distinct (xs ++ (m ∷ ys))
middle-Distinct [] m ys h d = (h, d)
middle-Distinct (x ∷ xs) m ys (h, hs) (f, d) =
    let (l, r) = IsFresh-append x xs ys f in
    (append-IsFresh x xs (m ∷ ys) l (λ e. h (sym e), r), middle-Distinct xs m ys hs d)

pub Distinct-prefix : (xs ys : List ℕ) → Distinct (xs ++ ys) → Distinct xs
Distinct-prefix [] ys d = tt
Distinct-prefix (x ∷ xs) ys (h, d) = ((IsFresh-append x xs ys h).0, Distinct-prefix xs ys d)

-- The last node of a path that starts at `a`.
abbrev pub last : ℕ → List ℕ → ℕ
last a [] = a
last a (x ∷ xs) = last x xs

pub last-IsFresh : (n a : ℕ) (xs : List ℕ) → IsFresh n (a ∷ xs) → n ≢ last a xs
last-IsFresh n a [] (h, hs) = h
last-IsFresh n a (x ∷ xs) (h, hs) = last-IsFresh n x xs hs

pub last-Distinct : (a : ℕ) (xs ys : List ℕ) → Distinct (a ∷ (xs ++ ys)) → IsFresh (last a xs) ys
last-Distinct a [] ys (h, d) = h
last-Distinct a (x ∷ xs) ys (h, d) = last-Distinct x xs ys d

pub prev-last :
    (s : Links) (a : ℕ) (xs : List ℕ) (b : ℕ) → Linked s a xs b → s.prev b ≡ some (last a xs)
prev-last s a [] b (n, q) = q
prev-last s a (x ∷ xs) b (n, q, l) = prev-last s x xs b l

-- `t` differs from `s` at most in the links between `a` and `b`, and in those of `node`.
pub record Agrees (s t : Links) (a b node : ℕ) : Type 0 where
  pub same_next : (i : ℕ) → i ≢ a → i ≢ node → t.next i ≡ s.next i
  pub same_prev : (i : ℕ) → i ≢ b → i ≢ node → t.prev i ≡ s.prev i

module _ {s t : Links} {a b node : ℕ} (same : Agrees s t a b node) where
  -- A path that these links are no part of stays.
  pub Linked-frame :
      (u : ℕ) (xs : List ℕ) (v : ℕ)
      → IsFresh a (u ∷ xs)
      → IsFresh node (u ∷ xs)
      → IsFresh b xs
      → b ≢ v
      → node ≢ v
      → Linked s u xs v
      → Linked t u xs v
  Linked-frame u [] v (ha, fa) (hn, fn) fb hb hv (n, q) = (
    same.same_next u (λ e. ha (sym e)) (λ e. hn (sym e)) ∙ n,
    same.same_prev v (λ e. hb (sym e)) (λ e. hv (sym e)) ∙ q,
  )
  Linked-frame u (x ∷ xs) v (ha, fa) (hn, fn) (hb, fb) hbv hv (n, q, l) = (
    same.same_next u (λ e. ha (sym e)) (λ e. hn (sym e)) ∙ n,
    same.same_prev x (λ e. hb (sym e)) (λ e. fn.0 (sym e)) ∙ q,
    Linked-frame x xs v fa fn fb hbv hv l,
  )

  -- A path whose last node is `a` now leads to another node.
  pub Linked-retarget :
      (u : ℕ) (xs : List ℕ) (n v : ℕ)
      → Linked s u xs n
      → last u xs ≡ a
      → Distinct (u ∷ xs)
      → IsFresh node (u ∷ xs)
      → IsFresh b xs
      → t.next a ≡ some v
      → t.prev v ≡ some a
      → Linked t u xs v
  Linked-retarget u [] n v l e d hn hb tn tp = (ap t.next e ∙ tn, tp ∙ ap some (sym e))
  Linked-retarget u (x ∷ xs) n v (ln, lp, l) e (hu, d) (hn, fn) (hb, fb) tn tp = (
    same.same_next u (λ h. last-IsFresh u x xs hu (h ∙ sym e)) (λ h. hn (sym h)) ∙ ln,
    same.same_prev x (λ h. hb (sym h)) (λ h. fn.0 (sym h)) ∙ lp,
    Linked-retarget x xs n v l e d fn fb tn tp,
  )

-- The links form the ring of a list that holds the nodes `xs`.
pub record IsRing (s : Links) (xs : List ℕ) : Type 0 where
  pub linked : Linked s 0 xs 0
  pub distinct : Distinct (0 ∷ xs)

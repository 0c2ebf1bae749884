-- ===== src/Semaphone/Counter.antt =====
-- generic/semaphone.hpp: the counter stays in its range, and a call can succeed without its resource.
use my_async.Prelude.{
  ℕ, zero, suc, ◌^◌, ◌≤◌, ◌<◌, ◌≡◌, refl, sym, subst, inl, inr, Bool, true, false, Bool-cases, List,
  [], ◌∷◌, get_elem?, set, some, none, ◌==◌, if◌then◌else◌, arith,
}
use my_async.Semaphone.{
  Kind, acquire, release, Phase, idle, loaded, sleeping, exchanging, reloading, notifying,
  succeeded, Semaphone, blocked, wanted, after_test, move, Step, loads, tests, compares, wakes,
  succeeds, fails, notifies, gives_up, Reachable, initial, next,
}

-- Only an unblocked value is brought to the exchange.
abbrev Ready : ℕ → Phase → Type 0
Ready max_count (exchanging kind count) = blocked kind max_count count ≡ false
Ready max_count _ = Unit {0}

abbrev AllReady : ℕ → List Phase → Type 0
AllReady max_count [] = Unit {0}
AllReady max_count (p ∷ ps) = Ready max_count p × AllReady max_count ps

AllReady-set :
    (m : ℕ) (ps : List Phase) (i : ℕ) (p : Phase)
    → AllReady m ps
    → Ready m p
    → AllReady m (set ps i p)
AllReady-set m [] i p a r = tt
AllReady-set m (q ∷ ps) zero p a r = (r, a.1)
AllReady-set m (q ∷ ps) (suc i) p a r = (a.0, AllReady-set m ps i p a.1 r)

AllReady-get :
    (m : ℕ) (ps : List Phase) (i : ℕ) (p : Phase)
    → AllReady m ps
    → get_elem? ps i ≡ some p
    → Ready m p
AllReady-get m [] i p a e = absurd (none_ne_some e)
  where
    none_ne_some : none ≡ some p → ⊥
    none_ne_some z = cc
AllReady-get m (q ∷ ps) zero p a e = subst (Ready m) (some_injective e) a.0
  where
    some_injective : some q ≡ some p → q ≡ p
    some_injective z = cc
AllReady-get m (q ∷ ps) (suc i) p a e = AllReady-get m ps i p a.1 e

record InRange (max_count : ℕ) (s : Semaphone) : Type 0 where
  maximum : s.max_count ≡ max_count
  bounded : s.counter ≤ max_count
  ready : AllReady max_count s.tasks

Ready-after_test : (m : ℕ) (kind : Kind) (count : ℕ) → Ready m (after_test kind m count)
Ready-after_test m kind count = elim (Bool-cases (blocked kind m count)) [
  | inl e ↦ rw e tt
  | inr e ↦ rw e e
]

Ready-if :
    (m : ℕ) (b : Bool) (kind : Kind) (count : ℕ)
    → Ready m (if b then sleeping kind count else reloading kind)
Ready-if m true kind count = tt
Ready-if m false kind count = tt

-- The exchange stores a value in range.
wanted_bounded :
    (kind : Kind) (m count : ℕ)
    → m < 2 ^ 32
    → count ≤ m
    → blocked kind m count ≡ false
    → wanted kind count ≤ m
wanted_bounded acquire m count b h e = ground arith
wanted_bounded release m count b h e = ground arith

module _ (m : ℕ) (small : m < 2 ^ 32) where
  move-InRange :
      (i : ℕ) (p : Phase) (s : Semaphone) → InRange m s → Ready m p → InRange m (move i p s)
  move-InRange i p s v r = record {
    maximum = v.maximum;
    bounded = v.bounded;
    ready = AllReady-set m s.tasks i p v.ready r;
  }

  Step-InRange : {s s' : Semaphone} → Step s s' → InRange m s → InRange m s'
  Step-InRange {s} (loads i kind h) v = move-InRange i (loaded kind s.counter) s v tt
  Step-InRange {s} (tests i kind count h) v =
      move-InRange i (after_test kind s.max_count count) s v (
        subst (λ w. Ready m (after_test kind w count)) (sym v.maximum)
          (Ready-after_test m kind count))
  Step-InRange {s} (compares i kind count h) v =
      move-InRange i (if s.counter == count then sleeping kind count else reloading kind) s v
        (Ready-if m (s.counter == count) kind count)
  Step-InRange {s} (wakes i kind count h) v = move-InRange i (reloading kind) s v tt
  Step-InRange {s} (succeeds i kind h) v = record {
    maximum = v.maximum;
    bounded =
        wanted_bounded kind m s.counter small v.bounded
          (AllReady-get m s.tasks i (exchanging kind s.counter) v.ready h);
    ready = AllReady-set m s.tasks i (loaded kind s.counter) v.ready tt;
  }
  Step-InRange {s} (fails i kind count h) v = move-InRange i (notifying kind) s v tt
  Step-InRange {s} (notifies i kind h) v = move-InRange i (succeeded kind) s v tt
  Step-InRange {s} (gives_up i kind count h) v = move-InRange i idle s v tt

abbrev AllIdle : List Phase → Type 0
AllIdle [] = Unit {0}
AllIdle (p ∷ ps) = (p ≡ idle) × AllIdle ps

AllIdle-AllReady : (m : ℕ) (ps : List Phase) → AllIdle ps → AllReady m ps
AllIdle-AllReady m [] a = tt
AllIdle-AllReady m (p ∷ ps) a = (subst (Ready m) (sym a.0) tt, AllIdle-AllReady m ps a.1)

-- From a counter that is not above a maximum below 2 ^ 32, with no task in a call, the counter
-- stays between 0 and the maximum, however the steps of the tasks interleave: no exchange
-- underflows or overflows it.
pub counter_bounds :
    (s s' : Semaphone)
    → s.max_count < 2 ^ 32
    → s.counter ≤ s.max_count
    → AllIdle s.tasks
    → Reachable s s'
    → s'.counter ≤ s.max_count
counter_bounds s s' small h a r = (go s' r).bounded
  where
    go : (s' : Semaphone) → Reachable s s' → InRange s.max_count s'
    go s' initial = record {
      maximum = refl;
      bounded = h;
      ready = AllIdle-AllReady s.max_count s.tasks a;
    }
    go s' (next m m' r t) = Step-InRange s.max_count small t (go m r)

abbrev two_tasks : ℕ → ℕ → Phase → Phase → Semaphone
two_tasks m counter p q = record { counter = counter; max_count = m; tasks = p ∷ (q ∷ []) }

-- With any maximum, two tasks can both succeed in acquiring a Semaphone that has one resource:
-- when the exchange of one fails, its call succeeds without having changed the counter.
pub acquire-both :
    (max_count : ℕ)
    → Reachable
        (record { counter = 1; max_count = max_count; tasks = idle ∷ (idle ∷ []) })
        (record {
          counter = 0;
          max_count = max_count;
          tasks = succeeded acquire ∷ (succeeded acquire ∷ []);
        })
acquire-both m =
    let s₁ = two_tasks m 1 (loaded acquire 1) idle in
    let s₂ = two_tasks m 1 (loaded acquire 1) (loaded acquire 1) in
    let s₃ = two_tasks m 1 (exchanging acquire 1) (loaded acquire 1) in
    let s₄ = two_tasks m 1 (exchanging acquire 1) (exchanging acquire 1) in
    let s₅ = two_tasks m 0 (loaded acquire 1) (exchanging acquire 1) in
    let s₆ = two_tasks m 0 (exchanging acquire 1) (exchanging acquire 1) in
    let s₇ = two_tasks m 0 (notifying acquire) (exchanging acquire 1) in
    let s₈ = two_tasks m 0 (succeeded acquire) (exchanging acquire 1) in
    let s₉ = two_tasks m 0 (succeeded acquire) (notifying acquire) in
    next s₉ (two_tasks m 0 (succeeded acquire) (succeeded acquire))
      (next s₈ s₉
        (next s₇ s₈
          (next s₆ s₇
            (next s₅ s₆
              (next s₄ s₅
                (next s₃ s₄
                  (next s₂ s₃
                    (next s₁ s₂
                      (next (two_tasks m 1 idle idle) s₁ initial (loads 0 acquire (inl refl)))
                      (loads 1 acquire (inl refl)))
                    (tests 0 acquire 1 refl))
                  (tests 1 acquire 1 refl))
                (succeeds 0 acquire refl))
              (tests 0 acquire 1 refl))
            (fails 0 acquire 1 refl))
          (notifies 0 acquire refl))
        (fails 1 acquire 1 refl))
      (notifies 1 acquire refl)

-- ===== src/Mutex/Safety.antt =====
-- generic/mutex.hpp: at most one task is inside a BasicMutex, and no wake-up is lost.
use my_async.Prelude.{
  ℕ, ◌+◌, ◌≤◌, ◌<◌, ◌≡◌, ◌≢◌, refl, ap, ◌∙◌, ◌⊎◌, ◌↔◌, inl, inr, Bool, true, false, some, List,
  get_elem?, set, arith, get_elem?-set_ne, Bool-cases, ◌==◌, total, total-set, total-replicate,
  total-get, find,
}
use my_async.Mutex.{
  Phase, idle, locking, checking, sleeping, holding, notifying, BasicMutex, try_lock, Step, starts,
  tries, exchanges, compares, stores, wakes, wakes_nobody, fails, Reachable, initial, next,
  after_exchange, after_compare, after_try,
}
use my_async.Mutex.Counts.{holds, sleeps, acts, sleeps_pos, acts_pos, holds_pos}

abbrev bit : Bool → ℕ
bit true = 1
bit false = 0

bit_bound : (w : Bool) → bit w ≤ 1
bit_bound true = omega arith
bit_bound false = omega arith

bit_pos : (w : Bool) → 0 < bit w → w ≡ true
bit_pos true h = refl
bit_pos false h = absurd (omega arith)

-- The word says whether a task is inside, and if a task sleeps while none is inside, another will
-- look at the word or wake one.
record IsSafe (word : Bool) (tasks : List Phase) : Type 0 where
  held : total holds tasks ≡ bit word
  wakeful : 0 < total sleeps tasks → 0 < bit word + total acts tasks

-- A task moves from `p` to `q`: the three counts.
abbrev Moved : List Phase → List Phase → Phase → Phase → Type 0
Moved ps qs p q =
    (total holds qs + holds p ≡ total holds ps + holds q)
    × (total sleeps qs + sleeps p ≡ total sleeps ps + sleeps q)
    × (total acts qs + acts p ≡ total acts ps + acts q)

moved :
    (ps : List Phase) (i : ℕ) (p q : Phase) → get_elem? ps i ≡ some p → Moved ps (set ps i q) p q
moved ps i p q h =
    (total-set holds ps i p q h, total-set sleeps ps i p q h, total-set acts ps i p q h)

try-IsSafe :
    (w : Bool) (ps : List Phase) (i : ℕ)
    → IsSafe w ps
    → get_elem? ps i ≡ some idle
    → IsSafe (try_lock w).1 (set ps i (after_try (try_lock w).0))
unfolding try_lock
try-IsSafe true ps i v h =
    let c = moved ps i idle idle h in
    record { held = omega (arith, c, v.held); wakeful = λ s. omega arith }
try-IsSafe false ps i v h =
    let c = moved ps i idle holding h in
    record { held = omega (arith, c, v.held); wakeful = λ s. omega arith }

exchange-IsSafe :
    (w : Bool) (ps : List Phase) (i : ℕ)
    → IsSafe w ps
    → get_elem? ps i ≡ some locking
    → IsSafe true (set ps i (after_exchange w))
exchange-IsSafe true ps i v h =
    let c = moved ps i locking checking h in
    record { held = omega (arith, c, v.held); wakeful = λ s. omega arith }
exchange-IsSafe false ps i v h =
    let c = moved ps i locking holding h in
    record { held = omega (arith, c, v.held); wakeful = λ s. omega arith }

compare-IsSafe :
    (w : Bool) (ps : List Phase) (i : ℕ)
    → IsSafe w ps
    → get_elem? ps i ≡ some checking
    → IsSafe w (set ps i (after_compare w))
compare-IsSafe true ps i v h =
    let c = moved ps i checking sleeping h in
    record { held = omega (arith, c, v.held); wakeful = λ s. omega arith }
compare-IsSafe false ps i v h =
    let c = moved ps i checking locking h in
    record { held = omega (arith, c, v.held); wakeful = λ s. omega (arith, c) }

nobody_sleeps :
    (ps : List Phase) → ((j : ℕ) → get_elem? ps j ≡ some sleeping → ⊥) → total sleeps ps ≡ 0
nobody_sleeps ps h = elim (Bool-cases (total sleeps ps == 0)) [
  | inl z ↦ ground arith
  | inr nz ↦
      let some_sleeper : 0 < total sleeps ps = ground arith in
      let (j, p, e, pos) = find sleeps ps some_sleeper in
      absurd (h j (e ∙ ap some (sleeps_pos p pos)))
]

Step-IsSafe : (m m' : BasicMutex) → IsSafe m.word m.tasks → Step m m' → IsSafe m'.word m'.tasks
Step-IsSafe m m' v (starts i h) =
    let c = moved m.tasks i idle locking h in
    record { held = omega (arith, c, v.held); wakeful = λ s. omega (arith, c) }
Step-IsSafe m m' v (tries i h) = try-IsSafe m.word m.tasks i v h
Step-IsSafe m m' v (exchanges i h) = exchange-IsSafe m.word m.tasks i v h
Step-IsSafe m m' v (compares i h) = compare-IsSafe m.word m.tasks i v h
Step-IsSafe m m' v (stores i h) =
    let c = moved m.tasks i holding notifying h in
    let b = bit_bound m.word in
    record { held = omega (arith, c, v.held, b); wakeful = λ s. omega (arith, c) }
Step-IsSafe m m' v (wakes i j h k) =
    let c = moved m.tasks i notifying idle h in
    let k' : get_elem? (set m.tasks i idle) j ≡ some sleeping =
      get_elem?-set_ne m.tasks idle (apart i j h k) ∙ k in
    let d = moved (set m.tasks i idle) j sleeping locking k' in
    record { held = omega (arith, c, d, v.held); wakeful = λ s. omega (arith, c, d) }
  where
    apart :
        (i j : ℕ)
        → get_elem? m.tasks i ≡ some notifying
        → get_elem? m.tasks j ≡ some sleeping
        → i ≢ j
    apart i j h k e = cc
Step-IsSafe m m' v (wakes_nobody i h none_sleeps) =
    let c = moved m.tasks i notifying idle h in
    let z = nobody_sleeps m.tasks none_sleeps in
    record { held = omega (arith, c, v.held); wakeful = λ s. omega (arith, c, z) }
Step-IsSafe m m' v (fails i (inl h)) =
    let c = moved m.tasks i sleeping idle h in
    record {
      held = omega (arith, c, v.held);
      wakeful = λ s. omega (arith, c, v.wakeful (omega (arith, c)));
    }
Step-IsSafe m m' v (fails i (inr h)) =
    let c = moved m.tasks i checking idle h in
    record {
      held = omega (arith, c, v.held);
      wakeful = λ s. omega (arith, c, v.wakeful (omega (arith, c)));
    }

reachable-IsSafe : (n : ℕ) (m : BasicMutex) → Reachable n m → IsSafe m.word m.tasks
reachable-IsSafe n m initial =
    let a = total-replicate holds n idle refl in
    let b = total-replicate sleeps n idle refl in
    record { held = a; wakeful = λ s. absurd (omega (arith, b)) }
reachable-IsSafe n m (next m₀ _ r s) = Step-IsSafe m₀ m (reachable-IsSafe n m₀ r) s

-- Two tasks inside are counted twice.
two_hold :
    (ps : List Phase) (i j : ℕ)
    → i ≢ j
    → get_elem? ps i ≡ some holding
    → get_elem? ps j ≡ some holding
    → 2 ≤ total holds ps
two_hold ps i j apart h k =
    let c = total-set holds ps i holding idle h in
    let rest = total-get holds (set ps i idle) j holding (get_elem?-set_ne ps idle apart ∙ k) in
    omega (arith, c, rest)

-- From a free mutex, however the steps of n tasks interleave, two tasks that are inside are the
-- same task.
pub mutual_exclusion :
    (n : ℕ) (m : BasicMutex) (i j : ℕ)
    → Reachable n m
    → get_elem? m.tasks i ≡ some holding
    → get_elem? m.tasks j ≡ some holding
    → i ≡ j
mutual_exclusion n m i j r h k = elim (Bool-cases (i == j)) [
  | inl same ↦ ground arith
  | inr other ↦
      let apart : i ≢ j = ground arith in
      let two = two_hold m.tasks i j apart h k in
      let one = bit_bound m.word in absurd (omega (arith, two, one, (reachable-IsSafe n m r).held))
]

-- In every reachable state the word is true exactly if some task is inside.
pub word_iff :
    (n : ℕ) (m : BasicMutex)
    → Reachable n m
    → (m.word ≡ true) ↔ ((i : ℕ) × (get_elem? m.tasks i ≡ some holding))
word_iff n m r = (
  λ w.
      let one : 0 < total holds m.tasks = rw ((reachable-IsSafe n m r).held, w) (omega arith) in
      let (i, p, e, pos) = find holds m.tasks one in (i, e ∙ ap some (holds_pos p pos)),
  λ (i, h).
      let one = total-get holds m.tasks i holding h in
      bit_pos m.word (omega (arith, one, (reachable-IsSafe n m r).held)),
)

-- No wake-up is lost: in every reachable state in which a task sleeps in `lock` and the word is
-- false, some task is about to try the exchange or to wake a sleeper.
pub no_lost_wake :
    (n : ℕ) (m : BasicMutex) (j : ℕ)
    → Reachable n m
    → get_elem? m.tasks j ≡ some sleeping
    → m.word ≡ false
    → (i : ℕ) × ((get_elem? m.tasks i ≡ some locking) ⊎ (get_elem? m.tasks i ≡ some notifying))
no_lost_wake n m j r h free =
    let asleep = total-get sleeps m.tasks j sleeping h in
    let safe = (reachable-IsSafe n m r).wakeful (omega (arith, asleep)) in
    let active : 0 < total acts m.tasks = omega (arith, safe, ap bit free) in
    let (i, p, e, pos) = find acts m.tasks active in
    (i, elim (acts_pos p pos) [ inl l ↦ inl (e ∙ ap some l) | inr l ↦ inr (e ∙ ap some l) ])

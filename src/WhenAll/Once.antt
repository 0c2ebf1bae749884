-- ===== src/WhenAll/Once.antt =====
-- awaiter/when_all.hpp: the caller is resumed once, when all children have finished.
use my_async.Prelude.{
  ℕ, zero, suc, ◌+◌, ◌-◌, ◌<◌, ◌≡◌, refl, ap, ◌∙◌, sym, ◌⊎◌, inl, inr, Bool-cases, Option, none,
  some, List, [], ◌∷◌, get_elem?, set, replicate, length, length-set, length-replicate,
  if◌then◌else◌, ◌==◌, arith,
}
use my_async.WhenAll.{
  WhenAll, await_suspend, when_all_helper, take_results, Step, starts, finishes, Reachable, initial,
  next,
}

-- How many children have no result yet.
abbrev pub missing : {A : Type 0} → List (Option A) → ℕ
missing [] = 0
missing (none ∷ rs) = suc (missing rs)
missing (some a ∷ rs) = missing rs

missing-set :
    {A : Type 0} (rs : List (Option A)) (i : ℕ) (a : A)
    → get_elem? rs i ≡ some none
    → missing (set rs i (some a)) + 1 ≡ missing rs
missing-set {A} [] i a h = absurd (none_ne_some h)
  where
    none_ne_some : get_elem? {A = Option A} [] i ≡ some none → ⊥
    none_ne_some e = cc
missing-set (none ∷ rs) zero a h = omega arith
missing-set (some b ∷ rs) zero a h = absurd (some_ne_none h)
  where
    some_ne_none : get_elem? (some b ∷ rs) zero ≡ some none → ⊥
    some_ne_none e = cc
missing-set (none ∷ rs) (suc i) a h = omega (arith, missing-set rs i a h)
missing-set (some b ∷ rs) (suc i) a h = omega (arith, missing-set rs i a h)

missing-replicate : (A : Type 0) (n : ℕ) → missing {A = A} (replicate n none) ≡ n
missing-replicate A zero = refl
missing-replicate A (suc n) = ap suc (missing-replicate A n)

-- The counter is the number of children without a result, and the caller is resumed when it is 0.
record IsCounted {A : Type 0} (n : ℕ) (s : WhenAll A) : Type 0 where
  size : length s.results ≡ n
  counted : s.count ≡ missing s.results
  once : s.resumed ≡ (if missing s.results == 0 then 1 else 0)

Step-IsCounted :
    {A : Type 0} {n : ℕ} {s s' : WhenAll A} → Step s s' → IsCounted n s → IsCounted n s'
unfolding when_all_helper
Step-IsCounted (starts h) v = record { size = v.size; counted = v.counted; once = v.once }
Step-IsCounted {s} (finishes i a h e) v =
    let m = missing-set s.results i a e in
    record {
      size = length-set s.results i (some a) ∙ v.size;
      counted = omega (arith, m, v.counted);
      once =
          resumes s.count s.resumed (missing s.results) (missing (set s.results i (some a))) m
            v.counted v.once;
    }
  where
    resumes :
        (count resumed k k' : ℕ)
        → k' + 1 ≡ k
        → count ≡ k
        → resumed ≡ (if k == 0 then 1 else 0)
        → (if count - 1 == 0 then suc resumed else resumed) ≡ (if k' == 0 then 1 else 0)
    resumes count resumed k k' h c r = ground arith

await_suspend-IsCounted : {A : Type 0} (n : ℕ) → IsCounted n (await_suspend {A = A} n)
unfolding await_suspend
await_suspend-IsCounted {A} n = record {
  size = length-replicate n none;
  counted = sym (missing-replicate A n);
  once = rw (missing-replicate A n);
}

Reachable-IsCounted : {A : Type 0} {n : ℕ} {s : WhenAll A} → Reachable n s → IsCounted n s
Reachable-IsCounted {n} initial = await_suspend-IsCounted n
Reachable-IsCounted (next s s' r t) = Step-IsCounted t (Reachable-IsCounted r)

take_results-missing :
    {A : Type 0} (rs : List (Option A))
    → missing rs ≡ 0
    → (as' : List A) × (take_results rs ≡ some as') × (length as' ≡ length rs)
unfolding take_results
take_results-missing [] h = ([], refl, refl)
take_results-missing (none ∷ rs) h = absurd (omega arith)
take_results-missing (some a ∷ rs) h =
    let (as', e, l) = take_results-missing rs h in (a ∷ as', rw e, ap suc l)

pub resumed_once :
    {A : Type 0} (n : ℕ) (s : WhenAll A)
    → Reachable n s
    → ((s.resumed ≡ 1) × ((as' : List A) × (take_results s.results ≡ some as') × (length as' ≡ n)))
      ⊎ ((s.resumed ≡ 0) × (0 < missing s.results))
resumed_once n s r =
    let v = Reachable-IsCounted r in
    elim (Bool-cases (missing s.results == 0)) [
      | inl z ↦
          let (as', e, l) = take_results-missing s.results (ground arith) in
          inl (v.once ∙ rw z, (as', e, l ∙ v.size))
      | inr nz ↦ inr (v.once ∙ rw nz, ground arith)
    ]

first_missing :
    {A : Type 0} (rs : List (Option A))
    → 0 < missing rs
    → (i : ℕ) × (get_elem? rs i ≡ some none) × (i < length rs)
first_missing [] h = absurd (omega arith)
first_missing (none ∷ rs) h = (0, refl, omega arith)
first_missing (some a ∷ rs) h = let (i, e, l) = first_missing rs h in (suc i, e, omega arith)

-- In every reachable state in which the caller of `when_all` has not been resumed, the next child
-- can be started or a child that has been started can finish.
pub no_deadlock :
    {A : Type 0} (n : ℕ) (a : A) (s : WhenAll A)
    → Reachable n s
    → s.resumed ≡ 0
    → (s' : WhenAll A) × Step s s'
no_deadlock {A} n a s r z = elim (Bool-cases (s.started == length s.results)) [
  | inl e ↦
      let (i, h, l) = first_missing s.results (waiting (resumed_once n s r)) in
      (when_all_helper i a s, finishes i a (ground arith) h)
  | inr e ↦ (
    record { count = s.count; results = s.results; started = suc s.started; resumed = s.resumed },
    starts (λ q. ground arith),
  )
]
  where
    waiting :
        ((s.resumed ≡ 1)
            × ((as' : List A) × (take_results s.results ≡ some as') × (length as' ≡ n)))
          ⊎ ((s.resumed ≡ 0) × (0 < missing s.results))
        → 0 < missing s.results
    waiting (inl w) = absurd (omega (arith, w.0, z))
    waiting (inr w) = w.1

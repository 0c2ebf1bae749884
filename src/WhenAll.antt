-- ===== src/WhenAll.antt =====
-- awaiter/when_all.hpp: several tasks at once. A child that has been resumed finishes at some time with a
-- value; the children finish one after another, in any order, also while others are being started.
pub mod Once
mod Tests
use my_async.Prelude.{
  ℕ, suc, ◌-◌, ◌<◌, ◌≡◌, Option, none, some, List, [], ◌∷◌, get_elem?, set, replicate, length,
  if◌then◌else◌, ◌==◌,
}

-- `WhenAllCtlBlock` with the results, how many of the children have been resumed, and how often the
-- caller has been. The caller's handle is `mPrevious`.
pub record WhenAll (A : Type 0) : Type 0 where
  pub count : ℕ
  pub results : List (Option A)
  pub started : ℕ
  pub resumed : ℕ

-- `WhenAllAwaiter::await_suspend` of no children resumes the caller at once, which then is not suspended.
-- Otherwise the children are resumed one after another, the last one by symmetric transfer.
unfoldable pub await_suspend : {A : Type 0} → ℕ → WhenAll A
await_suspend n = record {
  count = n;
  results = replicate n none;
  started = 0;
  resumed = if n == 0 then 1 else 0;
}

-- `whenAllHelper` of child `i` once its task has given `a`.
unfoldable pub when_all_helper : {A : Type 0} → ℕ → A → WhenAll A → WhenAll A
when_all_helper i a s =
    let count = s.count - 1 in
    record {
      count = count;
      results = set s.results i (some a);
      started = s.started;
      resumed = if count == 0 then suc s.resumed else s.resumed;
    }

-- The result of `when_all`: every child's value is moved out of its place; an empty place is undefined.
unfoldable pub take_results : {A : Type 0} → List (Option A) → Option (List A)
take_results [] = some []
take_results (none ∷ rs) = none
take_results (some a ∷ rs) = elim (take_results rs) [ none ↦ none | some as' ↦ some (a ∷ as') ]

pub data Step {A : Type 0} (s : WhenAll A) : WhenAll A → Type 0 where
  -- The loop of `await_suspend` resumes the next child.
  starts :
      (s.started ≡ length s.results → ⊥)
      → Step s (record {
        count = s.count;
        results = s.results;
        started = suc s.started;
        resumed = s.resumed;
      })
  -- A child that has been resumed finishes.
  finishes :
      (i : ℕ) (a : A)
      → i < s.started
      → get_elem? s.results i ≡ some none
      → Step s (when_all_helper i a s)

pub data Reachable {A : Type 0} (n : ℕ) : WhenAll A → Type 0 where
  initial : Reachable n (await_suspend n)
  next : (s s' : WhenAll A) → Reachable n s → Step s s' → Reachable n s'

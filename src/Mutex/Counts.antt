-- ===== src/Mutex/Counts.antt =====
-- How many tasks of a BasicMutex of generic/mutex.hpp stand at a place.
use my_async.Prelude.{ℕ, ◌<◌, ◌≡◌, refl, ◌⊎◌, inl, inr, arith}
use my_async.Mutex.{Phase, idle, locking, checking, sleeping, holding, notifying}

abbrev pub holds : Phase → ℕ
holds holding = 1
holds _ = 0

abbrev pub sleeps : Phase → ℕ
sleeps sleeping = 1
sleeps _ = 0

-- A task that will look at the word again, or wake another one.
abbrev pub acts : Phase → ℕ
acts locking = 1
acts notifying = 1
acts _ = 0

pub sleeps_pos : (p : Phase) → 0 < sleeps p → p ≡ sleeping
sleeps_pos sleeping h = refl
sleeps_pos idle h = absurd (omega arith)
sleeps_pos locking h = absurd (omega arith)
sleeps_pos checking h = absurd (omega arith)
sleeps_pos holding h = absurd (omega arith)
sleeps_pos notifying h = absurd (omega arith)

pub acts_pos : (p : Phase) → 0 < acts p → (p ≡ locking) ⊎ (p ≡ notifying)
acts_pos locking h = inl refl
acts_pos notifying h = inr refl
acts_pos idle h = absurd (omega arith)
acts_pos checking h = absurd (omega arith)
acts_pos sleeping h = absurd (omega arith)
acts_pos holding h = absurd (omega arith)

pub holds_pos : (p : Phase) → 0 < holds p → p ≡ holding
holds_pos holding h = refl
holds_pos idle h = absurd (omega arith)
holds_pos locking h = absurd (omega arith)
holds_pos checking h = absurd (omega arith)
holds_pos sleeping h = absurd (omega arith)
holds_pos notifying h = absurd (omega arith)

-- ===== src/Mutex/Tests.antt =====
-- A run of BasicMutex with two tasks: one enters, the other falls asleep, the first leaves.
use my_async.Prelude.{ℕ, ◌≡◌, ◌⊎◌, refl, true, false, some, [], ◌∷◌, get_elem?}
use my_async.Mutex.{
  BasicMutex, idle, locking, sleeping, holding, notifying, starts, exchanges, compares, stores,
  Reachable, initial, next, new_mutex, checking,
}
use my_async.Mutex.Safety.{mutual_exclusion, no_lost_wake}

abbrev first_inside : BasicMutex
first_inside = record { word = true; tasks = holding ∷ idle ∷ [] }

abbrev first_inside-Reachable : Reachable 2 first_inside
first_inside-Reachable =
    next (record { word = false; tasks = locking ∷ idle ∷ [] }) first_inside
      (next (new_mutex 2) (record { word = false; tasks = locking ∷ idle ∷ [] }) initial
        (starts 0 refl))
      (exchanges 0 refl)

-- The second task sleeps, and the first has stored false and not notified yet.
abbrev left : BasicMutex
left = record { word = false; tasks = notifying ∷ sleeping ∷ [] }

abbrev left-Reachable : Reachable 2 left
left-Reachable =
    next (record { word = true; tasks = holding ∷ sleeping ∷ [] }) left
      (next (record { word = true; tasks = holding ∷ checking ∷ [] })
        (record { word = true; tasks = holding ∷ sleeping ∷ [] })
        (next (record { word = true; tasks = holding ∷ locking ∷ [] })
          (record { word = true; tasks = holding ∷ checking ∷ [] })
          (next first_inside (record { word = true; tasks = holding ∷ locking ∷ [] })
            first_inside-Reachable (starts 1 refl))
          (exchanges 1 refl))
        (compares 1 refl))
      (stores 0 refl)

mutual_exclusion_example : ◌≡◌ {A = ℕ} 0 0
mutual_exclusion_example = mutual_exclusion 2 first_inside 0 0 first_inside-Reachable refl refl

no_lost_wake_example :
    (i : ℕ) × ((get_elem? (notifying ∷ sleeping ∷ []) i ≡ some locking)
      ⊎ (get_elem? (notifying ∷ sleeping ∷ []) i ≡ some notifying))
no_lost_wake_example = no_lost_wake 2 left 1 left-Reachable refl refl

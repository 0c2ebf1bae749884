-- ===== src/Stream/Drop/Retext.antt =====
-- iostream/stream_base.hpp: runs that differ in the caller's String only.
use my_async.Prelude.{
  ℕ, ◌≡◌, refl, none, some, List, inl, inr, Bool-cases, true, false, length, sub_size, ◌==◌,
}
use my_async.Expected.{Expected, value, error, or_else_on, transform}
use my_async.Task.{Run, done, undefined, out_of_fuel, Io, await, await_result, await_transform}
use my_async.Stream.{
  Raw, ByteBuffer, BorrowedStream, eof_error, rewind, filled, fill_allocated, fillbuf, size,
  allocinbuf, stream_buffer_size,
}
use my_async.Stream.Blocks.{more_input}

-- A run with `t` for the caller's String.
abbrev pub retext : {R A : Type 0} → List ℕ → Run (BorrowedStream R) A → Run (BorrowedStream R) A
retext t (done e st) = done e (record st { text = t })
retext t undefined = undefined
retext t out_of_fuel = out_of_fuel

-- `P` holds of the value and the state with which a run succeeds.
abbrev pub Ends :
    {R A : Type 0} → (A → BorrowedStream R → Type 0) → Run (BorrowedStream R) A → Type 0
Ends P (done (value a) st) = P a st
Ends P (done (error e) st) = Unit {0}
Ends P undefined = Unit {0}
Ends P out_of_fuel = Unit {0}

pub await-retext :
    {R A B : Type 0} (P : A → BorrowedStream R → Type 0) (t : List ℕ) (r : Run (BorrowedStream R) A)
    (k k' : A → Io (BorrowedStream R) B)
    → Ends P r
    → ((a : A) (st : BorrowedStream R) → P a st → k a (record st { text = t }) ≡ retext t (k' a st))
    → await (retext t r) k ≡ retext t (await r k')
await-retext P t (done (value a) st) k k' ends same = same a st ends
await-retext P t (done (error c) st) k k' ends same = refl
await-retext P t undefined k k' ends same = refl
await-retext P t out_of_fuel k k' ends same = refl

pub await_result-retext :
    {R A B : Type 0} (t : List ℕ) (r : Run (BorrowedStream R) A)
    (k k' : Expected A → Io (BorrowedStream R) B)
    → ((e : Expected A) (st : BorrowedStream R) → k e (record st { text = t }) ≡ retext t (k' e st))
    → await_result (retext t r) k ≡ retext t (await_result r k')
await_result-retext t (done e st) k k' same = same e st
await_result-retext t undefined k k' same = refl
await_result-retext t out_of_fuel k k' same = refl

pub await_transform-retext :
    {R A : Type 0} (t : List ℕ) (e : Expected A) (st : BorrowedStream R)
    → await_transform e (record st { text = t }) (λ a s. done (value a) s)
      ≡ retext t (await_transform e st (λ a s. done (value a) s))
await_transform-retext t (value a) st = refl
await_transform-retext t (error c) st = refl

module _ {R : Type 0} (io : Raw R) where
  filled-retext :
      (t : List ℕ) (st : BorrowedStream R) (x : Expected (List ℕ) × R)
      → filled io (record st { text = t }) x ≡ retext t (filled io st x)
  unfolding filled
  filled-retext t st (error e, r) = refl
  filled-retext t st (value chunk, r) = elim (Bool-cases (length chunk == 0)) [
    | inl z ↦ rw z refl
    | inr nz ↦ rw nz refl
  ]

  fill_allocated-retext :
      (t : List ℕ) (st : BorrowedStream R)
      → fill_allocated io (record st { text = t }) ≡ retext t (fill_allocated io st)
  unfolding fill_allocated
  fill_allocated-retext t st =
      filled-retext t st (io.raw_read (sub_size (size st.in_buffer) st.in_index) st.raw)

  pub fillbuf-retext :
      (t : List ℕ) (st : BorrowedStream R)
      → fillbuf io (rewind (record st { text = t })) ≡ retext t (fillbuf io (rewind st))
  unfolding fillbuf rewind
  fillbuf-retext t st = go st.in_buffer
    where
      go :
          (b : ByteBuffer)
          → fillbuf io (record st { text = t; in_buffer = b; in_index = 0; in_end = 0 })
            ≡ retext t (fillbuf io (record st { in_buffer = b; in_index = 0; in_end = 0 }))
      go none =
          fill_allocated-retext t (
            allocinbuf stream_buffer_size
              (record st { in_buffer = none; in_index = 0; in_end = 0 }))
      go (some buf) =
          fill_allocated-retext t (record st { in_buffer = some buf; in_index = 0; in_end = 0 })

  pub more_input-retext :
      (t : List ℕ) (st : BorrowedStream R)
      → more_input io (rewind (record st { text = t })) ≡ retext t (more_input io (rewind st))
  unfolding more_input
  more_input-retext t st = rw (fillbuf-retext t st) (
      await_result-retext t (fillbuf io (rewind st)) _ _ (λ e s.
        await_transform-retext t (or_else_on (transform e (λ _. true)) eof_error (λ _. false)) s))

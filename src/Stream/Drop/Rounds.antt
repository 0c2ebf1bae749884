-- ===== src/Stream/Drop/Rounds.antt =====
-- iostream/stream_base.hpp: the read positions behind a `fillbuf` that a raw stream of any kind serves.
use my_async.Prelude.{
  take, length-take, ap, sym, ◌∙◌, ◌≤◌, arith, length-replicate, replicate, ℕ, ◌≡◌, refl, none,
  some, List, inl, inr, Bool-cases, Bool, true, false, length, sub_size, ◌==◌,
}
use my_async.Expected.{same_code, Expected, value, error, or_else_on, transform}
use my_async.Task.{Run, done, undefined, out_of_fuel, await_result, await_transform}
use my_async.Stream.{
  Raw, ByteBuffer, BorrowedStream, eof_error, rewind, filled, fill_allocated, fillbuf,
  stream_buffer_size,
}
use my_async.Stream.Source.{IsExactSource, IsUsable, IsReader, stream_buffer_size_bounds}
use my_async.Stream.Source.Fillbuf.{placed, refilled-IsReader}
use my_async.Stream.Blocks.{more_input}
use my_async.Stream.Drop.Retext.{Ends}

-- `raw_read` stores at most as many bytes as the span takes.
abbrev pub IsBounded : {R : Type 0} → Raw R → Type 0
IsBounded {R} io =
    (k : ℕ) (r : R) (chunk : List ℕ) → (io.raw_read k r).0 ≡ value chunk → length chunk ≤ k

pub IsExactSource-IsBounded :
    {R : Type 0} {io : Raw R} {remaining : R → List ℕ} → IsExactSource io remaining → IsBounded io
IsExactSource-IsBounded {remaining} exact k r chunk e =
    let (r', reads, rest) = exact.reads_exactly k r in
    let taken : take k (remaining r) ≡ chunk = value_injective (sym (ap (λ p. p.0) reads) ∙ e) in
    omega (arith, ap length taken, length-take k (remaining r))
  where
    value_injective : {xs ys : List ℕ} → value xs ≡ value ys → xs ≡ ys
    value_injective z = cc

-- A stream as a round of the loops finds it.
abbrev pub Fresh : {R : Type 0} → BorrowedStream R → Type 0
Fresh st = IsReader st × (st.in_index ≡ 0)

-- More input comes with the positions in the buffer.
abbrev pub More : {R : Type 0} → Bool → BorrowedStream R → Type 0
More true st = Fresh st
More false st = Unit {0}

module _ {R : Type 0} (io : Raw R) (bounded : IsBounded io) where
  filled-Fresh :
      (buf : List ℕ) (st : BorrowedStream R) (x : Expected (List ℕ) × R)
      → IsUsable (some buf)
      → ((chunk : List ℕ) → x.0 ≡ value chunk → length chunk ≤ length buf)
      → Ends (λ _. Fresh) (filled io (placed buf 0 0 st) x)
  unfolding filled
  filled-Fresh buf st (error e, r) u fits = tt
  filled-Fresh buf st (value chunk, r) u fits = elim (Bool-cases (length chunk == 0)) [
    | inl z ↦ rw z tt
    | inr nz ↦ rw nz (refilled-IsReader buf 0 0 chunk r st u (omega (arith, fits chunk refl)), refl)
  ]

  fill_allocated-Fresh :
      (buf : List ℕ) (st : BorrowedStream R)
      → IsUsable (some buf)
      → Ends (λ _. Fresh) (fill_allocated io (placed buf 0 0 st))
  unfolding fill_allocated
  fill_allocated-Fresh buf st u =
      let small = u.1 in
      let len : sub_size (length buf) 0 ≡ length buf = omega (arith, small) in
      filled-Fresh buf st (io.raw_read (sub_size (length buf) 0) st.raw) u
        (λ chunk e. omega (arith, len, bounded (sub_size (length buf) 0) st.raw chunk e))

  -- `fillbuf` behind a rewind succeeds with the positions in the buffer, the first one at its start.
  pub fillbuf-Fresh :
      (st : BorrowedStream R) → IsUsable st.in_buffer → Ends (λ _. Fresh) (fillbuf io (rewind st))
  unfolding fillbuf rewind
  fillbuf-Fresh st = go st.in_buffer
    where
      go :
          (b : ByteBuffer)
          → IsUsable b
          → Ends (λ _. Fresh) (fillbuf io (record st { in_buffer = b; in_index = 0; in_end = 0 }))
      go none u =
          fill_allocated-Fresh (replicate stream_buffer_size 0) st
            (rw length-replicate stream_buffer_size_bounds)
      go (some buf) u = fill_allocated-Fresh buf st u

  pub more_input-More :
      (st : BorrowedStream R) → IsUsable st.in_buffer → Ends More (more_input io (rewind st))
  unfolding more_input transform or_else_on
  more_input-More st u = go (fillbuf io (rewind st)) (fillbuf-Fresh st u)
    where
      go :
          (r : Run (BorrowedStream R) (Unit {0}))
          → Ends (λ _. Fresh) r
          → Ends More (
              await_result r λ e st'.
                await_transform
                  (or_else_on (transform e (λ _. true)) eof_error (λ _. false))
                  st'
                  λ more st''. done (value more) st'')
      go (done (value a) s) fresh = fresh
      go (done (error e) s) fresh = elim (Bool-cases (same_code e eof_error)) [
        | inl z ↦ rw z tt
        | inr nz ↦ rw nz tt
      ]
      go undefined fresh = tt
      go out_of_fuel fresh = tt

-- ===== src/Stream/Source/Fillbuf.antt =====
-- `fillbuf` of iostream/stream_base.hpp over a source.
use my_async.Prelude.{
  ℕ, ◌+◌, ◌-◌, ◌≤◌, ◌<◌, ◌≡◌, refl, ◌∙◌, sym, none, some, List, [], ◌∷◌, ◌++◌, length, slice, arith,
  length-write_at, slice-write_at_self, length-replicate, write_at, Bool-cases, inl, inr, replicate,
  ◌==◌, sub_size, add_size, subst,
}
use my_async.Expected.{value, error}
use my_async.Task.{Run, done}
use my_async.Stream.{
  Raw, ByteBuffer, BorrowedStream, size, eof_error, stream_buffer_size, rewind, filled,
  fill_allocated, fillbuf,
}
use my_async.Stream.Source.{
  IsSource, IsUsable, IsReader, unread, pending, SameOutput, stream_buffer_size_bounds,
}

append-eq-nil_right : (xs ys : List ℕ) → xs ++ ys ≡ [] → ys ≡ []
append-eq-nil_right [] ys h = h
append-eq-nil_right (x ∷ xs) ys h = cc

-- The stream with `buf` allocated and the read positions `i` and `e`, and what `filled` makes of it when
-- `chunk` has been read.
abbrev pub placed : {R : Type 0} → List ℕ → ℕ → ℕ → BorrowedStream R → BorrowedStream R
placed buf i e st = record st { in_buffer = some buf; in_index = i; in_end = e }

abbrev pub refilled :
    {R : Type 0} → List ℕ → ℕ → ℕ → List ℕ → R → BorrowedStream R → BorrowedStream R
refilled buf i e chunk r st = record (placed buf i e st) {
  raw = r;
  in_buffer = some (write_at buf i chunk);
  in_end = add_size i (length chunk);
}

pub refilled-IsReader :
    {R : Type 0} (buf : List ℕ) (i e : ℕ) (chunk : List ℕ) (r : R) (st : BorrowedStream R)
    → IsUsable (some buf)
    → i + length chunk ≤ length buf
    → IsReader (refilled buf i e chunk r st)
refilled-IsReader buf i e chunk r st usable fits =
    let kept = length-write_at buf i chunk fits in
    record {
      ordered = omega arith;
      in_buffer = omega (arith, kept);
      usable = (omega (arith, kept), omega (arith, kept));
    }

-- There is a place in the buffer behind the read position, or no buffer yet.
abbrev pub HasRoom : ℕ → ByteBuffer → Type 0
HasRoom i none = Unit {0}
HasRoom i (some buf) = i < length buf

module _ {R : Type 0} {io : Raw R} {remaining : R → List ℕ} (src : IsSource io remaining) where
  -- The outcome of `fillbuf` on a buffer with nothing unread, which is filled from `start` on.
  pub data Filled (start : ℕ) (st : BorrowedStream R) (r : Run (BorrowedStream R) (Unit {0}))
      : Type 0 where
    more :
        (st' : BorrowedStream R)
        → IsReader st'
        → st'.in_index ≡ start
        → 0 < length (unread st')
        → pending remaining st' ≡ remaining st.raw
        → SameOutput st st'
        → r ≡ done (value tt) st'
        → Filled start st r
    ended :
        (st' : BorrowedStream R)
        → IsReader st'
        → pending remaining st' ≡ []
        → remaining st.raw ≡ []
        → SameOutput st st'
        → r ≡ done (error eof_error) st'
        → Filled start st r

  ended_case :
      (buf chunk : List ℕ) (i e : ℕ) (st : BorrowedStream R) (r' : R)
      → IsUsable (some buf)
      → i ≡ e
      → i < length buf
      → remaining st.raw ≡ chunk ++ remaining r'
      → remaining st.raw ≡ []
      → Filled i st (done (error eof_error) (record (placed buf i e st) { raw = r' }))
  unfolding slice
  ended_case buf chunk i e st r' usable same room split end =
      let nothing : e - i ≡ 0 = omega arith in
      ended (record (placed buf i e st) { raw = r' })
        (record { ordered = omega arith; in_buffer = omega arith; usable = usable })
        (rw nothing (append-eq-nil_right chunk (remaining r') (sym split ∙ end))) end
        (record { out_buffer = refl; out_index = refl; text = refl }) refl

  more_case :
      (buf chunk : List ℕ) (i e : ℕ) (st : BorrowedStream R) (r' : R)
      → IsUsable (some buf)
      → remaining st.raw ≡ chunk ++ remaining r'
      → i + length chunk ≤ length buf
      → 0 < length chunk
      → Filled i st (done (value tt) (refilled buf i e chunk r' st))
  more_case buf chunk i e st r' usable split fits some_read =
      more (refilled buf i e chunk r' st) (refilled-IsReader buf i e chunk r' st usable fits) refl
        (rw got some_read) (rw got (sym split))
        (record { out_buffer = refl; out_index = refl; text = refl }) refl
    where
      got : slice (write_at buf i chunk) i (add_size i (length chunk) - i) ≡ chunk
      got =
          let small = usable.1 in
          let k : add_size i (length chunk) - i ≡ length chunk = omega (arith, small) in
          rw k (slice-write_at_self buf i chunk (omega arith))

  fill_allocated-Filled :
      (buf : List ℕ) (i e : ℕ) (st : BorrowedStream R)
      → IsUsable (some buf)
      → i ≡ e
      → i < length buf
      → Filled i st (fill_allocated io (placed buf i e st))
  unfolding fill_allocated filled
  fill_allocated-Filled buf i e st usable same room =
      let small = usable.1 in
      let (chunk, r', read, split, fits, end) = src.reads (length buf - i) st.raw (omega arith) in
      let len : sub_size (length buf) i ≡ length buf - i = omega (arith, small) in
      rw (len, read)
        (elim (Bool-cases (length chunk == 0)) [
          | inl z ↦
              rw z (ended_case buf chunk i e st r' usable same room split (end (ground arith)))
          | inr nz ↦ rw nz (more_case buf chunk i e st r' usable split (omega arith) (ground arith))
        ])

  -- On a source that reports no errors, with the read positions in a usable buffer, nothing
  -- unread between them and a place behind them, or with no buffer, `fillbuf` brings in a part of
  -- what the source holds that is not empty, from the read position on, or reports the end of
  -- file of a source that holds nothing; it allocates a missing buffer and leaves the output side
  -- and the String alone.
  pub fillbuf-Filled :
      (st : BorrowedStream R)
      → IsReader st
      → st.in_index ≡ st.in_end
      → HasRoom st.in_index st.in_buffer
      → Filled st.in_index st (fillbuf io st)
  unfolding fillbuf
  fillbuf-Filled st v = go st.in_buffer v.in_buffer v.usable
    where
      go :
          (b : ByteBuffer)
          → st.in_end ≤ size b
          → IsUsable b
          → st.in_index ≡ st.in_end
          → HasRoom st.in_index b
          → Filled st.in_index st (fillbuf io (record st { in_buffer = b }))
      go none none_held u same room =
          let at_start : 0 ≡ st.in_index = omega arith in
          subst (λ i. Filled i st (fillbuf io (record st { in_buffer = none }))) at_start
            (fill_allocated-Filled (replicate stream_buffer_size 0) 0 0 st
              (rw length-replicate stream_buffer_size_bounds) refl
              (rw length-replicate (stream_buffer_size_bounds.0)))
      go (some buf) held u same room =
          fill_allocated-Filled buf st.in_index st.in_end st u same room

  -- As the operations call it, behind a rewind: then nothing is unread and there is room.
  pub fillbuf-rewind :
      (st : BorrowedStream R) → IsUsable st.in_buffer → Filled 0 st (fillbuf io (rewind st))
  unfolding rewind
  fillbuf-rewind st u =
      elim (fillbuf-Filled (rewind st)
        (record { ordered = omega arith; in_buffer = omega arith; usable = u }) refl
        (room st.in_buffer u)) [
          | more st' v at_start some_left pend same e ↦
              more st' v at_start some_left pend
                (record {
                  out_buffer = same.out_buffer;
                  out_index = same.out_index;
                  text = same.text;
                })
                e
          | ended st' v pend none_left same e ↦
              ended st' v pend none_left
                (record {
                  out_buffer = same.out_buffer;
                  out_index = same.out_index;
                  text = same.text;
                })
                e
        ]
    where
      room : (b : ByteBuffer) → IsUsable b → HasRoom 0 b
      room none u = tt
      room (some buf) u = u.0

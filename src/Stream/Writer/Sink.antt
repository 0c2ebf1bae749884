-- ===== src/Stream/Writer/Sink.antt =====
-- What the writing operations of iostream/stream_base.hpp ask of `raw_write` and `raw_flush`, and
-- what `flush` then does.
use my_async.Prelude.{
  ℕ, zero, suc, ◌+◌, ◌≤◌, ◌<◌, ◌≡◌, refl, ap, ◌∙◌, sym, none, some, List, [], ◌++◌, length, arith,
  take, drop, append_assoc, append-nil, take-append-drop, length-take, length-drop, inl, inr,
  Bool-cases, ◌==◌, ltb, take_all, drop_all, subst, false, length-replicate,
}
use my_async.Expected.{value}
use my_async.Task.{Run, done}
use my_async.Stream.{Raw, ByteBuffer, BorrowedStream, bytes, size, stream_buffer_size, allocoutbuf}
use my_async.Stream.Source.{IsUsable, stream_buffer_size_bounds}
use my_async.Stream.Writer.{flush_rest, flushed, flush}

-- `raw_write` of a span that is not empty takes a part of it that is not empty, from the front, and
-- `raw_flush` succeeds and takes nothing away.
pub record IsSink {R : Type 0} (io : Raw R) (written : R → List ℕ) : Type 0 where
  pub writes :
      (buf : List ℕ) (r : R)
      → 0 < length buf
      → (n : ℕ) × (r' : R) × (io.raw_write buf r ≡ (value n, r'))
        × (0 < n)
        × (n ≤ length buf)
        × (written r' ≡ written r ++ take n buf)
  pub flushes : (r : R) → (r' : R) × (io.raw_flush r ≡ (value tt, r')) × (written r' ≡ written r)

module _ {R : Type 0} where
  -- The write position lies in the buffer.
  pub record IsWriter (st : BorrowedStream R) : Type 0 where
    pub in_range : st.out_index ≤ size st.out_buffer
    pub usable : IsUsable st.out_buffer

  -- The bytes that the stream has been given: those passed on, then those in the buffer.
  abbrev pub sent : (R → List ℕ) → BorrowedStream R → List ℕ
  sent written st = written st.raw ++ take st.out_index (bytes st.out_buffer)

module _ {R : Type 0} {io : Raw R} {written : R → List ℕ} (sink : IsSink io written) where
  -- The outcome of a flush of `buf`.
  pub data Flushed (buf : List ℕ) (st : BorrowedStream R) (r : Run (BorrowedStream R) (Unit {0}))
      : Type 0 where
    all_out :
        (r' : R)
        → written r' ≡ written st.raw ++ buf
        → r ≡ done (value tt) (record st { raw = r'; out_index = 0 })
        → Flushed buf st r

  flushed-Flushed : (st : BorrowedStream R) → Flushed [] st (flushed io st)
  unfolding flushed
  flushed-Flushed st =
      let (r', e, kept) = sink.flushes st.raw in
      all_out r' (kept ∙ sym (append-nil (written st.raw))) (rw e)

  Flushed-append :
      (buf : List ℕ) (n : ℕ) (st : BorrowedStream R) (r₁ : R)
      (r : Run (BorrowedStream R) (Unit {0}))
      → written r₁ ≡ written st.raw ++ take n buf
      → Flushed (drop n buf) (record st { raw = r₁ }) r
      → Flushed buf st r
  Flushed-append buf n st r₁ r first (all_out r' rest e) =
      all_out r'
        (rest
          ∙ ap (λ xs. xs ++ drop n buf) first
          ∙ append_assoc (written st.raw) (take n buf) (drop n buf)
          ∙ ap (◌++◌ (written st.raw)) (take-append-drop n buf))
        e

  flush_rest-Flushed :
      (f : ℕ) (buf : List ℕ) (st : BorrowedStream R)
      → 0 < length buf
      → length buf < f
      → Flushed buf st (flush_rest io f buf st)
  unfolding flush_rest
  flush_rest-Flushed zero buf st pos fuel = absurd (omega arith)
  flush_rest-Flushed (suc f) buf st pos fuel =
      let (n, r₁, e, some_written, fits, first) = sink.writes buf st.raw pos in
      let nonzero : (n == 0) ≡ false = ground arith in
      let in_range : ltb (length buf) n ≡ false = ground arith in
      rw e (
        rw nonzero (elim (Bool-cases (n == length buf)) [
          | inl whole ↦
              let none_left = drop_all n buf (ground arith) in
              rw whole (
                Flushed-append buf n st r₁ _ first (
                  subst
                    (λ xs.
                      Flushed xs (record st { raw = r₁ }) (flushed io (record st { raw = r₁ })))
                    (sym none_left) (flushed-Flushed (record st { raw = r₁ }))))
          | inr part ↦
              rw (part, in_range)
                (Flushed-append buf n st r₁ _ first (
                  flush_rest-Flushed f (drop n buf) (record st { raw = r₁ })
                    (ground (arith, length-drop n buf)) (ground (arith, length-drop n buf))))
        ]))

  -- What `flush` leaves: all that the stream was given is passed on, and the buffer is there, empty.
  pub record Empty (st st' : BorrowedStream R) : Type 0 where
    pub passed_on : written st'.raw ≡ sent written st
    pub at_start : st'.out_index ≡ 0
    pub usable : IsUsable st'.out_buffer
    pub allocated : 0 < size st'.out_buffer
    pub text : st'.text ≡ st.text

  -- On a sink that takes a part of each span and reports no errors, with the write position in
  -- the buffer, `flush` succeeds and passes on exactly the bytes in the buffer, in order and in
  -- however many parts the sink takes them; an allocated, empty buffer is left.
  pub flush-Empty :
      (st : BorrowedStream R)
      → IsWriter st
      → (st' : BorrowedStream R) × (flush io st ≡ done (value tt) st') × Empty st st'
  unfolding flush
  flush-Empty st v = go st.out_buffer v.usable v.in_range
    where
      go :
          (b : ByteBuffer)
          → IsUsable b
          → st.out_index ≤ size b
          → (st' : BorrowedStream R) × (flush io (record st { out_buffer = b })
              ≡ done (value tt) st')
            × Empty (record st { out_buffer = b }) st'
      go none u h = (
        allocoutbuf stream_buffer_size (record st { out_buffer = none }),
        refl,
        record {
          passed_on = sym (
              ap (◌++◌ (written st.raw)) (take_all st.out_index [] (omega arith))
              ∙ append-nil (written st.raw));
          at_start = refl;
          usable = rw length-replicate stream_buffer_size_bounds;
          allocated = rw length-replicate stream_buffer_size_bounds.0;
          text = refl;
        },
      )
      go (some buf) u h = elim (Bool-cases (st.out_index == 0)) [
        | inl z ↦ (
          record st { out_buffer = some buf },
          rw (z, flush),
          record {
            passed_on =
                let e : st.out_index ≡ 0 = ground arith in sym (rw e (append-nil (written st.raw)));
            at_start = ground arith;
            usable = u;
            allocated = u.0;
            text = refl;
          },
        )
        | inr nz ↦
            elim (flush_rest-Flushed (st.out_index + 1) (take st.out_index buf)
              (record st { out_buffer = some buf }) (ground (arith, length-take st.out_index buf))
              (ground (arith, length-take st.out_index buf))) [
                | all_out r' out e ↦ (
                  record st { out_buffer = some buf; raw = r'; out_index = 0 },
                  rw (nz, flush) e,
                  record {
                    passed_on = out;
                    at_start = refl;
                    usable = u;
                    allocated = u.0;
                    text = refl;
                  },
                )
              ]
      ]

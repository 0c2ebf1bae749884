-- ===== src/Stream/Writer/Putspan.antt =====
-- `putspan` of iostream/stream_base.hpp loses and reorders nothing.
use mathlib.Core.Option
use my_async.Prelude.{
  eq-nil_of_length, ℕ, zero, suc, ◌+◌, ◌-◌, ◌≤◌, ◌<◌, ◌≡◌, refl, ap, ◌∙◌, sym, none, some, List, [],
  ◌++◌, length, arith, take, drop, append_assoc, append-nil, take-append-drop, length-take,
  length-drop, inl, inr, Bool-cases, true, leb, take_all, add_size, write_at, length-write_at,
  take-write_at_end,
}
use my_async.Expected.{value}
use my_async.Task.{Run, done}
use my_async.Stream.{Raw, ByteBuffer, BorrowedStream, bytes, size}
use my_async.Stream.Source.{IsUsable, size-lt}
use my_async.Stream.Writer.{put, room, room_size, putspan_from, putspan}
use my_async.Stream.Writer.Sink.{IsSink, IsWriter, sent, flush-Empty}

module _ {R : Type 0} (written : R → List ℕ) where
  module _ (st : BorrowedStream R) (v : IsWriter st) (xs : List ℕ)
      (fits : length xs ≤ room st) where
    sent-put : sent written (put xs (st.out_index + length xs) st) ≡ sent written st ++ xs
    unfolding put
    sent-put = go st.out_buffer v.in_range fits
      where
        go :
            (b : ByteBuffer)
            → st.out_index ≤ size b
            → length xs ≤ size b - st.out_index
            → written st.raw
                ++ take
                    (st.out_index + length xs)
                    (bytes (Option.map (λ buf. write_at buf st.out_index xs) b))
              ≡ (written st.raw ++ take st.out_index (bytes b)) ++ xs
        go none h f =
            let short : length xs ≤ 0 = omega arith in
            rw
              (
                take_all {A = ℕ} (st.out_index + length xs) [] (omega arith),
                take_all {A = ℕ} st.out_index [] (omega arith),
                eq-nil_of_length xs short,
              )
              (sym (append-nil (written st.raw ++ [])))
        go (some buf) h f =
            ap (◌++◌ (written st.raw)) (take-write_at_end buf st.out_index xs h)
            ∙ sym (append_assoc (written st.raw) (take st.out_index buf) xs)

    put-IsWriter : IsWriter (put xs (st.out_index + length xs) st)
    unfolding put
    put-IsWriter = go st.out_buffer v.in_range v.usable fits
      where
        go :
            (b : ByteBuffer)
            → st.out_index ≤ size b
            → IsUsable b
            → length xs ≤ size b - st.out_index
            → IsWriter (record st {
              out_buffer = Option.map (λ buf. write_at buf st.out_index xs) b;
              out_index = st.out_index + length xs;
            })
        go none h u f = record { in_range = omega arith; usable = tt }
        go (some buf) h u f =
            let kept = length-write_at buf st.out_index xs (omega arith) in
            record {
              in_range = omega (arith, kept);
              usable = (omega (arith, kept, u), omega (arith, kept, u));
            }

module _ {R : Type 0} {io : Raw R} {written : R → List ℕ} (sink : IsSink io written) where
  -- What a call that writes `xs` leaves.
  pub data Wrote (xs : List ℕ) (st : BorrowedStream R) (r : Run (BorrowedStream R) (Unit {0}))
      : Type 0 where
    wrote :
        (st' : BorrowedStream R)
        → IsWriter st'
        → sent written st' ≡ sent written st ++ xs
        → r ≡ done (value tt) st'
        → Wrote xs st r

  -- A part is passed on, and the rest written to the empty buffer.
  continue :
      (xs : List ℕ) (n : ℕ) (st s₂ : BorrowedStream R) (r : Run (BorrowedStream R) (Unit {0}))
      → written s₂.raw ≡ sent written st ++ take n xs
      → Wrote (drop n xs) (record s₂ { out_index = 0 }) r
      → Wrote xs st r
  continue xs n st s₂ r given (wrote s' v' all e) =
      wrote s' v'
        (all
          ∙ ap (λ ys. ys ++ drop n xs) (append-nil (written s₂.raw) ∙ given)
          ∙ append_assoc (sent written st) (take n xs) (drop n xs)
          ∙ ap (◌++◌ (sent written st)) (take-append-drop n xs))
        e

  putspan_from-Wrote :
      (f : ℕ) (xs : List ℕ) (st : BorrowedStream R)
      → IsWriter st
      → length xs + 2 ≤ f + room st
      → 1 ≤ f
      → Wrote xs st (putspan_from io f xs st)
  unfolding putspan_from
  putspan_from-Wrote zero xs st v fuel pos = absurd (omega arith)
  putspan_from-Wrote (suc f) xs st v fuel pos = elim (Bool-cases (leb (length xs) (room_size st))) [
    | inl fits ↦
        let enough : length xs ≤ room st = ground (arith, same_room) in
        let really : leb (length xs) (room st) ≡ true = ground arith in
        rw (fits, really, sum enough)
          (wrote (put xs (st.out_index + length xs) st) (put-IsWriter written st v xs enough)
            (sent-put written st v xs enough) refl)
    | inr over ↦
        let many : room st < length xs = ground (arith, same_room) in
        let part : length (take (room st) xs) ≡ room st = omega (arith, length-take (room st) xs) in
        let full : st.out_index + length (take (room st) xs) ≡ size st.out_buffer =
          omega (arith, v.in_range) in
        let s₁ : BorrowedStream R = put (take (room st) xs) (size st.out_buffer) st in
        let fitting : length (take (room st) xs) ≤ room st = omega arith in
        let valid : IsWriter s₁ =
          rw full at (put-IsWriter written st v (take (room st) xs) fitting) in
        let given : sent written s₁ ≡ sent written st ++ take (room st) xs =
          rw full at (sent-put written st v (take (room st) xs) fitting) in
        let (s₂, e, done_flush) = flush-Empty sink s₁ valid in
        let rest =
          putspan_from-Wrote f (drop (room st) xs) (record s₂ { out_index = 0 })
            (record { in_range = omega arith; usable = done_flush.usable })
            (omega (arith, length-drop (room st) xs, done_flush.allocated)) (omega arith) in
        rw (over, e) (continue xs (room st) st s₂ _ (done_flush.passed_on ∙ given) rest)
  ]
    where
      same_room : room_size st ≡ room st
      same_room = omega (arith, v.in_range, size-lt st.out_buffer v.usable)

      sum : length xs ≤ room st → add_size st.out_index (length xs) ≡ st.out_index + length xs
      sum h = omega (arith, v.in_range, size-lt st.out_buffer v.usable)

  -- On a sink that takes a part of each span and reports no errors, with the write position in
  -- the buffer, `putspan` succeeds, and the bytes that the stream has been given grow by exactly
  -- the bytes written, in order, whether they are passed on or wait in the buffer. The write
  -- position stays in the buffer.
  pub putspan-Wrote :
      (xs : List ℕ) (st : BorrowedStream R) → IsWriter st → Wrote xs st (putspan io xs st)
  unfolding putspan
  putspan-Wrote xs st v = putspan_from-Wrote (length xs + 2) xs st v (omega arith) (omega arith)

-- ===== src/Stream/Drop.antt =====
-- The `drop…` operations of iostream/stream_base.hpp against the `get…` operations.
mod Retext
mod Rounds
pub use Retext.{retext}
pub use Rounds.{IsBounded, IsExactSource-IsBounded}
use my_async.Prelude.{
  ◌≤◌, ◌<◌, ◌^◌, arith, length-replicate, replicate, [], subst, ℕ, zero, suc, ◌+◌, ◌-◌, ◌≡◌, refl,
  none, some, List, inl, inr, Bool-cases, Bool, true, false, length, leb, add_size, sub_size, slice,
  Option-cases, ◌==◌,
}
use my_async.Expected.{same_code, Expected, value, error, or_else_on, transform}
use my_async.Task.{Run, done, undefined, out_of_fuel, Io, await, await_result, await_transform}
use my_async.Stream.{
  Raw, ByteBuffer, BorrowedStream, bytes, eof_error, rewind, append, filled, fill_allocated,
  fillbuf, size, allocinbuf, stream_buffer_size,
}
use my_async.Stream.Source.{
  IsUsable, IsReader, left_inside, left_size, stream_buffer_size_bounds, size-lt,
}
use my_async.Stream.Source.Fillbuf.{placed, refilled-IsReader}
use my_async.Stream.Reader.Getline.{mark_bound}
use my_async.Stream.Reader.{find_eol, getline_from, getline, dropline_from, dropline}
use my_async.Stream.Blocks.{
  getn_from, getn, dropn_from, dropn, more_input, getall_from, getall, dropall,
}
use my_async.Stream.Drop.Retext.{await-retext, fillbuf-retext, more_input-retext}
use my_async.Stream.Drop.Rounds.{Fresh, fillbuf-Fresh, More, more_input-More}

module _ {R : Type 0} (io : Raw R) (bounded : IsBounded io) where
  dropn_from-getn_from :
      (f n : ℕ) (t : List ℕ) (st : BorrowedStream R)
      → IsReader st
      → n < 2 ^ 62
      → dropn_from io f n st.in_index (record st { text = t })
        ≡ retext t (getn_from io f n st.in_index st)
  unfolding dropn_from getn_from append
  dropn_from-getn_from zero n t st v small = refl
  dropn_from-getn_from (suc f) n t st v small =
      elim (Bool-cases (leb (add_size st.in_index n) st.in_end)) [
        | inl fits ↦
            let inside : leb (st.in_index + n) (size st.in_buffer) ≡ true =
              ground (arith, sum, v.in_buffer) in
            rw (fits, inside) refl
        | inr over ↦
            let few : m ≤ n = ground (arith, sum, left) in
            rw (over, left_inside st v, fillbuf-retext io t (append taken st))
              (await-retext (λ _. Fresh) t (fillbuf io (rewind (append taken st))) _ _
                (fillbuf-Fresh io bounded (append taken st) v.usable)
                (λ _ s fresh.
                  subst
                    (λ i.
                      dropn_from io f (sub_size n m) i (record s { text = t })
                      ≡ retext t (getn_from io f (sub_size n m) i s))
                    fresh.1
                    (dropn_from-getn_from f (sub_size n m) t s fresh.0 (omega (arith, few)))))
      ]
    where
      m : ℕ
      m = sub_size st.in_end st.in_index

      taken : List ℕ
      taken = slice (bytes st.in_buffer) st.in_index m

      bound : st.in_end < 2 ^ 62
      bound = omega (arith, v.in_buffer, size-lt st.in_buffer v.usable)

      sum : add_size st.in_index n ≡ st.in_index + n
      sum = omega (arith, bound, v.ordered)

      left : m ≡ st.in_end - st.in_index
      left = left_size st v

  -- On every stream with its read positions in the buffer, over a raw stream that stores at most
  -- as many bytes as a span takes but may report errors, and for n below 2 ^ 62, `dropn` has the
  -- result of `getn` and does to the stream what `getn` does, but for the caller's String, which
  -- it leaves alone.
  pub dropn-getn :
      (n : ℕ) (st : BorrowedStream R)
      → IsReader st
      → n < 2 ^ 62
      → dropn io n st ≡ retext st.text (getn io n st)
  unfolding dropn getn
  dropn-getn n st v small = dropn_from-getn_from (n + 2) n st.text st v small

  dropline_from-getline_from :
      (f eol : ℕ) (t : List ℕ) (st : BorrowedStream R)
      → IsReader st
      → dropline_from io f eol st.in_index (record st { text = t })
        ≡ retext t (getline_from io f eol st.in_index st)
  unfolding dropline_from getline_from append
  dropline_from-getline_from zero eol t st v = refl
  dropline_from-getline_from (suc f) eol t st v =
      elim (Option-cases
        (find_eol (bytes st.in_buffer) eol st.in_index (st.in_end - st.in_index))) [
          | inr (j, found) ↦
              let inside : leb j (size st.in_buffer) ≡ true =
                ground (arith, mark_bound st v eol j found, v.in_buffer) in
              rw (found, dropline_from, getline_from) (rw inside refl)
          | inl missing ↦
              rw (missing, dropline_from, getline_from)
                (rw (left_inside st v, fillbuf-retext io t (append taken st))
                  (await-retext (λ _. Fresh) t (fillbuf io (rewind (append taken st))) _ _
                    (fillbuf-Fresh io bounded (append taken st) v.usable)
                    (λ _ s fresh.
                      subst
                        (λ i.
                          dropline_from io f eol i (record s { text = t })
                          ≡ retext t (getline_from io f eol i s))
                        fresh.1 (dropline_from-getline_from f eol t s fresh.0))))
        ]
    where
      taken : List ℕ
      taken = slice (bytes st.in_buffer) st.in_index (sub_size st.in_end st.in_index)

  -- On every stream with its read positions in the buffer, and with the same fuel, `dropline` has
  -- the result of `getline` and does to the stream what `getline` does, but for the caller's
  -- String, which it leaves alone.
  dropline-getline :
      (fuel eol : ℕ) (st : BorrowedStream R)
      → IsReader st
      → dropline io fuel eol st ≡ retext st.text (getline io fuel eol st)
  unfolding dropline getline
  dropline-getline fuel eol st v = dropline_from-getline_from fuel eol st.text st v

  dropall-getall_from :
      (f : ℕ) (t : List ℕ) (st : BorrowedStream R)
      → IsReader st
      → dropall io f (record st { text = t }) ≡ retext t (getall_from io f st.in_index st)
  unfolding dropall getall_from append
  dropall-getall_from zero t st v = refl
  dropall-getall_from (suc f) t st v =
      rw (left_inside st v, more_input-retext io t (append taken st))
        (await-retext More t (more_input io (rewind (append taken st))) _ _
          (more_input-More io bounded (append taken st) v.usable)
          (again (λ s reader. dropall-getall_from f t s reader)))
    where
      taken : List ℕ
      taken = slice (bytes st.in_buffer) st.in_index (sub_size st.in_end st.in_index)

      again :
          ((s : BorrowedStream R)
            → IsReader s
            → dropall io f (record s { text = t }) ≡ retext t (getall_from io f s.in_index s))
          → (more : Bool) (s : BorrowedStream R) → More more s
          → elim more [
            | true ↦ dropall io f (record s { text = t })
            | false ↦ done (value tt) (record s { text = t })
          ]
            ≡ retext t (elim more [ true ↦ getall_from io f 0 s | false ↦ done (value tt) s ])
      again rest true s fresh =
          subst (λ i. dropall io f (record s { text = t }) ≡ retext t (getall_from io f i s))
            fresh.1 (rest s fresh.0)
      again rest false s fresh = refl

  -- On every stream with its read positions in the buffer, and with the same fuel, `dropall` has
  -- the result of `getall` and does to the stream what `getall` does, but for the caller's
  -- String, which it leaves alone.
  dropall-getall :
      (fuel : ℕ) (st : BorrowedStream R)
      → IsReader st
      → dropall io fuel st ≡ retext st.text (getall io fuel st)
  unfolding getall
  dropall-getall fuel st v = dropall-getall_from fuel st.text st v

-- ===== src/Stream/Blocks/Getn.antt =====
-- `getn` and `dropn` of iostream/stream_base.hpp take exactly the next bytes of the input.
use my_async.Prelude.{
  true, ℕ, zero, suc, ◌+◌, ◌-◌, ◌≤◌, ◌<◌, ◌^◌, ◌≡◌, refl, ap, ap₂, subst, ◌∙◌, sym, List, [], ◌++◌,
  length, slice, arith, take, drop, leb, Bool-cases, inl, inr, add_size, sub_size, append_assoc,
  append-nil, length-append,
}
use my_async.Expected.{value, error}
use my_async.Task.{Run, done}
use my_async.Stream.{Raw, BorrowedStream, bytes, size, eof_error, append}
use my_async.Stream.Source.{
  left_size, left_inside, text-unread, IsSource, IsReader, unread, pending, length-unread,
  take-unread, drop-unread, le-length-pending, take-past, drop-past, size-lt,
}
use my_async.Stream.Source.Fillbuf.{more, ended, fillbuf-rewind}
use my_async.Stream.Blocks.{getn_from, getn}

module _ {R : Type 0} {io : Raw R} {remaining : R → List ℕ} (src : IsSource io remaining) where
  -- What a request for `n` bytes leaves: the bytes in the caller's String, the rest unread; or, at
  -- the end of the input, all that there was in the String, and the error.
  pub data Got (n : ℕ) (st : BorrowedStream R) (r : Run (BorrowedStream R) (Unit {0}))
      : Type 0 where
    got :
        (st' : BorrowedStream R)
        → n ≤ length (pending remaining st)
        → IsReader st'
        → st'.text ≡ st.text ++ take n (pending remaining st)
        → pending remaining st' ≡ drop n (pending remaining st)
        → r ≡ done (value tt) st'
        → Got n st r
    ran_out :
        (st' : BorrowedStream R)
        → length (pending remaining st) < n
        → st'.text ≡ st.text ++ pending remaining st
        → pending remaining st' ≡ []
        → r ≡ done (error eof_error) st'
        → Got n st r

  module _ (n : ℕ) (st : BorrowedStream R) (v : IsReader st) where
    abbrev left : ℕ
    left = st.in_end - st.in_index

    -- The request is met from the buffer.
    here_case :
        st.in_index + n ≤ st.in_end
        → Got n st (
            done (value tt) (record (append (slice (bytes st.in_buffer) st.in_index n) st) {
              in_index = st.in_index + n;
            }))
    unfolding append
    here_case fits =
        got
          (record (append (slice (bytes st.in_buffer) st.in_index n) st) {
            in_index = st.in_index + n;
          })
          (le-length-pending buf st.in_index st.in_end n rest fits v.in_buffer)
          (record { ordered = fits; in_buffer = v.in_buffer; usable = v.usable })
          (ap (◌++◌ st.text) (sym (take-unread buf st.in_index st.in_end n rest fits v.in_buffer)))
          (sym (drop-unread buf st.in_index st.in_end n rest fits v.in_buffer)) refl
      where
        buf : List ℕ
        buf = bytes st.in_buffer

        rest : List ℕ
        rest = remaining st.raw

    -- The buffer is used up, the source has more, and the rest of the request is served from there.
    later_case :
        (s₁ : BorrowedStream R) (r : Run (BorrowedStream R) (Unit {0}))
        → left < n
        → pending remaining s₁ ≡ remaining st.raw
        → s₁.text ≡ st.text ++ unread st
        → Got (n - left) s₁ r
        → Got n st r
    later_case s₁ r few pend txt (got s' enough v' text' pend' e) =
        let rest = remaining st.raw in
        let held = length-unread st v in
        got s' (omega (arith, length-append (unread st) rest, held, ap length pend, enough)) v'
          (text'
            ∙ ap₂ ◌++◌ txt (ap (take (n - left)) pend)
            ∙ append_assoc st.text (unread st) (take (n - left) rest)
            ∙ ap (◌++◌ st.text) (sym (take-past n left (unread st) rest held (omega arith))))
          (pend'
            ∙ ap (drop (n - left)) pend
            ∙ sym (drop-past n left (unread st) rest held (omega arith)))
          e
    later_case s₁ r few pend txt (ran_out s' short text' pend' e) =
        let rest = remaining st.raw in
        ran_out s'
          (omega (arith, length-append (unread st) rest, length-unread st v, ap length pend, short))
          (text' ∙ ap₂ ◌++◌ txt pend ∙ append_assoc st.text (unread st) rest) pend' e

    -- The buffer is used up and so is the source.
    last_case :
        (s' : BorrowedStream R) (r : Run (BorrowedStream R) (Unit {0}))
        → left < n
        → remaining st.raw ≡ []
        → s'.text ≡ st.text ++ unread st
        → pending remaining s' ≡ []
        → r ≡ done (error eof_error) s'
        → Got n st r
    last_case s' r few none_left txt pend e =
        ran_out s'
          (omega (
            arith,
            length-append (unread st) (remaining st.raw),
            length-unread st v,
            ap length none_left,
          ))
          (txt ∙ ap (◌++◌ st.text) (sym (ap (◌++◌ (unread st)) none_left ∙ append-nil (unread st))))
          pend e

  getn_from-Got :
      (f n : ℕ) (st : BorrowedStream R)
      → IsReader st
      → n < 2 ^ 62
      → n + 2 ≤ f + (st.in_end - st.in_index)
      → 1 ≤ f
      → Got n st (getn_from io f n st.in_index st)
  unfolding getn_from append
  getn_from-Got zero n st v small fuel pos = absurd (omega arith)
  getn_from-Got (suc f) n st v small fuel pos =
      elim (Bool-cases (leb (add_size st.in_index n) st.in_end)) [
        | inl fits ↦
            let here : st.in_index + n ≤ st.in_end = ground (arith, sum) in
            let inside : leb (st.in_index + n) (size st.in_buffer) ≡ true =
              ground (arith, v.in_buffer) in
            rw (fits, inside) (rw sum (here_case n st v here))
        | inr over ↦
            let few : st.in_end - st.in_index < n = ground (arith, sum) in
            rw (over, left_inside st v)
              (elim (fillbuf-rewind src (append taken st) v.usable) [
                | more s₁ v₁ at_start some_left pend same e ↦
                    let left_less : sub_size n (st.in_end - st.in_index)
                        ≡ n - (st.in_end - st.in_index) =
                      omega arith in
                    let fuel' : n - (st.in_end - st.in_index) + 2 ≤ f + (s₁.in_end - s₁.in_index) =
                      omega (arith, length-unread s₁ v₁) in
                    let rest =
                      getn_from-Got f (n - (st.in_end - st.in_index)) s₁ v₁ (omega arith) fuel'
                        (omega arith) in
                    rw (e, left_eq, left_less)
                      (later_case n st v s₁ _ few pend (same.text ∙ text-unread st v) (
                        subst
                          (λ i.
                            Got (n - (st.in_end - st.in_index)) s₁
                              (getn_from io f (n - (st.in_end - st.in_index)) i s₁))
                          at_start rest))
                | ended s' v' pend none_left same e ↦
                    rw e
                      (last_case n st v s' _ few none_left (same.text ∙ text-unread st v) pend refl)
              ])
      ]
    where
      bound : st.in_end < 2 ^ 62
      bound = omega (arith, v.in_buffer, size-lt st.in_buffer v.usable)

      sum : add_size st.in_index n ≡ st.in_index + n
      sum = omega (arith, bound, v.ordered)

      left_eq : sub_size st.in_end st.in_index ≡ st.in_end - st.in_index
      left_eq = left_size st v

      taken : List ℕ
      taken = slice (bytes st.in_buffer) st.in_index (sub_size st.in_end st.in_index)

  -- On a source that reports no errors, with the read positions in the buffer and n below 2 ^ 62,
  -- `getn` takes exactly the next n bytes of the input, whatever parts the source delivers them
  -- in, and appends them to the caller's String. If the input has fewer, it appends them all and
  -- reports the end of file. The fuel that it starts with is always enough.
  pub getn-Got :
      (n : ℕ) (st : BorrowedStream R) → IsReader st → n < 2 ^ 62 → Got n st (getn io n st)
  unfolding getn
  getn-Got n st v small = getn_from-Got (n + 2) n st v small (omega arith) (omega arith)

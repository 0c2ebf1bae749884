-- ===== src/Stream/Blocks/Getall.antt =====
-- iostream/stream_base.hpp: what `getall` takes from the input.
use my_async.Prelude.{
  ◌+◌, leb, true, ℕ, zero, suc, ◌<◌, ◌≡◌, refl, ap, ◌∙◌, sym, subst, List, [], ◌++◌, length, slice,
  arith, append_assoc, append-nil, length-append, sub_size,
}
use my_async.Expected.{value, transform, or_else_on}
use my_async.Task.{Run, done}
use my_async.Stream.{Raw, BorrowedStream, bytes, size, append}
use my_async.Stream.Source.{IsSource, IsReader, unread, pending, text-unread, left_inside}
use my_async.Stream.Source.Fillbuf.{more, ended, fillbuf-rewind}
use my_async.Stream.Blocks.{more_input, getall_from, getall}

module _ {R : Type 0} {io : Raw R} {remaining : R → List ℕ} (src : IsSource io remaining) where
  -- The outcome of `getall`.
  pub data GotAll (st : BorrowedStream R) (r : Run (BorrowedStream R) (Unit {0})) : Type 0 where
    got_all :
        (st' : BorrowedStream R)
        → IsReader st'
        → st'.text ≡ st.text ++ pending remaining st
        → pending remaining st' ≡ []
        → r ≡ done (value tt) st'
        → GotAll st r

  later_case :
      (st s₁ : BorrowedStream R) (r : Run (BorrowedStream R) (Unit {0}))
      → pending remaining s₁ ≡ remaining st.raw
      → s₁.text ≡ st.text ++ unread st
      → GotAll s₁ r
      → GotAll st r
  later_case st s₁ r pend txt (got_all s' v' text' pend' e) =
      got_all s' v'
        (text'
          ∙ ap (λ xs. xs ++ pending remaining s₁) txt
          ∙ append_assoc st.text (unread st) (pending remaining s₁)
          ∙ ap (λ xs. st.text ++ (unread st ++ xs)) pend)
        pend' e

  getall_from-GotAll :
      (f : ℕ) (st : BorrowedStream R)
      → IsReader st
      → length (remaining st.raw) < f
      → GotAll st (getall_from io f st.in_index st)
  unfolding getall_from more_input append transform or_else_on
  getall_from-GotAll zero st v fuel = absurd (omega arith)
  getall_from-GotAll (suc f) st v fuel =
      rw inside (elim (fillbuf-rewind src (append taken st) v.usable) [
        | more s₁ v₁ at_start some_left pend same e ↦
            let less : length (remaining s₁.raw) < f =
              omega (arith, length-append (unread s₁) (remaining s₁.raw), ap length pend) in
            let rest = getall_from-GotAll f s₁ v₁ less in
            rw e (
              later_case st s₁ _ pend (same.text ∙ text-unread st v)
                (subst (λ i. GotAll s₁ (getall_from io f i s₁)) at_start rest))
        | ended s' v' pend none_left same e ↦ rw e (
            got_all s' v'
              (same.text
                ∙ text-unread st v
                ∙ ap (◌++◌ st.text)
                    (sym (ap (◌++◌ (unread st)) none_left ∙ append-nil (unread st))))
              pend refl)
      ])
    where
      taken : List ℕ
      taken = slice (bytes st.in_buffer) st.in_index (sub_size st.in_end st.in_index)

      inside : leb (st.in_index + sub_size st.in_end st.in_index) (size st.in_buffer) ≡ true
      inside = left_inside st v

  -- On a source that reports no errors, with the read positions in the buffer, `getall` appends
  -- the whole rest of the input to the caller's String, in whatever parts the source delivers it,
  -- succeeds, and leaves nothing to read. Fuel for one round more than the source has bytes is
  -- enough.
  pub getall-GotAll :
      (fuel : ℕ) (st : BorrowedStream R)
      → IsReader st
      → length (remaining st.raw) < fuel
      → GotAll st (getall io fuel st)
  unfolding getall
  getall-GotAll fuel st v enough = getall_from-GotAll fuel st v enough

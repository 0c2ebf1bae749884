-- ===== src/Stream/Reader/Getline.antt =====
-- `getline` of iostream/stream_base.hpp takes exactly the next line of the input.
use my_async.Prelude.{
  true, leb, ℕ, zero, suc, ◌+◌, ◌-◌, ◌<◌, ◌≡◌, refl, ap, ap₂, subst, ◌∙◌, sym, List, [], ◌++◌,
  length, slice, arith, inl, inr, sub_size, append_assoc, none, some, Option-cases, append-nil,
  length-append,
}
use my_async.Expected.{value, error}
use my_async.Task.{Run, done}
use my_async.Stream.{Raw, BorrowedStream, bytes, size, eof_error, append}
use my_async.Stream.Source.{IsSource, IsReader, unread, pending, text-unread, left_inside}
use my_async.Stream.Source.Fillbuf.{more, ended, fillbuf-rewind}
use my_async.Stream.Reader.{find_eol, getline_from, getline}
use my_async.Stream.Reader.Lines.{
  split_line, append_line, split_line-append_some, split_line-append_none, find_eol-none,
  find_eol-some,
}

-- A mark that is found lies in front of the end of what is unread.
pub mark_bound :
    {R : Type 0} (st : BorrowedStream R)
    → IsReader st
    → (eol j : ℕ) → find_eol (bytes st.in_buffer) eol st.in_index (st.in_end - st.in_index) ≡ some j
    → j < st.in_end
mark_bound st v eol j found =
    let (low, high, split) =
      find_eol-some (bytes st.in_buffer) eol st.in_index (st.in_end - st.in_index) j
        (omega (arith, v.ordered, v.in_buffer)) found in
    omega (arith, high, v.ordered)

module _ {R : Type 0} {io : Raw R} {remaining : R → List ℕ} (src : IsSource io remaining)
    (eol : ℕ) where
  -- What a request for a line leaves: the line in the caller's String, what follows the mark unread;
  -- or, where no mark is left, all of the input in the String, and the error.
  pub data GotLine (st : BorrowedStream R) (r : Run (BorrowedStream R) (Unit {0})) : Type 0 where
    got :
        (st' : BorrowedStream R) (line : List ℕ)
        → split_line eol (pending remaining st) ≡ some (line, pending remaining st')
        → IsReader st'
        → st'.text ≡ st.text ++ line
        → r ≡ done (value tt) st'
        → GotLine st r
    ran_out :
        (st' : BorrowedStream R)
        → split_line eol (pending remaining st) ≡ none
        → st'.text ≡ st.text ++ pending remaining st
        → pending remaining st' ≡ []
        → r ≡ done (error eof_error) st'
        → GotLine st r

  module _ (st : BorrowedStream R) (v : IsReader st) where
    -- The mark is in the buffer, at position `j`.
    here_case :
        (j : ℕ)
        → find_eol (bytes st.in_buffer) eol st.in_index (st.in_end - st.in_index) ≡ some j
        → GotLine st (
            done
              (value tt)
              (record (append (slice (bytes st.in_buffer) st.in_index (j - st.in_index)) st) {
                in_index = j + 1;
              }))
    unfolding append
    here_case j found =
        let (low, high, split) =
          find_eol-some (bytes st.in_buffer) eol st.in_index (st.in_end - st.in_index) j
            (omega (arith, v.ordered, v.in_buffer)) found in
        let total : st.in_index + (st.in_end - st.in_index) ≡ st.in_end =
          omega (arith, v.ordered) in
        got
          (record (append (slice (bytes st.in_buffer) st.in_index (j - st.in_index)) st) {
            in_index = j + 1;
          })
          (slice (bytes st.in_buffer) st.in_index (j - st.in_index))
          (split_line-append_some eol (unread st) (remaining st.raw) _ _ (rw total at split))
          (record {
            ordered = omega (arith, v.ordered);
            in_buffer = v.in_buffer;
            usable = v.usable;
          })
          refl refl

    later_case :
        (s₁ : BorrowedStream R) (r : Run (BorrowedStream R) (Unit {0}))
        → split_line eol (unread st) ≡ none
        → pending remaining s₁ ≡ remaining st.raw
        → s₁.text ≡ st.text ++ unread st
        → GotLine s₁ r
        → GotLine st r
    later_case s₁ r no_mark pend txt (got s' line split v' text' e) =
        got s' (unread st ++ line)
          (split_line-append_none eol (unread st) (remaining st.raw) no_mark
            ∙ ap (append_line (unread st)) (ap (split_line eol) (sym pend) ∙ split))
          v' (text' ∙ ap (λ xs. xs ++ line) txt ∙ append_assoc st.text (unread st) line) e
    later_case s₁ r no_mark pend txt (ran_out s' split text' pend' e) =
        ran_out s'
          (split_line-append_none eol (unread st) (remaining st.raw) no_mark
            ∙ ap (append_line (unread st)) (ap (split_line eol) (sym pend) ∙ split))
          (text' ∙ ap₂ ◌++◌ txt pend ∙ append_assoc st.text (unread st) (remaining st.raw)) pend' e

    last_case :
        (s' : BorrowedStream R) (r : Run (BorrowedStream R) (Unit {0}))
        → split_line eol (unread st) ≡ none
        → remaining st.raw ≡ []
        → s'.text ≡ st.text ++ unread st
        → pending remaining s' ≡ []
        → r ≡ done (error eof_error) s'
        → GotLine st r
    last_case s' r no_mark none_left txt pend e =
        let all : unread st ≡ pending remaining st =
          sym (ap (◌++◌ (unread st)) none_left ∙ append-nil (unread st)) in
        ran_out s' (ap (split_line eol) (sym all) ∙ no_mark) (txt ∙ ap (◌++◌ st.text) all) pend e

  getline_from-GotLine :
      (f : ℕ) (st : BorrowedStream R)
      → IsReader st
      → length (remaining st.raw) < f
      → GotLine st (getline_from io f eol st.in_index st)
  unfolding getline_from append
  getline_from-GotLine zero st v fuel = absurd (omega arith)
  getline_from-GotLine (suc f) st v fuel =
      elim (Option-cases
        (find_eol (bytes st.in_buffer) eol st.in_index (st.in_end - st.in_index))) [
          | inr (j, found) ↦
              let inside : leb j (size st.in_buffer) ≡ true =
                ground (arith, mark_bound st v eol j found, v.in_buffer) in
              rw (found, getline_from) (rw inside (here_case st v j found))
          | inl missing ↦
              let no_mark =
                find_eol-none (bytes st.in_buffer) eol st.in_index (st.in_end - st.in_index)
                  (omega (arith, v.ordered, v.in_buffer)) missing in
              rw (missing, getline_from)
                (rw (left_inside st v) (elim (fillbuf-rewind src (append taken st) v.usable) [
                  | more s₁ v₁ at_start some_left pend same e ↦
                      let less : length (remaining s₁.raw) < f =
                        omega
                          (arith, length-append (unread s₁) (remaining s₁.raw), ap length pend) in
                      let rest = getline_from-GotLine f s₁ v₁ less in
                      rw e (
                        later_case st v s₁ _ no_mark pend (same.text ∙ text-unread st v)
                          (subst (λ i. GotLine s₁ (getline_from io f eol i s₁)) at_start rest))
                  | ended s' v' pend none_left same e ↦ rw e (
                      last_case st v s' _ no_mark none_left (same.text ∙ text-unread st v) pend
                        refl)
                ]))
        ]
    where
      taken : List ℕ
      taken = slice (bytes st.in_buffer) st.in_index (sub_size st.in_end st.in_index)

  -- On a source that reports no errors, with the read positions in the buffer, `getline` takes
  -- exactly the input up to the next end mark: it appends the line without the mark to the
  -- caller's String and leaves what follows the mark unread, whatever parts the source delivers
  -- the bytes in. If no mark is left, it appends the whole input and reports the end of file.
  -- Fuel for one round more than the source has bytes is enough.
  pub getline-GotLine :
      (fuel : ℕ) (st : BorrowedStream R)
      → IsReader st
      → length (remaining st.raw) < fuel
      → GotLine st (getline io fuel eol st)
  unfolding getline
  getline-GotLine fuel st v enough = getline_from-GotLine fuel st v enough

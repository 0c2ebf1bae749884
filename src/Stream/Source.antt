-- ===== src/Stream/Source.antt =====
-- What the reading operations of iostream/stream_base.hpp ask of `raw_read`, and the unread bytes.
pub mod Fillbuf
use my_async.Prelude.{
  ℕ, ◌+◌, ◌-◌, ◌≤◌, ◌<◌, ◌^◌, ◌≡◌, refl, ◌∙◌, sym, none, some, List, [], ◌∷◌, ◌++◌, length, slice,
  arith, length-write_at, slice-write_at_self, length-replicate, write_at, Bool-cases, inl, inr,
  replicate, ◌==◌, sub_size, add_size, ap, take, drop, take-append_le, take-append_ge,
  take-append-drop, length-take, leb, true, eq-nil_of_length, subst, drop-append_le, drop-append_ge,
  take-slice, drop-slice, length-slice, length-append,
}
use my_async.Expected.{value, error}
use my_async.Task.{Run, done}
use my_async.Stream.{
  Raw, ByteBuffer, BorrowedStream, bytes, size, eof_error, stream_buffer_size, rewind, filled,
  fill_allocated, fillbuf,
}

-- `raw_read` on a source that holds `remaining` bytes: into a span that is not empty it stores a
-- prefix of them, empty only at the end, and reports no error.
pub record IsSource {R : Type 0} (io : Raw R) (remaining : R → List ℕ) : Type 0 where
  pub reads :
      (k : ℕ) (r : R)
      → 0 < k
      → (chunk : List ℕ) × (r' : R) × (io.raw_read k r ≡ (value chunk, r'))
        × (remaining r ≡ chunk ++ remaining r')
        × (length chunk ≤ k)
        × (length chunk ≡ 0 → remaining r ≡ [])

-- `raw_read` that always stores as many of the remaining bytes as the span takes.
pub record IsExactSource {R : Type 0} (io : Raw R) (remaining : R → List ℕ) : Type 0 where
  pub reads_exactly :
      (k : ℕ) (r : R)
      → (r' : R) × (io.raw_read k r ≡ (value (take k (remaining r)), r'))
        × (remaining r' ≡ drop k (remaining r))

pub IsExactSource-IsSource :
    {R : Type 0} {io : Raw R} {remaining : R → List ℕ}
    → IsExactSource io remaining
    → IsSource io remaining
IsExactSource-IsSource {remaining} exact = record {
  reads = λ k r pos.
      let (r', e, rest) = exact.reads_exactly k r in
      (
        take k (remaining r),
        r',
        e,
        sym (ap (λ xs. take k (remaining r) ++ xs) rest ∙ take-append-drop k (remaining r)),
        omega (arith, length-take k (remaining r)),
        λ none_read. eq-nil_of_length (remaining r) (omega (arith, length-take k (remaining r))),
      );
}

-- A buffer that has been allocated has room, and all sizes are far from wrapping.
abbrev pub IsUsable : ByteBuffer → Type 0
IsUsable none = Unit {0}
IsUsable (some xs) = (0 < length xs) × (length xs < 2 ^ 62)

module _ {R : Type 0} where
  -- The read positions lie in the buffer, in order.
  pub record IsReader (st : BorrowedStream R) : Type 0 where
    pub ordered : st.in_index ≤ st.in_end
    pub in_buffer : st.in_end ≤ size st.in_buffer
    pub usable : IsUsable st.in_buffer

  abbrev pub unread : BorrowedStream R → List ℕ
  unread st = slice (bytes st.in_buffer) st.in_index (st.in_end - st.in_index)

  -- The bytes that a reader of the stream will see.
  abbrev pub pending : (R → List ℕ) → BorrowedStream R → List ℕ
  pending remaining st = unread st ++ remaining st.raw

  -- What the output side and the caller's String keep.
  pub record SameOutput (s t : BorrowedStream R) : Type 0 where
    pub out_buffer : t.out_buffer ≡ s.out_buffer
    pub out_index : t.out_index ≡ s.out_index
    pub text : t.text ≡ s.text

pub size-lt : (b : ByteBuffer) → IsUsable b → size b < 2 ^ 62
size-lt none u = omega arith
size-lt (some xs) u = u.1

-- Taking `n` of the unread bytes: what is taken, and what is then unread. The list `rest` stands for
-- what follows the buffer.
module _ (buf : List ℕ) (i e n : ℕ) (rest : List ℕ) (fits : i + n ≤ e)
    (bound : e ≤ length buf) where
  enough : n ≤ length (slice buf i (e - i))
  enough = omega (arith, length-slice buf i (e - i) (omega arith))

  pub take-unread : take n (slice buf i (e - i) ++ rest) ≡ slice buf i n
  take-unread =
      take-append_le n (slice buf i (e - i)) rest enough ∙ take-slice n (e - i) i buf (omega arith)

  pub drop-unread : drop n (slice buf i (e - i) ++ rest) ≡ slice buf (i + n) (e - (i + n)) ++ rest
  drop-unread =
      let same : e - i - n ≡ e - (i + n) = omega arith in
      drop-append_le n (slice buf i (e - i)) rest enough
      ∙ ap (λ xs. xs ++ rest) (drop-slice n (e - i) i buf ∙ ap (slice buf (i + n)) same)

  pub le-length-pending : n ≤ length (slice buf i (e - i) ++ rest)
  le-length-pending = omega (arith, length-append (slice buf i (e - i)) rest, enough)

-- Taking more than the `k` unread bytes goes on with what follows.
module _ (n k : ℕ) (buf rest : List ℕ) (held : length buf ≡ k) (few : k ≤ n) where
  pub take-past : take n (buf ++ rest) ≡ buf ++ take (n - k) rest
  take-past = rw (← held) (take-append_ge n buf rest (omega arith))

  pub drop-past : drop n (buf ++ rest) ≡ drop (n - k) rest
  drop-past = rw (← held) (drop-append_ge n buf rest (omega arith))

module _ {R : Type 0} where
  pub length-unread :
      (st : BorrowedStream R) → IsReader st → length (unread st) ≡ st.in_end - st.in_index
  length-unread st v =
      length-slice (bytes st.in_buffer) st.in_index (st.in_end - st.in_index)
        (omega (arith, v.ordered, v.in_buffer))

  pub left_size :
      (st : BorrowedStream R)
      → IsReader st
      → sub_size st.in_end st.in_index ≡ st.in_end - st.in_index
  left_size st v = omega (arith, v.ordered, v.in_buffer, size-lt st.in_buffer v.usable)

  pub left_inside :
      (st : BorrowedStream R)
      → IsReader st
      → leb (st.in_index + sub_size st.in_end st.in_index) (size st.in_buffer) ≡ true
  left_inside st v = let left = left_size st v in ground (arith, left, v.ordered, v.in_buffer)

  -- What the loops append before they fill the buffer is what is unread.
  pub text-unread :
      (st : BorrowedStream R)
      → IsReader st
      → st.text ++ slice (bytes st.in_buffer) st.in_index (sub_size st.in_end st.in_index)
        ≡ st.text ++ unread st
  text-unread st v = ap (λ k. st.text ++ slice (bytes st.in_buffer) st.in_index k) (left_size st v)

pub stream_buffer_size_bounds : (0 < stream_buffer_size) × (stream_buffer_size < 2 ^ 62)
unfolding stream_buffer_size
stream_buffer_size_bounds = omega arith

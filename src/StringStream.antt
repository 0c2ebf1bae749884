-- ===== src/StringStream.antt =====
-- iostream/string_stream.hpp: raw streams over a string, which provide what the buffered stream asks
-- of a source and of a sink.
mod Tests
use my_async.Prelude.{
  eq-nil_of_length, ℕ, ◌+◌, ◌-◌, ◌≤◌, ◌<◌, ◌^◌, ◌≡◌, refl, ap, ◌∙◌, sym, List, [], ◌∷◌, ◌++◌,
  length, arith, take, drop, slice, add_size, sub_size, min, length-take, length-drop,
  take-append-drop, take_all, take-min, drop-min, length-slice, drop-drop,
}
use my_async.Expected.{Expected, value}
use my_async.Stream.{Raw, base_stream}
use my_async.Stream.Source.{IsSource, IsExactSource, IsExactSource-IsSource}
use my_async.Stream.Drop.{IsBounded, IsExactSource-IsBounded}
use my_async.Stream.Writer.Sink.{IsSink}

-- `IStringStream`: the view that it reads, and how far it has read.
pub record IStringStream : Type 0 where
  pub view : List ℕ
  pub position : ℕ

-- `raw_read` into a span of `k` bytes.
unfoldable pub read_view : ℕ → IStringStream → Expected (List ℕ) × IStringStream
read_view k s =
    let n = min k (sub_size (length s.view) s.position) in
    (value (slice s.view s.position n), record s { position = add_size s.position n })

-- `uread_str`.
unfoldable pub unread_view : IStringStream → List ℕ
unread_view s = drop s.position s.view

-- The position stays in the view.
pub record InView : Type 0 where
  pub stream : IStringStream
  pub bounded : stream.position ≤ length stream.view
  pub small : length stream.view < 2 ^ 62

module _ (k : ℕ) (s : IStringStream) (bounded : s.position ≤ length s.view)
    (small : length s.view < 2 ^ 62) where
  abbrev n : ℕ
  n = min k (sub_size (length s.view) s.position)

  read_view_bounded :
      ((read_view k s).1.position ≤ length s.view) × (length (read_view k s).1.view < 2 ^ 62)
  unfolding read_view
  read_view_bounded = omega arith

  -- `raw_read` gives the next bytes of the view, as many as fit the span.
  read_view_lem : (read_view k s).0 ≡ value (take k (unread_view s))
  unfolding read_view unread_view slice
  read_view_lem =
      ap value
        (take-min k n (drop s.position s.view) (omega (arith, length-drop s.position s.view)))

  unread_view-read_view : unread_view (read_view k s).1 ≡ drop k (unread_view s)
  unfolding read_view unread_view
  unread_view-read_view =
      let sum : add_size s.position n ≡ s.position + n = omega arith in
      ap (λ i. drop i s.view) sum
      ∙ sym (drop-drop n s.position s.view)
      ∙ drop-min k n (drop s.position s.view) (omega (arith, length-drop s.position s.view))

-- An input string stream as a raw stream.
pub view_raw : Raw InView
unfolding read_view
view_raw = record base_stream {
  raw_read = λ k r.
      let next = read_view k r.stream in
      (
        next.0,
        record {
          stream = next.1;
          bounded = (read_view_bounded k r.stream r.bounded r.small).0;
          small = (read_view_bounded k r.stream r.bounded r.small).1;
        },
      );
}

-- `OStringStream`: `raw_write` appends all of the span to the output string.
unfoldable pub write_output : List ℕ → List ℕ → Expected ℕ × List ℕ
write_output buf output = (value (length buf), output ++ buf)

pub output_raw : Raw (List ℕ)
unfolding write_output
output_raw = record base_stream { raw_write = write_output }

-- An output string stream is a sink: `raw_write` takes all of a span and appends it to the
-- output, and `raw_flush` changes nothing.
pub output_raw-IsSink : IsSink output_raw (λ output. output)
unfolding output_raw
output_raw-IsSink = record {
  writes = λ buf r pos. (
    length buf,
    r ++ buf,
    refl,
    pos,
    omega arith,
    ap (◌++◌ r) (sym (take_all (length buf) buf (omega arith))),
  );
  flushes = λ r. (r, refl, refl);
}

-- An input string stream gives exactly the unread part of its view: `raw_read` into a span of any
-- size stores as many of these bytes as the span takes, from the first on, reports no error, and
-- leaves those that follow unread.
pub view_raw-IsExactSource : IsExactSource view_raw (λ r. unread_view r.stream)
unfolding view_raw
view_raw-IsExactSource = record {
  reads_exactly = λ k r. (
    (view_raw.raw_read k r).1,
    ap (λ e. (e, (view_raw.raw_read k r).1)) (read_view_lem k r.stream r.bounded r.small),
    unread_view-read_view k r.stream r.bounded r.small,
  );
}

-- It gives the buffered stream what this asks of a source.
pub view_raw-IsSource : IsSource view_raw (λ r. unread_view r.stream)
view_raw-IsSource = IsExactSource-IsSource view_raw-IsExactSource

pub view_raw-IsBounded : IsBounded view_raw
view_raw-IsBounded = IsExactSource-IsBounded view_raw-IsExactSource

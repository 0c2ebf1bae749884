-- ===== src/StringStream/Tests.antt =====
-- Concrete runs of the buffered stream over string streams.
use my_async.Prelude.{ℕ, ◌+◌, ◌≤◌, ◌<◌, ◌^◌, ◌≡◌, refl, some, none, List, [], ◌∷◌, ◌++◌, arith}
use my_async.Task.{Run, done, undefined, out_of_fuel}
use my_async.Expected.{value}
use my_async.Stream.{BorrowedStream, eof_error, rewind, fillbuf}
use my_async.Stream.Source.{IsReader}
use my_async.Stream.Source.Fillbuf.{Filled, fillbuf-Filled}
use my_async.Stream.Blocks.{getn, dropn, getall}
use my_async.Stream.Reader.{getline}
use my_async.Stream.Blocks.Getn.{Got, getn-Got}
use my_async.Stream.Blocks.Getall.{GotAll, getall-GotAll}
use my_async.Stream.Reader.Getline.{GotLine, getline-GotLine}
use my_async.Stream.Writer.{flush, putspan}
use my_async.Stream.Writer.Sink.{IsWriter, Empty, flush-Empty}
use my_async.Stream.Writer.Putspan.{Wrote, putspan-Wrote}
use my_async.Stream.Drop.{retext, dropn-getn}
use my_async.StringStream.{
  InView, view_raw, unread_view, view_raw-IsSource, view_raw-IsBounded, output_raw,
  output_raw-IsSink,
}

abbrev view : InView
view = record {
  stream = record { view = 10 ∷ 20 ∷ 30 ∷ 40 ∷ 50 ∷ 60 ∷ []; position = 1 };
  bounded = omega arith;
  small = omega arith;
}

-- Two bytes are unread in a buffer of three, and five more are in the view.
abbrev reader : BorrowedStream InView
reader = record {
  in_buffer = some (1 ∷ 2 ∷ 3 ∷ []);
  in_index = 1;
  in_end = 3;
  out_buffer = none;
  out_index = 0;
  raw = view;
  text = 7 ∷ [];
}

abbrev reader-IsReader : IsReader reader
reader-IsReader = record {
  ordered = omega arith;
  in_buffer = omega arith;
  usable = (omega arith, omega arith);
}

abbrev writer : BorrowedStream (List ℕ)
writer = record {
  in_buffer = none;
  in_index = 0;
  in_end = 0;
  out_buffer = some (1 ∷ 2 ∷ 3 ∷ []);
  out_index = 2;
  raw = 9 ∷ [];
  text = [];
}

abbrev writer-IsWriter : IsWriter writer
writer-IsWriter = record { in_range = omega arith; usable = (omega arith, omega arith) }

-- Its buffer of three has been read up to the place 1.
abbrev used_up : BorrowedStream InView
used_up = record reader { in_end = 1 }

fillbuf-Filled_example : Filled view_raw-IsSource 1 used_up (fillbuf view_raw used_up)
fillbuf-Filled_example =
    fillbuf-Filled view_raw-IsSource used_up
      (record {
        ordered = omega arith;
        in_buffer = omega arith;
        usable = (omega arith, omega arith);
      })
      refl (omega arith)

getn-Got_example : Got view_raw-IsSource 6 reader (getn view_raw 6 reader)
getn-Got_example = getn-Got view_raw-IsSource 6 reader reader-IsReader (omega arith)

getall-GotAll_example : GotAll view_raw-IsSource reader (getall view_raw 6 reader)
unfolding unread_view
getall-GotAll_example = getall-GotAll view_raw-IsSource 6 reader reader-IsReader (omega arith)

getline-GotLine_example : GotLine view_raw-IsSource 50 reader (getline view_raw 6 50 reader)
unfolding unread_view
getline-GotLine_example =
    getline-GotLine view_raw-IsSource 50 6 reader reader-IsReader (omega arith)

dropn-getn_example : dropn view_raw 6 reader ≡ retext (7 ∷ []) (getn view_raw 6 reader)
dropn-getn_example = dropn-getn view_raw view_raw-IsBounded 6 reader reader-IsReader (omega arith)

flush-Empty_example :
    (st' : BorrowedStream (List ℕ)) × (flush output_raw writer ≡ done (value tt) st')
    × Empty output_raw-IsSink writer st'
flush-Empty_example = flush-Empty output_raw-IsSink writer writer-IsWriter

putspan-Wrote_example :
    Wrote output_raw-IsSink
      (4 ∷ 5 ∷ 6 ∷ 7 ∷ 8 ∷ [])
      writer
      (putspan output_raw (4 ∷ 5 ∷ 6 ∷ 7 ∷ 8 ∷ []) writer)
putspan-Wrote_example =
    putspan-Wrote output_raw-IsSink (4 ∷ 5 ∷ 6 ∷ 7 ∷ 8 ∷ []) writer writer-IsWriter

-- `putspan` of five bytes over a buffer of three with one place left.
putspan_run :
    putspan output_raw (4 ∷ 5 ∷ 6 ∷ 7 ∷ 8 ∷ []) writer
    ≡ done (value tt) (record writer {
      raw = 9 ∷ 1 ∷ 2 ∷ 4 ∷ 5 ∷ 6 ∷ 7 ∷ [];
      out_buffer = some (8 ∷ 6 ∷ 7 ∷ []);
      out_index = 1;
    })
unfolding putspan output_raw flush my_async.Prelude.write_at
putspan_run = refl

-- The String and the positions after a run.
abbrev seen : Run (BorrowedStream InView) (Unit {0}) → List ℕ × ℕ × ℕ
seen (done e st) = (st.text, st.in_index, st.in_end)
seen undefined = ([], 0, 0)
seen out_of_fuel = ([], 0, 0)

getn_run : seen (getn view_raw 6 reader) ≡ (7 ∷ 2 ∷ 3 ∷ 20 ∷ 30 ∷ 40 ∷ 50 ∷ [], 1, 2)
unfolding getn view_raw fillbuf my_async.Prelude.slice rewind my_async.Stream.append
    my_async.Prelude.write_at
getn_run = refl

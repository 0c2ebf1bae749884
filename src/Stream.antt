-- ===== src/Stream.antt =====
-- iostream/stream_base.hpp and iostream/byte_buffer.hpp: the state of a buffered stream, and the
-- operations on its buffers that both directions use.
pub mod Reader
pub mod Blocks
pub mod Writer
pub mod Source
pub mod Drop
use my_async.Prelude.{
  ℕ, ◌+◌, Bool, Option, none, some, List, [], ◌++◌, length, replicate, slice, write_at, add_size,
  sub_size, ◌==◌, if◌then◌else◌,
}
use my_async.Expected.{ErrorCode, eof, Expected, value, error, not_supported, invalid_seek, of_errc}
use my_async.Task.{Run, done, Io}

-- `kStreamBufferSize`.
pub stream_buffer_size : ℕ
stream_buffer_size = 8192

-- `eofError()`: code 1 in the category of its own.
abbrev pub eof_error : ErrorCode
eof_error = record { category = eof; code = 1 }

-- `struct Stream`: the virtual functions that a raw stream overrides, over its own state. What
-- `raw_read` stores in the span of the given size comes back as the list of those bytes.
pub record Raw (R : Type 0) : Type 0 where
  pub raw_seek : ℕ → R → Expected (Unit {0}) × R
  pub raw_flush : R → Expected (Unit {0}) × R
  pub raw_close : R → R
  pub raw_read : ℕ → R → Expected (List ℕ) × R
  pub raw_write : List ℕ → R → Expected ℕ × R

-- The bodies that `Stream` itself gives to them.
abbrev pub base_stream : {R : Type 0} → Raw R
base_stream = record {
  raw_seek = λ pos r. (of_errc invalid_seek, r);
  raw_flush = λ r. (value tt, r);
  raw_close = λ r. r;
  raw_read = λ n r. (of_errc not_supported, r);
  raw_write = λ bytes r. (of_errc not_supported, r);
}

-- `ByteBuffer`: `none` is the null pointer. Fresh memory, which C++ leaves indeterminate, is zeros.
abbrev pub ByteBuffer : Type 0
ByteBuffer = Option (List ℕ)

abbrev pub bytes : ByteBuffer → List ℕ
bytes none = []
bytes (some xs) = xs

abbrev pub size : ByteBuffer → ℕ
size b = length (bytes b)

pub allocate : ℕ → ByteBuffer
allocate n = some (replicate n 0)

-- `struct BorrowedStream`, with the String that the running `get…` call appends to.
pub record BorrowedStream (R : Type 0) : Type 0 where
  pub in_buffer : ByteBuffer
  pub in_index : ℕ
  pub in_end : ℕ
  pub out_buffer : ByteBuffer
  pub out_index : ℕ
  pub raw : R
  pub text : List ℕ

module _ {R : Type 0} where
  -- The constructor leaves `mOutIndex` as it finds it.
  unfoldable pub open_stream : R → ℕ → BorrowedStream R
  open_stream r found = record {
    in_buffer = none;
    in_index = 0;
    in_end = 0;
    out_buffer = none;
    out_index = found;
    raw = r;
    text = [];
  }

  unfoldable pub allocinbuf : ℕ → BorrowedStream R → BorrowedStream R
  unfolding allocate
  allocinbuf n st = elim st.in_buffer [
    | none ↦ record st { in_buffer = allocate n; in_index = 0; in_end = 0 }
    | some _ ↦ st
  ]

  unfoldable pub allocoutbuf : ℕ → BorrowedStream R → BorrowedStream R
  unfolding allocate
  allocoutbuf n st = elim st.out_buffer [
    | none ↦ record st { out_buffer = allocate n; out_index = 0 }
    | some _ ↦ st
  ]

  -- `bufempty` compares the read position with the write position.
  unfoldable pub bufempty : BorrowedStream R → Bool
  bufempty st = st.in_index == st.out_index

  pub buffull : BorrowedStream R → Bool
  buffull st = st.out_index == size st.out_buffer

  -- `mInEnd = mInIndex = 0`, which stands before each `fillbuf`.
  unfoldable pub rewind : BorrowedStream R → BorrowedStream R
  rewind st = record st { in_index = 0; in_end = 0 }

  -- `s.append(bytes, n)`.
  unfoldable pub append : List ℕ → BorrowedStream R → BorrowedStream R
  append xs st = record st { text = st.text ++ xs }

  unfoldable pub peekbuf : BorrowedStream R → List ℕ
  peekbuf st = slice (bytes st.in_buffer) st.in_index (sub_size st.in_end st.in_index)

  unfoldable pub seenbuf : ℕ → BorrowedStream R → BorrowedStream R
  seenbuf n st = record st { in_index = add_size st.in_index n }

module _ {R : Type 0} (io : Raw R) where
  -- `fillbuf` after `raw_read`: what was read stands from `mInIndex` on.
  unfoldable pub filled :
      BorrowedStream R → Expected (List ℕ) × R → Run (BorrowedStream R) (Unit {0})
  filled st (error e, r) = done (error e) (record st { raw = r })
  filled st (value chunk, r) =
      if length chunk == 0
      then done (error eof_error) (record st { raw = r })
      else done (value tt) (record st {
        raw = r;
        in_buffer = some (write_at (bytes st.in_buffer) st.in_index chunk);
        in_end = add_size st.in_index (length chunk);
      })

  unfoldable pub fill_allocated : Io (BorrowedStream R) (Unit {0})
  unfolding filled
  fill_allocated st = filled st (io.raw_read (sub_size (size st.in_buffer) st.in_index) st.raw)

  unfoldable pub fillbuf : Io (BorrowedStream R) (Unit {0})
  unfolding allocinbuf fill_allocated
  fillbuf st = fill_allocated (allocinbuf stream_buffer_size st)

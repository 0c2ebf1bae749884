-- ===== src/Files.antt =====
-- iostream/file_stream.cpp: streams over files, and the reading and writing of whole files. The
-- operations of the file system are parameters.
pub mod Whole
mod Tests
use my_async.Prelude.{ℕ, Option, none, some, List}
use my_async.Expected.{Expected, value, error, value_or}
use my_async.Task.{Run, done, undefined, out_of_fuel, Io, await}
use my_async.Stream.{Raw, base_stream, BorrowedStream, open_stream}
use my_async.Stream.Blocks.{getall_string}
use my_async.Stream.Writer.{puts, flush}

pub data OpenMode : Type 0 where
  read write read_write append directory : OpenMode

-- What platform/fs.hpp provides: `F` is an open file with its contents. `fs_close` gives the file as the
-- system keeps it.
pub record FileSystem (F : Type 0) : Type 0 where
  pub fs_open : List ℕ → OpenMode → Expected F
  pub fs_read : ℕ → F → Expected (List ℕ) × F
  pub fs_write : List ℕ → F → Expected ℕ × F
  pub fs_close : F → Expected (Unit {0}) × F

module _ {F : Type 0} (fs : FileSystem F) where
  -- `FileStream`; the result of `fs_close` is dropped.
  abbrev pub file_stream : Raw F
  file_stream = record base_stream {
    raw_read = fs.fs_read;
    raw_write = fs.fs_write;
    raw_close = λ file. (fs.fs_close file).1;
  }

  -- A task over the stream of an open file; the state left is the file.
  abbrev pub over_file : {A : Type 0} → Run (BorrowedStream F) A → Run (Option F) A
  over_file (done e st) = done e (some st.raw)
  over_file undefined = undefined
  over_file out_of_fuel = out_of_fuel

  -- `file_open` with what `mOutIndex` holds by chance, and the rest of the coroutine.
  abbrev pub with_file : {A : Type 0} → ℕ → Expected F → Io (BorrowedStream F) A → Run (Option F) A
  with_file found (error e) rest = done (error e) none
  with_file found (value file) rest = over_file (rest (open_stream file found))

  unfoldable pub file_read : ℕ → ℕ → List ℕ → Run (Option F) (List ℕ)
  file_read found fuel path =
      with_file found (fs.fs_open path read) (getall_string file_stream fuel)

  -- What `file_write` and `file_append` do with the open file.
  unfoldable pub put_all : List ℕ → Io (BorrowedStream F) (Unit {0})
  put_all content st =
      await (puts file_stream content st)
        λ _ st₁. await (flush file_stream st₁) (λ _ st₂. done (value tt) st₂)

  unfoldable pub file_write : ℕ → List ℕ → List ℕ → Run (Option F) (Unit {0})
  unfolding put_all
  file_write found path content = with_file found (fs.fs_open path write) (put_all content)

  unfoldable pub file_append : ℕ → List ℕ → List ℕ → Run (Option F) (Unit {0})
  unfolding put_all
  file_append found path content = with_file found (fs.fs_open path append) (put_all content)

-- ===== src/Files/Whole.antt =====
-- iostream/file_stream.cpp: what is written to a file, and what is read from it.
use my_async.Prelude.{ℕ, ◌<◌, ◌≡◌, ap, ◌∙◌, some, List, ◌++◌, length, arith, append-nil, slice}
use my_async.Expected.{value}
use my_async.Task.{done, await}
use my_async.Stream.{open_stream}
use my_async.Stream.Source.{IsSource, IsReader}
use my_async.Stream.Writer.{puts}
use my_async.Stream.Writer.Sink.{IsSink, IsWriter, flush-Empty}
use my_async.Stream.Writer.Putspan.{wrote, putspan-Wrote}
use my_async.Stream.Blocks.{getall_string}
use my_async.Stream.Blocks.Getall.{got_all, getall-GotAll}
use my_async.Files.{
  FileSystem, read, write, append, file_stream, over_file, put_all, file_read, file_write,
  file_append,
}

module _ {F : Type 0} (fs : FileSystem F) where
  module _ (written : F → List ℕ) (sink : IsSink (file_stream fs) written) where
    put_all_lem :
        (content : List ℕ) (file : F)
        → (file' : F) × (over_file fs (put_all fs content (open_stream file 0))
            ≡ done (value tt) (some file'))
          × (written file' ≡ written file ++ content)
    unfolding put_all puts open_stream
    put_all_lem content file =
        elim (putspan-Wrote sink content (open_stream file 0) open-IsWriter) [
          | wrote st₁ v₁ given e ↦
              let (st₂, e₂, k) = flush-Empty sink st₁ v₁ in
              (
                st₂.raw,
                rw (e, await) (rw (e₂, await)),
                k.passed_on ∙ given ∙ ap (λ l. l ++ content) (append-nil (written file)),
              )
        ]
      where
        open-IsWriter : IsWriter (open_stream file 0)
        open-IsWriter = record { in_range = omega arith; usable = tt }

    -- On a file system whose files take a part of each span and report no errors, `file_write`
    -- and `file_append` of a path that opens in their mode succeed. What the opened file has been
    -- given then grows by exactly the content, in order; nothing stays in the buffer. The
    -- stream's write position starts at 0.
    pub file_write-append :
        (path content : List ℕ) (truncated file : F)
        → fs.fs_open path write ≡ value truncated
        → fs.fs_open path append ≡ value file
        → ((file' : F) × (file_write fs 0 path content ≡ done (value tt) (some file'))
            × (written file' ≡ written truncated ++ content))
          × ((file' : F) × (file_append fs 0 path content ≡ done (value tt) (some file'))
              × (written file' ≡ written file ++ content))
    unfolding file_write file_append
    file_write-append path content truncated file o o' =
        let (file', e, k) = put_all_lem content truncated in
        let (file'', e', k') = put_all_lem content file in
        ((file', rw o e, k), (file'', rw o' e', k'))

  module _ (remaining : F → List ℕ) (source : IsSource (file_stream fs) remaining) where
    -- On a file system whose files are sources and report no errors, `file_read` of a path that
    -- opens succeeds and gives exactly what the file holds. Fuel for one round more than that has
    -- bytes is enough.
    pub file_read_lem :
        (found fuel : ℕ) (path : List ℕ) (file : F)
        → fs.fs_open path read ≡ value file
        → length (remaining file) < fuel
        → (file' : F) × (file_read fs found fuel path ≡ done (value (remaining file)) (some file'))
    unfolding file_read getall_string open_stream slice
    file_read_lem found fuel path file o enough =
        elim (getall-GotAll source fuel (open_stream file found) open-IsReader enough) [
          | got_all st v text nothing e ↦ (st.raw, rw o (rw (e, await) (rw text)))
        ]
      where
        open-IsReader : IsReader (open_stream file found)
        open-IsReader = record { ordered = omega arith; in_buffer = omega arith; usable = tt }

-- ===== src/Files/Tests.antt =====
-- iostream/file_stream.cpp: a file system that holds one file in memory.
use my_async.Prelude.{
  ℕ, ◌≡◌, refl, ap, sym, some, List, [], ◌∷◌, ◌++◌, length, take, drop, arith, take_all,
  length-take, take-append-drop, eq-nil_of_length,
}
use my_async.Expected.{value}
use my_async.Task.{done}
use my_async.Stream.Source.{IsSource}
use my_async.Stream.Writer.Sink.{IsSink}
use my_async.Files.{FileSystem, file_stream, file_write, file_append, file_read, OpenMode}
use my_async.Files.Whole.{file_write-append, file_read_lem}

abbrev content_of : OpenMode → List ℕ
content_of OpenMode.write = []
content_of _ = 1 ∷ (2 ∷ [])

abbrev memory : FileSystem (List ℕ)
memory = record {
  fs_open = λ path mode. value (content_of mode);
  fs_read = λ n file. (value (take n file), drop n file);
  fs_write = λ buf file. (value (length buf), file ++ buf);
  fs_close = λ file. (value tt, file);
}

memory-IsSink : IsSink (file_stream memory) (λ file. file)
memory-IsSink = record {
  writes = λ buf file pos. (
    length buf,
    file ++ buf,
    refl,
    pos,
    omega arith,
    ap (◌++◌ file) (sym (take_all (length buf) buf (omega arith))),
  );
  flushes = λ file. (file, refl, refl);
}

memory-IsSource : IsSource (file_stream memory) (λ file. file)
memory-IsSource = record {
  reads = λ k file pos. (
    take k file,
    drop k file,
    refl,
    sym (take-append-drop k file),
    omega (arith, length-take k file),
    λ z. eq-nil_of_length file (omega (arith, length-take k file)),
  );
}

file_write-append_example :
    ((file : List ℕ) × (file_write memory 0 [] (7 ∷ []) ≡ done (value tt) (some file))
      × (file ≡ 7 ∷ []))
    × ((file : List ℕ) × (file_append memory 0 [] (7 ∷ []) ≡ done (value tt) (some file))
        × (file ≡ 1 ∷ (2 ∷ (7 ∷ []))))
file_write-append_example =
    file_write-append memory (λ file. file) memory-IsSink [] (7 ∷ []) [] (1 ∷ (2 ∷ [])) refl refl

file_read_lem_example :
    (file : List ℕ) × (file_read memory 0 3 [] ≡ done (value (1 ∷ (2 ∷ []))) (some file))
file_read_lem_example =
    file_read_lem memory (λ file. file) memory-IsSource 0 3 [] (1 ∷ (2 ∷ [])) refl (omega arith)

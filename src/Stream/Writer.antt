-- ===== src/Stream/Writer.antt =====
-- iostream/stream_base.hpp: the operations that put bytes into a BorrowedStream, and `flush`.
pub mod Sink
pub mod Putspan
use mathlib.Core.Option
use my_async.Prelude.{
  ℕ, zero, suc, ◌+◌, ◌-◌, none, some, List, length, take, drop, write_at, add_size, sub_size, leb,
  ltb, ◌==◌, if◌then◌else◌, min,
}
use my_async.Expected.{Expected, value, error}
use my_async.Task.{Run, done, undefined, out_of_fuel, Io, await}
use my_async.Stream.{Raw, BorrowedStream, size, eof_error, stream_buffer_size, allocoutbuf, buffull}

module _ {R : Type 0} where
  -- Bytes copied to the write position, and the position moved to `last`.
  unfoldable pub put : List ℕ → ℕ → BorrowedStream R → BorrowedStream R
  put xs last st = record st {
    out_buffer = Option.map (λ buf. write_at buf st.out_index xs) st.out_buffer;
    out_index = last;
  }

  -- The bytes that `while (b < be)` can place, and the `size_t` that the code compares with.
  abbrev pub room : BorrowedStream R → ℕ
  room st = size st.out_buffer - st.out_index

  abbrev pub room_size : BorrowedStream R → ℕ
  room_size st = sub_size (size st.out_buffer) st.out_index

module _ {R : Type 0} (io : Raw R) where
  abbrev St : Type 0
  St = BorrowedStream R

  -- The end of `flush`, once `raw_write` has taken all.
  unfoldable pub flushed : Io St (Unit {0})
  flushed st = let (e, r) = io.raw_flush st.raw in done e (record st { raw = r; out_index = 0 })

  -- The body of the loop of `flush` over what is left of the buffer, and the tests behind it, once
  -- `raw_write` has answered. A `subspan` past the end is undefined.
  unfoldable pub wrote :
      (ℕ → Io St (Unit {0}))
      → List ℕ
      → BorrowedStream R
      → Expected ℕ × R
      → Run (BorrowedStream R) (Unit {0})
  wrote rest buf st (error c, r) = done (error c) (record st { raw = r })
  wrote rest buf st (value len, r) =
      let st' : St = record st { raw = r } in
      if len == 0
      then done (error eof_error) st'
      else if len == length buf
      then flushed st'
      else if ltb (length buf) len
      then undefined
      else rest len st'

  unfoldable pub flush_rest : ℕ → List ℕ → Io St (Unit {0})
  unfolding wrote
  flush_rest zero buf st = out_of_fuel
  flush_rest (suc f) buf st =
      wrote (λ len. flush_rest f (drop len buf)) buf st (io.raw_write buf st.raw)

  unfoldable pub flush : Io St (Unit {0})
  unfolding flush_rest allocoutbuf flushed
  flush st = elim st.out_buffer [
    | none ↦ done (value tt) (allocoutbuf stream_buffer_size st)
    | some buf ↦
        if st.out_index == 0
        then done (value tt) st
        else flush_rest (st.out_index + 1) (take st.out_index buf) st
  ]

  -- `putspan`: a round for each `flush`.
  unfoldable pub putspan_from : ℕ → List ℕ → Io St (Unit {0})
  unfolding put
  putspan_from zero xs st = out_of_fuel
  putspan_from (suc f) xs st =
      let rest =
        await (flush (put (take (room st) xs) (size st.out_buffer) st))
          (λ _ st'. putspan_from f (drop (room st) xs) (record st' { out_index = 0 })) in
      if leb (length xs) (room_size st)
      then if leb (length xs) (room st)
        then done (value tt) (put xs (add_size st.out_index (length xs)) st)
        else undefined
      else rest

  -- The first round may place nothing, and each later one places a byte at least.
  unfoldable pub putspan : List ℕ → Io St (Unit {0})
  unfolding putspan_from
  putspan xs st = putspan_from (length xs + 2) xs st

  unfoldable pub puts : List ℕ → Io St (Unit {0})
  puts xs = putspan xs

  -- `putstruct` of a value, as its bytes.
  pub putstruct : List ℕ → Io St (Unit {0})
  putstruct xs = putspan xs

  unfoldable pub putchunk : List ℕ → Io St (Unit {0})
  putchunk xs st = await (puts xs st) (λ _ st'. flush st')

  -- `trywrite` gives the number that it returns.
  unfoldable pub trywrite : List ℕ → Io St ℕ
  unfolding put allocoutbuf
  trywrite xs st₀ =
      let st = allocoutbuf stream_buffer_size st₀ in
      if leb (length xs) (room_size st)
      then if leb (length xs) (room st)
        then done (value (length xs)) (put xs (add_size st.out_index (length xs)) st)
        else undefined
      else done (value (room_size st)) (put (take (room st) xs) (size st.out_buffer) st)

  -- `write` measures the room in the input buffer.
  unfoldable pub write : List ℕ → Io St ℕ
  unfolding buffull
  write xs st =
      let n = min (sub_size (size st.in_buffer) st.in_index) (length xs) in
      if buffull st
      then (let (e, r) = io.raw_write xs st.raw in done e (record st { raw = r }))
      else await (putspan (take n xs) st) (λ _ st'. done (value n) st')

  pub close : BorrowedStream R → BorrowedStream R
  close st = record st { raw = io.raw_close st.raw }

-- ===== src/Stream/Blocks.antt =====
-- iostream/stream_base.hpp: reading by number of bytes, to the end of the input, and by chunks.
pub mod Getn
pub mod Getall
use my_async.Prelude.{
  [], ℕ, zero, suc, ◌+◌, true, false, List, length, slice, take, write_at, add_size, sub_size, ltb,
  leb, if◌then◌else◌, min, some, Bool,
}
use my_async.Expected.{value, value_too_large, of_errc, transform, or_else_on}
use my_async.Task.{Run, done, undefined, out_of_fuel, Io, await, await_transform, await_result}
use my_async.Stream.{
  Raw, BorrowedStream, bytes, size, eof_error, bufempty, rewind, append, peekbuf, seenbuf, fillbuf,
}
use my_async.Stream.Reader.{refill, getline, getline_mark, getspan}

module _ {R : Type 0} (io : Raw R) where
  abbrev St : Type 0
  St = BorrowedStream R

  -- `getn`: `n` bytes are still wanted. An append that reads past the buffer is undefined, also where
  -- `mInEnd - mInIndex` has wrapped around.
  unfoldable pub getn_from : ℕ → ℕ → ℕ → Io St (Unit {0})
  getn_from zero n start st = out_of_fuel
  getn_from (suc f) n start st =
      let buf = bytes st.in_buffer in
      let last = add_size start n in
      let m = sub_size st.in_end st.in_index in
      let rest =
        await (fillbuf io (rewind (append (slice buf st.in_index m) st)))
          (λ _. getn_from f (sub_size n m) 0) in
      if leb last st.in_end
      then if leb (st.in_index + n) (size st.in_buffer)
        then done (value tt) (record (append (slice buf st.in_index n) st) { in_index = last })
        else undefined
      else if leb (st.in_index + m) (size st.in_buffer)
      then rest
      else undefined

  -- The first round may take nothing, and each later one takes a byte at least.
  unfoldable pub getn : ℕ → Io St (Unit {0})
  unfolding getn_from
  getn n st = getn_from (n + 2) n st.in_index st

  unfoldable pub dropn_from : ℕ → ℕ → ℕ → Io St (Unit {0})
  dropn_from zero n start st = out_of_fuel
  dropn_from (suc f) n start st =
      let last = add_size start n in
      let m = sub_size st.in_end st.in_index in
      let rest = await (fillbuf io (rewind st)) (λ _. dropn_from f (sub_size n m) 0) in
      if leb last st.in_end then done (value tt) (record st { in_index = last }) else rest

  unfoldable pub dropn : ℕ → Io St (Unit {0})
  unfolding dropn_from
  dropn n st = dropn_from (n + 2) n st.in_index st

  -- `(co_await fillbuf()).transform(true).or_else(eofError(), false)`, awaited: whether there is
  -- more input.
  unfoldable pub more_input : Io St Bool
  more_input st = await_result (fillbuf io st) λ e st'.
      await_transform (or_else_on (transform e (λ _. true)) eof_error (λ _. false)) st'
        λ more st''. done (value more) st''

  unfoldable pub getall_from : ℕ → ℕ → Io St (Unit {0})
  getall_from zero start st = out_of_fuel
  getall_from (suc f) start st =
      let m = sub_size st.in_end start in
      let rest : Run St (Unit {0}) =
        await (more_input (rewind (append (slice (bytes st.in_buffer) start m) st)))
          λ more st'. elim more [ true ↦ getall_from f 0 st' | false ↦ done (value tt) st' ] in
      if leb (start + m) (size st.in_buffer) then rest else undefined

  unfoldable pub getall : ℕ → Io St (Unit {0})
  unfolding getall_from
  getall fuel st = getall_from fuel st.in_index st

  unfoldable pub dropall : ℕ → Io St (Unit {0})
  dropall zero st = out_of_fuel
  dropall (suc f) st =
      await (more_input (rewind st))
        λ more st'. elim more [ true ↦ dropall f st' | false ↦ done (value tt) st' ]

  unfoldable pub getchunk : Io St (List ℕ)
  getchunk st =
      await (refill io st) λ _ st'. done (value (peekbuf st')) (seenbuf (length (peekbuf st')) st')

  -- `tryread` into a span of `k` bytes gives the bytes that it copied.
  unfoldable pub tryread : ℕ → BorrowedStream R → List ℕ × BorrowedStream R
  tryread k st = let n = min k (length (peekbuf st)) in (take n (peekbuf st), seenbuf n st)

  unfoldable pub peekn_fill : ℕ → ℕ → Io St (Unit {0})
  peekn_fill zero n st = out_of_fuel
  peekn_fill (suc f) n st =
      let rest = await (fillbuf io st) (λ _. peekn_fill f n) in
      if ltb (sub_size st.in_end st.in_index) n
      then rest
      else if leb (st.in_index + n) (size st.in_buffer)
      then done (value tt) (append (slice (bytes st.in_buffer) st.in_index n) st)
      else undefined

  -- The unread bytes moved to the front of the buffer.
  unfoldable pub compact : BorrowedStream R → BorrowedStream R
  compact st = record st {
    in_buffer = some (write_at (bytes st.in_buffer) 0 (peekbuf st));
    in_end = sub_size st.in_end st.in_index;
    in_index = 0;
  }

  unfoldable pub peekn : ℕ → ℕ → Io St (Unit {0})
  peekn fuel n st =
      if ltb (sub_size (size st.in_buffer) st.in_index) n
      then if ltb (size st.in_buffer) n
        then done (of_errc value_too_large) st
        else peekn_fill fuel n (compact st)
      else peekn_fill fuel n st

  -- `read` into a span of `k` bytes.
  unfoldable pub read : ℕ → Io St (List ℕ)
  read k st =
      if bufempty st
      then (let (e, r) = io.raw_read k st.raw in done e (record st { raw = r }))
      else let n = min (sub_size st.in_end st.in_index) k in
        done (value (slice (bytes st.in_buffer) st.in_index n))
          (record st { in_index = add_size st.in_index n })

  -- The String that `getn(n)`, `getall()` and `getline(eol)` return starts empty.
  unfoldable pub to_string : Io St (Unit {0}) → Io St (List ℕ)
  to_string task st = await (task (record st { text = [] })) λ _ st'. done (value st'.text) st'

  pub getline_string : ℕ → ℕ → Io St (List ℕ)
  unfolding to_string
  getline_string fuel eol = to_string (getline io fuel eol)

  pub getline_mark_string : ℕ → ℕ → List ℕ → Io St (List ℕ)
  unfolding to_string
  getline_mark_string fuel e eol = to_string (getline_mark io fuel e eol)

  unfoldable pub getn_string : ℕ → Io St (List ℕ)
  unfolding to_string
  getn_string n = to_string (getn n)

  unfoldable pub getall_string : ℕ → Io St (List ℕ)
  unfolding to_string
  getall_string fuel = to_string (getall fuel)

  pub peekn_string : ℕ → ℕ → Io St (List ℕ)
  unfolding to_string
  peekn_string fuel n = to_string (peekn fuel n)

  -- `getstruct` of a type of that many bytes, as its bytes.
  pub getstruct : ℕ → ℕ → Io St (List ℕ)
  getstruct fuel bytes_of = getspan io fuel bytes_of

  unfoldable pub seek : ℕ → Io St (Unit {0})
  seek pos st =
      let (e, r) = io.raw_seek pos st.raw in
      await_transform e (record st { raw = r })
        λ _ st'. done (value tt) (record st' { in_index = 0; in_end = 0; out_index = 0 })

-- ===== src/Stream/Reader.antt =====
-- iostream/stream_base.hpp: the operations that take bytes from a BorrowedStream.
-- A `get…` into a caller's String appends to the field `text`. A loop that fills the buffer until
-- it has what it looks for runs on fuel: a round for each `fillbuf`.
pub mod Lines
pub mod Getline
use my_async.Prelude.{
  ℕ, zero, suc, ◌+◌, ◌-◌, Option, none, some, List, [], ◌∷◌, ◌++◌, length, get_or, slice, add_size,
  sub_size, ltb, leb, ◌==◌, if◌then◌else◌,
}
use my_async.Expected.{value}
use my_async.Task.{done, undefined, out_of_fuel, Io, await}
use my_async.Stream.{Raw, BorrowedStream, bytes, size, bufempty, rewind, append, fillbuf}

-- The inner loop of `getline`: the first position from `i` on that holds `eol`, in `k` rounds.
pub find_eol : List ℕ → ℕ → ℕ → ℕ → Option ℕ
find_eol buf eol i zero = none
find_eol buf eol i (suc k) = if get_or buf i 0 == eol then some i else find_eol buf eol (i + 1) k

module _ {R : Type 0} (io : Raw R) where
  abbrev St : Type 0
  St = BorrowedStream R

  -- `if (bufempty()) { mInEnd = mInIndex = 0; co_await co_await fillbuf(); }`
  unfoldable pub refill : Io St (Unit {0})
  refill st = if bufempty st then fillbuf io (rewind st) else done (value tt) st

  -- The co_return is missing.
  unfoldable pub getchar : Io St ℕ
  getchar st = await (refill st) (λ _ _. undefined)

  unfoldable pub peekchar : Io St ℕ
  peekchar st = await (refill st) λ _ st'.
      if ltb st'.in_index (size st'.in_buffer)
      then done (value (get_or (bytes st'.in_buffer) st'.in_index 0)) st'
      else undefined

  -- An append that reads past the buffer is undefined.
  unfoldable pub getline_from : ℕ → ℕ → ℕ → Io St (Unit {0})
  getline_from zero eol start st = out_of_fuel
  getline_from (suc f) eol start st =
      let buf = bytes st.in_buffer in
      let m = sub_size st.in_end start in
      let rest =
        await (fillbuf io (rewind (append (slice buf start m) st))) (λ _. getline_from f eol 0) in
      elim (find_eol buf eol start (st.in_end - start)) [
        | some i ↦
            if leb i (size st.in_buffer)
            then done (value tt)
                (record (append (slice buf start (i - start)) st) { in_index = i + 1 })
            else undefined
        | none ↦ if leb (start + m) (size st.in_buffer) then rest else undefined
      ]

  unfoldable pub getline : ℕ → ℕ → Io St (Unit {0})
  unfolding getline_from
  getline fuel eol st = getline_from fuel eol st.in_index st

  unfoldable pub dropline_from : ℕ → ℕ → ℕ → Io St (Unit {0})
  dropline_from zero eol start st = out_of_fuel
  dropline_from (suc f) eol start st =
      elim (find_eol (bytes st.in_buffer) eol start (st.in_end - start)) [
        | some i ↦ done (value tt) (record st { in_index = i + 1 })
        | none ↦ await (fillbuf io (rewind st)) (λ _. dropline_from f eol 0)
      ]

  unfoldable pub dropline : ℕ → ℕ → Io St (Unit {0})
  unfolding dropline_from
  dropline fuel eol st = dropline_from fuel eol st.in_index st

  -- The `for` over the rest of a long end-of-line mark: whether it matched, and if not, how much of
  -- the mark did.
  unfoldable pub match_eol : ℕ → List ℕ → Io St (Option ℕ)
  match_eol i [] st = done (value none) st
  match_eol i (e ∷ eol) st = await (refill st) λ _ st'.
      if ltb st'.in_index (size st'.in_buffer)
      then if e == get_or (bytes st'.in_buffer) st'.in_index 0
        then match_eol (i + 1) eol (record st' { in_index = add_size st'.in_index 1 })
        else done (value (some i)) st'
      else undefined

  -- `getline(s, eol)` and `dropline(eol)` for a mark of several bytes, its first apart.
  unfoldable pub getline_mark : ℕ → ℕ → List ℕ → Io St (Unit {0})
  getline_mark zero e eol st = out_of_fuel
  getline_mark (suc f) e eol st = await (getline (suc f) e st) λ _ st₁.
      await (match_eol 1 eol st₁) λ found st₂. elim found [
        | none ↦ done (value tt) st₂
        | some i ↦ getline_mark f e eol (append (slice (e ∷ eol) 0 i) st₂)
      ]

  unfoldable pub dropline_mark : ℕ → ℕ → List ℕ → Io St (Unit {0})
  dropline_mark zero e eol st = out_of_fuel
  dropline_mark (suc f) e eol st = await (dropline (suc f) e st) λ _ st₁.
      await (match_eol 1 eol st₁)
        λ found st₂. elim found [ none ↦ done (value tt) st₂ | some i ↦ dropline_mark f e eol st₂ ]

  -- `getspan` into a span of `n` bytes, of which `out` are written. The copies do not lower `n`;
  -- one that runs past the span is undefined.
  unfoldable pub getspan_from : ℕ → ℕ → ℕ → List ℕ → Io St (List ℕ)
  getspan_from zero n start out st = out_of_fuel
  getspan_from (suc f) n start out st =
      let buf = bytes st.in_buffer in
      let last = add_size start n in
      let chunk = slice buf start (sub_size st.in_end start) in
      let rest = await (fillbuf io (rewind st)) (λ _. getspan_from f n 0 (out ++ chunk)) in
      if leb last st.in_end
      then if leb (length out + n) n
        then done (value (out ++ slice buf start n)) (record st { in_index = last })
        else undefined
      else if leb (length out + length chunk) n
      then rest
      else undefined

  unfoldable pub getspan : ℕ → ℕ → Io St (List ℕ)
  unfolding getspan_from
  getspan fuel n st = getspan_from fuel n st.in_index [] st

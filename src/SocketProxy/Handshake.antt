-- ===== src/SocketProxy/Handshake.antt =====
-- net/socket_proxy.cpp: what the proxy is sent, and which answer makes a connection.
use my_async.Prelude.{
  ℕ, zero, suc, ◌-◌, ◌≤◌, ◌<◌, ◌≡◌, Option, refl, ap, ◌∙◌, sym, none, some, List, [], ◌∷◌, ◌++◌,
  length, arith, take, drop, append_assoc, append-nil, take-append-drop, length-take, length-drop,
  length-append, inl, inr, Bool, true, false, Bool-cases, ◌==◌, ltb, take_all, ◌&&◌, ap₂,
}
use my_async.Expected.{value, of_errc, connection_reset}
use my_async.Task.{Run, done, await}
use my_async.Stream.{Raw}
use my_async.Stream.Source.{IsSource, take-past, drop-past}
use my_async.Stream.Writer.Sink.{IsSink}
use my_async.SocketProxy.{
  Network, desired_response, header, host_name, equals, write_all, read_all, check_response,
  handshake, with_socket, socket_proxy_connect,
}

module _ {S : Type 0} {socket : Raw S} {written : S → List ℕ} (sink : IsSink socket written) where
  -- The loop passes all of the buffer on, however much each write takes.
  write_all_lem :
      (fuel : ℕ) (buf : List ℕ) (s : S)
      → 0 < length buf
      → length buf ≤ fuel
      → (s' : S) × (write_all socket fuel buf s ≡ done (value tt) s')
        × (written s' ≡ written s ++ buf)
  unfolding write_all
  write_all_lem zero buf s pos enough = absurd (omega arith)
  write_all_lem (suc fuel) buf s pos enough =
      let (n, s₁, e, some_taken, fits, w) = sink.writes buf s pos in
      let some_written : (n == 0) ≡ false = ground arith in
      let in_range : ltb (length buf) n ≡ false = ground arith in
      let left = length-drop n buf in
      rw (e, some_written, in_range)
        (elim (Bool-cases (length (drop n buf) == 0)) [
          | inl z ↦
              let all : length buf ≤ n = ground arith in
              (s₁, rw z refl, w ∙ ap (λ xs. written s ++ xs) (take_all n buf all))
          | inr nz ↦
              let more : 0 < length (drop n buf) = ground arith in
              let (s', e', w') = write_all_lem fuel (drop n buf) s₁ more (omega arith) in
              (s', rw nz e', joined n w w')
        ])
    where
      joined :
          {s₁ s' : S} (n : ℕ)
          → written s₁ ≡ written s ++ take n buf
          → written s' ≡ written s₁ ++ drop n buf
          → written s' ≡ written s ++ buf
      joined {s₁} {s'} n w w' =
          w'
          ∙ ap (λ xs. xs ++ drop n buf) w
          ∙ append_assoc (written s) (take n buf) (drop n buf)
          ∙ ap (λ xs. written s ++ xs) (take-append-drop n buf)

module _ {S : Type 0} {socket : Raw S} {remaining : S → List ℕ}
    (src : IsSource socket remaining) where
  data Answered (got : List ℕ) (left : ℕ) (s : S) (r : Run S (List ℕ)) : Type 0 where
    whole :
        (s' : S)
        → left ≤ length (remaining s)
        → remaining s' ≡ drop left (remaining s)
        → r ≡ done (value (got ++ take left (remaining s))) s'
        → Answered got left s r
    cut :
        (s' : S)
        → length (remaining s) < left
        → r ≡ done (of_errc connection_reset) s'
        → Answered got left s r

  -- What a first part of the answer and the rest of it make together.
  Answered-more :
      (got chunk : List ℕ) (left : ℕ) (s s₁ : S) (r : Run S (List ℕ))
      → remaining s ≡ chunk ++ remaining s₁
      → length chunk ≤ left
      → Answered (got ++ chunk) (left - length chunk) s₁ r
      → Answered got left s r
  Answered-more got chunk left s s₁ r split fits (whole s' enough rest e) =
      let len = ap length split ∙ length-append chunk (remaining s₁) in
      let taken = take-past left (length chunk) chunk (remaining s₁) refl fits in
      let dropped = drop-past left (length chunk) chunk (remaining s₁) refl fits in
      whole s' (omega arith) (rest ∙ sym (ap (drop left) split ∙ dropped)) (
        e
        ∙ ap (λ xs. done (value xs) s')
            (append_assoc got chunk (take (left - length chunk) (remaining s₁))
              ∙ sym (ap (λ xs. got ++ xs) (ap (take left) split ∙ taken))))
  Answered-more got chunk left s s₁ r split fits (cut s' few e) =
      let len = ap length split ∙ length-append chunk (remaining s₁) in cut s' (omega arith) e

  -- The loop reads as many bytes as asked, however they come, or finds the end before.
  read_all_lem :
      (fuel : ℕ) (got : List ℕ) (left : ℕ) (s : S)
      → 0 < left
      → left ≤ fuel
      → Answered got left s (read_all socket fuel got left s)
  unfolding read_all
  read_all_lem zero got left s pos enough = absurd (omega arith)
  read_all_lem (suc fuel) got left s pos enough =
      let (chunk, s₁, e, split, fits, end) = src.reads left s pos in
      let in_range : ltb left (length chunk) ≡ false = ground arith in
      rw e (elim (Bool-cases (length chunk == 0)) [
        | inl z ↦ rw z (cut s₁ (few (end (ground arith))) refl)
        | inr nz ↦
            rw (nz, in_range)
              (Answered-more got chunk left s s₁ _ split fits
                (elim (Bool-cases (left - length chunk == 0)) [
                  | inl all ↦ rw all (last (got ++ chunk) (left - length chunk) s₁ (ground arith))
                  | inr more ↦ rw more (
                      read_all_lem fuel (got ++ chunk) (left - length chunk) s₁ (ground arith)
                        (ground arith))
                ]))
      ])
    where
      few : remaining s ≡ [] → length (remaining s) < left
      few z = omega (arith, ap length z)

      last : (got : List ℕ) (k : ℕ) (s₁ : S) → k ≡ 0 → Answered got k s₁ (done (value got) s₁)
      last got k s₁ z =
          rw z (whole s₁ (omega arith) refl (ap (λ xs. done (value xs) s₁) (sym (append-nil got))))

both : (a b : Bool) → (a && b) ≡ true → (a ≡ true) × (b ≡ true)
both true b h = (refl, h)
both false b h = cc

eq_of_equals : (xs ys : List ℕ) → equals xs ys ≡ true → xs ≡ ys
eq_of_equals [] [] h = refl
eq_of_equals [] (y ∷ ys) h = cc
eq_of_equals (x ∷ xs) [] h = cc
eq_of_equals (x ∷ xs) (y ∷ ys) h =
    let (first, rest) = both (x == y) (equals xs ys) h in
    let same_first : x ≡ y = ground arith in ap₂ (◌∷◌) same_first (eq_of_equals xs ys rest)

equals_self : (xs : List ℕ) → equals xs xs ≡ true
equals_self [] = refl
equals_self (x ∷ xs) = let same : (x == x) ≡ true = ground arith in rw same (equals_self xs)

-- Whether an answer says that the connection is established: what follows the eight bytes of the
-- protocol, up to the length of the desired response, is as desired.
abbrev pub Accepts : List ℕ → Type 0
Accepts answer = drop 8 (take 39 answer) ≡ drop 8 desired_response

short-Accepts : (answer : List ℕ) → length answer < 39 → Accepts answer → ⊥
short-Accepts answer few h =
    let all = ap length h in
    omega (arith, all, length-drop 8 (take 39 answer), length-take 39 answer)

-- The outcome for a socket that has been sent the request.
pub data Verdict {S : Type 0} (remaining : S → List ℕ) (s : S) (r : Run (Option S) (Unit {0}))
    : Type 0 where
  established :
      (s' : S)
      → Accepts (remaining s)
      → remaining s' ≡ drop 39 (remaining s)
      → r ≡ done (value tt) (some s')
      → Verdict remaining s r
  reset :
      (s' : S)
      → (Accepts (remaining s) → ⊥)
      → r ≡ done (of_errc connection_reset) (some s')
      → Verdict remaining s r

module _ {Address S : Type 0} (net : Network Address S) {written remaining : S → List ℕ}
    (sink : IsSink net.socket written) (src : IsSource net.socket remaining) where
  answered :
      (s₁ : S) (name : List ℕ) (r : Run S (List ℕ))
      → Answered src [] 39 s₁ r
      → Verdict remaining s₁
          (with_socket net.socket (value s₁) (λ s. await r (check_response net.socket)))
  unfolding check_response of_errc
  answered s₁ name r (cut s' few e) = reset s' (short-Accepts (remaining s₁) few) (rw e refl)
  answered s₁ name r (whole s' enough rest e) =
      rw e (elim (Bool-cases (equals (drop 8 (take 39 (remaining s₁))) (drop 8 desired_response))) [
        | inl same ↦ established s' (eq_of_equals _ _ same) rest (rw same refl)
        | inr other ↦
            reset s'
              (λ h. not_both (
                sym other
                ∙ ap (λ xs. equals xs (drop 8 desired_response)) h
                ∙ equals_self (drop 8 desired_response)))
              (rw other refl)
      ])
    where
      not_both : false ≡ true → ⊥
      not_both z = cc

  header_pos : (name : List ℕ) → 0 < length (header name)
  header_pos name = omega arith

  -- With a proxy that is resolved and connected to, on a socket whose writes take a part that is
  -- not empty and whose reads give what the proxy answers in parts, in both cases without an
  -- error, socket_proxy_connect ends: it writes exactly the CONNECT request for the host and
  -- port, and then returns the socket, with all but the first 39 bytes of the answer left, if
  -- these bytes are the desired response from the ninth on, and connection_reset otherwise.
  pub socket_proxy_connect-Verdict :
      (host : List ℕ) (port x : ℕ) (proxy : List ℕ) (address : Address) (s : S)
      → net.resolve_one (x ∷ proxy) none ≡ value address
      → net.socket_connect address ≡ value s
      → (s₁ : S) × (written s₁ ≡ written s ++ header (host_name host (net.to_string port)))
        × Verdict remaining s₁ (socket_proxy_connect net host port (x ∷ proxy))
  unfolding socket_proxy_connect handshake
  socket_proxy_connect-Verdict host port x proxy address s found connected =
      let request = header (host_name host (net.to_string port)) in
      let (s₁, e, w) =
        write_all_lem sink (length request) request s
          (header_pos (host_name host (net.to_string port))) (omega arith) in
      (
        s₁,
        w,
        rw (found, connected, e)
            (answered s₁ request _ (read_all_lem src 39 [] 39 s₁ (omega arith) (omega arith))),
      )

-- ===== src/SocketProxy.antt =====
-- net/socket_proxy.cpp: the connection to a host, directly or through an HTTP proxy. The resolver and the
-- calls on sockets are parameters: `S` is an open socket, whose `raw_write` and `raw_read` are
-- socket_write and socket_read. The debug output is left out.
pub mod Handshake
mod Tests
use my_async.Prelude.{
  ℕ, zero, suc, ◌-◌, Option, none, some, List, [], ◌∷◌, ◌++◌, length, drop, Bool, true, false, ◌&&◌,
  ltb, ◌==◌, if◌then◌else◌,
}
use my_async.Expected.{Expected, value, error, of_errc, connection_reset}
use my_async.Task.{Run, done, undefined, out_of_fuel, Io, await, await_transform}
use my_async.Stream.{Raw}

pub record Network (Address S : Type 0) : Type 0 where
  pub resolve_one : List ℕ → Option ℕ → Expected Address
  pub socket_connect : Address → Expected S
  pub socket : Raw S
  pub to_string : ℕ → List ℕ

-- "CONNECT "
abbrev pub connect_text : List ℕ
connect_text = 67 ∷ 79 ∷ 78 ∷ 78 ∷ 69 ∷ 67 ∷ 84 ∷ 32 ∷ []

-- " HTTP/1.1\r\nHost: "
abbrev pub host_text : List ℕ
host_text =
    32 ∷ 72 ∷ 84 ∷ 84 ∷ 80 ∷ 47 ∷ 49 ∷ 46 ∷ 49 ∷ 13 ∷ 10 ∷ 72 ∷ 111 ∷ 115 ∷ 116 ∷ 58 ∷ 32 ∷ []

-- "\r\nProxy-Connection: Keep-Alive\r\n\r\n"
abbrev pub keep_alive_text : List ℕ
keep_alive_text =
    13 ∷ 10 ∷ 80 ∷ 114 ∷ 111 ∷ 120 ∷ 121 ∷ 45 ∷ 67 ∷ 111 ∷ 110 ∷ 110 ∷ 101 ∷ 99 ∷ 116 ∷ 105 ∷ 111
    ∷ 110 ∷ 58 ∷ 32 ∷ 75 ∷ 101 ∷ 101 ∷ 112 ∷ 45 ∷ 65 ∷ 108 ∷ 105 ∷ 118 ∷ 101 ∷ 13 ∷ 10 ∷ 13 ∷ 10
    ∷ []

-- "HTTP/1.1 200 Connection established\r\n\r\n"
abbrev pub desired_response : List ℕ
desired_response =
    72 ∷ 84 ∷ 84 ∷ 80 ∷ 47 ∷ 49 ∷ 46 ∷ 49 ∷ 32 ∷ 50 ∷ 48 ∷ 48 ∷ 32 ∷ 67 ∷ 111 ∷ 110 ∷ 110 ∷ 101 ∷ 99
    ∷ 116 ∷ 105 ∷ 111 ∷ 110 ∷ 32 ∷ 101 ∷ 115 ∷ 116 ∷ 97 ∷ 98 ∷ 108 ∷ 105 ∷ 115 ∷ 104 ∷ 101 ∷ 100
    ∷ 13 ∷ 10 ∷ 13 ∷ 10 ∷ []

-- `hostName` and `header`.
abbrev pub host_name : List ℕ → List ℕ → List ℕ
host_name host port = host ++ (58 ∷ port)

abbrev pub header : List ℕ → List ℕ
header name = connect_text ++ (name ++ (host_text ++ (name ++ keep_alive_text)))

-- `==` on strings.
abbrev pub equals : List ℕ → List ℕ → Bool
equals [] [] = true
equals [] (y ∷ ys) = false
equals (x ∷ xs) [] = false
equals (x ∷ xs) (y ∷ ys) = (x == y) && equals xs ys

module _ {S : Type 0} (socket : Raw S) where
  -- The loop that writes `buf`; a subspan past the end is undefined.
  unfoldable pub write_all : ℕ → List ℕ → Io S (Unit {0})
  write_all zero buf s = out_of_fuel
  write_all (suc fuel) buf s =
      let (written, s₁) = socket.raw_write buf s in
      await_transform written s₁ λ n s₂.
        let again = write_all fuel (drop n buf) s₂ in
        if n == 0
        then done (of_errc connection_reset) s₂
        else if ltb (length buf) n
        then undefined
        else if length (drop n buf) == 0
        then done (value tt) s₂
        else again

  -- The loop that reads `left` bytes more behind those that it has got.
  unfoldable pub read_all : ℕ → List ℕ → ℕ → Io S (List ℕ)
  read_all zero got left s = out_of_fuel
  read_all (suc fuel) got left s =
      let (chunk, s₁) = socket.raw_read left s in
      await_transform chunk s₁ λ bytes s₂.
        let again = read_all fuel (got ++ bytes) (left - length bytes) s₂ in
        if length bytes == 0
        then done (of_errc connection_reset) s₂
        else if ltb left (length bytes)
        then undefined
        else if left - length bytes == 0
        then done (value (got ++ bytes)) s₂
        else again

  -- What is compared of the response: all but the protocol's name and version.
  unfoldable pub check_response : List ℕ → Io S (Unit {0})
  check_response response s =
      if equals (drop 8 response) (drop 8 desired_response)
      then done (value tt) s
      else done (of_errc connection_reset) s

  unfoldable pub handshake : List ℕ → Io S (Unit {0})
  unfolding write_all read_all check_response
  handshake name s =
      await (write_all (length (header name)) (header name) s)
        λ _ s₁. await (read_all 39 [] 39 s₁) check_response

  -- The rest of the coroutine on the socket; the state left is the socket.
  abbrev pub with_socket : Expected S → Io S (Unit {0}) → Run (Option S) (Unit {0})
  with_socket (error e) rest = done (error e) none
  with_socket (value s) rest = over (rest s)
    where
      over : Run S (Unit {0}) → Run (Option S) (Unit {0})
      over (done e s) = done e (some s)
      over undefined = undefined
      over out_of_fuel = out_of_fuel

module _ {Address S : Type 0} (net : Network Address S) where
  abbrev pub resolved : Expected Address → Expected S
  resolved (error e) = error e
  resolved (value address) = net.socket_connect address

  unfoldable pub socket_proxy_connect : List ℕ → ℕ → List ℕ → Run (Option S) (Unit {0})
  unfolding handshake
  socket_proxy_connect host port [] =
      with_socket net.socket (resolved (net.resolve_one host (some port))) (λ s. done (value tt) s)
  socket_proxy_connect host port (x ∷ proxy) =
      with_socket net.socket (resolved (net.resolve_one (x ∷ proxy) none))
        (handshake net.socket (host_name host (net.to_string port)))

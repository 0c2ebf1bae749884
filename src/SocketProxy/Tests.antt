-- ===== src/SocketProxy/Tests.antt =====
-- net/socket_proxy.cpp: a proxy that is a pair of lists, the bytes sent to it and those it answers.
use my_async.Prelude.{
  ℕ, ◌≡◌, refl, ap, sym, some, List, [], ◌∷◌, ◌++◌, length, take, drop, arith, take_all,
  length-take, take-append-drop, eq-nil_of_length,
}
use my_async.Expected.{value}
use my_async.Stream.{base_stream}
use my_async.Stream.Source.{IsSource}
use my_async.Stream.Writer.Sink.{IsSink}
use my_async.Task.{done}
use my_async.SocketProxy.{Network, desired_response, header, host_name, socket_proxy_connect}
use my_async.SocketProxy.Handshake.{Verdict, socket_proxy_connect-Verdict}

abbrev Peer : Type 0
Peer = List ℕ × List ℕ

-- An open socket whose peer answers as desired and sends a byte more.
abbrev opened : Peer
opened = ([], desired_response ++ (9 ∷ []))

abbrev network : Network (Unit {0}) Peer
network = record {
  resolve_one = λ host port. value tt;
  socket_connect = λ address. value opened;
  socket = record base_stream {
    raw_read = λ n s. (value (take n s.1), (s.0, drop n s.1));
    raw_write = λ buf s. (value (length buf), (s.0 ++ buf, s.1));
  };
  to_string = λ port. 56 ∷ (48 ∷ []);
}

network-IsSink : IsSink network.socket (λ s. s.0)
network-IsSink = record {
  writes = λ buf s pos. (
    length buf,
    (s.0 ++ buf, s.1),
    refl,
    pos,
    omega arith,
    ap (◌++◌ s.0) (sym (take_all (length buf) buf (omega arith))),
  );
  flushes = λ s. (s, refl, refl);
}

network-IsSource : IsSource network.socket (λ s. s.1)
network-IsSource = record {
  reads = λ k s pos. (
    take k s.1,
    (s.0, drop k s.1),
    refl,
    sym (take-append-drop k s.1),
    omega (arith, length-take k s.1),
    λ z. eq-nil_of_length s.1 (omega (arith, length-take k s.1)),
  );
}

socket_proxy_connect-Verdict_example :
    (s₁ : Peer) × (s₁.0 ≡ [] ++ header (host_name (97 ∷ []) (56 ∷ (48 ∷ []))))
    × Verdict (λ s. s.1) s₁ (socket_proxy_connect network (97 ∷ []) 80 (98 ∷ []))
socket_proxy_connect-Verdict_example =
    socket_proxy_connect-Verdict network network-IsSink network-IsSource (97 ∷ []) 80 98 [] tt
      opened refl refl

-- The run itself: the connection is made, and the byte behind the response is left.
connect_run :
    socket_proxy_connect network (97 ∷ []) 80 (98 ∷ [])
    ≡ done (value tt) (some (header (host_name (97 ∷ []) (56 ∷ (48 ∷ []))), 9 ∷ []))
unfolding socket_proxy_connect my_async.SocketProxy.handshake my_async.SocketProxy.write_all
    my_async.SocketProxy.read_all my_async.SocketProxy.check_response
connect_run = refl

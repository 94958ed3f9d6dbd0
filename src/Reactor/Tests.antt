-- ===== src/Reactor/Tests.antt =====
-- The theorems on reactor.c at a table of three connections.
use linux_command.Base.{
  ℕ, ◌≡◌, ◌↔◌, refl, true, false, some, none, [], ◌∷◌, ◌++◌, set, take, replicate, arith,
}
use linux_command.Net.{epollin, epollout, ctl_mod, sent, bytes, reset}
use linux_command.Reactor.{buffer_length, on_recv, on_send, Conn, Reactor, Event, dispatch}
use linux_command.Reactor.Echo.{IsClient, echo_round_trip, dispatch_faults_iff}

abbrev client_conn : ℕ → Conn
client_conn fd = record {
  fd = fd;
  rbuffer = replicate buffer_length 0;
  rlen = 0;
  wbuffer = replicate buffer_length 0;
  wlen = 0;
  recv_t = some on_recv;
  send_callback = some on_send;
}

abbrev one_client : Reactor
one_client = record {
  connlist = client_conn 0 ∷ client_conn 1 ∷ client_conn 2 ∷ [];
  zvoice_king = 0;
  calls = [];
}

client_conn-IsClient : (fd : ℕ) → IsClient (client_conn fd)
client_conn-IsClient fd = record {
  ready = record { read_size = refl; write_size = refl; nothing_left = refl; fits = omega arith };
  receives = refl;
  sends = refl;
}

-- "hi" comes in, and then the socket takes one byte.
abbrev hi_comes : Event
hi_comes = record {
  fd = 1;
  readable = true;
  writable = false;
  client = none;
  now = 0;
  incoming = bytes 104 (105 ∷ []);
  room = 0;
}

abbrev one_byte_goes : Event
one_byte_goes = record hi_comes { readable = false; writable = true; room = 1 }

echo_round_trip_example :
    (r₁ r₂ : Reactor) × (c' : Conn) × (dispatch one_client hi_comes ≡ some r₁)
    × (dispatch r₁ one_byte_goes ≡ some r₂)
    × (r₂.calls
        ≡ []
          ++ ctl_mod 1 epollout
            ∷ sent 1 (take 1 (take buffer_length (104 ∷ 105 ∷ [])))
            ∷ ctl_mod 1 epollin
            ∷ [])
    × (r₂.connlist ≡ set one_client.connlist 1 c')
    × IsClient c'
echo_round_trip_example =
    echo_round_trip one_client hi_comes one_byte_goes 104 (105 ∷ []) (client_conn 1) refl
      (client_conn-IsClient 1) refl refl refl refl refl

dispatch_faults_iff_example :
    (dispatch one_client (record hi_comes { incoming = reset }) ≡ none) ↔ (reset ≡ reset)
dispatch_faults_iff_example =
    dispatch_faults_iff one_client (record hi_comes { incoming = reset }) (client_conn 1) refl
      (client_conn-IsClient 1) refl

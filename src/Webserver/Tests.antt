-- ===== src/Webserver/Tests.antt =====
-- The theorem on webserver.c at one client.
use linux_command.Base.{ℕ, ◌≡◌, ◌<◌, ◌⊎◌, refl, some, List, [], ◌∷◌, ◌++◌, replicate, arith}
use linux_command.Net.{bytes, ctl_del, close}
use linux_command.Webserver.{buffer_length, on_recv, on_send, Conn, Server, log, recv_cb}
use linux_command.Webserver.Requests.{IsReady, total, serve, answers, serve_until_full}

abbrev client_conn : Conn
client_conn = record {
  fd = 0;
  rbuffer = replicate buffer_length 0;
  rlen = 0;
  wbuffer = replicate buffer_length 0;
  wlen = 0;
  recv_t = some on_recv;
  send_callback = some on_send;
}

abbrev one_client : Server
one_client = record { connlist = client_conn ∷ []; calls = [] }

-- Two chunks of 512 bytes.
abbrev two_chunks : List (ℕ × List ℕ)
two_chunks = (71, replicate 511 65) ∷ (71, replicate 511 66) ∷ []

client_conn-IsReady : IsReady client_conn
client_conn-IsReady = record { read_size = refl; write_size = refl }

serve_until_full_example :
    (s' : Server) × (serve one_client 0 300 two_chunks ≡ some s')
    × (s'.calls ≡ [] ++ answers 0 300 two_chunks)
    × ((total two_chunks < buffer_length)
        ⊎ ((b : ℕ) (bs : List ℕ)
            → recv_cb s' 0 (bytes b bs) ≡ some (log s' (ctl_del 0 ∷ close 0 ∷ []))))
serve_until_full_example =
    serve_until_full two_chunks one_client 0 300 client_conn refl client_conn-IsReady refl
      (omega arith)

-- ===== src/Server/Tests.antt =====
-- The theorems on server_mulport_epoll.c at concrete lists, schedules and sockets.
use linux_command.Base.{
  ℕ, ◌+◌, ◌≡◌, ◌≢◌, ◌≤◌, ◌⊎◌, ◌>>=◌, refl, true, false, some, none, List, [], ◌∷◌, ◌++◌, ◌==◌, ltb,
  if◌then◌else◌, length, arith,
}
use linux_command.Base.Int.{pos, incr}
use linux_command.Server.Links.{Linked, ll_add, ll_remove}
use linux_command.Server.Links.Chain.{Chain, ll_add-Chain}
use linux_command.Server.Links.Doubly.{Doubly}
use linux_command.Server.Links.Remove.{ll_remove-Doubly}
use linux_command.Server.Pool.{
  outside, exited, Worker, Pool, Action, enter, finish, add_job, mark_shutdown, mark, enter_at,
  finish_at, critical, take_job, set_thread, locked, step, run,
}
use linux_command.Server.Pool.Conserve.{everywhere, adds, run_conserves}
use linux_command.Server.Pool.Shutdown.{IsWedged, exit_wedges}
use linux_command.Server.Io.{
  Recv, got, again, closed, Poll, ready, interrupted, Received, recv_loop, conclude, after_poll,
  send_loop, n_recv, Sent, n_send,
}
use linux_command.Server.Io.Bounds.{IsFront, arrived, n_recv_stores}
use linux_command.Server.Io.Sending.{n_send_sends}
use linux_command.Server.Loop.{
  ServerState, log_call, replied, max_buffer, starts_with_a, client_data_process, Ready, serving,
  listenfd, serve_ready, handle_ready, accept_client, client_added,
}
use linux_command.Server.Loop.Conserve.{queued, serve_ready_conserves}
use linux_command.Server.Loop.Reply.{client_data_process_replies}

-- One node at 1.
abbrev one_node : Linked
one_node = record { heap = λ p. record { prev = none; next = none }; list = some 1 }

one_node-Chain : Chain one_node.heap one_node.list (1 ∷ [])
one_node-Chain = (refl, refl, tt, refl)

ll_add-Chain_example : Chain (ll_add 2 one_node).heap (ll_add 2 one_node).list (2 ∷ 1 ∷ [])
ll_add-Chain_example = ll_add-Chain one_node (1 ∷ []) 2 (omega arith, tt) one_node-Chain

-- The nodes 1, 2 and 3, linked both ways.
abbrev three_nodes : Linked
three_nodes = record {
  heap = λ p.
      if p == 1
      then record { prev = none; next = some 2 }
      else (if p == 2
          then record { prev = some 1; next = some 3 }
          else record { prev = some 2; next = none });
  list = some 1;
}

three_nodes-Doubly : Doubly three_nodes.heap none three_nodes.list ((1 ∷ []) ++ 2 ∷ 3 ∷ [])
three_nodes-Doubly = (
  refl,
  refl,
  (omega arith, (omega arith, tt)),
  (refl, refl, (omega arith, tt), (refl, refl, tt, refl)),
)

ll_remove-Doubly_example :
    Doubly (ll_remove 2 three_nodes).heap none (ll_remove 2 three_nodes).list ((1 ∷ []) ++ 3 ∷ [])
    × ((ll_remove 2 three_nodes).heap 2 ≡ record { prev = none; next = none })
ll_remove-Doubly_example = ll_remove-Doubly three_nodes (1 ∷ []) 2 (3 ∷ []) three_nodes-Doubly

-- One worker takes job 7 and runs it.
abbrev one_run : List Action
one_run = add_job 7 ∷ enter 0 ∷ finish 0 ∷ []

abbrev idle : Worker
idle = record { thread = outside; terminate = false }

abbrev one_worker : Pool
one_worker = record {
  workers = idle ∷ [];
  registered = true;
  waiting_jobs = [];
  held = false;
  finished = [];
  dropped = [];
}

abbrev one_done : Pool
one_done = record one_worker { finished = 7 ∷ [] }

one_run-done : run one_worker one_run ≡ some one_done
unfolding run step enter_at finish_at critical take_job set_thread locked
one_run-done = refl

run_conserves_example : everywhere 7 one_done ≡ everywhere 7 one_worker + adds 7 one_run
run_conserves_example = run_conserves 7 one_run one_worker one_done one_run-done

-- One worker is to end.
abbrev ending : Pool
ending = record one_worker { workers = record { thread = outside; terminate = true } ∷ idle ∷ [] }

abbrev ended : Pool
ended = record ending {
  workers = record { thread = exited; terminate = true } ∷ idle ∷ [];
  held = true;
}

ending-ends : step ending (enter 0) ≡ some ended
unfolding step enter_at critical take_job set_thread locked
ending-ends = refl

ended-marked :
    run ended (mark_shutdown ∷ [])
    ≡ some (record ended {
      workers =
          record { thread = exited; terminate = true } ∷ record idle { terminate = true } ∷ [];
    })
unfolding run step mark
ended-marked = refl

exit_wedges_example : IsWedged ended (record ended {
  workers = record { thread = exited; terminate = true } ∷ record idle { terminate = true } ∷ [];
})
exit_wedges_example =
    exit_wedges ending ended
      (record ended {
        workers =
            record { thread = exited; terminate = true } ∷ record idle { terminate = true } ∷ [];
      })
      0 (record { thread = outside; terminate = true }) (mark_shutdown ∷ []) refl refl ending-ends
      ended-marked

-- "ab" comes, and then the peer closes.
abbrev two_rounds : List (Recv × Poll)
two_rounds = (again, ready) ∷ (got b'a' (b'b' ∷ []), ready) ∷ (closed, ready) ∷ []

abbrev ab_received : Received
ab_received = record { ret_code = 107; stored = b'a' ∷ b'b' ∷ [] }

two_rounds-received : n_recv two_rounds max_buffer ≡ some ab_received
unfolding n_recv recv_loop conclude after_poll
two_rounds-received = refl

n_recv_stores_example :
    IsFront ab_received.stored (arrived two_rounds)
    × (length ab_received.stored ≤ max_buffer)
    × ((length ab_received.stored ≡ max_buffer) ⊎ (ab_received.ret_code ≢ 0))
n_recv_stores_example = n_recv_stores two_rounds max_buffer ab_received two_rounds-received

-- The socket takes one byte, is interrupted, and takes the next.
abbrev two_sends : List (Poll × ℕ)
two_sends = (ready, 1) ∷ (interrupted, 0) ∷ (ready, 5) ∷ []

abbrev ab_sent : Sent
ab_sent = record { result = some 2; out = b'a' ∷ b'b' ∷ [] }

two_sends-sent : n_send two_sends (b'a' ∷ b'b' ∷ []) ≡ some ab_sent
unfolding n_send send_loop
two_sends-sent = refl

n_send_sends_example :
    IsFront ab_sent.out (b'a' ∷ b'b' ∷ [])
    × ((ab_sent.result ≡ none) ⊎ (ab_sent.result ≡ some (length ab_sent.out)))
n_send_sends_example = n_send_sends two_sends (b'a' ∷ b'b' ∷ []) ab_sent two_sends-sent

abbrev started : ServerState
started = record { curfds = pos 2; n_run = false; workqueue = one_worker; calls = [] }

client_data_process_replies_example : client_data_process started 4 two_rounds two_sends ≡ (
    if ltb 2 max_buffer
    then (n_send two_sends (b'a' ∷ b'b' ∷ [])
        >>= (λ (x : Sent). some (log_call started (replied 4 x.out))))
    else none)
client_data_process_replies_example =
    client_data_process_replies started 4 two_rounds two_sends ab_received b'a' (b'b' ∷ [])
      two_rounds-received refl (omega arith, (omega arith, tt)) (unfold starts_with_a in refl)

-- Clients 4 and 5 have data, and client 6 connects at 3. Between the first two events the worker
-- takes the job of 4 and runs it.
abbrev three_ready : List (Ready × List Action)
three_ready =
    (record { fd = 4; client = none; ins = []; outs = [] }, enter 0 ∷ finish 0 ∷ [])
    ∷ (record { fd = 5; client = none; ins = []; outs = [] }, [])
    ∷ (record { fd = 3; client = some 6; ins = []; outs = [] }, [])
    ∷ []

abbrev after_pass : ServerState
after_pass = record {
  curfds = pos 3;
  n_run = false;
  workqueue = record one_worker { waiting_jobs = 5 ∷ []; finished = 4 ∷ [] };
  calls = client_added 6 ∷ [];
}

three_ready-served : serve_ready (3 ∷ []) started three_ready ≡ some (serving after_pass)
unfolding serve_ready handle_ready accept_client listenfd run step enter_at finish_at critical
    take_job set_thread locked incr
three_ready-served = refl

serve_ready_conserves_example :
    everywhere 5 after_pass.workqueue
    ≡ everywhere 5 started.workqueue + queued (3 ∷ []) 5 three_ready
serve_ready_conserves_example =
    serve_ready_conserves (3 ∷ []) 5 started after_pass three_ready three_ready-served refl

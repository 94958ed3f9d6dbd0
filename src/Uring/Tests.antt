-- ===== src/Uring/Tests.antt =====
-- The loop of io_uring.c on concrete completions.
use linux_command.Base.{ℕ, ◌+◌, ◌≡◌, refl, List, [], ◌∷◌, if◌then◌else◌}
use linux_command.Base.Int.{ℤ, pos, negsuc}
use linux_command.Uring.{
  handle_read, handle, complete, start_ring, set_recv_event, set_send_event, set_accept_event,
}
use linux_command.Uring.Pending.{same_fd, pending_for, run, accepted, run-pending_for}

-- Descriptor 5 is accepted on 3, its stream ends, and the send after the close fails.
abbrev a_client : List (ℕ × ℤ)
a_client = (0, pos 5) ∷ (1, pos 0) ∷ (1, negsuc 8) ∷ []

closed_once : (run (pos 3) a_client (start_ring (pos 3))).closed ≡ pos 5 ∷ []
unfolding run complete handle handle_read start_ring set_recv_event set_send_event set_accept_event
closed_once = refl

run-pending_for_example :
    pending_for (pos 5) (run (pos 3) a_client (start_ring (pos 3))).pending
    ≡ (if same_fd (pos 5) (pos 3) then 1 else 0)
      + accepted (pos 3) (pos 5) a_client (start_ring (pos 3))
run-pending_for_example = run-pending_for (pos 3) (pos 5) a_client

-- ===== src/Tests/Locks.antt =====
-- A run of the loops that ends in a deadlock, and one of a polite client.
use virt_db.Prelude.{ℕ, ◌≤◌, refl, Bool, true, false, [], ◌∷◌, ◌↔◌}
use virt_db.Server.Locks.{
  client_task, remote_task, idle, locking, sending, waiting, finishing, responding, quiet, asked,
  State, at, start, read_packet, forwarded, sent, written, chunk_next, chunk_first, finished,
  responded, copied, Steps, done, next,
}
use virt_db.Server.Locks.Deadlock.{IsStuck, IsDeadlock, at_responding, Moves, IsStuck-IsDeadlock}
use virt_db.Server.Locks.Rest.{Works, IsAtRest, Works-rest}
use virt_db.Server.Locks.Polite.{HasRoom, Steps-Moves}

-- The client has sent four packets before the second answer: the first response has begun, the second
-- context was taken from the channel, the third is in it, and the fourth waits for room.
abbrev stopped : State
stopped = at sending responding (client_task ∷ remote_task ∷ []) true true asked

-- A packet is forwarded while the remote loop reads.
forward_one :
    (ctx : Bool) (s : State)
    → Steps false (at idle waiting [] true ctx asked) s
    → Steps false (at idle waiting [] false ctx asked) s
forward_one ctx s steps = next _ _ s (read_packet waiting [] false ctx asked tt) (
    next _ _ s (forwarded waiting [] false ctx asked) (
      next _ _ s (sent waiting (client_task ∷ []) ctx asked)
        (next _ _ s (written waiting [] true ctx asked) steps)))

first_request :
    (s : State) → Steps false (at idle waiting [] true false asked) s → Steps false start s
first_request s steps = next _ _ s (read_packet waiting [] false false quiet tt) (
    next _ _ s (forwarded waiting [] false false quiet) (
      next _ _ s (sent waiting (client_task ∷ []) false quiet)
        (next _ _ s (written waiting [] true false asked) steps)))

first_chunk :
    (s : State)
    → Steps false (at idle waiting [] false true asked) s
    → Steps false (at idle waiting [] true false asked) s
first_chunk s steps = next _ _ s (chunk_first idle [] asked tt) (
    next _ _ s (responded idle [] false true asked)
      (next _ _ s (copied false idle [] false true asked) steps))

-- The second context is in the channel, two more packets come, and so does a response.
last_requests : Steps false (at idle waiting [] true true asked) stopped
last_requests = next _ _ stopped (read_packet waiting [] true true asked tt) (
    next _ _ stopped (forwarded waiting [] true true asked) (
      next _ _ stopped (chunk_next sending (client_task ∷ []) asked tt) (
        next _ _ stopped (sent finishing (client_task ∷ remote_task ∷ []) true asked) (
          next _ _ stopped (written finishing (remote_task ∷ []) true true asked) (
            next _ _ stopped (read_packet finishing (remote_task ∷ []) true true asked tt) (
              next _ _ stopped (finished locking (client_task ∷ []) true true asked) (
                next _ _ stopped (forwarded responding (remote_task ∷ []) true true asked)
                  (done stopped))))))))

run_to_stopped : Steps false start stopped
run_to_stopped =
    first_request stopped (first_chunk stopped (forward_one true stopped last_requests))

IsStuck-IsDeadlock_example : IsStuck stopped ↔ IsDeadlock stopped
IsStuck-IsDeadlock_example = IsStuck-IsDeadlock stopped run_to_stopped

-- So the pipelined requests stop the connection.
is_stopped : IsStuck stopped
is_stopped =
    (IsStuck-IsDeadlock stopped run_to_stopped).1 (at_responding (remote_task ∷ []) true asked)

Works-rest_example :
    ((n : ℕ) (t : State) → Works false stopped n t → n ≤ 6)
    × ((n : ℕ) × (t : State) × Works false stopped n t × IsAtRest t)
Works-rest_example = Works-rest stopped run_to_stopped

abbrev answering : State
answering = at sending waiting (client_task ∷ []) false false quiet

Steps-Moves_example : Moves true answering × HasRoom answering
Steps-Moves_example = Steps-Moves answering (
    next _ _ answering (read_packet waiting [] false false quiet refl)
      (next _ _ answering (forwarded waiting [] false false quiet) (done answering)))

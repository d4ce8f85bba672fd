-- ===== src/Server/Locks/Polite.antt =====
-- A client that asks only when it has its answer is never stopped.
use virt_db.Prelude.{◌≡◌, refl, sym, subst, ◌++◌, Bool, true, false, List, [], ◌∷◌}
use virt_db.Server.Locks.{
  Task, client_task, remote_task, ClientAt, idle, locking, sending, writing, RemoteAt, waiting,
  finishing, responding, copying, quiet, asked, State, at, start, Step, read_packet, forwarded,
  answered, sent, written, chunk_next, chunk_first, chunk_more, chunk_early, finished, responded,
  copied, Steps, done, next,
}
use virt_db.Server.Locks.Queue.{IsQueued, Steps-IsQueued}
use virt_db.Server.Locks.Deadlock.{
  Moves, Moves-locking, Moves-writing, Moves-finishing, Moves-responding,
}

-- The channel is empty once a response is read.
abbrev Room : RemoteAt → Bool → Type 0
Room waiting full = Unit
Room finishing full = full ≡ false
Room responding full = full ≡ false
Room copying full = full ≡ false

abbrev Handled : ClientAt → Type 0
Handled idle = Unit
Handled locking = ⊥
Handled sending = ⊥
Handled writing = Unit

-- Between an answer and the next request the channel is empty and the remote loop reads; while an
-- answer is missing the client's loop does not handle a request.
abbrev IsCalm : State → Type 0
IsCalm (at c r l full ctx quiet) = (r ≡ waiting) × (full ≡ false)
IsCalm (at c r l full ctx asked) = Handled c × Room r full

step-IsCalm : (s t : State) → Step true s t → IsCalm s → IsCalm t
step-IsCalm _ _ (read_packet r l full ctx quiet m) h = h
step-IsCalm _ _ (read_packet r l full ctx asked m) h = cc
step-IsCalm _ _ (forwarded r l full ctx quiet) h = h
step-IsCalm _ _ (forwarded r l full ctx asked) h = absurd h.0
step-IsCalm _ _ (answered r l full ctx quiet) h = h
step-IsCalm _ _ (answered r l full ctx asked) h = absurd h.0
step-IsCalm _ _ (sent r l ctx quiet) h = (tt, subst (λ q. Room q true) (sym h.0) tt)
step-IsCalm _ _ (sent r l ctx asked) h = absurd h.0
step-IsCalm _ _ (written r l full ctx quiet) h = h
step-IsCalm _ _ (written r l full ctx asked) h = h
step-IsCalm _ _ (chunk_next c l quiet m) h = cc
step-IsCalm _ _ (chunk_next c l asked m) h = (h.0, refl)
step-IsCalm _ _ (chunk_first c l quiet m) h = cc
step-IsCalm _ _ (chunk_first c l asked m) h = (h.0, refl)
step-IsCalm _ _ (chunk_more c l quiet m) h = cc
step-IsCalm _ _ (chunk_more c l asked m) h = (h.0, refl)
step-IsCalm _ _ (chunk_early c l quiet m) h = cc
step-IsCalm _ _ (chunk_early c l asked m) h = (h.0, refl)
step-IsCalm _ _ (finished c l full ctx quiet) h = cc
step-IsCalm _ _ (finished c l full ctx asked) h = h
step-IsCalm _ _ (responded c l full ctx quiet) h = cc
step-IsCalm _ _ (responded c l full ctx asked) h = h
step-IsCalm _ _ (copied last c l full ctx quiet) h = cc
step-IsCalm _ _ (copied true c l full ctx asked) h = (refl, h.1)
step-IsCalm _ _ (copied false c l full ctx asked) h = (h.0, tt)

Steps-IsCalm : (s t : State) → Steps true s t → IsCalm s → IsCalm t
Steps-IsCalm _ _ (done s) h = h
Steps-IsCalm _ _ (next s t u step steps) h = Steps-IsCalm t u steps (step-IsCalm s t step h)

Moves-waiting : (l : List Task) (full ctx : Bool) → Moves true (at idle waiting l full ctx asked)
Moves-waiting l true true =
    (at idle finishing (l ++ remote_task ∷ []) false true asked, chunk_next idle l asked refl)
Moves-waiting l true false =
    (at idle responding (l ++ remote_task ∷ []) false true asked, chunk_first idle l asked refl)
Moves-waiting l false true =
    (at idle responding (l ++ remote_task ∷ []) false true asked, chunk_more idle l asked refl)
Moves-waiting l false false = (at idle copying l false false asked, chunk_early idle l asked refl)

Moves-calm : (s : State) → IsQueued s → IsCalm s → Moves true s
Moves-calm (at idle r l full ctx quiet) q h =
    (at locking r (l ++ client_task ∷ []) full ctx quiet, read_packet r l full ctx quiet refl)
Moves-calm (at idle waiting l full ctx asked) q h = Moves-waiting l full ctx
Moves-calm (at idle finishing l full ctx asked) q h =
    Moves-finishing true idle l [] full ctx asked q
Moves-calm (at idle responding l full ctx asked) q h =
    Moves-responding true idle l [] full ctx asked q
Moves-calm (at idle copying l full ctx asked) q h =
    (at idle waiting l full ctx quiet, copied true idle l full ctx asked)
Moves-calm (at locking r l full ctx phase) q h = Moves-locking true r l full ctx phase q
Moves-calm (at sending r l false ctx phase) q h =
    (at writing r l true ctx asked, sent r l ctx phase)
Moves-calm (at sending r l true ctx quiet) q h = cc
Moves-calm (at sending r l true ctx asked) q h = absurd h.0
Moves-calm (at writing r l full ctx phase) q h = Moves-writing true r l full ctx phase q

-- A send into the channel does not wait.
abbrev pub HasRoom : State → Type 0
HasRoom (at sending r l full ctx phase) = full ≡ false
HasRoom _ = Unit

HasRoom-of_calm : (s : State) → IsCalm s → HasRoom s
HasRoom-of_calm (at sending r l full ctx quiet) h = h.1
HasRoom-of_calm (at sending r l full ctx asked) h = absurd h.0
HasRoom-of_calm (at idle r l full ctx phase) h = tt
HasRoom-of_calm (at locking r l full ctx phase) h = tt
HasRoom-of_calm (at writing r l full ctx phase) h = tt

-- With a client that asks only when it has its answer, and a database that sends only answers, the
-- loops of a connection can always go on, and the send into the channel finds room.
pub Steps-Moves : (s : State) → Steps true start s → Moves true s × HasRoom s
Steps-Moves s steps =
    let calm = Steps-IsCalm start s steps (refl, refl) in
    (Moves-calm s (Steps-IsQueued true start s steps refl) calm, HasRoom-of_calm s calm)

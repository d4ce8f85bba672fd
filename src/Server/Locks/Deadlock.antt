-- ===== src/Server/Locks/Deadlock.antt =====
-- The one way in which the loops stop each other, and a run that leads there.
use virt_db.Prelude.{
  ◌≡◌, refl, sym, subst, Bool, true, false, List, [], ◌∷◌, ◌++◌, ◌⊎◌, ◌↔◌, inl, inr,
}
use virt_db.Server.Locks.{
  Task, client_task, remote_task, ClientAt, idle, locking, sending, writing, RemoteAt, waiting,
  finishing, responding, copying, Phase, asked, State, at, start, Step, read_packet, forwarded,
  sent, written, chunk_next, chunk_first, finished, responded, copied, Steps,
}
use virt_db.Server.Locks.Queue.{remote_part, IsQueue, IsQueued, Steps-IsQueued}

-- The client's loop has the mutex and waits for room in the channel, and the remote loop, which alone
-- can make room, waits for the mutex.
pub data IsDeadlock : State → Type 0 where
  at_finishing :
      (l : List Task) (ctx : Bool) (phase : Phase)
      → IsDeadlock (at sending finishing (client_task ∷ l) true ctx phase)
  at_responding :
      (l : List Task) (ctx : Bool) (phase : Phase)
      → IsDeadlock (at sending responding (client_task ∷ l) true ctx phase)

-- Nothing moves any more.
pub IsDeadlock-stuck : (polite : Bool) (s t : State) → IsDeadlock s → ¬ Step polite s t
IsDeadlock-stuck polite _ t (at_finishing l ctx phase) step = elim step [ ]
IsDeadlock-stuck polite _ t (at_responding l ctx phase) step = elim step [ ]

-- Some step is possible.
abbrev pub Moves : Bool → State → Type 0
Moves polite s = (t : State) × Step polite s t

Moves-client :
    (polite : Bool) (r : RemoteAt) (l rest : List Task) (full ctx : Bool) (phase : Phase)
    → l ≡ client_task ∷ rest
    → Moves polite (at locking r l full ctx phase)
Moves-client polite r l rest full ctx phase h =
    subst (λ q. Moves polite (at locking r q full ctx phase)) (sym h)
      (at sending r (client_task ∷ rest) full ctx phase, forwarded r rest full ctx phase)

pub Moves-finishing :
    (polite : Bool) (c : ClientAt) (l rest : List Task) (full ctx : Bool) (phase : Phase)
    → l ≡ remote_task ∷ rest
    → Moves polite (at c finishing l full ctx phase)
Moves-finishing polite c l rest full ctx phase h =
    subst (λ q. Moves polite (at c finishing q full ctx phase)) (sym h)
      (at c responding (rest ++ remote_task ∷ []) full ctx phase, finished c rest full ctx phase)

pub Moves-responding :
    (polite : Bool) (c : ClientAt) (l rest : List Task) (full ctx : Bool) (phase : Phase)
    → l ≡ remote_task ∷ rest
    → Moves polite (at c responding l full ctx phase)
Moves-responding polite c l rest full ctx phase h =
    subst (λ q. Moves polite (at c responding q full ctx phase)) (sym h)
      (at c copying rest full ctx phase, responded c rest full ctx phase)

pub Moves-locking :
    (polite : Bool) (r : RemoteAt) (l : List Task) (full ctx : Bool) (phase : Phase)
    → IsQueue locking r l
    → Moves polite (at locking r l full ctx phase)
Moves-locking polite r l full ctx phase (inl h) =
    Moves-client polite r l (remote_part r) full ctx phase h
Moves-locking polite waiting l full ctx phase (inr h) =
    Moves-client polite waiting l [] full ctx phase h
Moves-locking polite copying l full ctx phase (inr h) =
    Moves-client polite copying l [] full ctx phase h
Moves-locking polite finishing l full ctx phase (inr h) =
    Moves-finishing polite locking l (client_task ∷ []) full ctx phase h
Moves-locking polite responding l full ctx phase (inr h) =
    Moves-responding polite locking l (client_task ∷ []) full ctx phase h

pub Moves-writing :
    (polite : Bool) (r : RemoteAt) (l : List Task) (full ctx : Bool) (phase : Phase)
    → IsQueue writing r l
    → Moves polite (at writing r l full ctx phase)
Moves-writing polite r l full ctx phase h =
    subst (λ q. Moves polite (at writing r q full ctx phase)) (sym h)
      (at idle r (remote_part r) full ctx phase, written r (remote_part r) full ctx phase)

Moves-sending :
    (r : RemoteAt) (l : List Task) (ctx : Bool) (phase : Phase)
    → IsQueue sending r l
    → Moves false (at sending r l true ctx phase) ⊎ IsDeadlock (at sending r l true ctx phase)
Moves-sending waiting l true phase h =
    inl
      (at sending finishing (l ++ remote_task ∷ []) false true phase, chunk_next sending l phase tt)
Moves-sending waiting l false phase h =
    inl (
      at sending responding (l ++ remote_task ∷ []) false true phase,
      chunk_first sending l phase tt,
    )
Moves-sending copying l ctx phase h =
    inl (at sending waiting l true ctx phase, copied false sending l true ctx phase)
Moves-sending finishing l ctx phase h = inr (
    subst (λ q. IsDeadlock (at sending finishing q true ctx phase)) (sym h)
      (at_finishing (remote_task ∷ []) ctx phase))
Moves-sending responding l ctx phase h = inr (
    subst (λ q. IsDeadlock (at sending responding q true ctx phase)) (sym h)
      (at_responding (remote_task ∷ []) ctx phase))

Moves-or_IsDeadlock : (s : State) → IsQueued s → Moves false s ⊎ IsDeadlock s
Moves-or_IsDeadlock (at idle r l full ctx phase) h =
    inl (at locking r (l ++ client_task ∷ []) full ctx phase, read_packet r l full ctx phase tt)
Moves-or_IsDeadlock (at locking r l full ctx phase) h =
    inl (Moves-locking false r l full ctx phase h)
Moves-or_IsDeadlock (at sending r l false ctx phase) h =
    inl (at writing r l true ctx asked, sent r l ctx phase)
Moves-or_IsDeadlock (at sending r l true ctx phase) h = Moves-sending r l ctx phase h
Moves-or_IsDeadlock (at writing r l full ctx phase) h =
    inl (Moves-writing false r l full ctx phase h)

-- No step is possible, whatever the client and the database send.
abbrev pub IsStuck : State → Type 0
IsStuck s = (t : State) → ¬ Step false s t

-- Whatever the client and the database send, the loops of a connection come to a stop, with no step
-- possible, exactly in a deadlock: the client's loop holds the mutex and waits for room in the full
-- channel, and the remote loop waits for the mutex.
pub IsStuck-IsDeadlock : (s : State) → Steps false start s → IsStuck s ↔ IsDeadlock s
IsStuck-IsDeadlock s steps = (
  (λ stuck. elim (Moves-or_IsDeadlock s (Steps-IsQueued false start s steps refl)) [
    | inl (t, step) ↦ absurd (stuck t step)
    | inr dead ↦ dead
  ]),
  λ dead t. IsDeadlock-stuck false s t dead,
)

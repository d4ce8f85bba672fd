-- ===== src/Server/Locks/Rest.antt =====
-- The loops come to rest: between two reads from a socket they take only a few steps.
use virt_db.Prelude.{
  ℕ, zero, suc, ◌+◌, ◌≤◌, ◌<◌, ◌≡◌, refl, sym, subst, Bool, true, false, List, [], ◌∷◌, ◌++◌, ◌⊎◌,
  inl, inr, arith,
}
use virt_db.Server.Locks.{
  Task, client_task, remote_task, ClientAt, idle, locking, sending, writing, RemoteAt, waiting,
  finishing, responding, copying, Phase, asked, State, at, start, Step, read_packet, forwarded,
  answered, sent, written, chunk_next, chunk_first, chunk_more, chunk_early, finished, responded,
  copied, Steps,
}
use virt_db.Server.Locks.Queue.{remote_part, IsQueue, IsQueued, step-IsQueued, Steps-IsQueued}
use virt_db.Server.Locks.Deadlock.{IsDeadlock, at_finishing, at_responding}

-- The step reads from no socket.
abbrev pub IsWork : {polite : Bool} {s t : State} → Step polite s t → Type 0
IsWork (read_packet r l full ctx phase m) = ⊥
IsWork (forwarded r l full ctx phase) = Unit
IsWork (answered r l full ctx phase) = Unit
IsWork (sent r l ctx phase) = Unit
IsWork (written r l full ctx phase) = Unit
IsWork (chunk_next c l phase m) = ⊥
IsWork (chunk_first c l phase m) = ⊥
IsWork (chunk_more c l phase m) = ⊥
IsWork (chunk_early c l phase m) = ⊥
IsWork (finished c l full ctx phase) = Unit
IsWork (responded c l full ctx phase) = Unit
IsWork (copied last c l full ctx phase) = Unit

-- A number of steps that read from no socket.
pub data Works (polite : Bool) : State → ℕ → State → Type 0 where
  none_left : (s : State) → Works polite s zero s
  one_more :
      (s t u : State) (n : ℕ) (step : Step polite s t)
      → IsWork step
      → Works polite t n u
      → Works polite s (suc n) u

abbrev client_work : ClientAt → ℕ
client_work idle = 0
client_work locking = 3
client_work sending = 2
client_work writing = 1

abbrev remote_work : RemoteAt → ℕ
remote_work waiting = 0
remote_work finishing = 3
remote_work responding = 2
remote_work copying = 1

-- At most this many steps are left before both loops read.
abbrev measure : State → ℕ
measure (at c r l full ctx phase) = client_work c + remote_work r

step-measure :
    (polite : Bool) (s t : State) (step : Step polite s t) → IsWork step → measure t < measure s
step-measure polite _ _ (read_packet r l full ctx phase m) w = absurd w
step-measure polite _ _ (forwarded r l full ctx phase) w = omega arith
step-measure polite _ _ (answered r l full ctx phase) w = omega arith
step-measure polite _ _ (sent r l ctx phase) w = omega arith
step-measure polite _ _ (written r l full ctx phase) w = omega arith
step-measure polite _ _ (chunk_next c l phase m) w = absurd w
step-measure polite _ _ (chunk_first c l phase m) w = absurd w
step-measure polite _ _ (chunk_more c l phase m) w = absurd w
step-measure polite _ _ (chunk_early c l phase m) w = absurd w
step-measure polite _ _ (finished c l full ctx phase) w = omega arith
step-measure polite _ _ (responded c l full ctx phase) w = omega arith
step-measure polite _ _ (copied last c l full ctx phase) w = omega arith

Works-measure :
    (polite : Bool) (s t : State) (n : ℕ) → Works polite s n t → n + measure t ≤ measure s
Works-measure polite _ _ _ (none_left s) = omega arith
Works-measure polite _ _ _ (one_more s t u n step w more) =
    omega (arith, step-measure polite s t step w, Works-measure polite t u n more)

measure-le : (s : State) → measure s ≤ 6
measure-le (at c r l full ctx phase) = omega (arith, client_le c, remote_le r)
  where
    client_le : (d : ClientAt) → client_work d ≤ 3
    client_le idle = omega arith
    client_le locking = omega arith
    client_le sending = omega arith
    client_le writing = omega arith

    remote_le : (q : RemoteAt) → remote_work q ≤ 3
    remote_le waiting = omega arith
    remote_le finishing = omega arith
    remote_le responding = omega arith
    remote_le copying = omega arith

-- Both loops read; or the client's loop waits for room in the channel while the other reads; or they
-- are in a deadlock.
pub data IsAtRest : State → Type 0 where
  both_read :
      (l : List Task) (full ctx : Bool) (phase : Phase)
      → IsAtRest (at idle waiting l full ctx phase)
  no_room :
      (l : List Task) (ctx : Bool) (phase : Phase) → IsAtRest (at sending waiting l true ctx phase)
  dead : (s : State) → IsDeadlock s → IsAtRest s

-- A step that reads from no socket is possible.
abbrev Goes : State → Type 0
Goes s = (t : State) × (step : Step false s t) × IsWork step

Goes-client :
    (r : RemoteAt) (l rest : List Task) (full ctx : Bool) (phase : Phase)
    → l ≡ client_task ∷ rest
    → Goes (at locking r l full ctx phase)
Goes-client r l rest full ctx phase h =
    subst (λ q. Goes (at locking r q full ctx phase)) (sym h)
      (at sending r (client_task ∷ rest) full ctx phase, forwarded r rest full ctx phase, tt)

Goes-finishing :
    (c : ClientAt) (l rest : List Task) (full ctx : Bool) (phase : Phase)
    → l ≡ remote_task ∷ rest
    → Goes (at c finishing l full ctx phase)
Goes-finishing c l rest full ctx phase h =
    subst (λ q. Goes (at c finishing q full ctx phase)) (sym h)
      (
        at c responding (rest ++ remote_task ∷ []) full ctx phase,
        finished c rest full ctx phase,
        tt,
      )

Goes-responding :
    (c : ClientAt) (l rest : List Task) (full ctx : Bool) (phase : Phase)
    → l ≡ remote_task ∷ rest
    → Goes (at c responding l full ctx phase)
Goes-responding c l rest full ctx phase h =
    subst (λ q. Goes (at c responding q full ctx phase)) (sym h)
      (at c copying rest full ctx phase, responded c rest full ctx phase, tt)

Goes-copying :
    (c : ClientAt) (l : List Task) (full ctx : Bool) (phase : Phase)
    → Goes (at c copying l full ctx phase)
Goes-copying c l full ctx phase =
    (at c waiting l full ctx phase, copied false c l full ctx phase, tt)

Goes-locking :
    (r : RemoteAt) (l : List Task) (full ctx : Bool) (phase : Phase)
    → IsQueue locking r l
    → Goes (at locking r l full ctx phase)
Goes-locking r l full ctx phase (inl h) = Goes-client r l (remote_part r) full ctx phase h
Goes-locking waiting l full ctx phase (inr h) = Goes-client waiting l [] full ctx phase h
Goes-locking copying l full ctx phase (inr h) = Goes-copying locking l full ctx phase
Goes-locking finishing l full ctx phase (inr h) =
    Goes-finishing locking l (client_task ∷ []) full ctx phase h
Goes-locking responding l full ctx phase (inr h) =
    Goes-responding locking l (client_task ∷ []) full ctx phase h

Goes-writing :
    (r : RemoteAt) (l : List Task) (full ctx : Bool) (phase : Phase)
    → IsQueue writing r l
    → Goes (at writing r l full ctx phase)
Goes-writing r l full ctx phase h =
    subst (λ q. Goes (at writing r q full ctx phase)) (sym h)
      (at idle r (remote_part r) full ctx phase, written r (remote_part r) full ctx phase, tt)

IsAtRest-sending :
    (r : RemoteAt) (l : List Task) (ctx : Bool) (phase : Phase)
    → IsQueue sending r l
    → Goes (at sending r l true ctx phase) ⊎ IsAtRest (at sending r l true ctx phase)
IsAtRest-sending waiting l ctx phase h = inr (no_room l ctx phase)
IsAtRest-sending copying l ctx phase h = inl (Goes-copying sending l true ctx phase)
IsAtRest-sending finishing l ctx phase h = inr (
    dead _ (
      subst (λ q. IsDeadlock (at sending finishing q true ctx phase)) (sym h)
        (at_finishing (remote_task ∷ []) ctx phase)))
IsAtRest-sending responding l ctx phase h = inr (
    dead _ (
      subst (λ q. IsDeadlock (at sending responding q true ctx phase)) (sym h)
        (at_responding (remote_task ∷ []) ctx phase)))

Goes-or_IsAtRest : (s : State) → IsQueued s → Goes s ⊎ IsAtRest s
Goes-or_IsAtRest (at idle waiting l full ctx phase) h = inr (both_read l full ctx phase)
Goes-or_IsAtRest (at idle finishing l full ctx phase) h =
    inl (Goes-finishing idle l [] full ctx phase h)
Goes-or_IsAtRest (at idle responding l full ctx phase) h =
    inl (Goes-responding idle l [] full ctx phase h)
Goes-or_IsAtRest (at idle copying l full ctx phase) h = inl (Goes-copying idle l full ctx phase)
Goes-or_IsAtRest (at locking r l full ctx phase) h = inl (Goes-locking r l full ctx phase h)
Goes-or_IsAtRest (at sending r l false ctx phase) h =
    inl (at writing r l true ctx asked, sent r l ctx phase, tt)
Goes-or_IsAtRest (at sending r l true ctx phase) h = IsAtRest-sending r l ctx phase h
Goes-or_IsAtRest (at writing r l full ctx phase) h = inl (Goes-writing r l full ctx phase h)

-- Steps that lead to rest.
abbrev Settles : State → Type 0
Settles s = (n : ℕ) × (t : State) × Works false s n t × IsAtRest t

settle : (fuel : ℕ) (s : State) → IsQueued s → measure s ≤ fuel → Settles s
settle zero s h m = elim (Goes-or_IsAtRest s h) [
  | inl (t, step, w) ↦ absurd (omega (arith, step-measure false s t step w))
  | inr rest ↦ (0, s, none_left s, rest)
]
settle (suc fuel) s h m = elim (Goes-or_IsAtRest s h) [
  | inr rest ↦ (0, s, none_left s, rest)
  | inl (t, step, w) ↦
      let lower = step-measure false s t step w in
      let (n, u, works, rest) = settle fuel t (step-IsQueued false s t step h) (omega arith) in
      (suc n, u, one_more s t u n step w works, rest)
]

-- The loops of a connection take at most six steps between two reads from a socket: no longer run of
-- such steps is possible, and a run of them leads to rest, where both loops read, or the client's
-- loop waits for room in the channel while the other reads, or they are in a deadlock.
pub Works-rest :
    (s : State)
    → Steps false start s
    → ((n : ℕ) (t : State) → Works false s n t → n ≤ 6)
      × ((n : ℕ) × (t : State) × Works false s n t × IsAtRest t)
Works-rest s steps = (
  (λ n t works. omega (arith, Works-measure false s t n works, measure-le s)),
  settle 6 s (Steps-IsQueued false start s steps refl) (measure-le s),
)

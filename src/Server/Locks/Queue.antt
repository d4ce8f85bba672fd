-- ===== src/Server/Locks/Queue.antt =====
-- The queue of the mutex follows the places of both loops.
use virt_db.Prelude.{◌≡◌, ap, Bool, List, [], ◌∷◌, ◌++◌, ◌⊎◌, inl, inr}
use virt_db.Server.Locks.{
  Task, client_task, remote_task, ClientAt, idle, locking, sending, writing, RemoteAt, waiting,
  finishing, responding, copying, State, at, Step, read_packet, forwarded, answered, sent, written,
  chunk_next, chunk_first, chunk_more, chunk_early, finished, responded, copied, Steps, done, next,
}

-- The remote loop's place in the queue of the mutex.
abbrev pub remote_part : RemoteAt → List Task
remote_part waiting = []
remote_part finishing = remote_task ∷ []
remote_part responding = remote_task ∷ []
remote_part copying = []

-- The queue of the mutex holds the loops that hold it or wait for it.
abbrev pub IsQueue : ClientAt → RemoteAt → List Task → Type 0
IsQueue idle r l = l ≡ remote_part r
IsQueue locking r l = (l ≡ client_task ∷ remote_part r) ⊎ (l ≡ remote_part r ++ client_task ∷ [])
IsQueue sending r l = l ≡ client_task ∷ remote_part r
IsQueue writing r l = l ≡ client_task ∷ remote_part r

abbrev pub IsQueued : State → Type 0
IsQueued (at c r l full ctx phase) = IsQueue c r l

-- The remote loop, which had no place in the queue, joins its end.
IsQueue-join :
    (c : ClientAt) (l : List Task)
    → IsQueue c waiting l
    → (IsQueue c finishing (l ++ remote_task ∷ [])) × (IsQueue c responding (l ++ remote_task ∷ []))
IsQueue-join idle l h = let e = ap (λ q. q ++ remote_task ∷ []) h in (e, e)
IsQueue-join locking l (inl h) = let e = ap (λ q. q ++ remote_task ∷ []) h in (inl e, inl e)
IsQueue-join locking l (inr h) = let e = ap (λ q. q ++ remote_task ∷ []) h in (inl e, inl e)
IsQueue-join sending l h = let e = ap (λ q. q ++ remote_task ∷ []) h in (e, e)
IsQueue-join writing l h = let e = ap (λ q. q ++ remote_task ∷ []) h in (e, e)

-- A client that waits for the mutex and is first has it.
IsQueue-first :
    (r : RemoteAt) (l : List Task)
    → IsQueue locking r (client_task ∷ l)
    → client_task ∷ l ≡ client_task ∷ remote_part r
IsQueue-first r l (inl h) = h
IsQueue-first waiting l (inr h) = h
IsQueue-first finishing l (inr h) = cc
IsQueue-first responding l (inr h) = cc
IsQueue-first copying l (inr h) = h

tail_eq : {a : Task} (s t : List Task) → a ∷ s ≡ a ∷ t → s ≡ t
tail_eq s t h = cc

-- The remote loop, which is first, goes to the end of the queue; or leaves it.
IsQueue-last :
    (c : ClientAt) (l : List Task)
    → IsQueue c finishing (remote_task ∷ l)
    → IsQueue c responding (l ++ remote_task ∷ [])
IsQueue-last idle l h = ap (λ q. q ++ remote_task ∷ []) (tail_eq l [] h)
IsQueue-last locking l (inl h) = cc
IsQueue-last locking l (inr h) =
    inl (ap (λ q. q ++ remote_task ∷ []) (tail_eq l (client_task ∷ []) h))
IsQueue-last sending l h = cc
IsQueue-last writing l h = cc

IsQueue-leave :
    (c : ClientAt) (l : List Task) → IsQueue c responding (remote_task ∷ l) → IsQueue c copying l
IsQueue-leave idle l h = tail_eq l [] h
IsQueue-leave locking l (inl h) = cc
IsQueue-leave locking l (inr h) = inr (tail_eq l (client_task ∷ []) h)
IsQueue-leave sending l h = cc
IsQueue-leave writing l h = cc

IsQueue-rest : (c : ClientAt) (l : List Task) → IsQueue c copying l → IsQueue c waiting l
IsQueue-rest idle l h = h
IsQueue-rest locking l h = h
IsQueue-rest sending l h = h
IsQueue-rest writing l h = h

IsQueue-skip : (c : ClientAt) (l : List Task) → IsQueue c waiting l → IsQueue c copying l
IsQueue-skip idle l h = h
IsQueue-skip locking l h = h
IsQueue-skip sending l h = h
IsQueue-skip writing l h = h

pub step-IsQueued : (polite : Bool) (s t : State) → Step polite s t → IsQueued s → IsQueued t
step-IsQueued polite _ _ (read_packet r l full ctx phase m) h =
    inr (ap (λ q. q ++ client_task ∷ []) h)
step-IsQueued polite _ _ (forwarded r l full ctx phase) h = IsQueue-first r l h
step-IsQueued polite _ _ (answered r l full ctx phase) h =
    tail_eq l (remote_part r) (IsQueue-first r l h)
step-IsQueued polite _ _ (sent r l ctx phase) h = h
step-IsQueued polite _ _ (written r l full ctx phase) h = tail_eq l (remote_part r) h
step-IsQueued polite _ _ (chunk_next c l phase m) h = (IsQueue-join c l h).0
step-IsQueued polite _ _ (chunk_first c l phase m) h = (IsQueue-join c l h).1
step-IsQueued polite _ _ (chunk_more c l phase m) h = (IsQueue-join c l h).1
step-IsQueued polite _ _ (chunk_early c l phase m) h = IsQueue-skip c l h
step-IsQueued polite _ _ (finished c l full ctx phase) h = IsQueue-last c l h
step-IsQueued polite _ _ (responded c l full ctx phase) h = IsQueue-leave c l h
step-IsQueued polite _ _ (copied last c l full ctx phase) h = IsQueue-rest c l h

pub Steps-IsQueued : (polite : Bool) (s t : State) → Steps polite s t → IsQueued s → IsQueued t
Steps-IsQueued polite _ _ (done s) h = h
Steps-IsQueued polite _ _ (next s t u step steps) h =
    Steps-IsQueued polite t u steps (step-IsQueued polite s t step h)

-- ===== src/Server/Locks.antt =====
-- server/src/serve/mod.rs: where the two loops of `handle_client` wait for each other. A step is what a
-- loop does between two places where it may be suspended. The handler's mutex is served in the order in
-- which the loops ask for it. The mutex of the client's writer is left out: who holds it waits for
-- nothing but the socket.
pub mod Queue
pub mod Deadlock
pub mod Polite
pub mod Rest
use virt_db.Prelude.{◌≡◌, Bool, true, false, List, [], ◌∷◌, ◌++◌}

pub data Task : Type 0 where
  client_task : Task
  remote_task : Task

-- Where `client_to_remote` is: reading; waiting for the mutex; at the send into the channel; at the
-- write to the database. It holds the mutex from the second until the end of the fourth.
pub data ClientAt : Type 0 where
  idle : ClientAt
  locking : ClientAt
  sending : ClientAt
  writing : ClientAt

-- Where `remote_to_client` is: reading; at the mutex before `handle_remote_response_finished`; at the
-- mutex before `handle_response`; writing to the client.
pub data RemoteAt : Type 0 where
  waiting : RemoteAt
  finishing : RemoteAt
  responding : RemoteAt
  copying : RemoteAt

-- What the two ends expect: nothing, or the rest of a response.
pub data Phase : Type 0 where
  quiet : Phase
  asked : Phase

-- Both loops; the mutex, as its holder and the tasks that wait for it in their order; whether the
-- channel is full; whether `cached_ctx` is there; and the phase.
pub data State : Type 0 where
  at : ClientAt → RemoteAt → List Task → Bool → Bool → Phase → State

abbrev pub start : State
start = at idle waiting [] false false quiet

-- A polite client asks when it has its answer, and then the database sends nothing else.
abbrev pub MayAsk : Bool → Phase → Type 0
MayAsk true phase = phase ≡ quiet
MayAsk false phase = Unit

abbrev pub MayAnswer : Bool → Phase → Type 0
MayAnswer true phase = phase ≡ asked
MayAnswer false phase = Unit

abbrev pub after : Bool → Phase → Phase
after true phase = quiet
after false phase = phase

pub data Step (polite : Bool) : State → State → Type 0 where
  -- A packet is read, and the mutex asked for.
  read_packet :
      (r : RemoteAt) (l : List Task) (full ctx : Bool) (phase : Phase)
      → MayAsk polite phase
      → Step polite
          (at idle r l full ctx phase)
          (at locking r (l ++ client_task ∷ []) full ctx phase)
  -- `handle_request` says FORWARD.
  forwarded :
      (r : RemoteAt) (l : List Task) (full ctx : Bool) (phase : Phase)
      → Step polite
          (at locking r (client_task ∷ l) full ctx phase)
          (at sending r (client_task ∷ l) full ctx phase)
  -- It says RESPONSED or DROP; the request is finished and the mutex released.
  answered :
      (r : RemoteAt) (l : List Task) (full ctx : Bool) (phase : Phase)
      → Step polite (at locking r (client_task ∷ l) full ctx phase) (at idle r l full ctx phase)
  -- The send, for which the channel must have room.
  sent :
      (r : RemoteAt) (l : List Task) (ctx : Bool) (phase : Phase)
      → Step polite (at sending r l false ctx phase) (at writing r l true ctx asked)
  -- The write to the database is done, and the mutex released.
  written :
      (r : RemoteAt) (l : List Task) (full ctx : Bool) (phase : Phase)
      → Step polite (at writing r (client_task ∷ l) full ctx phase) (at idle r l full ctx phase)
  -- Bytes of a response are read: `try_recv` gives a context while there is one already.
  chunk_next :
      (c : ClientAt) (l : List Task) (phase : Phase)
      → MayAnswer polite phase
      → Step polite
          (at c waiting l true true phase)
          (at c finishing (l ++ remote_task ∷ []) false true phase)
  -- It gives the first context.
  chunk_first :
      (c : ClientAt) (l : List Task) (phase : Phase)
      → MayAnswer polite phase
      → Step polite
          (at c waiting l true false phase)
          (at c responding (l ++ remote_task ∷ []) false true phase)
  -- It gives none.
  chunk_more :
      (c : ClientAt) (l : List Task) (phase : Phase)
      → MayAnswer polite phase
      → Step polite
          (at c waiting l false true phase)
          (at c responding (l ++ remote_task ∷ []) false true phase)
  -- It gives none and there is none yet.
  chunk_early :
      (c : ClientAt) (l : List Task) (phase : Phase)
      → MayAnswer polite phase
      → Step polite (at c waiting l false false phase) (at c copying l false false phase)
  -- `handle_remote_response_finished`; the mutex is released and asked for again.
  finished :
      (c : ClientAt) (l : List Task) (full ctx : Bool) (phase : Phase)
      → Step polite
          (at c finishing (remote_task ∷ l) full ctx phase)
          (at c responding (l ++ remote_task ∷ []) full ctx phase)
  -- `handle_response`; the mutex is released.
  responded :
      (c : ClientAt) (l : List Task) (full ctx : Bool) (phase : Phase)
      → Step polite
          (at c responding (remote_task ∷ l) full ctx phase)
          (at c copying l full ctx phase)
  -- The bytes are written to the client; `last` says whether they end the response.
  copied :
      (last : Bool) (c : ClientAt) (l : List Task) (full ctx : Bool) (phase : Phase)
      → Step polite (at c copying l full ctx phase) (at c waiting l full ctx (after last phase))

pub data Steps (polite : Bool) : State → State → Type 0 where
  done : (s : State) → Steps polite s s
  next : (s t u : State) → Step polite s t → Steps polite t u → Steps polite s u

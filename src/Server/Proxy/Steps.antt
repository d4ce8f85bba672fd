-- ===== src/Server/Proxy/Steps.antt =====
-- The rounds of `client_to_remote` that go on, by what they do.
use virt_db.Prelude.{
  ℕ, ◌-◌, ◌≡◌, refl, true, Option, none, some, List, [], ◌∷◌, ◌++◌, length, take, drop, is_empty,
  arith, inl, inr, Bool-cases, ◌⊎◌, ltb, if◌then◌else◌,
}
use virt_db.Text.{from_utf8}
use virt_db.Server.Packet.{PacketType, Checked, panic, value, Packet, packet_type}
use virt_db.Server.Handler.{Action, forward, responsed, ProxyContext, Env, handle_request}
use virt_db.Server.Handler.{drop as drop_action}
use virt_db.Server.Handler.Outcomes.{handle_request-frame}
use virt_db.Server.Proxy.{
  Conn, Round, running, closed, panicked, waiting, Arrival, fresh, read, finish_here, perform,
  handle_typed, client_step, Event, step, continue, run,
}

module _ (env : Env) (a : Arrival) (conn : Conn) where
  -- What the round finds in its buffer.
  abbrev pub filled : List ℕ
  filled = conn.r_buf ++ read conn a.chunk

  abbrev pub first_packet : Packet
  first_packet = record { bytes = filled }

  -- The context of the request, before it is handled and after.
  abbrev pub request_ctx : ProxyContext
  request_ctx = record (fresh a.created) {
    sql = from_utf8 (take (length (read conn a.chunk) - 5) (drop 5 filled));
  }

  abbrev pub handled : PacketType → ProxyContext × Action
  handled t = handle_request env a.replies a.entities a.clock t request_ctx

  abbrev pub kept : Conn
  kept = record conn { r_buf = filled; to_remote = conn.to_remote ++ filled }

  abbrev pub passed : PacketType → Conn
  passed t = record conn {
    r_buf = [];
    ctx_channel = record (handled t).0 { mysql_exec_start_time = some a.forwarded } ∷ [];
    to_remote = conn.to_remote ++ filled;
  }

  abbrev pub answered : PacketType → List ℕ → Conn
  answered t v =
      finish_here env a v (handled t).0
        (record conn { to_client = if a.written then conn.to_client ++ v else conn.to_client })

  -- What a round did that goes on from `conn'`.
  pub data Effect (conn' : Conn) : Type 0 where
    keep : packet_type first_packet ≡ value none → conn' ≡ kept → Effect conn'
    pass :
        (t : PacketType)
        → packet_type first_packet ≡ value (some t)
        → (handled t).1 ≡ forward
        → conn.ctx_channel ≡ []
        → conn' ≡ passed t
        → Effect conn'
    answer :
        (t : PacketType) (v : List ℕ)
        → packet_type first_packet ≡ value (some t)
        → (handled t).1 ≡ responsed v
        → conn' ≡ answered t v
        → Effect conn'

  is_empty-eq {ℓ} : {A : Type ℓ} (xs : List A) → is_empty xs ≡ true → xs ≡ []
  is_empty-eq [] h = refl
  is_empty-eq (x ∷ xs) h = cc

  perform-Effect :
      (t : PacketType) (action : Action) (conn' : Conn)
      → packet_type first_packet ≡ value (some t)
      → (handled t).1 ≡ action
      → perform env a filled conn (handled t).0 action ≡ running conn'
      → Effect conn'
  unfolding perform
  perform-Effect t forward conn' p e h =
      pass t p e (is_empty-eq conn.ctx_channel (ground arith)) (ground arith)
  perform-Effect t drop_action conn' p e h =
      absurd ((handle_request-frame env a.replies a.entities a.clock t request_ctx).0 e)
  perform-Effect t (responsed v) conn' p e h = answer t v p e (cc)

  typed-Effect :
      (t : PacketType) (conn' : Conn)
      → packet_type first_packet ≡ value (some t)
      → handle_typed env a filled (length (read conn a.chunk)) conn t ≡ running conn'
      → Effect conn'
  unfolding handle_typed
  typed-Effect t conn' p h = elim (Bool-cases (ltb (length (read conn a.chunk)) 5)) [
    | inl short ↦ absurd (ground arith)
    | inr long ↦ perform-Effect t (handled t).1 conn' p refl (ground arith)
  ]

  Checked-cases :
      (c : Checked (Option PacketType))
      → (c ≡ panic) ⊎ (c ≡ value none) ⊎ ((t : PacketType) × (c ≡ value (some t)))
  Checked-cases panic = inl refl
  Checked-cases (value none) = inr (inl refl)
  Checked-cases (value (some t)) = inr (inr (t, refl))

  -- A round that goes on has written on a packet of no known type, has passed a request on, or has
  -- answered it from the cache.
  pub client_step-Effect : (conn' : Conn) → client_step env a conn ≡ running conn' → Effect conn'
  unfolding client_step
  client_step-Effect conn' h = elim (Checked-cases (packet_type first_packet)) [
    | inl panics ↦ absurd (ground arith)
    | inr (inl unknown) ↦ keep unknown (ground arith)
    | inr (inr (t, known)) ↦ typed-Effect t conn' known (ground arith)
  ]

continue-eq-running :
    (r : Round) (f : Conn → Round) (conn' : Conn)
    → continue r f ≡ running conn'
    → (mid : Conn) × (r ≡ running mid) × (f mid ≡ running conn')
continue-eq-running (running mid) f conn' h = (mid, refl, h)
continue-eq-running (closed c) f conn' h = cc
continue-eq-running panicked f conn' h = cc
continue-eq-running (waiting c) f conn' h = cc

pub run-cons :
    (env : Env) (e : Event) (events : List Event) (conn conn' : Conn)
    → run env (e ∷ events) conn ≡ running conn'
    → (mid : Conn) × (step env e conn ≡ running mid) × (run env events mid ≡ running conn')
unfolding run
run-cons env e events conn conn' h =
    continue-eq-running (step env e conn) (λ c. run env events c) conn' h

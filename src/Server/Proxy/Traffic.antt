-- ===== src/Server/Proxy/Traffic.antt =====
-- What the two sides of a connection receive.
use virt_db.Prelude.{
  ℕ, ◌-◌, ◌≤◌, ◌≡◌, ◌≢◌, refl, sym, ap, ◌∙◌, none, some, true, List, [], ◌∷◌, ◌++◌, append_assoc,
  append-nil, Text, length, take, take_all, All, arith,
}
use virt_db.Server.Packet.{value, packet_type}
use virt_db.Server.Handler.{Env}
use virt_db.Server.Handler.Outcomes.{handle_request-responsed}
use virt_db.Server.Proxy.{
  Conn, running, Arrival, Response, Event, from_client, from_remote, buffer_size, client_step,
  remote_step, step, run,
}
use virt_db.Server.Proxy.Steps.{
  client_step-Effect, Effect, keep, pass, answer, filled, run-cons, request_ctx,
}

-- A packet of a known type that fits the buffer, at a time when Redis holds no key.
pub record IsPlain (a : Arrival) : Type 0 where
  pub fits : length a.chunk ≤ buffer_size
  pub known : packet_type (record { bytes = a.chunk }) ≢ value none
  pub no_key : (key : Text) → a.replies.exists key ≢ some true

abbrev pub IsPlainEvent : Event → Type 0
IsPlainEvent (from_client a) = IsPlain a
IsPlainEvent (from_remote r) = length r.chunk ≤ buffer_size

abbrev pub client_bytes : List Event → List ℕ
client_bytes [] = []
client_bytes (from_client a ∷ events) = a.chunk ++ client_bytes events
client_bytes (from_remote r ∷ events) = client_bytes events

abbrev pub remote_bytes : List Event → List ℕ
remote_bytes [] = []
remote_bytes (from_client a ∷ events) = remote_bytes events
remote_bytes (from_remote r ∷ events) = r.chunk ++ remote_bytes events

module _ (env : Env) where
  pub filled-empty :
      (a : Arrival) (conn : Conn)
      → conn.r_buf ≡ []
      → length a.chunk ≤ buffer_size
      → filled env a conn ≡ a.chunk
  filled-empty a conn e h =
      ap (λ b. b ++ take (buffer_size - length b) a.chunk) e ∙ take_all buffer_size a.chunk h

  plain_client_step :
      (a : Arrival) (conn conn' : Conn)
      → IsPlain a
      → conn.r_buf ≡ []
      → client_step env a conn ≡ running conn'
      → (conn'.r_buf ≡ [])
        × (conn'.to_remote ≡ conn.to_remote ++ a.chunk)
        × (conn'.to_client ≡ conn.to_client)
  plain_client_step a conn conn' p e h = go (client_step-Effect env a conn conn' h)
    where
      whole : filled env a conn ≡ a.chunk
      whole = filled-empty a conn e p.fits

      go :
          Effect env a conn conn'
          → (conn'.r_buf ≡ [])
            × (conn'.to_remote ≡ conn.to_remote ++ a.chunk)
            × (conn'.to_client ≡ conn.to_client)
      go (keep unknown q) =
          absurd (p.known (ap (λ b. packet_type (record { bytes = b })) (sym whole) ∙ unknown))
      go (pass t known f empty q) = (
        ap (λ (c : Conn). c.r_buf) q,
        ap (λ (c : Conn). c.to_remote) q ∙ ap (λ b. conn.to_remote ++ b) whole,
        ap (λ (c : Conn). c.to_client) q,
      )
      go (answer t v known r q) =
          let hit =
            (handle_request-responsed env a.replies a.entities a.clock t (request_ctx env a conn)
                v).0
              r in
          absurd (p.no_key _ hit.exists)

  plain_remote_step :
      (r : Response) (conn conn' : Conn)
      → length r.chunk ≤ buffer_size
      → remote_step env r conn ≡ running conn'
      → (conn'.r_buf ≡ conn.r_buf)
        × (conn'.to_remote ≡ conn.to_remote)
        × (conn'.to_client ≡ conn.to_client ++ r.chunk)
  unfolding remote_step
  plain_remote_step r conn conn' h s =
      let whole = take_all buffer_size r.chunk h in (ground arith, ground arith, ground arith)

  plain_step :
      (e : Event) (conn conn' : Conn)
      → IsPlainEvent e
      → conn.r_buf ≡ []
      → step env e conn ≡ running conn'
      → (conn'.r_buf ≡ [])
        × (conn'.to_remote ≡ conn.to_remote ++ client_bytes (e ∷ []))
        × (conn'.to_client ≡ conn.to_client ++ remote_bytes (e ∷ []))
  plain_step (from_client a) conn conn' p b h =
      let (clean, up, down) = plain_client_step a conn conn' p b h in
      (
        clean,
        up ∙ ap (λ l. conn.to_remote ++ l) (sym (append-nil a.chunk)),
        down ∙ sym (append-nil conn.to_client),
      )
  plain_step (from_remote r) conn conn' p b h =
      let (same, up, down) = plain_remote_step r conn conn' p h in
      (
        same ∙ b,
        up ∙ sym (append-nil conn.to_remote),
        down ∙ ap (λ l. conn.to_client ++ l) (sym (append-nil r.chunk)),
      )

  client_bytes-cons :
      (e : Event) (events : List Event)
      → client_bytes (e ∷ []) ++ client_bytes events ≡ client_bytes (e ∷ events)
  client_bytes-cons (from_client a) events = ap (λ l. l ++ client_bytes events) (append-nil a.chunk)
  client_bytes-cons (from_remote r) events = refl

  remote_bytes-cons :
      (e : Event) (events : List Event)
      → remote_bytes (e ∷ []) ++ remote_bytes events ≡ remote_bytes (e ∷ events)
  remote_bytes-cons (from_client a) events = refl
  remote_bytes-cons (from_remote r) events = ap (λ l. l ++ remote_bytes events) (append-nil r.chunk)

  -- While Redis holds no key and every packet of the client has a known type, the proxy is
  -- transparent: the database has received all bytes of the client in order, the client all bytes
  -- of the database in order, and nothing else, however the two directions interleave.
  pub run-transparent :
      (events : List Event) (conn conn' : Conn)
      → All IsPlainEvent events
      → conn.r_buf ≡ []
      → run env events conn ≡ running conn'
      → (conn'.to_remote ≡ conn.to_remote ++ client_bytes events)
        × (conn'.to_client ≡ conn.to_client ++ remote_bytes events)
  unfolding run
  run-transparent [] conn conn' p b h =
      let same : conn ≡ conn' = cc in
      (
        ap (λ (c : Conn). c.to_remote) (sym same) ∙ sym (append-nil conn.to_remote),
        ap (λ (c : Conn). c.to_client) (sym same) ∙ sym (append-nil conn.to_client),
      )
  run-transparent (e ∷ events) conn conn' p b h =
      let (mid, first, rest) = run-cons env e events conn conn' h in
      let (clean, up, down) = plain_step e conn mid p.0 b first in
      let (up', down') = run-transparent events mid conn' p.1 clean rest in
      (
        up'
            ∙ ap (λ l. l ++ client_bytes events) up
            ∙ append_assoc conn.to_remote (client_bytes (e ∷ [])) (client_bytes events)
            ∙ ap (λ l. conn.to_remote ++ l) (client_bytes-cons e events),
        down'
            ∙ ap (λ l. l ++ remote_bytes events) down
            ∙ append_assoc conn.to_client (remote_bytes (e ∷ [])) (remote_bytes events)
            ∙ ap (λ l. conn.to_client ++ l) (remote_bytes-cons e events),
      )

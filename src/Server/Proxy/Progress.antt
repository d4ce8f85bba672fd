-- ===== src/Server/Proxy/Progress.antt =====
-- When a round goes on.
use virt_db.Prelude.{
  ℕ, ◌-◌, ◌≤◌, ◌≡◌, refl, ap, ◌∙◌, true, false, some, List, [], ◌∷◌, ◌++◌, length, take, take_all,
  is_empty, arith,
}
use virt_db.Server.Packet.{PacketType, value, packet_type}
use virt_db.Server.Handler.{Env, Action, ProxyContext, forward, responsed}
use virt_db.Server.Handler.{drop as drop_action}
use virt_db.Server.Proxy.{
  Conn, running, Arrival, buffer_size, read, perform, handle_typed, client_step,
}
use virt_db.Server.Proxy.Steps.{filled, handled}
use virt_db.Server.Proxy.Traffic.{filled-empty}

not_empty_of_length : (xs : List ℕ) → 5 ≤ length xs → is_empty xs ≡ false
not_empty_of_length [] h = absurd (omega arith)
not_empty_of_length (x ∷ xs) h = refl

module _ (env : Env) where
  perform-runs :
      (a : Arrival) (bytes : List ℕ) (conn : Conn) (ctx : ProxyContext) (action : Action)
      → conn.ctx_channel ≡ []
      → a.written ≡ true
      → (conn' : Conn) × (perform env a bytes conn ctx action ≡ running conn')
  unfolding perform
  perform-runs a bytes conn ctx forward e w = (
    record conn {
      r_buf = [];
      ctx_channel = record ctx { mysql_exec_start_time = some a.forwarded } ∷ [];
      to_remote = conn.to_remote ++ bytes;
    },
    ground arith,
  )
  perform-runs a bytes conn ctx drop_action e w = (_, refl)
  perform-runs a bytes conn ctx (responsed v) e w = (_, refl)

  -- A packet of a known type is handled to the end, if it arrives whole at an empty buffer while the
  -- channel has room, and what is written on is taken.
  pub client_step-runs :
      (a : Arrival) (conn : Conn) (t : PacketType)
      → conn.r_buf ≡ []
      → conn.ctx_channel ≡ []
      → 5 ≤ length a.chunk
      → length a.chunk ≤ buffer_size
      → packet_type (record { bytes = a.chunk }) ≡ value (some t)
      → a.written ≡ true
      → (conn' : Conn) × (client_step env a conn ≡ running conn')
  unfolding client_step handle_typed
  client_step-runs a conn t b e long short known w =
      let whole : read conn a.chunk ≡ a.chunk =
        ap (λ b. take (buffer_size - length b) a.chunk) b ∙ take_all buffer_size a.chunk short in
      let all : filled env a conn ≡ a.chunk = filled-empty env a conn b short in
      let typed : packet_type (record { bytes = filled env a conn }) ≡ value (some t) =
        ap (λ l. packet_type (record { bytes = l })) all ∙ known in
      let (conn', runs) =
        perform-runs a (filled env a conn) conn (handled env a conn t).0 (handled env a conn t).1 e
          w in
      (conn', ground (arith, not_empty_of_length a.chunk long))

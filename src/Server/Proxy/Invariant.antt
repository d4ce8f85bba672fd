-- ===== src/Server/Proxy/Invariant.antt =====
-- What holds of a connection between two rounds.
use virt_db.Prelude.{
  ◌-◌, ◌≤◌, ◌≡◌, refl, sym, subst, none, List, [], ◌∷◌, length, take, length-append, length-take_le,
  arith, inl, inr, ◌⊎◌,
}
use virt_db.Server.Packet.{value, packet_type}
use virt_db.Server.Handler.{Env}
use virt_db.Server.Proxy.{
  Conn, running, Arrival, Response, Event, from_client, from_remote, buffer_size, remote_step, step,
  run,
}
use virt_db.Server.Proxy.Steps.{client_step-Effect, Effect, keep, pass, answer, filled, run-cons}

pub record IsValid (conn : Conn) : Type 0 where
  pub one_ctx : length conn.ctx_channel ≤ 1
  pub fits : length conn.r_buf ≤ buffer_size
  pub clean : (conn.r_buf ≡ []) ⊎ (packet_type (record { bytes = conn.r_buf }) ≡ value none)

module _ (env : Env) where
  filled-fits :
      (a : Arrival) (conn : Conn)
      → length conn.r_buf ≤ buffer_size
      → length (filled env a conn) ≤ buffer_size
  filled-fits a conn h = omega (
    arith,
    length-append conn.r_buf (take (buffer_size - length conn.r_buf) a.chunk),
    length-take_le (buffer_size - length conn.r_buf) a.chunk,
  )

  Effect-IsValid :
      (a : Arrival) (conn conn' : Conn) → IsValid conn → Effect env a conn conn' → IsValid conn'
  Effect-IsValid a conn conn' v (keep unknown e) =
      subst IsValid (sym e)
        (record { one_ctx = v.one_ctx; fits = filled-fits a conn v.fits; clean = inr unknown })
  Effect-IsValid a conn conn' v (pass t known f empty e) =
      subst IsValid (sym e) (record { one_ctx = omega arith; fits = omega arith; clean = inl refl })
  Effect-IsValid a conn conn' v (answer t c known h e) =
      subst IsValid (sym e) (record { one_ctx = v.one_ctx; fits = omega arith; clean = inl refl })

  -- A round of `remote_to_client` leaves the client's buffer alone and at most empties the channel.
  remote_step-frame :
      (r : Response) (conn conn' : Conn)
      → length conn.ctx_channel ≤ 1
      → remote_step env r conn ≡ running conn'
      → (conn'.r_buf ≡ conn.r_buf) × (length conn'.ctx_channel ≤ 1)
  unfolding remote_step
  remote_step-frame r conn conn' n h = (ground arith, ground arith)

  step-IsValid :
      (e : Event) (conn conn' : Conn)
      → IsValid conn
      → step env e conn ≡ running conn'
      → IsValid conn'
  step-IsValid (from_client a) conn conn' v h =
      Effect-IsValid a conn conn' v (client_step-Effect env a conn conn' h)
  step-IsValid (from_remote r) conn conn' v h =
      let (same, one) = remote_step-frame r conn conn' v.one_ctx h in
      record {
        one_ctx = one;
        fits = subst (λ b. length b ≤ buffer_size) (sym same) v.fits;
        clean =
            subst (λ b. (b ≡ []) ⊎ (packet_type (record { bytes = b }) ≡ value none)) (sym same)
              v.clean;
      }

  -- However the rounds of a connection follow each other: at most one context waits in the channel,
  -- the buffer keeps within its size, and between rounds it is empty or holds a packet of no known
  -- type.
  pub run-IsValid :
      (events : List Event) (conn conn' : Conn)
      → IsValid conn
      → run env events conn ≡ running conn'
      → IsValid conn'
  unfolding run
  run-IsValid [] conn conn' v h = subst IsValid (cc) v
  run-IsValid (e ∷ events) conn conn' v h =
      let (mid, first, rest) = run-cons env e events conn conn' h in
      run-IsValid events mid conn' (step-IsValid e conn mid v first) rest

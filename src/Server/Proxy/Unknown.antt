-- ===== src/Server/Proxy/Unknown.antt =====
-- A packet of no known type stays in the client's buffer, and the database is sent the whole buffer
-- again with every later packet.
use virt_db.Prelude.{
  ℕ, ◌-◌, ◌≤◌, ◌≡◌, sym, ap, subst, ◌∙◌, true, false, none, List, [], ◌∷◌, ◌++◌, map, append_assoc,
  append-nil, length, take_all, length-append, is_empty, All, arith,
}
use virt_db.Server.Packet.{value, packet_type}
use virt_db.Server.Handler.{Env}
use virt_db.Server.Proxy.{
  Conn, running, Arrival, from_client, buffer_size, read, client_step, continue, run,
}

-- All that the arrivals bring.
abbrev pub brought : List Arrival → List ℕ
brought [] = []
brought (a ∷ arrivals) = a.chunk ++ brought arrivals

-- What is written to the database from a buffer that holds `held`: each time all so far.
abbrev pub resent : List ℕ → List Arrival → List ℕ
resent held [] = []
resent held (a ∷ arrivals) = (held ++ a.chunk) ++ resent (held ++ a.chunk) arrivals

-- The bytes have a fifth, and it is the code of no command.
abbrev pub IsUnknown : List ℕ → Type 0
IsUnknown bytes = packet_type (record { bytes = bytes }) ≡ value none

IsUnknown-append : (s t : List ℕ) → IsUnknown s → IsUnknown (s ++ t)
unfolding packet_type
IsUnknown-append (a ∷ b ∷ c ∷ d ∷ e ∷ s) t h = h
IsUnknown-append (a ∷ b ∷ c ∷ d ∷ []) t h = cc
IsUnknown-append (a ∷ b ∷ c ∷ []) t h = cc
IsUnknown-append (a ∷ b ∷ []) t h = cc
IsUnknown-append (a ∷ []) t h = cc
IsUnknown-append [] t h = cc

-- An arrival that brings something and whose write succeeds.
abbrev pub IsLive : Arrival → Type 0
IsLive a = (is_empty a.chunk ≡ false) × (a.written ≡ true)

module _ (env : Env) where
  unknown_step :
      (a : Arrival) (conn : Conn)
      → IsLive a
      → length (conn.r_buf ++ a.chunk) ≤ buffer_size
      → IsUnknown (conn.r_buf ++ a.chunk)
      → client_step env a conn
        ≡ running (record conn {
          r_buf = conn.r_buf ++ a.chunk;
          to_remote = conn.to_remote ++ (conn.r_buf ++ a.chunk);
        })
  unfolding client_step
  unknown_step a conn live fits unknown =
      let whole : read conn a.chunk ≡ a.chunk =
        take_all (buffer_size - length conn.r_buf) a.chunk
          (omega (arith, length-append conn.r_buf a.chunk)) in
      rw whole (ground arith)

  -- From a packet of no known type on, where only the client's packets come, each write succeeds and
  -- all the packets fit the buffer of 8192 bytes together, each packet, of any type, makes the proxy send
  -- all the packets so far once more, and no request is handled.
  pub run-unknown :
      (a : Arrival) (arrivals : List Arrival) (conn : Conn)
      → All IsLive (a ∷ arrivals)
      → length (conn.r_buf ++ brought (a ∷ arrivals)) ≤ buffer_size
      → IsUnknown (conn.r_buf ++ a.chunk)
      → run env (map from_client (a ∷ arrivals)) conn
        ≡ running (record conn {
          r_buf = conn.r_buf ++ brought (a ∷ arrivals);
          to_remote = conn.to_remote ++ resent conn.r_buf (a ∷ arrivals);
        })
  unfolding run
  run-unknown a [] conn live fits unknown =
      ap (λ r. continue r running) (unknown_step a conn live.0 (rw append-nil at fits) unknown)
      ∙ simp append-nil
  run-unknown a (b ∷ arrivals) conn live fits unknown =
      let held = conn.r_buf ++ a.chunk in
      let conn1 : Conn = record conn { r_buf = held; to_remote = conn.to_remote ++ held } in
      ap (λ r. continue r (λ c. run env (map from_client (b ∷ arrivals)) c))
        (unknown_step a conn live.0
          (omega (
            arith,
            fits,
            length-append conn.r_buf (a.chunk ++ brought (b ∷ arrivals)),
            length-append a.chunk (brought (b ∷ arrivals)),
            length-append conn.r_buf a.chunk,
          ))
          unknown)
      ∙ run-unknown b arrivals conn1 live.1
          (subst (λ l. length l ≤ buffer_size)
            (sym (append_assoc conn.r_buf a.chunk (brought (b ∷ arrivals)))) fits)
          (IsUnknown-append held b.chunk unknown)
      ∙ simp append_assoc

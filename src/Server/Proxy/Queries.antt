-- ===== src/Server/Proxy/Queries.antt =====
-- A query packet, from its bytes to the handler (server/src/serve/mod.rs).
use virt_db.Prelude.{
  ℕ, ◌-◌, ◌≤◌, ◌≡◌, sym, ap, ◌∙◌, false, none, some, List, [], ◌∷◌, ◌++◌, length, take, drop,
  take_all, is_empty, Text, All, arith, ltb, if◌then◌else◌,
}
use virt_db.Text.{from_utf8}
use virt_db.Text.Encoding.{IsScalar, to_utf8, from_utf8-to_utf8}
use virt_db.Server.Packet.{com_query, panic, value, packet_type}
use virt_db.Server.Handler.{Env, ProxyContext, handle_request}
use virt_db.Server.Proxy.{
  Conn, Round, Arrival, buffer_size, closed, panicked, fresh, read, perform, handle_typed,
  keep_buffer, client_step,
}

-- A packet with the command byte of a query: four bytes of header, and the statement in UTF-8.
abbrev pub query_of : ℕ → ℕ → ℕ → ℕ → Text → List ℕ
query_of a b c d sql = a ∷ b ∷ c ∷ d ∷ 3 ∷ to_utf8 sql

-- The context that the handler is given.
abbrev pub asked : ℕ → Text → ProxyContext
asked now sql = record (fresh now) { sql = some sql }

handle_typed-query :
    (env : Env) (a : Arrival) (conn : Conn) (h0 h1 h2 h3 : ℕ) (sql : Text)
    → All IsScalar sql
    → let bytes = query_of h0 h1 h2 h3 sql in
      let handled =
        handle_request env a.replies a.entities a.clock com_query (asked a.created sql) in
      handle_typed env a bytes (length bytes) conn com_query
      ≡ perform env a bytes conn handled.0 handled.1
unfolding handle_typed
handle_typed-query env a conn h0 h1 h2 h3 sql scalar =
    let bytes = query_of h0 h1 h2 h3 sql in
    let n = length (to_utf8 sql) in
    let text : from_utf8 (take (length bytes - 5) (drop 5 bytes)) ≡ some sql =
      ap (λ k. from_utf8 (take k (to_utf8 sql))) (omega arith)
      ∙ ap from_utf8 (take_all n (to_utf8 sql) (omega arith))
      ∙ from_utf8-to_utf8 sql scalar in
    let long : ltb (length bytes) 5 ≡ false = ground arith in rw (long, text)

-- A round of `client_to_remote` once its bytes are read.
abbrev dispatch : Env → Arrival → Conn → List ℕ → List ℕ → Round
dispatch env a conn new bytes =
    if is_empty new then closed conn else elim (packet_type (record { bytes = bytes })) [
      | panic ↦ panicked
      | value none ↦ keep_buffer a.written bytes conn
      | value (some t) ↦ handle_typed env a bytes (length new) conn t
    ]

module _ (env : Env) (a : Arrival) (conn : Conn) where
  -- A query packet that arrives whole at an empty buffer is handled as its statement: what is done is
  -- what `handle_request` says for a query with that statement.
  pub client_step-query :
      (h0 h1 h2 h3 : ℕ) (sql : Text)
      → conn.r_buf ≡ []
      → All IsScalar sql
      → a.chunk ≡ query_of h0 h1 h2 h3 sql
      → length a.chunk ≤ buffer_size
      → let handled =
          handle_request env a.replies a.entities a.clock com_query (asked a.created sql) in
        client_step env a conn ≡ perform env a a.chunk conn handled.0 handled.1
  unfolding client_step packet_type
  client_step-query h0 h1 h2 h3 sql empty scalar whole fits =
      let read_all : read conn a.chunk ≡ a.chunk =
        ap (λ b. take (buffer_size - length b) a.chunk) empty ∙ take_all buffer_size a.chunk fits in
      let handled =
        handle_request env a.replies a.entities a.clock com_query (asked a.created sql) in
      ap (λ n. dispatch env a conn n (conn.r_buf ++ n)) read_all
      ∙ ap (λ b. dispatch env a conn a.chunk (b ++ a.chunk)) empty
      ∙ ap (λ c. dispatch env a conn c c) whole
      ∙ handle_typed-query env a conn h0 h1 h2 h3 sql scalar
      ∙ ap (λ c. perform env a c conn handled.0 handled.1) (sym whole)

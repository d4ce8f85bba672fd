-- ===== src/Server/System/Tracked.antt =====
-- The contexts of a connection, and the statements that its client asked for.
use virt_db.Prelude.{ℕ, ◌≡◌, Option, none, some, List, ◌++◌, Text, All, arith}
use virt_db.Server.Handler.{ProxyContext, handle_response}
use virt_db.Server.Proxy.{Conn}
use virt_db.Server.System.Provenance.{Contains}

-- The statement of the context, if it has one, was asked for.
abbrev pub IsAsked : List Text → ProxyContext → Type 0
IsAsked asked ctx = (sql : Text) → ctx.sql ≡ some sql → Contains asked sql

abbrev pub IsAskedIf : List Text → Option ProxyContext → Type 0
IsAskedIf asked none = Unit
IsAskedIf asked (some ctx) = IsAsked asked ctx

-- The contexts of a connection are of statements that its client asked for, and what is collected
-- of the response is the last that the database sent.
pub record IsTracked (asked : List Text) (received : List ℕ) (conn : Conn) : Type 0 where
  pub current : IsAskedIf asked conn.cached_ctx
  pub queued : All (IsAsked asked) conn.ctx_channel
  pub before : List ℕ
  pub collected : received ≡ before ++ conn.cached_buf

pub handle_response-store :
    (now now' : ℕ) (ctx : ProxyContext)
    → (handle_response now now' ctx).should_update_cache ≡ ctx.should_update_cache
unfolding handle_response
handle_response-store now now' ctx = ground arith

pub handle_response-sql :
    (now now' : ℕ) (ctx : ProxyContext) → (handle_response now now' ctx).sql ≡ ctx.sql
unfolding handle_response
handle_response-sql now now' ctx = ground arith

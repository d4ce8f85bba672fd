-- ===== src/Tests/Replay.antt =====
-- A response on its way from one connection to another, and a statement that is not ASCII.
use virt_db.Prelude.{◌≡◌, refl, All, ◌<◌, inr, [], ◌∷◌, ◌++◌, Text, arith, inl}
use virt_db.Text.{from_utf8, is_whitespace, starts_with, contains, to_uppercase}
use virt_db.Text.Encoding.{IsScalar, to_utf8}
use virt_db.Sql.Comments.{remove_comments}
use virt_db.Sql.Tokens.{is_pattern_match}
use virt_db.Server.Packet.{com_query}
use virt_db.Server.Cache.{escape, handle_cache_task}
use virt_db.Server.Handler.{find_entity, handle_request, handle_remote_response_finished}
use virt_db.Server.Handler.Requests.{IsCacheable}
use virt_db.Server.Proxy.{Conn, running, Arrival, fresh, client_step, remote_step, perform}
use virt_db.Server.Proxy.Queries.{query_of, asked, client_step-query}
use virt_db.Server.Proxy.Recording.{done, by_client, by_remote, task_of}
use virt_db.Server.Serving.{replies_of}
use virt_db.Server.Serving.Replay.{Asks, IsAnswered, cache, response-replayed}
use virt_db.Tests.World.{unicode, env, statement, entity}
use virt_db.Tests.Proxy.{
  start, arrival, response, query, missed, in_response, next_asked, finished, next_ctx,
  in_response_runs, asked_before, collected_runs, next_asked_runs, finished_runs,
}
use virt_db.Tests.Fresh.{redis, times, laws, events, Entries, other_key}

ascii : (s : Text) → All (λ c. c < 0x80) s → All IsScalar s
ascii [] h = tt
ascii (c ∷ s) h = (inl (omega arith), ascii s h.1)

-- What Redis holds a second before the minute is over.
abbrev now : Entries
now =
    cache unicode redis times laws env missed statement (1 ∷ 2 ∷ []) [] events
      (unfold handle_cache_task in refl) (omega arith) (other_key, tt) (omega arith)

abbrev later_query : Arrival
later_query = record (arrival query) { replies = replies_of redis now }

cacheable : IsCacheable env (entity ∷ []) com_query (asked 0 statement) statement entity
unfolding find_entity is_whitespace starts_with contains to_uppercase is_pattern_match
    remove_comments
cacheable = record {
  has_sql = refl;
  is_query = refl;
  is_select = refl;
  one_packet = refl;
  found = refl;
}

asks : Asks statement later_query start
unfolding to_utf8
asks = record {
  h0 = 9;
  h1 = 0;
  h2 = 0;
  h3 = 0;
  empty = refl;
  scalar = ascii statement (omega arith);
  whole = refl;
  fits = omega arith;
  written = refl;
}

response-replayed_example :
    (finished.out.cache_tasks
      ≡ next_asked.out.cache_tasks ++ (task_of statement missed (1 ∷ 2 ∷ []) ∷ []))
    × ((other' : Conn) × (client_step env later_query start ≡ running other')
        × IsAnswered (1 ∷ 2 ∷ []) start other')
unfolding remove_comments escape is_whitespace handle_cache_task client_step remote_step
    handle_request from_utf8 starts_with to_uppercase contains handle_remote_response_finished
response-replayed_example =
    response-replayed unicode redis times laws env (fresh 0) missed next_ctx statement (2 ∷ [])
      asked_before in_response next_asked finished (response (1 ∷ [])) (response (3 ∷ [])) [] events
      later_query start entity refl refl in_response_runs
      (by_client (by_remote done (response (2 ∷ [])) refl collected_runs refl) (arrival query)
        next_asked_runs)
      refl finished_runs refl refl refl refl refl (omega arith) (other_key, tt) (omega arith) asks
      refl (λ h. cc) (λ h. cc) cacheable (refl, refl) (omega arith)

-- A letter of each length in UTF-8.
abbrev letters : Text
letters = 0x41 ∷ 0xe9 ∷ 0x20ac ∷ 0x1f600 ∷ []

client_step-query_example :
    let a = arrival (query_of 9 0 0 0 letters) in
    let handled = handle_request env a.replies a.entities a.clock com_query (asked 0 letters) in
    client_step env a start ≡ perform env a (query_of 9 0 0 0 letters) start handled.0 handled.1
client_step-query_example =
    client_step-query env (arrival (query_of 9 0 0 0 letters)) start 9 0 0 0 letters refl
      (
        inl (omega arith),
        (inl (omega arith), (inl (omega arith), (inr (omega arith, omega arith), tt))),
      )
      refl (unfold to_utf8 in omega arith)

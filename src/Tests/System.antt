-- ===== src/Tests/System.antt =====
-- A run of the proxy with two connections.
use virt_db.Prelude.{◌≡◌, refl, true, some, List, [], ◌∷◌, Text}
use virt_db.Text.{from_utf8, is_whitespace, starts_with, contains, to_uppercase}
use virt_db.Sql.Comments.{remove_comments}
use virt_db.Sql.Tokens.{is_pattern_match}
use virt_db.Server.Packet.{packet_type, com_query}
use virt_db.Server.Cache.{read_key, write_key}
use virt_db.Server.Handler.{
  responsed, find_entity, handle_request, handle_response, handle_remote_response_finished,
}
use virt_db.Server.Proxy.Steps.{handled, request_ctx}
use virt_db.Server.System.{
  Line, System, SystemEvent, accepted, from_client, from_remote, task_taken, time_passed,
  fresh_line, seen, shared, system_run,
}
use virt_db.Server.System.Provenance.{IsSourced}
use virt_db.Server.System.Answers.{new_system, responsed-IsSourced}
use virt_db.Tests.World.{unicode, env, entity}
use virt_db.Tests.Proxy.{arrival, response, query, outbox}
use virt_db.Tests.Fresh.{redis, times, laws}

-- The first client asks twice, so that its first response is complete; the task is stored; a second
-- client comes.
abbrev events : List SystemEvent
events =
    accepted true true
    ∷ from_client 0 (arrival query)
    ∷ from_remote 0 (response (5 ∷ []))
    ∷ from_remote 0 (response (6 ∷ []))
    ∷ from_client 0 (arrival query)
    ∷ from_remote 0 (response (7 ∷ []))
    ∷ task_taken
    ∷ time_passed 1000
    ∷ accepted true true
    ∷ []

abbrev last : System redis
last =
    system_run env unicode redis times true events
      (new_system env unicode redis times laws [] (entity ∷ []) outbox)

abbrev second : Line
second = fresh_line outbox

answers :
    (handled env
      (seen env unicode redis times last (arrival query))
      (shared env unicode redis times last second)
      com_query).1
    ≡ responsed (5 ∷ 6 ∷ [])
unfolding system_run packet_type handle_request find_entity from_utf8 is_whitespace starts_with
    contains to_uppercase is_pattern_match remove_comments read_key write_key
    handle_remote_response_finished handle_response
answers = refl

responsed-IsSourced_example :
    (origin : Text) × (sql : Text) × ((request_ctx env
        (arrival query)
        (shared env unicode redis times last second)).sql
      ≡ some origin)
    × (write_key unicode sql ≡ read_key (remove_comments origin))
    × IsSourced last.lines sql (5 ∷ 6 ∷ [])
responsed-IsSourced_example =
    responsed-IsSourced env unicode redis times laws true events [] (entity ∷ []) outbox second
      (arrival query) com_query (5 ∷ 6 ∷ []) (λ k. refl) refl answers

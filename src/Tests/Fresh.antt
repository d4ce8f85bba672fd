-- ===== src/Tests/Fresh.antt =====
-- The theorems on the age of answers, with a Redis that keeps what is left to each key.
use virt_db.Prelude.{
  ℕ, ◌*◌, ◌≤◌, ◌<◌, ◌≡◌, ◌≢◌, refl, Bool, true, false, none, some, List, [], ◌∷◌, Text, codes,
  text_eq, text_eq_iff, if◌then◌else◌, arith,
}
use virt_db.Prelude.Int.{pos}
use virt_db.Text.{is_whitespace, starts_with, contains, to_uppercase}
use virt_db.Sql.Comments.{remove_comments}
use virt_db.Sql.Tokens.{is_pattern_match}
use virt_db.Server.Packet.{com_query}
use virt_db.Server.Cache.{escape, read_key, write_key, CacheTaskInfo, Redis, handle_cache_task}
use virt_db.Server.Cache.Timed.{
  Timed, age, Times, TimedLaws, CacheEvent, stored, passed, lifetime, elapsed, cache_steps,
}
use virt_db.Server.Cache.Freshness.{Origin}
use virt_db.Server.Handler.{ProxyContext, forward, responsed, find_entity, handle_request}
use virt_db.Server.Handler.Requests.{IsCacheable}
use virt_db.Server.Proxy.{fresh}
use virt_db.Server.Serving.{replies_of}
use virt_db.Server.Serving.Fresh.{responsed-Origin, task-served_until}
use virt_db.Tests.World.{unicode, env, statement, entity, clock}

abbrev pub Entries : Type 0
Entries = List (Text × Timed)

abbrev pub holds : Entries → Text → Timed
holds [] k = none
holds ((j, o) ∷ s) k = if text_eq j k then o else holds s k

abbrev pub pass : ℕ → Entries → Entries
pass ms [] = []
pass ms ((j, o) ∷ s) = (j, age ms o) ∷ pass ms s

abbrev pub is_held : Timed → Bool
is_held none = false
is_held (some e) = true

abbrev pub bytes_of : Timed → List ℕ
bytes_of none = []
bytes_of (some (v, left)) = v

abbrev pub redis : Redis
redis = record {
  State = Entries;
  exists = λ s k. some (is_held (holds s k));
  get = λ s k. some (bytes_of (holds s k));
  set_ex = λ s k v seconds. ((k, some (v, 1000 * seconds)) ∷ s, true);
}

abbrev pub times : Times redis
times = record { pass = pass; holds = holds }

holds-pass : (ms : ℕ) (s : Entries) (j : Text) → holds (pass ms s) j ≡ age ms (holds s j)
holds-pass ms [] j = refl
holds-pass ms ((k, o) ∷ s) j = ground (arith, holds-pass ms s j)

is_held-eq :
    (o : Timed)
    → (some (is_held o) ≡ some true → o ≢ none) × (some (is_held o) ≡ some false → o ≡ none)
is_held-eq none = ((λ h. cc), λ h. refl)
is_held-eq (some e) = ((λ h q. cc), λ h. cc)

bytes_of-eq :
    (o : Timed) (v w : List ℕ) (left : ℕ) → o ≡ some (w, left) → some (bytes_of o) ≡ some v → v ≡ w
bytes_of-eq none v w left h g = cc
bytes_of-eq (some (x, n)) v w left h g = cc

bytes_of-none : (o : Timed) (v : List ℕ) → o ≡ none → some (bytes_of o) ≡ some v → v ≡ []
bytes_of-none none v h g = cc
bytes_of-none (some e) v h g = cc

pub laws : TimedLaws redis times
laws = record {
  holds-set_ex = λ s k v seconds j h. refl;
  holds-failed = λ s k v seconds j h. cc;
  holds-pass = λ s ms j. holds-pass ms s j;
  exists-true = λ s j. (is_held-eq (holds s j)).0;
  exists-false = λ s j. (is_held-eq (holds s j)).1;
  get-held = λ s j. bytes_of-eq (holds s j);
  get-none = λ s j. bytes_of-none (holds s j);
}

abbrev request : ProxyContext
request = record (fresh 0) { sql = some statement }

abbrev task : CacheTaskInfo
task = record { sql = statement; body = 7 ∷ []; duration = pos 5 }

abbrev other : CacheTaskInfo
other = record { sql = codes "SELECT 2"; body = 8 ∷ []; duration = pos 5 }

-- A minute less a second, in which another response is stored.
abbrev pub events : List CacheEvent
events = passed 30000 ∷ stored other ∷ passed 29000 ∷ []

cacheable : IsCacheable env (entity ∷ []) com_query request statement entity
unfolding find_entity is_whitespace starts_with contains to_uppercase is_pattern_match
    remove_comments
cacheable = record {
  has_sql = refl;
  is_query = refl;
  is_select = refl;
  one_packet = refl;
  found = refl;
}

pub other_key : write_key unicode (codes "SELECT 2") ≢ write_key unicode statement
unfolding write_key
other_key h =
    let e : false ≡ true =
      (text_eq_iff (write_key unicode (codes "SELECT 2")) (write_key unicode statement)).1 h in
    cc (e)

abbrev now : Entries
now = cache_steps unicode redis times events (handle_cache_task unicode redis [] task).0

task-served_until_example :
    let result = handle_request env (replies_of redis now) (entity ∷ []) clock com_query request in
    (elapsed events < lifetime task → result.1 ≡ responsed (7 ∷ []))
    × (lifetime task ≤ elapsed events
        → (result.1 ≡ forward) × (result.0.should_update_cache ≡ true))
unfolding remove_comments is_whitespace escape handle_cache_task
task-served_until_example =
    task-served_until unicode redis times laws [] task events refl (omega arith) (other_key, tt) env
      (entity ∷ []) clock com_query request statement entity cacheable refl refl (omega arith)
      (λ h. cc) (λ h. cc)

answered :
    (handle_request env
      (record {
        exists = redis.exists (cache_steps unicode redis times (stored task ∷ events) []);
        get = redis.get (cache_steps unicode redis times (stored task ∷ events) []);
      })
      (entity ∷ [])
      clock
      com_query
      request).1
    ≡ responsed (7 ∷ [])
unfolding handle_request find_entity is_whitespace starts_with contains to_uppercase
    is_pattern_match read_key cache_steps remove_comments
answered = refl

responsed-Origin_example :
    (origin : Text) × (left : ℕ) × (request.sql ≡ some origin)
    × Origin unicode redis times laws
        (read_key (remove_comments origin))
        (7 ∷ [])
        left
        (stored task ∷ events)
        []
responsed-Origin_example =
    responsed-Origin unicode redis times laws env
      (redis.exists (cache_steps unicode redis times (stored task ∷ events) []))
      (stored task ∷ events) [] (entity ∷ []) clock com_query request (7 ∷ []) (λ k. refl) answered

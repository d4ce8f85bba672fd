-- ===== src/Tests/World.antt =====
-- A small world for the tests of the proxy: tables, a tokenizer, a parser and a Redis.
use virt_db.Prelude.{
  ℕ, ◌-◌, refl, Bool, true, false, ◌&&◌, Option, none, some, List, [], ◌∷◌, Text, codes, leb,
  text_eq, if◌then◌else◌,
}
use virt_db.Prelude.Int.{pos, negsuc}
use virt_db.Sql.Tokens.{Token, word}
use virt_db.Sql.Statement.{Statement, query_statement, other_body}
use virt_db.Server.Cache.{Unicode, Redis, RedisLaws}
use virt_db.Server.Meta.{CacheConfigEntity}
use virt_db.Server.Handler.{Env, Clock}

abbrev upper : ℕ → Text
upper c = (if leb b'a' c && leb c b'z' then c - 32 else c) ∷ []

abbrev pub unicode : Unicode
unicode = record { upper = upper; is_printable = λ c. leb 32 c; is_grapheme_extended = λ c. false }

-- A text is one token, and one statement.
abbrev pub tokenize : Text → Option (List Token)
tokenize s = some (word (record { value = s; quote_style = none; keyword = 0 }) ∷ [])

abbrev parse : Text → Option (List Statement)
parse s = some (query_statement (record { body = other_body s; rest = [] }) ∷ [])

abbrev print : Statement → Text
print s = codes "pattern"

abbrev pub env : Env
env = record { upper = upper; tokenize = tokenize; parse = parse; print = print }

abbrev pub statement : Text
statement = codes "SELECT 1"

abbrev pub entity : CacheConfigEntity
entity = record {
  id = pos 1;
  sql_template = statement;
  duration = pos 90;
  cache_name = [];
  remark = [];
  enabled = negsuc 0;
  created_by = negsuc 0;
  updated_by = negsuc 0;
  cached_sql_parser_token =
      word (record { value = statement; quote_style = none; keyword = 0 }) ∷ [];
}

abbrev pub clock : Clock
clock = record { at_start = 0; before_redis = 1000000; after_redis = 3000000 }

abbrev Store : Type 0
Store = List (Text × List ℕ)

abbrev get : Store → Text → Option (List ℕ)
get [] k = none
get ((j, v) ∷ s) k = if text_eq j k then some v else get s k

abbrev exists : Store → Text → Option Bool
exists [] k = some false
exists ((j, v) ∷ s) k = if text_eq j k then some true else exists s k

abbrev pub redis : Redis
redis = record {
  State = Store;
  exists = exists;
  get = get;
  set_ex = λ s k v seconds. ((k, v) ∷ s, true);
}

pub redis_laws : RedisLaws redis
redis_laws = record {
  exists-set_ex = λ s k v seconds j h. refl;
  get-set_ex = λ s k v seconds j h. refl;
}

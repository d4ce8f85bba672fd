-- ===== src/Server/Cache.antt =====
-- The keys of the cache, and the task that fills it (server/src/sys_assistant_client.rs).
-- The Unicode tables are parameters.
pub mod Keys
pub mod Timed
pub mod Freshness
use virt_db.Prelude.{
  ℕ, zero, suc, ◌+◌, ◌-◌, ◌/◌, ◌%◌, Bool, Option, none, some, List, [], ◌∷◌, ◌++◌, Text, codes, ltb,
  leb, ◌==◌, ◌||◌, if◌then◌else◌, not, ◌≡◌, true, text_eq,
}
use virt_db.Prelude.Int.{ℤ, pos, negsuc, ltb_ℤ, as_u64}

-- What the standard library reads from the tables of Unicode.
pub record Unicode : Type 0 where
  pub upper : ℕ → Text
  pub is_printable : ℕ → Bool
  pub is_grapheme_extended : ℕ → Bool

abbrev pub hex_digit : ℕ → ℕ
hex_digit d = if ltb d 10 then b'0' + d else b'a' + d - 10

-- The hexadecimal digits of a number below 16^fuel, behind those in `tail`; a code point has at
-- most six.
unfoldable pub hex : ℕ → ℕ → Text → Text
hex zero n tail = tail
hex (suc fuel) n tail =
    let rest = hex fuel (n / 16) (hex_digit (n % 16) ∷ tail) in
    if ltb n 16 then hex_digit n ∷ tail else rest

abbrev pub backslash : ℕ → Text
backslash c = 0x5c ∷ c ∷ []

-- `char::escape_debug`, as `Debug` for `str` calls it: the single quote is left alone.
unfoldable pub escape_char : Unicode → ℕ → Text
unfolding hex
escape_char u c =
    if c == 0
    then backslash b'0'
    else if c == 9
    then backslash b't'
    else if c == 13
    then backslash b'r'
    else if c == 10
    then backslash b'n'
    else if c == 0x5c || c == 0x22
    then backslash c
    else if u.is_grapheme_extended c || not (u.is_printable c)
    then codes "\\u{" ++ hex 6 c (codes "}")
    else c ∷ []

unfoldable pub escape : Unicode → Text → Text
unfolding escape_char
escape u [] = []
escape u (c ∷ s) = escape_char u c ++ escape u s

abbrev pub quote : Text → Text
quote s = 0x22 ∷ (s ++ 0x22 ∷ [])

-- The key that `handle_request` asks for: format!("cache:\"{}\"", sql).
unfoldable pub read_key : Text → Text
read_key sql = codes "cache:" ++ quote sql

-- The key that the task stores under: format!("cache:{:?}", sql).
unfoldable pub write_key : Unicode → Text → Text
unfolding escape
write_key u sql = codes "cache:" ++ quote (escape u sql)

pub record CacheTaskInfo : Type 0 where
  pub sql : Text
  pub body : List ℕ
  pub duration : ℤ

-- `max` on `i32`: the second argument where they are equal.
abbrev pub max_ℤ : ℤ → ℤ → ℤ
max_ℤ a b = if ltb_ℤ b a then a else b

-- Redis as the code uses it: three commands, `none` and `false` being their errors.
pub record Redis : Type 1 where
  pub State : Type 0
  pub exists : State → Text → Option Bool
  pub get : State → Text → Option (List ℕ)
  pub set_ex : State → Text → List ℕ → ℕ → State × Bool

-- What the documentation of SETEX, EXISTS and GET says, while the connection is up and before the
-- key's time is over: a key that was stored exists with its value, and other keys are as before.
pub record RedisLaws (r : Redis) : Type 0 where
  pub exists-set_ex :
      (s : r.State) (k : Text) (v : List ℕ) (seconds : ℕ) (j : Text)
      → (r.set_ex s k v seconds).1 ≡ true
      → r.exists (r.set_ex s k v seconds).0 j ≡ (if text_eq k j then some true else r.exists s j)
  pub get-set_ex :
      (s : r.State) (k : Text) (v : List ℕ) (seconds : ℕ) (j : Text)
      → (r.set_ex s k v seconds).1 ≡ true
      → r.get (r.set_ex s k v seconds).0 j ≡ (if text_eq k j then some v else r.get s j)

-- One round of the loop of `enable_cache_task_handle_job`; a failing command is only logged.
unfoldable pub handle_cache_task : Unicode → (r : Redis) → r.State → CacheTaskInfo → r.State × Bool
unfolding write_key
handle_cache_task u r s cache_task_info =
    let redis_key = write_key u cache_task_info.sql in
    let redis_v = cache_task_info.body in
    let cache_duration = max_ℤ (pos 60) cache_task_info.duration in
    r.set_ex s redis_key redis_v (as_u64 cache_duration)

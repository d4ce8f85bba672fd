-- ===== src/Server/Cache/Timed.antt =====
-- Redis over time: what `set_ex` of `enable_cache_task_handle_job`
-- (server/src/sys_assistant_client.rs) keeps, and for how long.
use virt_db.Prelude.{
  ℕ, ◌+◌, ◌-◌, ◌*◌, ◌≡◌, true, false, Option, none, some, List, [], ◌∷◌, Text, ltb, text_eq,
  if◌then◌else◌, ◌⊎◌, ◌≢◌,
}
use virt_db.Prelude.Int.{pos, as_u64}
use virt_db.Server.Cache.{Unicode, write_key, CacheTaskInfo, max_ℤ, Redis, handle_cache_task}

-- A value and the milliseconds that are left to it.
abbrev pub Timed : Type 0
Timed = Option (List ℕ × ℕ)

abbrev pub age : ℕ → Timed → Timed
age ms none = none
age ms (some (v, left)) = if ltb ms left then some (v, left - ms) else none

-- The passing of time, in milliseconds, and what a key holds.
pub record Times (r : Redis) : Type 0 where
  pub pass : ℕ → r.State → r.State
  pub holds : r.State → Text → Timed

-- What the documentation of SETEX, EXISTS and GET says of time. A command that succeeds sets its key
-- for the seconds given; one that fails may have been carried out or not; no other key changes. The
-- reply to EXISTS, where there is one, says whether the key holds a value. The reply to GET, where
-- there is one, is the value; for a key that holds none it has no bytes.
pub record TimedLaws (r : Redis) (t : Times r) : Type 0 where
  pub holds-set_ex :
      (s : r.State) (k : Text) (v : List ℕ) (seconds : ℕ) (j : Text)
      → (r.set_ex s k v seconds).1 ≡ true
      → t.holds (r.set_ex s k v seconds).0 j
        ≡ (if text_eq k j then some (v, 1000 * seconds) else t.holds s j)
  pub holds-failed :
      (s : r.State) (k : Text) (v : List ℕ) (seconds : ℕ) (j : Text)
      → (r.set_ex s k v seconds).1 ≡ false
      → (t.holds (r.set_ex s k v seconds).0 j ≡ t.holds s j)
        ⊎ (t.holds (r.set_ex s k v seconds).0 j
            ≡ (if text_eq k j then some (v, 1000 * seconds) else t.holds s j))
  pub holds-pass :
      (s : r.State) (ms : ℕ) (j : Text) → t.holds (t.pass ms s) j ≡ age ms (t.holds s j)
  pub exists-true : (s : r.State) (j : Text) → r.exists s j ≡ some true → t.holds s j ≢ none
  pub exists-false : (s : r.State) (j : Text) → r.exists s j ≡ some false → t.holds s j ≡ none
  pub get-held :
      (s : r.State) (j : Text) (v w : List ℕ) (left : ℕ)
      → t.holds s j ≡ some (w, left)
      → r.get s j ≡ some v
      → v ≡ w
  pub get-none :
      (s : r.State) (j : Text) (v : List ℕ) → t.holds s j ≡ none → r.get s j ≡ some v → v ≡ []

-- A task is handled, or time passes.
pub data CacheEvent : Type 0 where
  stored : CacheTaskInfo → CacheEvent
  passed : ℕ → CacheEvent

-- The time that a task asks Redis to keep its body, in milliseconds.
abbrev pub lifetime : CacheTaskInfo → ℕ
lifetime task = 1000 * as_u64 (max_ℤ (pos 60) task.duration)

abbrev pub elapsed : List CacheEvent → ℕ
elapsed [] = 0
elapsed (stored task ∷ events) = elapsed events
elapsed (passed ms ∷ events) = ms + elapsed events

module _ (u : Unicode) (r : Redis) (t : Times r) where
  unfoldable pub cache_step : CacheEvent → r.State → r.State
  unfolding handle_cache_task
  cache_step (stored task) s = (handle_cache_task u r s task).0
  cache_step (passed ms) s = t.pass ms s

  unfoldable pub cache_steps : List CacheEvent → r.State → r.State
  unfolding cache_step
  cache_steps [] s = s
  cache_steps (e ∷ events) s = cache_steps events (cache_step e s)

  -- The command succeeds and stores under the key.
  abbrev pub Replaces : Text → CacheEvent → r.State → Type 0
  Replaces k (stored task) s =
      (write_key u task.sql ≡ k) × ((handle_cache_task u r s task).1 ≡ true)
  Replaces k (passed ms) s = ⊥

  -- No command of the events, from the state on, replaces what the key holds.
  abbrev pub NotReplaced : Text → List CacheEvent → r.State → Type 0
  NotReplaced k [] s = Unit
  NotReplaced k (e ∷ events) s = (¬ Replaces k e s) × NotReplaced k events (cache_step e s)

  -- No task of the events has the key.
  abbrev pub Untouched : Text → List CacheEvent → Type 0
  Untouched k [] = Unit
  Untouched k (stored task ∷ events) = (write_key u task.sql ≢ k) × Untouched k events
  Untouched k (passed ms ∷ events) = Untouched k events

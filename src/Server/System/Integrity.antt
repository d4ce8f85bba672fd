-- ===== src/Server/System/Integrity.antt =====
-- No stored response is made up, cut together or taken from another statement's key.
use virt_db.Prelude.{ℕ, ◌≡◌, refl, sym, subst, false, some, List, [], ◌∷◌, Text, All, get_elem?}
use virt_db.Server.Cache.{Unicode, CacheTaskInfo, Redis, write_key}
use virt_db.Server.Cache.Timed.{Times, TimedLaws}
use virt_db.Server.Handler.{Env, Outbox}
use virt_db.Server.System.{Line, System, set, shared, stop}
use virt_db.Server.System.Provenance.{
  Contains, Extends, Extends-refl, HasPart-Extends, IsSourced, IsSourced-Grows, Grows, Grows-set,
  get_elem?-set, All-set, All-append, All-get,
}
use virt_db.Server.System.Tracked.{IsTracked}
use virt_db.Server.System.RemoteRounds.{Adds, same, one_task}

abbrev pub IsTrackedLine : Line → Type 0
IsTrackedLine line = IsTracked line.asked line.received line.conn

abbrev pub AreSourced : List Line → List CacheTaskInfo → Type 0
AreSourced lines tasks = All (λ task. IsSourced lines task.sql task.body) tasks

pub AreSourced-Grows :
    (a b : List Line) (tasks : List CacheTaskInfo)
    → Grows a b
    → AreSourced a tasks
    → AreSourced b tasks
AreSourced-Grows a b [] g h = tt
AreSourced-Grows a b (task ∷ tasks) g h =
    (IsSourced-Grows a b task.sql task.body g h.0, AreSourced-Grows a b tasks g h.1)

-- The tasks after a round, over the lines after it.
pub AreSourced-Adds :
    (lines : List Line) (i : ℕ) (line : Line) (asked : List Text) (received : List ℕ)
    (old new : List CacheTaskInfo)
    → get_elem? lines i ≡ some line
    → line.asked ≡ asked
    → Extends received line.received
    → AreSourced lines old
    → Adds asked received old new
    → AreSourced lines new
AreSourced-Adds lines i line asked received old new here e more h (same q) =
    subst (AreSourced lines) (sym q) h
AreSourced-Adds lines i line asked received old new here e more h (one_task task c part q) =
    subst (AreSourced lines) (sym q) (
      All-append (λ (x : CacheTaskInfo). IsSourced lines x.sql x.body) old task h
        (
          i,
          line,
          here,
          subst (λ l. Contains l task.sql) (sym e) c,
          HasPart-Extends received line.received task.body more part,
        ))

module _ (env : Env) (u : Unicode) (r : Redis) (t : Times r) (laws : TimedLaws r t) where
  -- Each connection is tracked; each task in the channel, and each value that Redis holds, at the key
  -- of a statement, is of that statement and of what the database sent for one connection.
  pub record IsIntegral (s : System r) : Type 0 where
    pub lines : All IsTrackedLine s.lines
    pub tasks : AreSourced s.lines s.out.cache_tasks
    pub held :
        (k : Text) (v : List ℕ) (left : ℕ)
        → t.holds s.redis k ≡ some (v, left)
        → (sql : Text) × (write_key u sql ≡ k) × IsSourced s.lines sql v

  pub with_lines :
      (s : System r) (lines : List Line) (out : Outbox)
      → IsIntegral s
      → All IsTrackedLine lines
      → Grows s.lines lines
      → AreSourced lines out.cache_tasks
      → IsIntegral (record s { lines = lines; out = out })
  with_lines s lines out h tracked g tasks = record {
    lines = tracked;
    tasks = tasks;
    held = λ k v left e.
        let (sql, key, sourced) = h.held k v left e in
        (sql, key, IsSourced-Grows s.lines lines sql v g sourced);
  }

  pub stop-IsIntegral :
      (s : System r) (i : ℕ) (line : Line) (out : Outbox)
      → IsIntegral s
      → get_elem? s.lines i ≡ some line
      → Adds line.asked line.received s.out.cache_tasks out.cache_tasks
      → IsIntegral (stop env u r t i line out s)
  stop-IsIntegral s i line out h here adds =
      let line' : Line = record line { is_open = false } in
      let lines = set s.lines i line' in
      let g =
        Grows-set s.lines i line line' here (Extends-refl line.asked)
          (Extends-refl line.received) in
      let tracked = All-get IsTrackedLine s.lines i line h.lines here in
      with_lines s lines out h (All-set IsTrackedLine s.lines i line' h.lines tracked) g (
        AreSourced-Adds lines i line' line.asked line.received s.out.cache_tasks out.cache_tasks
          (get_elem?-set s.lines i line line' here) refl (Extends-refl line.received)
          (AreSourced-Grows s.lines lines s.out.cache_tasks g h.tasks) adds)

  pub IsTracked-shared :
      (s : System r) (line : Line)
      → IsTrackedLine line
      → IsTracked line.asked line.received (shared env u r t s line)
  IsTracked-shared s line tr = record {
    current = tr.current;
    queued = tr.queued;
    before = tr.before;
    collected = tr.collected;
  }

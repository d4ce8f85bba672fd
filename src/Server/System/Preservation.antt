-- ===== src/Server/System/Preservation.antt =====
-- Each event keeps the system integral.
use virt_db.Prelude.{
  ℕ, ◌+◌, ◌≡◌, refl, sym, ◌∙◌, subst, true, false, Bool, Option, none, some, List, [], ◌∷◌, ◌++◌,
  Text, take, get_elem?, arith, Option-cases, Bool-cases, inl, inr, if◌then◌else◌, ◌&&◌, text_eq,
  text_eq_iff,
}
use virt_db.Server.Cache.{Unicode, CacheTaskInfo, Redis, handle_cache_task, write_key}
use virt_db.Server.Cache.Timed.{Timed, Times, TimedLaws, lifetime, cache_step}
use virt_db.Server.Cache.Freshness.{age-some, holds-stored}
use virt_db.Server.Meta.{CacheConfigEntity, reload}
use virt_db.Server.Handler.{Env}
use virt_db.Server.Proxy.{
  Round, running, closed, panicked, waiting, Arrival, Response, buffer_size, client_step,
  remote_step, receive,
}
use virt_db.Server.Proxy.Steps.{request_ctx}
use virt_db.Server.System.{
  Line, System, SystemEvent, accepted, from_client, from_remote, task_taken, reloaded, time_passed,
  set, fresh_line, statements, seen, shared, after_client, after_remote, client_round, remote_round,
  at_line, take_task, system_step, system_run,
}
use virt_db.Server.System.Provenance.{
  Extends-refl, IsSourced, Grows-set, Grows-append, get_elem?-set, All-set, All-append, All-get,
}
use virt_db.Server.System.ClientRounds.{client_step-Follows}
use virt_db.Server.System.RemoteRounds.{same, remote_step-Continues, receive-IsTracked}
use virt_db.Server.System.Integrity.{
  IsTrackedLine, AreSourced, AreSourced-Grows, AreSourced-Adds, IsIntegral, with_lines,
  stop-IsIntegral, IsTracked-shared,
}

module _ (env : Env) (u : Unicode) (r : Redis) (t : Times r) (laws : TimedLaws r t) where
  module _ (s : System r) (h : IsIntegral env u r t laws s) where
    after_client-IsIntegral :
        (i : ℕ) (a : Arrival) (line : Line) (round : Round)
        → get_elem? s.lines i ≡ some line
        → client_step env a (shared env u r t s line) ≡ round
        → IsIntegral env u r t laws (
            after_client env u r t i line (request_ctx env a (shared env u r t s line)).sql s round)
    after_client-IsIntegral i a line (running conn) here e =
        let sql = (request_ctx env a (shared env u r t s line)).sql in
        let line' : Line = record line { conn = conn; asked = line.asked ++ statements sql } in
        let tracked = All-get IsTrackedLine s.lines i line h.lines here in
        let (follows, tasks) =
          client_step-Follows env a line.asked line.received (shared env u r t s line) conn
            (IsTracked-shared env u r t laws s line tracked) e in
        let g =
          Grows-set s.lines i line line' here (statements sql, refl) (Extends-refl line.received) in
        with_lines env u r t laws s (set s.lines i line') conn.out h
          (All-set IsTrackedLine s.lines i line' h.lines follows) g
          (subst (AreSourced (set s.lines i line')) (sym tasks)
            (AreSourced-Grows s.lines (set s.lines i line') s.out.cache_tasks g h.tasks))
    after_client-IsIntegral i a line (closed conn) here e =
        stop-IsIntegral env u r t laws s i line s.out h here (same refl)
    after_client-IsIntegral i a line panicked here e =
        stop-IsIntegral env u r t laws s i line s.out h here (same refl)
    after_client-IsIntegral i a line (waiting conn) here e =
        stop-IsIntegral env u r t laws s i line s.out h here (same refl)

    after_remote-IsIntegral :
        (i : ℕ) (b : Response) (line : Line) (round : Round)
        → get_elem? s.lines i ≡ some line
        → remote_step env b (shared env u r t s line) ≡ round
        → IsIntegral env u r t laws
            (after_remote env u r t i line (take buffer_size b.chunk) s round)
    after_remote-IsIntegral i b line (running conn) here e =
        let new = take buffer_size b.chunk in
        let line' : Line = record line { conn = conn; received = line.received ++ new } in
        let tracked = All-get IsTrackedLine s.lines i line h.lines here in
        let (continues, adds) =
          remote_step-Continues env b line.asked line.received (shared env u r t s line) conn
            (IsTracked-shared env u r t laws s line tracked) e in
        let g = Grows-set s.lines i line line' here (Extends-refl line.asked) (new, refl) in
        let lines = set s.lines i line' in
        with_lines env u r t laws s lines conn.out h
          (All-set IsTrackedLine s.lines i line' h.lines continues) g
          (AreSourced-Adds lines i line' line.asked line.received s.out.cache_tasks
            conn.out.cache_tasks (get_elem?-set s.lines i line line' here) refl (new, refl)
            (AreSourced-Grows s.lines lines s.out.cache_tasks g h.tasks) adds)
    after_remote-IsIntegral i b line (closed conn) here e =
        stop-IsIntegral env u r t laws s i line s.out h here (same refl)
    after_remote-IsIntegral i b line panicked here e =
        let tracked = All-get IsTrackedLine s.lines i line h.lines here in
        stop-IsIntegral env u r t laws s i line (receive env (shared env u r t s line)).out h here
          (receive-IsTracked env line.asked line.received (shared env u r t s line)
            (IsTracked-shared env u r t laws s line tracked)).1
    after_remote-IsIntegral i b line (waiting conn) here e =
        stop-IsIntegral env u r t laws s i line s.out h here (same refl)

    at_line-none :
        (i : ℕ) (round : Line → System r)
        → get_elem? s.lines i ≡ none
        → at_line env u r t i round s ≡ s
    at_line-none i round e = rw (e, at_line) refl

    at_line-some :
        (i : ℕ) (round : Line → System r) (line : Line)
        → get_elem? s.lines i ≡ some line
        → at_line env u r t i round s ≡ (if line.is_open then round line else s)
    at_line-some i round line e = rw (e, at_line) refl

    if_IsIntegral :
        (b : Bool) (s' : System r)
        → IsIntegral env u r t laws s'
        → IsIntegral env u r t laws (if b then s' else s)
    if_IsIntegral true s' h' = h'
    if_IsIntegral false s' h' = h

    at_line-IsIntegral :
        (i : ℕ) (round : Line → System r)
        → ((line : Line) → get_elem? s.lines i ≡ some line → IsIntegral env u r t laws (round line))
        → IsIntegral env u r t laws (at_line env u r t i round s)
    at_line-IsIntegral i round each = elim (Option-cases (get_elem? s.lines i)) [
      | inl gone ↦ subst (IsIntegral env u r t laws) (sym (at_line-none i round gone)) h
      | inr (line, here) ↦
          subst (IsIntegral env u r t laws) (sym (at_line-some i round line here))
            (if_IsIntegral line.is_open (round line) (each line here))
    ]

    abbrev IsKeyed : Text → List ℕ → Type 0
    IsKeyed k v = (sql : Text) × (write_key u sql ≡ k) × IsSourced s.lines sql v

    held_task :
        (task : CacheTaskInfo)
        → IsSourced s.lines task.sql task.body
        → (k : Text) (v : List ℕ) (left : ℕ)
        → t.holds (handle_cache_task u r s.redis task).0 k ≡ some (v, left)
        → IsKeyed k v
    unfolding cache_step
    held_task task sourced k v left e = elim (holds-stored u r t laws s.redis task k) [
      | inr (failed, q) ↦ h.held k v left (sym q ∙ e)
      | inl q ↦ elim (Bool-cases (text_eq (write_key u task.sql) k)) [
        | inl is_key ↦
            let now : ◌≡◌ {A = Timed} (some (task.body, lifetime task)) (some (v, left)) =
              ground (arith, q, is_key, e) in
            let body : task.body ≡ v = cc in
            (
              task.sql,
              (text_eq_iff (write_key u task.sql) k).0 is_key,
              subst (IsSourced s.lines task.sql) body sourced,
            )
        | inr other ↦ h.held k v left (ground (arith, q, other, e))
      ]
    ]

    take_task-IsIntegral :
        (tasks : List CacheTaskInfo)
        → AreSourced s.lines tasks
        → IsIntegral env u r t laws (take_task env u r t tasks s)
    take_task-IsIntegral [] sourced = h
    take_task-IsIntegral (task ∷ rest) sourced = record {
      lines = h.lines;
      tasks = sourced.1;
      held = λ k v left e. held_task task sourced.0 k v left e;
    }

    accept-IsIntegral :
        (b : Bool)
        → IsIntegral env u r t laws
            (if b then record s { lines = s.lines ++ (fresh_line s.out ∷ []) } else s)
    accept-IsIntegral false = h
    accept-IsIntegral true =
        let lines = s.lines ++ (fresh_line s.out ∷ []) in
        let new : IsTrackedLine (fresh_line s.out) = record {
          current = tt;
          queued = tt;
          before = [];
          collected = refl;
        } in
        let g = Grows-append s.lines (fresh_line s.out ∷ []) in
        with_lines env u r t laws s lines s.out h
          (All-append IsTrackedLine s.lines (fresh_line s.out) h.lines new) g
          (AreSourced-Grows s.lines lines s.out.cache_tasks g h.tasks)

    reloaded-IsIntegral :
        (o : Option (List CacheConfigEntity))
        → IsIntegral env u r t laws
            (elim o [ none ↦ s | some entities ↦ record s { entities = entities } ])
    reloaded-IsIntegral none = h
    reloaded-IsIntegral (some entities) = record { lines = h.lines; tasks = h.tasks; held = h.held }

    -- Each event keeps the system integral.
    system_step-IsIntegral :
        (address_parses : Bool) (e : SystemEvent)
        → IsIntegral env u r t laws (system_step env u r t address_parses e s)
    unfolding system_step
    system_step-IsIntegral address_parses (accepted redis_connects remote_connects) =
        accept-IsIntegral (address_parses && redis_connects && remote_connects)
    system_step-IsIntegral address_parses (from_client i a) =
        at_line-IsIntegral i (client_round env u r t i a s)
          (λ line here. after_client-IsIntegral i (seen env u r t s a) line _ here refl)
    system_step-IsIntegral address_parses (from_remote i b) =
        at_line-IsIntegral i (remote_round env u r t i b s)
          (λ line here. after_remote-IsIntegral i b line _ here refl)
    system_step-IsIntegral address_parses task_taken =
        take_task-IsIntegral s.out.cache_tasks h.tasks
    system_step-IsIntegral address_parses (reloaded answer) =
        reloaded-IsIntegral (reload env.upper env.tokenize answer s.entities)
    system_step-IsIntegral address_parses (time_passed ms) = record {
      lines = h.lines;
      tasks = h.tasks;
      held = λ k v left e.
          h.held k v (left + ms)
            (age-some ms (t.holds s.redis k) v left (sym (laws.holds-pass s.redis ms k) ∙ e));
    }

  pub system_run-IsIntegral :
      (address_parses : Bool) (events : List SystemEvent) (s : System r)
      → IsIntegral env u r t laws s
      → IsIntegral env u r t laws (system_run env u r t address_parses events s)
  unfolding system_run
  system_run-IsIntegral address_parses [] s h = h
  system_run-IsIntegral address_parses (e ∷ events) s h =
      system_run-IsIntegral address_parses events (system_step env u r t address_parses e s)
        (system_step-IsIntegral s h address_parses e)

-- ===== src/Server/Cache/Freshness.antt =====
-- How old an entry of the cache can be.
use virt_db.Prelude.{
  ℕ, ◌+◌, ◌-◌, ◌<◌, ◌≡◌, ◌≢◌, refl, sym, ap, ◌∙◌, false, none, some, List, [], ◌∷◌, ◌++◌, Text, ltb,
  text_eq, text_eq_iff, if◌then◌else◌, ◌⊎◌, inl, inr, arith, Bool-cases,
}
use virt_db.Server.Cache.{Unicode, write_key, CacheTaskInfo, Redis, handle_cache_task}
use virt_db.Server.Cache.Timed.{
  Timed, age, Times, TimedLaws, CacheEvent, stored, passed, lifetime, elapsed, cache_step,
  cache_steps, NotReplaced, Untouched,
}

pub age-some :
    (ms : ℕ) (o : Timed) (v : List ℕ) (left : ℕ)
    → age ms o ≡ some (v, left)
    → o ≡ some (v, left + ms)
age-some ms none v left h = cc
age-some ms (some (w, had)) v left h = ground arith

module _ (u : Unicode) (r : Redis) (t : Times r) (laws : TimedLaws r t) where
  -- A task that was handled: its key holds its body, or the command failed and nothing changed.
  pub holds-stored :
      (s : r.State) (task : CacheTaskInfo) (k : Text)
      → (t.holds (cache_step u r t (stored task) s) k ≡ (
          if text_eq (write_key u task.sql) k
          then some (task.body, lifetime task)
          else t.holds s k))
        ⊎ (((handle_cache_task u r s task).1 ≡ false)
            × (t.holds (cache_step u r t (stored task) s) k ≡ t.holds s k))
  unfolding cache_step handle_cache_task
  holds-stored s task k = elim (Bool-cases (handle_cache_task u r s task).1) [
    | inl done ↦ inl (laws.holds-set_ex s (write_key u task.sql) task.body _ k done)
    | inr failed ↦ elim (laws.holds-failed s (write_key u task.sql) task.body _ k failed) [
      | inl same ↦ inr (failed, same)
      | inr set ↦ inl set
    ]
  ]

  -- Where the value of a key comes from: a task of the events, after which no command replaced it and
  -- not more than its time has passed.
  pub record Origin (k : Text) (v : List ℕ) (left : ℕ) (events : List CacheEvent) (s : r.State)
      : Type 0 where
    pub before : List CacheEvent
    pub task : CacheTaskInfo
    pub after : List CacheEvent
    pub events_eq : events ≡ before ++ stored task ∷ after
    pub key : write_key u task.sql ≡ k
    pub body : task.body ≡ v
    pub last : NotReplaced u r t k after (cache_steps u r t (before ++ stored task ∷ []) s)
    pub in_time : left + elapsed after ≡ lifetime task

  -- It was there at the start, and no command replaced it.
  record Kept (k : Text) (v : List ℕ) (left : ℕ) (events : List CacheEvent) (s : r.State)
      : Type 0 where
    at_start : t.holds s k ≡ some (v, left + elapsed events)
    kept : NotReplaced u r t k events s

  Traced : Text → List ℕ → ℕ → List CacheEvent → r.State → Type 0
  Traced k v left events s = Origin k v left events s ⊎ Kept k v left events s

  Origin-cons :
      (k : Text) (v : List ℕ) (left : ℕ) (e : CacheEvent) (events : List CacheEvent) (s : r.State)
      → Origin k v left events (cache_step u r t e s)
      → Origin k v left (e ∷ events) s
  unfolding cache_steps
  Origin-cons k v left e events s o = record {
    before = e ∷ o.before;
    task = o.task;
    after = o.after;
    events_eq = ap (λ l. e ∷ l) o.events_eq;
    key = o.key;
    body = o.body;
    last = o.last;
    in_time = o.in_time;
  }

  Traced-stored :
      (k : Text) (v : List ℕ) (left : ℕ) (task : CacheTaskInfo) (events : List CacheEvent)
      (s : r.State)
      → Kept k v left events (cache_step u r t (stored task) s)
      → Traced k v left (stored task ∷ events) s
  unfolding Traced cache_steps
  Traced-stored k v left task events s c = elim (holds-stored s task k) [
    | inr (failed, same) ↦
        inr (record { at_start = sym same ∙ c.at_start; kept = ((λ h. cc), c.kept) })
    | inl set ↦ elim (Bool-cases (text_eq (write_key u task.sql) k)) [
      | inl is_key ↦
          let e : ◌≡◌ {A = Timed} (some (task.body, lifetime task))
              (some (v, left + elapsed events)) =
            ground (arith, set, is_key, c.at_start) in
          inl (record {
            before = [];
            task = task;
            after = events;
            events_eq = refl;
            key = (text_eq_iff (write_key u task.sql) k).0 is_key;
            body = cc;
            last = c.kept;
            in_time = ground (arith, e);
          })
      | inr other ↦ inr (record {
        at_start = ground (arith, set, other, c.at_start);
        kept = ((λ h. let q = (text_eq_iff (write_key u task.sql) k).1 h.0 in cc), c.kept);
      })
    ]
  ]

  Traced-passed :
      (k : Text) (v : List ℕ) (left ms : ℕ) (events : List CacheEvent) (s : r.State)
      → Kept k v left events (cache_step u r t (passed ms) s)
      → Traced k v left (passed ms ∷ events) s
  unfolding Traced cache_step
  Traced-passed k v left ms events s c =
      let e = age-some ms (t.holds s k) v _ (sym (laws.holds-pass s ms k) ∙ c.at_start) in
      inr (record { at_start = e ∙ ap (λ n. some (v, n)) (omega arith); kept = ((λ h. h), c.kept) })

  Traced-cons :
      (k : Text) (v : List ℕ) (left : ℕ) (e : CacheEvent) (events : List CacheEvent) (s : r.State)
      → Traced k v left events (cache_step u r t e s)
      → Traced k v left (e ∷ events) s
  unfolding Traced
  Traced-cons k v left e events s (inl o) = inl (Origin-cons k v left e events s o)
  Traced-cons k v left (stored task) events s (inr c) = Traced-stored k v left task events s c
  Traced-cons k v left (passed ms) events s (inr c) = Traced-passed k v left ms events s c

  holds-Traced :
      (k : Text) (v : List ℕ) (left : ℕ) (events : List CacheEvent) (s : r.State)
      → t.holds (cache_steps u r t events s) k ≡ some (v, left)
      → Traced k v left events s
  unfolding Traced cache_steps
  holds-Traced k v left [] s h =
      inr (record { at_start = h ∙ ap (λ n. some (v, n)) (omega arith); kept = tt })
  holds-Traced k v left (e ∷ events) s h =
      Traced-cons k v left e events s (holds-Traced k v left events (cache_step u r t e s) h)

  -- What a key holds, after events from an empty cache, comes from one of their tasks.
  pub holds-Origin :
      (k : Text) (v : List ℕ) (left : ℕ) (events : List CacheEvent) (s : r.State)
      → t.holds s k ≡ none
      → t.holds (cache_steps u r t events s) k ≡ some (v, left)
      → Origin k v left events s
  unfolding Traced
  holds-Origin k v left events s empty h = elim (holds-Traced k v left events s h) [
    | inl o ↦ o
    | inr c ↦ let e = sym empty ∙ c.at_start in cc
  ]

  holds-other :
      (k : Text) (task : CacheTaskInfo) (s : r.State)
      → write_key u task.sql ≢ k
      → t.holds (cache_step u r t (stored task) s) k ≡ t.holds s k
  holds-other k task s other = elim (holds-stored s task k) [
    | inl set ↦ ground (arith, set, text_eq_iff (write_key u task.sql) k)
    | inr (failed, same) ↦ same
  ]

  holds-none :
      (k : Text) (events : List CacheEvent) (s : r.State)
      → Untouched u r t k events
      → t.holds s k ≡ none
      → t.holds (cache_steps u r t events s) k ≡ none
  unfolding cache_steps
  holds-none k [] s h e = e
  holds-none k (stored task ∷ events) s h e =
      holds-none k events (cache_step u r t (stored task) s) h.1 (holds-other k task s h.0 ∙ e)
  holds-none k (passed ms ∷ events) s h e =
      holds-none k events (cache_step u r t (passed ms) s) h
        (unfold cache_step in laws.holds-pass s ms k ∙ ap (age ms) e)

  -- What a key holds while no task has it: what it held, until its time is over.
  pub holds-Untouched :
      (k : Text) (v : List ℕ) (left : ℕ) (events : List CacheEvent) (s : r.State)
      → Untouched u r t k events
      → 0 < left
      → t.holds s k ≡ some (v, left)
      → t.holds (cache_steps u r t events s) k
        ≡ (if ltb (elapsed events) left then some (v, left - elapsed events) else none)
  unfolding cache_steps
  holds-Untouched k v left [] s h p e = e ∙ ground arith
  holds-Untouched k v left (stored task ∷ events) s h p e =
      holds-Untouched k v left events (cache_step u r t (stored task) s) h.1 p
        (holds-other k task s h.0 ∙ e)
  holds-Untouched k v left (passed ms ∷ events) s h p e =
      let aged : t.holds (cache_step u r t (passed ms) s) k ≡ age ms (some (v, left)) =
        unfold cache_step in laws.holds-pass s ms k ∙ ap (age ms) e in
      elim (Bool-cases (ltb ms left)) [
        | inl more ↦
            holds-Untouched k v (left - ms) events (cache_step u r t (passed ms) s) h (ground arith)
              (aged ∙ rw more)
            ∙ ground arith
        | inr over ↦
            holds-none k events (cache_step u r t (passed ms) s) h (aged ∙ rw over) ∙ ground arith
      ]

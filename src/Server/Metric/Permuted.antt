-- ===== src/Server/Metric/Permuted.antt =====
-- A row of metrics does not depend on the order of its logs.
use mathlib.Core.List.{Perm, Permᴰ}
use mathlib.Core.List.Permᴰ
use mathlib.Core.Logic.{∥∥₁_elim}
use virt_db.Prelude.{
  suc, ◌+◌, ◌%◌, ◌≡◌, refl, sym, ap, subst, ap₂, ◌∙◌, Bool, true, false, List, [], ◌∷◌, Text,
  length, arith, text_eq, if◌then◌else◌,
}
use virt_db.Prelude.Int.{ℤ, pos, as_u64, signed, ltb_ℤ}
use virt_db.Server.Handler.{ExecLog}
use virt_db.Server.Metric.{
  Float, add_i64, sum_i64, mean, MetricHistory, Totals, count_log, total, start_totals, row_of,
}
use virt_db.Server.Metric.Sorting.{logs_of}
use virt_db.Server.Metric.Rows.{durations, total-average}

-- The wrapped pattern of a sum.
as_u64-add_i64 : (a b : ℤ) → as_u64 (add_i64 a b) ≡ (as_u64 a + as_u64 b) % 18446744073709551616
unfolding add_i64
as_u64-add_i64 a b = ground arith

add_i64-right_comm : (a b c : ℤ) → add_i64 (add_i64 a b) c ≡ add_i64 (add_i64 a c) b
add_i64-right_comm a b c =
    let e = as_u64-add_i64 a b in
    let f = as_u64-add_i64 a c in
    let sums : (as_u64 (add_i64 a b) + as_u64 c) % 18446744073709551616
        ≡ (as_u64 (add_i64 a c) + as_u64 b) % 18446744073709551616 =
      omega arith in
    unfold add_i64 in ap (signed 64) sums

sum_i64-Permᴰ :
    {s t : List ExecLog} (acc : ℤ)
    → Permᴰ s t
    → sum_i64 acc (durations s) ≡ sum_i64 acc (durations t)
unfolding sum_i64
sum_i64-Permᴰ acc Permᴰ.nil = refl
sum_i64-Permᴰ acc (Permᴰ.cons {a = a} {b = b} {l₂ = t} e p) =
    sum_i64-Permᴰ (add_i64 acc a.total_duration) p
    ∙ ap (λ (x : ExecLog). sum_i64 (add_i64 acc x.total_duration) (durations t)) e
sum_i64-Permᴰ acc (Permᴰ.swap {a = a} {b = b} {a' = a'} {b' = b'} {l = l} e f) =
    ap (λ v. sum_i64 v (durations l))
      (add_i64-right_comm acc a.total_duration b.total_duration
        ∙ ap₂ (λ (x y : ExecLog). add_i64 (add_i64 acc x.total_duration) y.total_duration) f e)
sum_i64-Permᴰ acc (Permᴰ.trans p q) = sum_i64-Permᴰ acc p ∙ sum_i64-Permᴰ acc q

length-Permᴰ : {s t : List ExecLog} → Permᴰ s t → length s ≡ length t
length-Permᴰ Permᴰ.nil = refl
length-Permᴰ (Permᴰ.cons e p) = ap suc (length-Permᴰ p)
length-Permᴰ (Permᴰ.swap e f) = refl
length-Permᴰ (Permᴰ.trans p q) = length-Permᴰ p ∙ length-Permᴰ q

length-durations : (g : List ExecLog) → length (durations g) ≡ length g
length-durations [] = refl
length-durations (x ∷ g) = ap suc (length-durations g)

keep_first :
    {s t : List ExecLog} (k : Text) (x y : ExecLog)
    → x ≡ y
    → Permᴰ s t
    → Permᴰ (if text_eq x.sql_str k then x ∷ s else s) (if text_eq y.sql_str k then y ∷ t else t)
keep_first {s} {t} k x y e p =
    subst
      (λ (z : ExecLog).
        Permᴰ (if text_eq x.sql_str k then x ∷ s else s) (if text_eq z.sql_str k then z ∷ t else t))
      e (kept (text_eq x.sql_str k) p)
  where
    kept : (b : Bool) → Permᴰ s t → Permᴰ (if b then x ∷ s else s) (if b then x ∷ t else t)
    kept true q = Permᴰ.cons refl q
    kept false q = q

swap_first :
    (p q : Bool) (x y : ExecLog) (l : List ExecLog)
    → Permᴰ
        (if p then x ∷ (if q then y ∷ l else l) else (if q then y ∷ l else l))
        (if q then y ∷ (if p then x ∷ l else l) else (if p then x ∷ l else l))
swap_first true true x y l = Permᴰ.swap refl refl
swap_first true false x y l = Permᴰ.refl (x ∷ l)
swap_first false true x y l = Permᴰ.refl (y ∷ l)
swap_first false false x y l = Permᴰ.refl l

logs_of-Permᴰ : {s t : List ExecLog} (k : Text) → Permᴰ s t → Permᴰ (logs_of k s) (logs_of k t)
unfolding logs_of
logs_of-Permᴰ k Permᴰ.nil = Permᴰ.nil
logs_of-Permᴰ k (Permᴰ.cons {a = a} {b = b} {l₁ = s} {l₂ = t} e p) =
    keep_first k a b e (logs_of-Permᴰ k p)
logs_of-Permᴰ k (Permᴰ.swap {a = a} {b = b} {a' = a'} {b' = b'} {l = l} e f) =
    Permᴰ.trans (swap_first (text_eq a.sql_str k) (text_eq b.sql_str k) a b (logs_of k l))
      (keep_first k b a' f (keep_first k a b' e (Permᴰ.refl (logs_of k l))))
logs_of-Permᴰ k (Permᴰ.trans p q) = Permᴰ.trans (logs_of-Permᴰ k p) (logs_of-Permᴰ k q)

ℤ-set : IsSet ℤ
ℤ-set = hlevel

MetricHistory-set : IsSet MetricHistory
MetricHistory-set = hlevel

module _ (fl : Float) where
  -- The parts of the totals that a row takes as they are.
  record Same (t u : Totals fl) : Type 0 where
    max_duration : t.max_duration ≡ u.max_duration
    min_duration : t.min_duration ≡ u.min_duration
    cache_hit_count : t.cache_hit_count ≡ u.cache_hit_count
    total_count : t.total_count ≡ u.total_count

  Same-refl : (t : Totals fl) → Same t t
  Same-refl t = record {
    max_duration = refl;
    min_duration = refl;
    cache_hit_count = refl;
    total_count = refl;
  }

  Same-trans : {t u v : Totals fl} → Same t u → Same u v → Same t v
  Same-trans h k = record {
    max_duration = h.max_duration ∙ k.max_duration;
    min_duration = h.min_duration ∙ k.min_duration;
    cache_hit_count = h.cache_hit_count ∙ k.cache_hit_count;
    total_count = h.total_count ∙ k.total_count;
  }

  count_log-Same :
      (t u : Totals fl) (x y : ExecLog)
      → x ≡ y
      → Same t u
      → Same (count_log fl t x) (count_log fl u y)
  unfolding count_log
  count_log-Same t u x y e h = record {
    max_duration =
        ap₂ (λ (l : ExecLog) m. if ltb_ℤ m l.total_duration then l.total_duration else m) e
          h.max_duration;
    min_duration =
        ap₂ (λ (l : ExecLog) m. if ltb_ℤ l.total_duration m then l.total_duration else m) e
          h.min_duration;
    cache_hit_count =
        ap₂ (λ (l : ExecLog) n. if l.from_cache then suc n % 4294967296 else n) e h.cache_hit_count;
    total_count = ap suc h.total_count;
  }

  count_log-swap :
      (t : Totals fl) (x y : ExecLog)
      → Same (count_log fl (count_log fl t x) y) (count_log fl (count_log fl t y) x)
  unfolding count_log
  count_log-swap t x y = record {
    max_duration = ground arith;
    min_duration = ground arith;
    cache_hit_count = ground arith;
    total_count = refl;
  }

  total-Same : (g : List ExecLog) (t u : Totals fl) → Same t u → Same (total fl t g) (total fl u g)
  unfolding total
  total-Same [] t u h = h
  total-Same (x ∷ g) t u h =
      total-Same g (count_log fl t x) (count_log fl u x) (count_log-Same t u x x refl h)

  total-Permᴰ :
      {g h : List ExecLog} → Permᴰ g h → (t : Totals fl) → Same (total fl t g) (total fl t h)
  unfolding total
  total-Permᴰ Permᴰ.nil t = Same-refl t
  total-Permᴰ (Permᴰ.cons {a = a} {b = b} {l₂ = h} e p) t =
      Same-trans (total-Permᴰ p (count_log fl t a)) (
        total-Same h (count_log fl t a) (count_log fl t b) (count_log-Same t t a b e (Same-refl t)))
  total-Permᴰ (Permᴰ.swap {a = a} {b = b} {a' = a'} {b' = b'} {l = l} e f) t =
      total-Same l (count_log fl (count_log fl t a) b) (count_log fl (count_log fl t a') b') (
        Same-trans (count_log-swap t a b) (
          count_log-Same (count_log fl t b) (count_log fl t a') a b' e
            (count_log-Same t t b a' f (Same-refl t))))
  total-Permᴰ (Permᴰ.trans p q) t = Same-trans (total-Permᴰ p t) (total-Permᴰ q t)

  mean-Permᴰ : {g h : List ExecLog} → Permᴰ g h → mean fl (durations g) ≡ mean fl (durations h)
  unfolding mean
  mean-Permᴰ {g} {h} p =
      ap₂ (λ v n. fl.divide (fl.of_i64 v) (fl.of_usize n)) (sum_i64-Permᴰ (pos 0) p)
        (length-durations g ∙ length-Permᴰ p ∙ sym (length-durations h))

  abbrev average_of : List ExecLog → fl.F
  average_of g = (total fl (start_totals fl) g).avg_calculator.average

  average-Permᴰ : (g h : List ExecLog) → Permᴰ g h → average_of g ≡ average_of h
  average-Permᴰ [] [] p = refl
  average-Permᴰ [] (y ∷ h) p = absurd (omega (arith, length-Permᴰ p))
  average-Permᴰ (x ∷ g) [] p = absurd (omega (arith, length-Permᴰ p))
  average-Permᴰ (x ∷ g) (y ∷ h) p =
      total-average fl (start_totals fl) x g
      ∙ mean-Permᴰ p
      ∙ sym (total-average fl (start_totals fl) y h)

  row_of-Permᴰ :
      (port : Text) (now : ℤ) (k : Text) (g h : List ExecLog)
      → Permᴰ g h
      → row_of fl port now (k, g) ≡ row_of fl port now (k, h)
  unfolding row_of
  row_of-Permᴰ port now k g h p =
      let same = total-Permᴰ p (start_totals fl) in
      let average = average-Permᴰ g h p in
      λ i. record {
        sql_str = k;
        db_server_port = port;
        database_name = [];
        avg_duration = fl.as_i32 (average i);
        max_duration = same.max_duration i;
        min_duration = same.min_duration i;
        exec_count = same.total_count i;
        cache_hit_count = signed 32 (same.cache_hit_count i);
        created_at = now;
      }

  -- The row of a statement does not depend on the order of the logs.
  pub row_of-perm :
      (port : Text) (now : ℤ) (k : Text) (s t : List ExecLog)
      → Perm s t
      → row_of fl port now (k, logs_of k s) ≡ row_of fl port now (k, logs_of k t)
  row_of-perm port now k s t p =
      ∥∥₁_elim p (MetricHistory-set _ _)
        (λ d. row_of-Permᴰ port now k (logs_of k s) (logs_of k t) (logs_of-Permᴰ k d))

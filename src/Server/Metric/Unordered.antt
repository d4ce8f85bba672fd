-- ===== src/Server/Metric/Unordered.antt =====
-- The rows of a batch do not depend on the order of its logs.
use mathlib.Core.List.{Perm}
use virt_db.Prelude.{
  ◌<◌, ◌≡◌, refl, sym, ap, ap₂, subst, ◌∙◌, false, List, [], ◌∷◌, map, Text, length, All, arith,
  text_eq, text_eq_iff, if◌then◌else◌, inl, inr, Bool-cases,
}
use virt_db.Prelude.Int.{ℤ}
use virt_db.Text.Order.{text_leb, text_leb_total, Before, Before-ne}
use virt_db.Server.Handler.{ExecLog}
use virt_db.Server.Metric.{
  Float, MetricHistory, row_of, sorted, put_first, group, metric_history_list,
}
use virt_db.Server.Metric.Sorting.{logs_of, logs_of-sorted, IsOrdered, sorted-IsOrdered}
use virt_db.Server.Metric.Groups.{
  IsIncreasing, All-Before_trans, group-sorted, group-GroupsOf, logs_of-Before,
}
use virt_db.Server.Metric.Rows.{row_of-Sums}
use virt_db.Server.Metric.Permuted.{row_of-perm}

abbrev Groups : Type 0
Groups = List (Text × List ExecLog)

-- The group of a statement, empty where there is none.
abbrev look : Text → Groups → List ExecLog
look k [] = []
look k ((j, g) ∷ groups) = if text_eq j k then g else look k groups

look-later : (k : Text) (groups : Groups) → All (λ p. Before k p.0) groups → look k groups ≡ []
look-later k [] h = refl
look-later k ((j, g) ∷ groups) h = rw (Before-ne k j h.0) (look-later k groups h.1)

-- A statement before the first group has none.
look-before :
    (k j : Text) (g : List ExecLog) (groups : Groups)
    → Before k j
    → All (λ p. Before j p.0) groups
    → look k ((j, g) ∷ groups) ≡ []
look-before k j g groups b later =
    look-later k ((j, g) ∷ groups) (b, All-Before_trans k j groups b later)

not_same_sym : (s t : Text) → text_eq s t ≡ false → text_eq t s ≡ false
not_same_sym s t h = ground (arith, text_eq_iff s t, text_eq_iff t s)

logs_of-if :
    (k : Text) (x : ExecLog) (logs : List ExecLog)
    → logs_of k (x ∷ logs) ≡ (if text_eq x.sql_str k then x ∷ logs_of k logs else logs_of k logs)
unfolding logs_of
logs_of-if k x logs = refl

look-joined :
    (k : Text) (x : ExecLog) (j : Text) (g : List ExecLog) (groups : Groups) (l : List ExecLog)
    → look k ((j, g) ∷ groups) ≡ l
    → look k ((j, x ∷ g) ∷ groups) ≡ (if text_eq j k then x ∷ l else l)
look-joined k x j g groups l h = ground arith

look-put_first :
    (k : Text) (x y : ExecLog) (logs g : List ExecLog) (groups : Groups)
    → IsOrdered (x ∷ y ∷ logs)
    → look k ((y.sql_str, g) ∷ groups) ≡ logs_of k (y ∷ logs)
    → look k (put_first x ((y.sql_str, g) ∷ groups)) ≡ logs_of k (x ∷ y ∷ logs)
look-put_first k x y logs g groups o h = elim (Bool-cases (text_eq x.sql_str y.sql_str)) [
  | inl same ↦
      let e : text_eq x.sql_str k ≡ text_eq y.sql_str k =
        ap (λ s. text_eq s k) ((text_eq_iff x.sql_str y.sql_str).0 same) in
      rw same (
        look-joined k x y.sql_str g groups (logs_of k (y ∷ logs)) h
        ∙ ap (λ b. if b then x ∷ logs_of k (y ∷ logs) else logs_of k (y ∷ logs)) (sym e)
        ∙ sym (logs_of-if k x (y ∷ logs)))
  | inr other ↦ rw other (elim (Bool-cases (text_eq x.sql_str k)) [
    | inl here ↦
        let q = (text_eq_iff x.sql_str k).0 here in
        let gone : logs_of k (y ∷ logs) ≡ [] =
          logs_of-Before k y logs (subst (λ s. Before s y.sql_str) q (o.0, other)) o.1 in
        rw here (ap (λ l. x ∷ l) (sym gone) ∙ sym (logs_of-if k x (y ∷ logs) ∙ rw here refl))
    | inr there ↦ rw there (h ∙ sym (logs_of-if k x (y ∷ logs) ∙ rw there refl))
  ])
]

look-group :
    (k : Text) (logs : List ExecLog) → IsOrdered logs → look k (group logs) ≡ logs_of k logs
unfolding group logs_of
look-group k [] o = refl
look-group k (x ∷ []) o = refl
look-group k (x ∷ y ∷ logs) o =
    let (g, rest, shape, _) = group-GroupsOf y logs o.1 in
    ap (λ groups. look k (put_first x groups)) shape
    ∙ look-put_first k x y logs g rest o
        (ap (λ groups. look k groups) (sym shape) ∙ look-group k (y ∷ logs) o.1)

look-group-sorted : (k : Text) (logs : List ExecLog) → look k (group (sorted logs)) ≡ logs_of k logs
look-group-sorted k logs =
    look-group k (sorted logs) (sorted-IsOrdered logs) ∙ logs_of-sorted k logs

abbrev AreFull : Groups → Type 0
AreFull groups = All (λ p. 0 < length p.1) groups

put_first-AreFull : (x : ExecLog) (groups : Groups) → AreFull groups → AreFull (put_first x groups)
put_first-AreFull x [] h = (omega arith, tt)
put_first-AreFull x ((k, g) ∷ groups) h = elim (Bool-cases (text_eq x.sql_str k)) [
  | inl same ↦ rw same (omega arith, h.1)
  | inr other ↦ rw other (omega arith, h)
]

group-AreFull : (logs : List ExecLog) → AreFull (group logs)
unfolding group
group-AreFull [] = tt
group-AreFull (x ∷ logs) = put_first-AreFull x (group logs) (group-AreFull logs)

module _ (fl : Float) (port : Text) (now : ℤ) where
  abbrev row : Text × List ExecLog → MetricHistory
  row = row_of fl port now

  -- Two lists of groups give each statement the same row.
  abbrev Agree : Groups → Groups → Type 0
  Agree a b = (k : Text) → row (k, look k a) ≡ row (k, look k b)

  row-length : (k : Text) (g h : List ExecLog) → row (k, g) ≡ row (k, h) → length g ≡ length h
  row-length k g h e =
      sym (row_of-Sums fl port now k g).exec_count
      ∙ ap (λ (r : MetricHistory). r.exec_count) e
      ∙ (row_of-Sums fl port now k h).exec_count

  -- A statement that has a group has one in both.
  no_first :
      (k : Text) (g : List ExecLog) (a b : Groups)
      → 0 < length g
      → look k b ≡ []
      → ¬ Agree ((k, g) ∷ a) b
  no_first k g a b n gone agree =
      let here : look k ((k, g) ∷ a) ≡ g = rw ((text_eq_iff k k).1 refl) refl in
      let e = row-length k (look k ((k, g) ∷ a)) (look k b) (agree k) in
      absurd (omega (arith, e, ap length here, ap length gone))

  Agree-tail :
      (k : Text) (g h : List ExecLog) (a b : Groups)
      → All (λ p. Before k p.0) a
      → All (λ p. Before k p.0) b
      → Agree ((k, g) ∷ a) ((k, h) ∷ b)
      → Agree a b
  Agree-tail k g h a b la lb agree i = elim (Bool-cases (text_eq k i)) [
    | inl same ↦
        let q = (text_eq_iff k i).0 same in
        let gone : (look i a ≡ []) × (look i b ≡ []) =
          subst (λ j. (look j a ≡ []) × (look j b ≡ [])) q (look-later k a la, look-later k b lb) in
        ap (λ l. row (i, l)) (gone.0 ∙ sym gone.1)
    | inr other ↦
        let left : look i ((k, g) ∷ a) ≡ look i a = rw other refl in
        let right : look i ((k, h) ∷ b) ≡ look i b = rw other refl in
        ap (λ l. row (i, l)) (sym left) ∙ agree i ∙ ap (λ l. row (i, l)) right
  ]

  Agree-head :
      (k : Text) (g h : List ExecLog) (a b : Groups)
      → Agree ((k, g) ∷ a) ((k, h) ∷ b)
      → row (k, g) ≡ row (k, h)
  Agree-head k g h a b agree =
      let left : look k ((k, g) ∷ a) ≡ g = rw ((text_eq_iff k k).1 refl) refl in
      let right : look k ((k, h) ∷ b) ≡ h = rw ((text_eq_iff k k).1 refl) refl in
      ap (λ l. row (k, l)) (sym left) ∙ agree k ∙ ap (λ l. row (k, l)) right

  Agree-map :
      (a b : Groups)
      → IsIncreasing a × AreFull a
      → IsIncreasing b × AreFull b
      → Agree a b
      → map row a ≡ map row b
  Agree-map [] [] ha hb agree = refl
  Agree-map [] ((j, h) ∷ b) ha hb agree =
      absurd (no_first j h b [] hb.1.0 refl (λ k. sym (agree k)))
  Agree-map ((k, g) ∷ a) [] ha hb agree = absurd (no_first k g a [] ha.1.0 refl agree)
  Agree-map ((k, g) ∷ a) ((j, h) ∷ b) ha hb agree = elim (Bool-cases (text_eq k j)) [
    | inl same ↦
        let q : j ≡ k = sym ((text_eq_iff k j).0 same) in
        let later = subst (λ i. All (λ p. Before i p.0) b) q hb.0.0 in
        let agree' = subst (λ i. Agree ((k, g) ∷ a) ((i, h) ∷ b)) q agree in
        let tail = Agree-tail k g h a b ha.0.0 later agree' in
        ap₂ (λ (x : MetricHistory) rows. x ∷ rows)
          (Agree-head k g h a b agree' ∙ ap (λ i. row (i, h)) (sym q))
          (Agree-map a b (ha.0.1, ha.1.1) (hb.0.1, hb.1.1) tail)
    | inr other ↦ absurd (elim (Bool-cases (text_leb k j)) [
      | inl before ↦
          no_first k g a ((j, h) ∷ b) ha.1.0 (look-before k j h b (before, other) hb.0.0) agree
      | inr after ↦
          let back : Before j k = (text_leb_total k j after, not_same_sym k j other) in
          no_first j h b ((k, g) ∷ a) hb.1.0 (look-before j k g a back ha.0.0) (λ i. sym (agree i))
    ])
  ]

  -- The rows that are registered for a batch do not depend on the order in which its logs came, with
  -- the wrapped sums of the durations included.
  pub metric_history_list-perm :
      (s t : List ExecLog)
      → Perm s t
      → metric_history_list fl port now s ≡ metric_history_list fl port now t
  unfolding metric_history_list
  metric_history_list-perm s t p =
      Agree-map (group (sorted s)) (group (sorted t)) ((group-sorted s).0, group-AreFull (sorted s))
        ((group-sorted t).0, group-AreFull (sorted t))
        (λ k.
          ap (λ l. row (k, l)) (look-group-sorted k s)
          ∙ row_of-perm fl port now k s t p
          ∙ ap (λ l. row (k, l)) (sym (look-group-sorted k t)))

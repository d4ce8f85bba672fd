-- ===== src/Server/Metric/Groups.antt =====
-- Grouping splits the sorted logs by statement.
use virt_db.Prelude.{
  ℕ, suc, ◌+◌, ◌≡◌, refl, sym, ap, subst, ◌∙◌, true, false, List, [], ◌∷◌, Text, length, text_eq,
  text_eq_iff, All, arith, Bool-cases, inl, inr,
}
use virt_db.Text.Order.{Before, Before-trans, Before-of_le, Before-ne}
use virt_db.Server.Handler.{ExecLog}
use virt_db.Server.Metric.{sorted, put_first, group}
use virt_db.Server.Metric.Sorting.{
  logs_of, logs_of-sorted, IsOrdered, sorted-IsOrdered, length-sorted,
}

abbrev pub total_length : List (Text × List ExecLog) → ℕ
total_length [] = 0
total_length ((k, g) ∷ groups) = length g + total_length groups

total_length-put_first :
    (x : ExecLog) (groups : List (Text × List ExecLog))
    → total_length (put_first x groups) ≡ suc (total_length groups)
total_length-put_first x [] = refl
total_length-put_first x ((k, g) ∷ groups) = ground arith

total_length-group : (logs : List ExecLog) → total_length (group logs) ≡ length logs
unfolding group
total_length-group [] = refl
total_length-group (x ∷ logs) =
    omega (arith, total_length-put_first x (group logs), total_length-group logs)

-- No log is lost and none is counted twice.
pub total_length-group-sorted :
    (logs : List ExecLog) → total_length (group (sorted logs)) ≡ length logs
total_length-group-sorted logs = total_length-group (sorted logs) ∙ length-sorted logs

-- The statements of the groups strictly increase.
abbrev pub IsIncreasing : List (Text × List ExecLog) → Type 0
IsIncreasing [] = Unit
IsIncreasing ((k, g) ∷ groups) = All (λ p. Before k p.0) groups × IsIncreasing groups

-- Each group holds the logs of its statement.
abbrev pub Splits : List ExecLog → List (Text × List ExecLog) → Type 0
Splits logs groups = All (λ p. p.1 ≡ logs_of p.0 logs) groups

logs_of-skip :
    (k : Text) (x : ExecLog) (logs : List ExecLog)
    → text_eq x.sql_str k ≡ false
    → logs_of k (x ∷ logs) ≡ logs_of k logs
unfolding logs_of
logs_of-skip k x logs h = rw h

logs_of-take :
    (k : Text) (x : ExecLog) (logs : List ExecLog)
    → text_eq x.sql_str k ≡ true
    → logs_of k (x ∷ logs) ≡ x ∷ logs_of k logs
unfolding logs_of
logs_of-take k x logs h = rw h

logs_of-nil : (k : Text) → logs_of k [] ≡ []
unfolding logs_of
logs_of-nil k = refl

pub logs_of-Before :
    (k : Text) (y : ExecLog) (logs : List ExecLog)
    → Before k y.sql_str
    → IsOrdered (y ∷ logs)
    → logs_of k (y ∷ logs) ≡ []
logs_of-Before k y [] h o = logs_of-skip k y [] (Before-ne k y.sql_str h) ∙ logs_of-nil k
logs_of-Before k y (z ∷ logs) h o =
    logs_of-skip k y (z ∷ logs) (Before-ne k y.sql_str h)
    ∙ logs_of-Before k z logs (Before-of_le k y.sql_str z.sql_str h o.0) o.1

Splits-cons :
    (x : ExecLog) (logs : List ExecLog) (groups : List (Text × List ExecLog))
    → All (λ p. Before x.sql_str p.0) groups
    → Splits logs groups
    → Splits (x ∷ logs) groups
Splits-cons x logs [] h s = tt
Splits-cons x logs ((k, g) ∷ groups) h s =
    (s.0 ∙ sym (logs_of-skip k x logs h.0.1), Splits-cons x logs groups h.1 s.1)

pub All-Before_trans :
    (j k : Text) (groups : List (Text × List ExecLog))
    → Before j k
    → All (λ p. Before k p.0) groups
    → All (λ p. Before j p.0) groups
All-Before_trans j k [] h a = tt
All-Before_trans j k ((l, g) ∷ groups) h a =
    (Before-trans j k l h a.0, All-Before_trans j k groups h a.1)

-- Groups whose first is `g`, with the statement `k`.
pub record IsGrouping (k : Text) (logs g : List ExecLog) (rest : List (Text × List ExecLog))
    : Type 0 where
  later : All (λ p. Before k p.0) rest
  increasing : IsIncreasing rest
  first : g ≡ logs_of k logs
  others : Splits logs rest

-- The groups of logs that begin with the statement `k`.
abbrev pub GroupsOf : Text → List ExecLog → List (Text × List ExecLog) → Type 0
GroupsOf k logs groups =
    (g : List ExecLog) × (rest : List (Text × List ExecLog)) × (groups ≡ (k, g) ∷ rest)
    × IsGrouping k logs g rest

module _ (x y : ExecLog) (logs g : List ExecLog) (rest : List (Text × List ExecLog)) where
  join-same :
      text_eq x.sql_str y.sql_str ≡ true
      → IsGrouping y.sql_str (y ∷ logs) g rest
      → GroupsOf x.sql_str (x ∷ y ∷ logs) (put_first x ((y.sql_str, g) ∷ rest))
  join-same e h =
      let q : y.sql_str ≡ x.sql_str = sym ((text_eq_iff x.sql_str y.sql_str).0 e) in
      let joined : IsGrouping y.sql_str (x ∷ y ∷ logs) (x ∷ g) rest = record {
        later = h.later;
        increasing = h.increasing;
        first = ap (λ l. x ∷ l) h.first ∙ sym (logs_of-take y.sql_str x (y ∷ logs) e);
        others =
            Splits-cons x (y ∷ logs) rest (subst (λ k. All (λ p. Before k p.0) rest) q h.later)
              h.others;
      } in
      (
        x ∷ g,
        rest,
        rw e (ap (λ k. (k, x ∷ g) ∷ rest) q),
        subst (λ k. IsGrouping k (x ∷ y ∷ logs) (x ∷ g) rest) q joined,
      )

  join-new :
      Before x.sql_str y.sql_str
      → IsOrdered (y ∷ logs)
      → IsGrouping y.sql_str (y ∷ logs) g rest
      → GroupsOf x.sql_str (x ∷ y ∷ logs) (put_first x ((y.sql_str, g) ∷ rest))
  join-new b o h =
      let later : All (λ p. Before x.sql_str p.0) ((y.sql_str, g) ∷ rest) =
        (b, All-Before_trans x.sql_str y.sql_str rest b h.later) in
      (
        x ∷ [],
        (y.sql_str, g) ∷ rest,
        rw b.1,
        record {
          later = later;
          increasing = (h.later, h.increasing);
          first = sym (
              logs_of-take x.sql_str x (y ∷ logs) ((text_eq_iff x.sql_str x.sql_str).1 refl)
              ∙ ap (λ l. x ∷ l) (logs_of-Before x.sql_str y logs b o));
          others = Splits-cons x (y ∷ logs) ((y.sql_str, g) ∷ rest) later (h.first, h.others);
        },
      )

pub group-GroupsOf :
    (x : ExecLog) (logs : List ExecLog)
    → IsOrdered (x ∷ logs)
    → GroupsOf x.sql_str (x ∷ logs) (group (x ∷ logs))
unfolding group
group-GroupsOf x [] o = (
  x ∷ [],
  [],
  refl,
  record {
    later = tt;
    increasing = tt;
    first = sym (
        logs_of-take x.sql_str x [] ((text_eq_iff x.sql_str x.sql_str).1 refl)
        ∙ ap (λ l. x ∷ l) (logs_of-nil x.sql_str));
    others = tt;
  },
)
group-GroupsOf x (y ∷ logs) o =
    let (g, rest, shape, h) = group-GroupsOf y logs o.1 in
    subst (λ groups. GroupsOf x.sql_str (x ∷ y ∷ logs) (put_first x groups)) (sym shape)
      (elim (Bool-cases (text_eq x.sql_str y.sql_str)) [
        | inl e ↦ join-same x y logs g rest e h
        | inr n ↦ join-new x y logs g rest (o.0, n) o.1 h
      ])

group_of_ordered :
    (logs : List ExecLog) → IsOrdered logs → IsIncreasing (group logs) × Splits logs (group logs)
group_of_ordered [] o = unfold group in (tt, tt)
group_of_ordered (x ∷ logs) o =
    let (g, rest, shape, h) = group-GroupsOf x logs o in
    subst (λ groups. IsIncreasing groups × Splits (x ∷ logs) groups) (sym shape)
      ((h.later, h.increasing), (h.first, h.others))

Splits-sorted :
    (logs : List ExecLog) (groups : List (Text × List ExecLog))
    → Splits (sorted logs) groups
    → Splits logs groups
Splits-sorted logs [] h = tt
Splits-sorted logs ((k, g) ∷ groups) h =
    (h.0 ∙ logs_of-sorted k logs, Splits-sorted logs groups h.1)

-- After the sort each statement has one group, the statements increase, and a group holds the logs
-- of its statement in the order in which they came.
pub group-sorted :
    (logs : List ExecLog) → IsIncreasing (group (sorted logs)) × Splits logs (group (sorted logs))
group-sorted logs =
    let (increasing, splits) = group_of_ordered (sorted logs) (sorted-IsOrdered logs) in
    (increasing, Splits-sorted logs (group (sorted logs)) splits)

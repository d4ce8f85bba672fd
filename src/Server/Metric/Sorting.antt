-- ===== src/Server/Metric/Sorting.antt =====
-- Sorting keeps the logs, and the order of those of one statement.
use virt_db.Prelude.{
  suc, ◌≡◌, refl, ap, ◌∙◌, true, List, [], ◌∷◌, Text, length, text_eq, text_eq_iff, arith,
  if◌then◌else◌,
}
use virt_db.Text.Order.{text_leb, text_leb_total, text_leb_refl}
use virt_db.Server.Handler.{ExecLog}
use virt_db.Server.Metric.{insert_log, sorted}

-- The logs of one statement, in their order.
unfoldable pub logs_of : Text → List ExecLog → List ExecLog
logs_of k [] = []
logs_of k (x ∷ logs) = let rest = logs_of k logs in if text_eq x.sql_str k then x ∷ rest else rest

logs_of-insert_log :
    (k : Text) (x : ExecLog) (logs : List ExecLog)
    → logs_of k (insert_log x logs) ≡ logs_of k (x ∷ logs)
unfolding insert_log logs_of
logs_of-insert_log k x [] = refl
logs_of-insert_log k x (y ∷ logs) = ground (
  arith,
  logs_of-insert_log k x logs,
  text_eq_iff x.sql_str k,
  text_eq_iff y.sql_str k,
  text_leb_refl k,
)

logs_of-cons :
    (k : Text) (x : ExecLog) (s t : List ExecLog)
    → logs_of k s ≡ logs_of k t
    → logs_of k (x ∷ s) ≡ logs_of k (x ∷ t)
unfolding logs_of
logs_of-cons k x s t h = ap (λ l. if text_eq x.sql_str k then x ∷ l else l) h

-- The sort keeps the order within a statement.
pub logs_of-sorted : (k : Text) (logs : List ExecLog) → logs_of k (sorted logs) ≡ logs_of k logs
unfolding sorted
logs_of-sorted k [] = refl
logs_of-sorted k (x ∷ logs) =
    logs_of-insert_log k x (sorted logs)
    ∙ logs_of-cons k x (sorted logs) logs (logs_of-sorted k logs)

abbrev pub FirstLe : Text → List ExecLog → Type 0
FirstLe k [] = Unit
FirstLe k (y ∷ logs) = text_leb k y.sql_str ≡ true

-- Neighbours are in order.
abbrev pub IsOrdered : List ExecLog → Type 0
IsOrdered [] = Unit
IsOrdered (x ∷ logs) = FirstLe x.sql_str logs × IsOrdered logs

insert_log-IsOrdered :
    (x : ExecLog) (logs : List ExecLog) → IsOrdered logs → IsOrdered (insert_log x logs)
unfolding insert_log
insert_log-IsOrdered x [] h = (tt, tt)
insert_log-IsOrdered x (y ∷ []) h = ground (arith, text_leb_total x.sql_str y.sql_str)
insert_log-IsOrdered x (y ∷ z ∷ logs) h =
    ground (arith, text_leb_total x.sql_str y.sql_str, insert_log-IsOrdered x (z ∷ logs))

pub sorted-IsOrdered : (logs : List ExecLog) → IsOrdered (sorted logs)
unfolding sorted
sorted-IsOrdered [] = tt
sorted-IsOrdered (x ∷ logs) = insert_log-IsOrdered x (sorted logs) (sorted-IsOrdered logs)

length-insert_log :
    (x : ExecLog) (logs : List ExecLog) → length (insert_log x logs) ≡ suc (length logs)
unfolding insert_log
length-insert_log x [] = refl
length-insert_log x (y ∷ logs) = ground (arith, length-insert_log x logs)

pub length-sorted : (logs : List ExecLog) → length (sorted logs) ≡ length logs
unfolding sorted
length-sorted [] = refl
length-sorted (x ∷ logs) = omega (arith, length-insert_log x (sorted logs), length-sorted logs)

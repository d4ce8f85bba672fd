-- ===== src/Server/Metric/Average.antt =====
-- `AveragedCollection` keeps the mean of its list.
use virt_db.Prelude.{◌≡◌, refl, some, List, [], ◌∷◌, ◌++◌, ◌⊎◌, arith}
use virt_db.Prelude.Int.{ℤ}
use virt_db.Server.Metric.{Float, AveragedCollection, new, mean, update_average, add, pop, remove}

pop-append : (list : List ℤ) (v : ℤ) → pop (list ++ (v ∷ [])) ≡ some (list, v)
pop-append [] v = refl
pop-append (x ∷ []) v = refl
pop-append (x ∷ y ∷ rest) v = rw (pop-append (y ∷ rest) v)

module _ (fl : Float) where
  -- The average is the mean of the list, or nothing was ever added.
  abbrev pub IsCurrent : AveragedCollection fl → Type 0
  IsCurrent c = (c ≡ new fl) ⊎ (c.average ≡ mean fl c.list)

  -- `add` makes the average the mean of the longer list.
  pub average-add :
      (c : AveragedCollection fl) (v : ℤ)
      → ((add fl c v).list ≡ c.list ++ (v ∷ []))
        × ((add fl c v).average ≡ mean fl (c.list ++ (v ∷ [])))
  unfolding add update_average
  average-add c v = (refl, refl)

  -- `remove` after `add` gives the value back and the list that was there, and makes the average the
  -- mean of that list.
  pub remove-add :
      (c : AveragedCollection fl) (v : ℤ)
      → ((remove fl (add fl c v)).1 ≡ some v)
        × ((remove fl (add fl c v)).0.list ≡ c.list)
        × ((remove fl (add fl c v)).0.average ≡ mean fl c.list)
  unfolding remove add update_average
  remove-add c v = let e = pop-append c.list v in (ground arith, ground arith, ground arith)

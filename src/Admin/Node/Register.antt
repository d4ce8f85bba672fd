-- ===== src/Admin/Node/Register.antt =====
-- What a registration leaves behind on every outcome.
use virt_db.Prelude.{
  ℕ, ◌≡◌, ◌⊎◌, ◌↔◌, refl, sym, ap, subst, Option, none, some, List, [], ◌∷◌, ◌++◌, Text, arith, inl,
  inr, Option-cases,
}
use virt_db.Prelude.Int.{ℤ, pos, negsuc, ◌≤ℤ◌}
use virt_db.Admin.Error.{Result, ok, err, SysError, system, DataWrapper, success_of, Result-cases}
use virt_db.Admin.Node.{
  register_node, to_i32, times_1000, MetricHistory, Metrics, row_of, Saved, panicked, failed,
  save_rows, answer, state_of, node_key, AppState, register,
}

module _ (ms : Metrics) (remote_ip : Text) where
  -- Rows that were saved one after the other.
  pub data Inserts : List MetricHistory → ms.State → ms.State → Type 0 where
    no_rows : (s : ms.State) → Inserts [] s s
    one_row :
        (x : MetricHistory) (rest : List MetricHistory) (d : ms.Date) (s s' s'' : ms.State)
        → ms.timestamp_millis_opt (times_1000 x.created_at) ≡ some d
        → ms.insert_row s (row_of ms remote_ip x d) ≡ ok s'
        → Inserts rest s' s''
        → Inserts (x ∷ rest) s s''

  abbrev pub success : Option (Result SysError (DataWrapper Text))
  success = some (ok (success_of Text []))

  -- What follows the rows that were saved up to the state `s`, and the reply: nothing and a success; or
  -- a row whose time is out of range and no reply, or one that the database refuses and its error.
  abbrev pub Stops :
      List MetricHistory → ms.State → Option (Result SysError (DataWrapper Text)) → Type 0
  Stops [] s reply = reply ≡ success
  Stops (x ∷ rest) s reply =
      ((ms.timestamp_millis_opt (times_1000 x.created_at) ≡ none) × (reply ≡ none))
      ⊎ ((d : ms.Date) × (e : Text) × (ms.timestamp_millis_opt (times_1000 x.created_at) ≡ some d)
          × (ms.insert_row s (row_of ms remote_ip x d) ≡ err e)
          × (reply ≡ some (err (system e))))

  -- A success is not answered while rows are left.
  pub Stops-success :
      (rest : List MetricHistory) (s : ms.State)
      (reply : Option (Result SysError (DataWrapper Text)))
      → Stops rest s reply
      → reply ≡ success
      → rest ≡ []
  Stops-success [] s reply stops e = refl
  Stops-success (x ∷ rest) s reply (inl (t, missing)) e = absurd cc
  Stops-success (x ∷ rest) s reply (inr (d, m, t, q, refused)) e = absurd cc

  -- The rows up to the first that cannot be saved.
  abbrev pub SavesUpTo :
      List MetricHistory
      → ms.State
      → ms.State
      → Option (Result SysError (DataWrapper Text))
      → Type 0
  SavesUpTo rows s s' reply =
      (done : List MetricHistory) × (rest : List MetricHistory) × (rows ≡ done ++ rest)
      × Inserts done s s'
      × Stops rest s' reply

  abbrev Ends : List MetricHistory → ms.State → Saved ms → Type 0
  Ends rows s outcome = SavesUpTo rows s (state_of ms outcome) (answer ms outcome)

  save_rows-panicked :
      (x : MetricHistory) (rows : List MetricHistory) (s : ms.State)
      → ms.timestamp_millis_opt (times_1000 x.created_at) ≡ none
      → save_rows ms remote_ip (x ∷ rows) s ≡ panicked s
  unfolding save_rows
  save_rows-panicked x rows s t = ground (arith, t)

  save_rows-failed :
      (x : MetricHistory) (rows : List MetricHistory) (s : ms.State) (d : ms.Date) (e : Text)
      → ms.timestamp_millis_opt (times_1000 x.created_at) ≡ some d
      → ms.insert_row s (row_of ms remote_ip x d) ≡ err e
      → save_rows ms remote_ip (x ∷ rows) s ≡ failed s e
  unfolding save_rows
  save_rows-failed x rows s d e t q = ground (arith, t, q)

  save_rows-next :
      (x : MetricHistory) (rows : List MetricHistory) (s s' : ms.State) (d : ms.Date)
      → ms.timestamp_millis_opt (times_1000 x.created_at) ≡ some d
      → ms.insert_row s (row_of ms remote_ip x d) ≡ ok s'
      → save_rows ms remote_ip (x ∷ rows) s ≡ save_rows ms remote_ip rows s'
  unfolding save_rows
  save_rows-next x rows s s' d t q = ground (arith, t, q)

  save_rows-Ends :
      (rows : List MetricHistory) (s : ms.State) → Ends rows s (save_rows ms remote_ip rows s)
  save_rows-Ends [] s = unfold save_rows in ([], [], refl, no_rows s, refl)
  save_rows-Ends (x ∷ rows) s =
      elim (Option-cases (ms.timestamp_millis_opt (times_1000 x.created_at))) [
        | inl n ↦
            subst (Ends (x ∷ rows) s) (sym (save_rows-panicked x rows s n))
              ([], x ∷ rows, refl, no_rows s, inl (n, refl))
        | inr (d, t) ↦ elim (Result-cases (ms.insert_row s (row_of ms remote_ip x d))) [
          | inl (e, q) ↦
              subst (Ends (x ∷ rows) s) (sym (save_rows-failed x rows s d e t q))
                ([], x ∷ rows, refl, no_rows s, inr (d, e, t, q, refl))
          | inr (s', q) ↦
              let (done, rest, shape, inserts, stops) = save_rows-Ends rows s' in
              subst (Ends (x ∷ rows) s) (sym (save_rows-next x rows s s' d t q)) (
                x ∷ done,
                rest,
                ap (λ l. x ∷ l) shape,
                one_row x done d s s' (state_of ms (save_rows ms remote_ip rows s')) t q inserts,
                stops,
              )
        ]
      ]

  -- A node with a peer address is registered for two minutes whatever becomes of its rows; the rows are
  -- saved in order up to the first that cannot be: its time is out of range, and there is no answer, or
  -- the database refuses it, and its error is answered; and the answer is a success if there is none.
  pub register-SavesUpTo :
      (now : ℕ) (port : Text) (rows : List MetricHistory) (s : AppState ms)
      → let (s', reply) = register ms now (some remote_ip) port rows s in
        (s'.vt_nodes ≡ register_node (node_key ms remote_ip port) now s.vt_nodes)
        × SavesUpTo rows s.metrics s'.metrics reply
  unfolding register
  register-SavesUpTo now port rows s = (refl, save_rows-Ends rows s.metrics)

-- A number is saved as it was sent exactly when it fits an `i32`.
pub to_i32_iff : (v : ℤ) → (to_i32 v ≡ v) ↔ ((negsuc 2147483647 ≤ℤ v) × (v ≤ℤ pos 2147483647))
to_i32_iff (pos n) = (λ h. ground arith, λ h. ground arith)
to_i32_iff (negsuc n) = (λ h. ground arith, λ h. ground arith)

-- ===== src/Admin/Node/Alive.antt =====
-- How long a node stays in the map.
use virt_db.Prelude.{
  ℕ, ◌+◌, ◌≤◌, ◌<◌, ltb, ltb→lt, sym, subst, ◌≡◌, refl, ◌∙◌, Option, none, some, List, [], ◌∷◌,
  Text, text_eq, if◌then◌else◌, arith, Bool-cases, inl, inr,
}
use virt_db.Admin.Node.{Nodes, insert, unexpired, alive_check, register_node}

-- What happens to the map: a node registers, or the check runs.
pub data NodeEvent : Type 0 where
  registered : Text → ℕ → NodeEvent
  checked : ℕ → NodeEvent

abbrev pub step_nodes : NodeEvent → Nodes → Nodes
step_nodes (registered key now) nodes = register_node key now nodes
step_nodes (checked now) nodes = alive_check now nodes

abbrev pub run_nodes : List NodeEvent → Nodes → Nodes
run_nodes [] nodes = nodes
run_nodes (e ∷ events) nodes = run_nodes events (step_nodes e nodes)

-- No check is later than `t`.
abbrev pub ChecksBy : ℕ → List NodeEvent → Type 0
ChecksBy t [] = Unit
ChecksBy t (registered key now ∷ events) = ChecksBy t events
ChecksBy t (checked now ∷ events) = (now ≤ t) × ChecksBy t events

-- Two minutes after the last time that the node `k` registered, or `o` if it did not.
abbrev pub expiry : Text → Option ℕ → List NodeEvent → Option ℕ
expiry k o [] = o
expiry k o (registered key now ∷ events) =
    expiry k (if text_eq k key then some (now + 120000000000) else o) events
expiry k o (checked now ∷ events) = expiry k o events

-- Of a node with the end of its time, and what the map has for it, at the time `t`: it is not there
-- where it has no end, or where the end is not after `t`; and it is there with an end that is after `t`.
abbrev pub IsAlive : ℕ → Option ℕ → Option ℕ → Type 0
IsAlive t none none = Unit
IsAlive t (some e) none = e ≤ t
IsAlive t none (some x) = ⊥
IsAlive t (some e) (some x) = (x ≡ e) × (t < e)

unexpired-IsAlive : (t : ℕ) (o : Option ℕ) → IsAlive t o (unexpired t o)
unexpired-IsAlive t none = tt
unexpired-IsAlive t (some e) = elim (Bool-cases (ltb t e)) [
  | inl h ↦ rw h (refl, ltb→lt t e h)
  | inr h ↦ rw h (ground (arith, h))
]

unexpired_twice : (c t : ℕ) (o : Option ℕ) → c ≤ t → unexpired t (unexpired c o) ≡ unexpired t o
unexpired_twice c t none h = refl
unexpired_twice c t (some x) h = ground arith

expiry-unexpired :
    (k : Text) (c t : ℕ) (o : Option ℕ) (events : List NodeEvent)
    → c ≤ t
    → unexpired t (expiry k (unexpired c o) events) ≡ unexpired t (expiry k o events)
expiry-unexpired k c t o [] h = unexpired_twice c t o h
expiry-unexpired k c t o (registered key now ∷ events) h = elim (Bool-cases (text_eq k key)) [
  | inl e ↦ rw e refl
  | inr e ↦ rw e (expiry-unexpired k c t o events h)
]
expiry-unexpired k c t o (checked now ∷ events) h = expiry-unexpired k c t o events h

unexpired-run_nodes :
    (k : Text) (t : ℕ) (events : List NodeEvent) (nodes : Nodes)
    → ChecksBy t events
    → alive_check t (run_nodes events nodes) k ≡ unexpired t (expiry k (nodes k) events)
unfolding alive_check register_node insert
unexpired-run_nodes k t [] nodes h = refl
unexpired-run_nodes k t (registered key now ∷ events) nodes h =
    unexpired-run_nodes k t events (register_node key now nodes) h
unexpired-run_nodes k t (checked now ∷ events) nodes h =
    unexpired-run_nodes k t events (alive_check now nodes) h.1
    ∙ expiry-unexpired k now t (nodes k) events h.0

-- After any sequence of registrations and checks, and then a check at a time `t` that no earlier check
-- is after, a node is in the map exactly if its last registration is less than two minutes
-- (120000000000 nanoseconds) before `t`, and then with the end of those two minutes; a node that did not
-- register counts by the time with which it was in the map at first.
pub alive_check-run_nodes :
    (k : Text) (t : ℕ) (events : List NodeEvent) (nodes : Nodes)
    → ChecksBy t events
    → IsAlive t (expiry k (nodes k) events) (alive_check t (run_nodes events nodes) k)
alive_check-run_nodes k t events nodes h =
    subst (IsAlive t (expiry k (nodes k) events)) (sym (unexpired-run_nodes k t events nodes h))
      (unexpired-IsAlive t (expiry k (nodes k) events))

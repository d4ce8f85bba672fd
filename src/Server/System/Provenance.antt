-- ===== src/Server/System/Provenance.antt =====
-- Where a stored response comes from.
use virt_db.Prelude.{
  ℕ, zero, suc, ◌≡◌, refl, sym, ap, ◌∙◌, subst, some, List, [], ◌∷◌, ◌++◌, append_assoc, append-nil,
  Text, All, get_elem?,
}
use virt_db.Server.System.{Line, set}

-- `x` is in the list.
abbrev pub Contains {ℓ} : {A : Type ℓ} → List A → A → Type ℓ
Contains {A} xs x = (before : List A) × (after : List A) × (xs ≡ before ++ x ∷ after)

-- The list goes on after `xs`.
abbrev pub Extends {ℓ} : {A : Type ℓ} → List A → List A → Type ℓ
Extends {A} xs ys = (more : List A) × (ys ≡ xs ++ more)

-- `part` stands somewhere in the list.
abbrev pub HasPart : List ℕ → List ℕ → Type 0
HasPart xs part = (before : List ℕ) × (after : List ℕ) × (xs ≡ before ++ (part ++ after))

-- The client of some connection asked for `sql`, and the bytes stand, in one piece, in what the
-- database sent on that connection.
abbrev pub IsSourced : List Line → Text → List ℕ → Type 0
IsSourced lines sql body =
    (i : ℕ) × (line : Line) × (get_elem? lines i ≡ some line)
    × Contains line.asked sql
    × HasPart line.received body

pub Extends-refl {ℓ} : {A : Type ℓ} (xs : List A) → Extends xs xs
Extends-refl xs = ([], sym (append-nil xs))

pub Contains-Extends {ℓ} :
    {A : Type ℓ} (xs ys : List A) (x : A) → Extends xs ys → Contains xs x → Contains ys x
Contains-Extends xs ys x (more, e) (before, after, h) =
    (before, after ++ more, e ∙ ap (λ l. l ++ more) h ∙ append_assoc before (x ∷ after) more)

pub HasPart-Extends : (xs ys part : List ℕ) → Extends xs ys → HasPart xs part → HasPart ys part
HasPart-Extends xs ys part (more, e) (before, after, h) = (
  before,
  after ++ more,
  e
      ∙ ap (λ l. l ++ more) h
      ∙ append_assoc before (part ++ after) more
      ∙ ap (λ l. before ++ l) (append_assoc part after more),
)

-- Each connection is still there, and has only asked and received more.
abbrev pub Grows : List Line → List Line → Type 0
Grows a b =
    (i : ℕ) (line : Line)
    → get_elem? a i ≡ some line
    → (line' : Line) × (get_elem? b i ≡ some line')
      × Extends line.asked line'.asked
      × Extends line.received line'.received

pub Grows-refl : (a : List Line) → Grows a a
Grows-refl a i line h = (line, h, Extends-refl line.asked, Extends-refl line.received)

pub IsSourced-Grows :
    (a b : List Line) (sql : Text) (body : List ℕ)
    → Grows a b
    → IsSourced a sql body
    → IsSourced b sql body
IsSourced-Grows a b sql body g (i, line, h, asked, part) =
    let (line', h', more, more') = g i line h in
    (
      i,
      line',
      h',
      Contains-Extends line.asked line'.asked sql more asked,
      HasPart-Extends line.received line'.received body more' part,
    )

pub some_injective {ℓ} : {A : Type ℓ} (x y : A) → some x ≡ some y → x ≡ y
some_injective x y h = cc

Extends-of_eq :
    (w v x : Line)
    → x ≡ w
    → Extends w.asked v.asked
    → Extends w.received v.received
    → Extends x.asked v.asked × Extends x.received v.received
Extends-of_eq w v x e h k =
    subst (λ (l : Line). Extends l.asked v.asked × Extends l.received v.received) (sym e) (h, k)

-- A connection whose line is replaced by one that goes on.
pub Grows-set :
    (lines : List Line) (i : ℕ) (w v : Line)
    → get_elem? lines i ≡ some w
    → Extends w.asked v.asked
    → Extends w.received v.received
    → Grows lines (set lines i v)
Grows-set [] i w v h more more' j line e = cc
Grows-set (x ∷ lines) zero w v h more more' zero line e =
    let q : line ≡ w = some_injective line w (sym e ∙ h) in
    let (m, m') = Extends-of_eq w v line q more more' in (v, refl, m, m')
Grows-set (x ∷ lines) zero w v h more more' (suc j) line e =
    (line, e, Extends-refl line.asked, Extends-refl line.received)
Grows-set (x ∷ lines) (suc i) w v h more more' zero line e =
    (line, e, Extends-refl line.asked, Extends-refl line.received)
Grows-set (x ∷ lines) (suc i) w v h more more' (suc j) line e =
    Grows-set lines i w v h more more' j line e

pub Grows-append : (a b : List Line) → Grows a (a ++ b)
Grows-append [] b i line h = cc
Grows-append (x ∷ a) b zero line h = (line, h, Extends-refl line.asked, Extends-refl line.received)
Grows-append (x ∷ a) b (suc i) line h = Grows-append a b i line h

pub get_elem?-set {ℓ} :
    {A : Type ℓ} (xs : List A) (i : ℕ) (w v : A)
    → get_elem? xs i ≡ some w
    → get_elem? (set xs i v) i ≡ some v
get_elem?-set [] i w v h = cc
get_elem?-set (x ∷ xs) zero w v h = refl
get_elem?-set (x ∷ xs) (suc i) w v h = get_elem?-set xs i w v h

pub All-set {ℓ κ} :
    {A : Type ℓ} (P : A → Type κ) (xs : List A) (i : ℕ) (v : A)
    → All P xs
    → P v
    → All P (set xs i v)
All-set P [] i v h p = h
All-set P (x ∷ xs) zero v h p = (p, h.1)
All-set P (x ∷ xs) (suc i) v h p = (h.0, All-set P xs i v h.1 p)

pub All-append {ℓ κ} :
    {A : Type ℓ} (P : A → Type κ) (xs : List A) (v : A) → All P xs → P v → All P (xs ++ (v ∷ []))
All-append P [] v h p = (p, tt)
All-append P (x ∷ xs) v h p = (h.0, All-append P xs v h.1 p)

pub All-get {ℓ κ} :
    {A : Type ℓ} (P : A → Type κ) (xs : List A) (i : ℕ) (x : A)
    → All P xs
    → get_elem? xs i ≡ some x
    → P x
All-get P [] i x h e = cc
All-get P (y ∷ xs) zero x h e = subst P (some_injective y x e) h.0
All-get P (y ∷ xs) (suc i) x h e = All-get P xs i x h.1 e

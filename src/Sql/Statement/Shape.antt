-- ===== src/Sql/Statement/Shape.antt =====
-- What a statement pattern forgets: two conditions have one pattern exactly when they have one
-- shape.
use virt_db.Prelude.{Bool, ◌≡◌, ◌↔◌, refl, Text, subst}
use virt_db.Sql.Statement.{
  Expr, Value, and, other_op, binary_op, between, unary_op, value, other, replace_expr,
}

-- One shape: the same tree, but for what stands right of an operator that is not AND and for the
-- bounds of a BETWEEN.
pub data SameShape : Expr → Expr → Type 0 where
  both :
      {l l' r r' : Expr}
      → SameShape l l'
      → SameShape r r'
      → SameShape (binary_op and l r) (binary_op and l' r')
  compared :
      {l l' : Expr} (op : Text) (r r' : Expr)
      → SameShape l l'
      → SameShape (binary_op (other_op op) l r) (binary_op (other_op op) l' r')
  bounded :
      {e e' : Expr} (negated : Bool) (low low' high high' : Expr)
      → SameShape e e'
      → SameShape (between e negated low high) (between e' negated low' high')
  signed : {e e' : Expr} (op : Text) → SameShape e e' → SameShape (unary_op op e) (unary_op op e')
  same_value : (v : Value) → SameShape (value v) (value v)
  same_other : (t : Text) → SameShape (other t) (other t)

replace_expr_of_shape : {e e' : Expr} → SameShape e e' → replace_expr e ≡ replace_expr e'
unfolding replace_expr
replace_expr_of_shape (both h k) = cc (replace_expr_of_shape h, replace_expr_of_shape k)
replace_expr_of_shape (compared op r r' h) = cc (replace_expr_of_shape h)
replace_expr_of_shape (bounded n a b c d h) = cc (replace_expr_of_shape h)
replace_expr_of_shape (signed op h) = cc (replace_expr_of_shape h)
replace_expr_of_shape (same_value v) = refl
replace_expr_of_shape (same_other t) = refl

compared_of :
    {l l' : Expr} (op op' : Text) (r r' : Expr)
    → op ≡ op'
    → SameShape l l'
    → SameShape (binary_op (other_op op) l r) (binary_op (other_op op') l' r')
compared_of {l} {l'} op op' r r' e h =
    subst (λ o. SameShape (binary_op (other_op op) l r) (binary_op (other_op o) l' r')) e
      (compared op r r' h)

bounded_of :
    {e e' : Expr} (n n' : Bool) (a a' b b' : Expr)
    → n ≡ n'
    → SameShape e e'
    → SameShape (between e n a b) (between e' n' a' b')
bounded_of {e} {e'} n n' a a' b b' q h =
    subst (λ m. SameShape (between e n a b) (between e' m a' b')) q (bounded n a a' b b' h)

signed_of :
    {e e' : Expr} (op op' : Text)
    → op ≡ op'
    → SameShape e e'
    → SameShape (unary_op op e) (unary_op op' e')
signed_of {e} {e'} op op' q h =
    subst (λ o. SameShape (unary_op op e) (unary_op o e')) q (signed op h)

shape_of_replace_expr : (e e' : Expr) → replace_expr e ≡ replace_expr e' → SameShape e e'
unfolding replace_expr
shape_of_replace_expr (binary_op and l r) (binary_op and l' r') h =
    both (shape_of_replace_expr l l' (cc)) (shape_of_replace_expr r r' (cc))
shape_of_replace_expr (binary_op (other_op op) l r) (binary_op (other_op op') l' r') h =
    compared_of op op' r r' (cc) (shape_of_replace_expr l l' (cc))
shape_of_replace_expr (between e n a b) (between e' n' a' b') h =
    bounded_of n n' a a' b b' (cc) (shape_of_replace_expr e e' (cc))
shape_of_replace_expr (unary_op op e) (unary_op op' e') h =
    signed_of op op' (cc) (shape_of_replace_expr e e' (cc))
shape_of_replace_expr (value v) (value v') h =
    subst (λ w. SameShape (value v) (value w)) (cc) (same_value v)
shape_of_replace_expr (other t) (other t') h =
    subst (λ w. SameShape (other t) (other w)) (cc) (same_other t)
shape_of_replace_expr _ (binary_op and l r) h = cc
shape_of_replace_expr _ (binary_op (other_op op) l r) h = cc
shape_of_replace_expr (binary_op and l r) _ h = cc
shape_of_replace_expr _ _ h = cc

-- Two conditions have the same pattern exactly when they are the same tree but for the right
-- operands of operators other than AND and the bounds of BETWEEN.
pub replace_expr_iff : (e e' : Expr) → (replace_expr e ≡ replace_expr e') ↔ SameShape e e'
replace_expr_iff e e' = (shape_of_replace_expr e e', replace_expr_of_shape)

-- A pattern is its own pattern.
pub replace_expr_idem : (e : Expr) → replace_expr (replace_expr e) ≡ replace_expr e
unfolding replace_expr
replace_expr_idem (binary_op and l r) = cc (replace_expr_idem l, replace_expr_idem r)
replace_expr_idem (binary_op (other_op op) l r) = cc (replace_expr_idem l)
replace_expr_idem (between e n a b) = cc (replace_expr_idem e)
replace_expr_idem (unary_op op e) = cc (replace_expr_idem e)
replace_expr_idem (value v) = refl
replace_expr_idem (other t) = refl

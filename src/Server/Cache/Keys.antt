-- ===== src/Server/Cache/Keys.antt =====
-- The key that is read and the key that is written.
use mathlib.Core.List.{append_cancel_left, append_cancel_right}
use virt_db.Prelude.{
  ℕ, ◌≤◌, ◌≡◌, ◌↔◌, ap, ◌∙◌, sym, [], ◌∷◌, ◌++◌, Text, codes, length, length-append, arith, ◌⊎◌,
  inl, inr,
}
use virt_db.Sql.Comments.{remove_comments}
use virt_db.Sql.Comments.Size.{Shrinks, remove_comments-Shrinks}
use virt_db.Server.Cache.{Unicode, escape_char, escape, quote, read_key, write_key}

-- Escaping a character lengthens it or changes nothing.
length-escape_char :
    (u : Unicode) (c : ℕ) → (escape_char u c ≡ c ∷ []) ⊎ (2 ≤ length (escape_char u c))
unfolding escape_char
length-escape_char u c = ground arith

-- Escaping never shortens a text, and keeps its length only if it changes nothing.
pub Shrinks-escape : (u : Unicode) (s : Text) → Shrinks s (escape u s)
unfolding escape
Shrinks-escape u [] = ground arith
Shrinks-escape u (c ∷ s) = elim (length-escape_char u c) [
  | inl e ↦ rw e (ground (arith, Shrinks-escape u s))
  | inr h ↦
      let n = length-append (escape_char u c) (escape u s) in
      (
        omega (arith, n, h, (Shrinks-escape u s).0),
        λ q. absurd (omega (arith, n, h, q, (Shrinks-escape u s).0)),
      )
]

quote-injective : (a b : Text) → quote a ≡ quote b → a ≡ b
quote-injective a b h = append_cancel_right a b (0x22 ∷ []) (cc)

-- The two keys of a statement are one key exactly when the statement holds nothing that `Debug`
-- escapes, no comment, and no white space at its ends.
pub write_key-eq-read_key :
    (u : Unicode) (sql : Text)
    → (write_key u sql ≡ read_key (remove_comments sql))
      ↔ ((escape u sql ≡ sql) × (remove_comments sql ≡ sql))
unfolding write_key read_key
write_key-eq-read_key u sql = (
  λ h.
      let e : escape u sql ≡ remove_comments sql =
        quote-injective (escape u sql) (remove_comments sql) (
          append_cancel_left (codes "cache:") (quote (escape u sql)) (quote (remove_comments sql))
            h) in
      let longer = Shrinks-escape u sql in
      let shorter = remove_comments-Shrinks sql in
      let same : length (remove_comments sql) ≡ length sql =
        omega (arith, ap length e, longer.0, shorter.0) in
      (e ∙ shorter.1 same, shorter.1 same),
  λ h. ap (λ s. codes "cache:" ++ quote s) (h.0 ∙ sym h.1),
)

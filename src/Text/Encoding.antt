-- ===== src/Text/Encoding.antt =====
-- The UTF-8 form of a text, which is what a client sends, and `String::from_utf8` of it.
use virt_db.Prelude.{
  ℕ, ◌+◌, ◌-◌, ◌*◌, ◌/◌, ◌%◌, ◌≤◌, ◌<◌, ◌≡◌, refl, ap, ◌∙◌, Bool, true, false, some, List, [], ◌∷◌,
  ◌++◌, Text, leb, ltb, ◌==◌, if◌then◌else◌, All, arith, ◌⊎◌, inl, inr, Bool-cases,
}
use virt_db.Text.Utf8.{from_utf8, cons_char}

-- A code point that a Rust string can hold: a surrogate is none.
abbrev pub IsScalar : ℕ → Type 0
IsScalar c = (c < 0xd800) ⊎ ((0xdfff < c) × (c < 0x110000))

abbrev cont : ℕ → ℕ
cont c = 0x80 + c % 64

unfoldable pub encode_char : ℕ → List ℕ
encode_char c =
    if ltb c 0x80
    then c ∷ []
    else if ltb c 0x800
    then (0xc0 + c / 64) ∷ cont c ∷ []
    else if ltb c 0x10000
    then (0xe0 + c / 4096) ∷ cont (c / 64) ∷ cont c ∷ []
    else (0xf0 + c / 262144) ∷ cont (c / 4096) ∷ cont (c / 64) ∷ cont c ∷ []

unfoldable pub to_utf8 : Text → List ℕ
unfolding encode_char
to_utf8 [] = []
to_utf8 (c ∷ s) = encode_char c ++ to_utf8 s

from_utf8-one :
    (a : ℕ) (rest : List ℕ) → a < 0x80 → from_utf8 (a ∷ rest) ≡ cons_char a (from_utf8 rest)
unfolding from_utf8
from_utf8-one a [] h = ground arith
from_utf8-one a (b ∷ []) h = ground arith
from_utf8-one a (b ∷ c ∷ []) h = ground arith
from_utf8-one a (b ∷ c ∷ d ∷ rest) h = ground arith

-- A continuation byte.
abbrev IsCont : ℕ → Type 0
IsCont b = (0x80 ≤ b) × (b ≤ 0xbf)

from_utf8-two :
    (a b : ℕ) (rest : List ℕ)
    → 0xc2 ≤ a
    → a ≤ 0xdf
    → IsCont b
    → from_utf8 (a ∷ b ∷ rest) ≡ cons_char ((a - 0xc0) * 64 + (b - 0x80)) (from_utf8 rest)
unfolding from_utf8
from_utf8-two a b [] h k l = ground arith
from_utf8-two a b (x ∷ []) h k l = ground arith
from_utf8-two a b (x ∷ y ∷ rest) h k l = ground arith

abbrev second3 : ℕ → ℕ → Bool
second3 a b = if a == 0xe0 then leb 0xa0 b else if a == 0xed then leb b 0x9f else leb 0 b

abbrev second4 : ℕ → ℕ → Bool
second4 a b = if a == 0xf0 then leb 0x90 b else if a == 0xf4 then leb b 0x8f else leb 0 b

-- The tests that a continuation byte passes.
abbrev Continues : ℕ → Type 0
Continues b = (leb 0x80 b ≡ true) × (leb b 0xbf ≡ true)

from_utf8-three :
    (a b c : ℕ) (rest : List ℕ)
    → (ltb a 0x80 ≡ false)
      × (leb 0xc2 a ≡ true)
      × (leb a 0xdf ≡ false)
      × (leb 0xe0 a ≡ true)
      × (leb a 0xef ≡ true)
    → Continues b
    → second3 a b ≡ true
    → Continues c
    → from_utf8 (a ∷ b ∷ c ∷ rest)
      ≡ cons_char ((a - 0xe0) * 4096 + (b - 0x80) * 64 + (c - 0x80)) (from_utf8 rest)
unfolding from_utf8
from_utf8-three a b c [] h k s l = rw (h.0, h.1, h.2, h.3, h.4, k.0, k.1, s, l.0, l.1)
from_utf8-three a b c (x ∷ rest) h k s l = rw (h.0, h.1, h.2, h.3, h.4, k.0, k.1, s, l.0, l.1)

from_utf8-four :
    (a b c d : ℕ) (rest : List ℕ)
    → (ltb a 0x80 ≡ false)
      × (leb 0xc2 a ≡ true)
      × (leb a 0xdf ≡ false)
      × (leb 0xe0 a ≡ true)
      × (leb a 0xef ≡ false)
      × (leb 0xf0 a ≡ true)
      × (leb a 0xf4 ≡ true)
    → Continues b
    → second4 a b ≡ true
    → Continues c
    → Continues d
    → from_utf8 (a ∷ b ∷ c ∷ d ∷ rest)
      ≡ cons_char
          ((a - 0xf0) * 262144 + (b - 0x80) * 4096 + (c - 0x80) * 64 + (d - 0x80))
          (from_utf8 rest)
unfolding from_utf8
from_utf8-four a b c d rest h k s l m =
    rw (h.0, h.1, h.2, h.3, h.4, h.5, h.6, k.0, k.1, s, l.0, l.1, m.0, m.1)

cont-Continues : (c : ℕ) → Continues (cont c)
cont-Continues c = (ground arith, ground arith)

second3-encode :
    (c : ℕ)
    → 0x800 ≤ c
    → c < 0x10000
    → IsScalar c
    → second3 (0xe0 + c / 4096) (cont (c / 64)) ≡ true
second3-encode c h k (inl s) = ground arith
second3-encode c h k (inr s) = ground arith

encode-three :
    (c : ℕ) (rest : List ℕ)
    → 0x800 ≤ c
    → c < 0x10000
    → IsScalar c
    → from_utf8 ((0xe0 + c / 4096) ∷ cont (c / 64) ∷ cont c ∷ rest) ≡ cons_char c (from_utf8 rest)
encode-three c rest h k s =
    from_utf8-three (0xe0 + c / 4096) (cont (c / 64)) (cont c) rest
      (ground arith, ground arith, ground arith, ground arith, ground arith)
      (cont-Continues (c / 64)) (second3-encode c h k s) (cont-Continues c)
    ∙ ap (λ x. cons_char x (from_utf8 rest)) (omega arith)

encode-four :
    (c : ℕ) (rest : List ℕ)
    → 0x10000 ≤ c
    → IsScalar c
    → from_utf8 ((0xf0 + c / 262144) ∷ cont (c / 4096) ∷ cont (c / 64) ∷ cont c ∷ rest)
      ≡ cons_char c (from_utf8 rest)
encode-four c rest h (inl k) = absurd (omega arith)
encode-four c rest h (inr k) =
    from_utf8-four (0xf0 + c / 262144) (cont (c / 4096)) (cont (c / 64)) (cont c) rest
      (
        ground arith,
        ground arith,
        ground arith,
        ground arith,
        ground arith,
        ground arith,
        ground arith,
      )
      (cont-Continues (c / 4096)) (ground arith) (cont-Continues (c / 64)) (cont-Continues c)
    ∙ ap (λ x. cons_char x (from_utf8 rest)) (omega arith)

from_utf8-encode_char :
    (c : ℕ) (rest : List ℕ)
    → IsScalar c
    → from_utf8 (encode_char c ++ rest) ≡ cons_char c (from_utf8 rest)
unfolding encode_char
from_utf8-encode_char c rest s = elim (Bool-cases (ltb c 0x80)) [
  | inl one ↦ rw one (from_utf8-one c rest (ground arith))
  | inr more ↦ elim (Bool-cases (ltb c 0x800)) [
    | inl two ↦
        rw (more, two)
          (from_utf8-two (0xc0 + c / 64) (cont c) rest (ground arith) (ground arith) (ground arith)
            ∙ ap (λ x. cons_char x (from_utf8 rest)) (ground arith))
    | inr more' ↦ elim (Bool-cases (ltb c 0x10000)) [
      | inl three ↦ rw (more, more', three) (encode-three c rest (ground arith) (ground arith) s)
      | inr four ↦ rw (more, more', four) (encode-four c rest (ground arith) s)
    ]
  ]
]

-- What a text was encoded to is read as that text.
pub from_utf8-to_utf8 : (s : Text) → All IsScalar s → from_utf8 (to_utf8 s) ≡ some s
unfolding to_utf8
from_utf8-to_utf8 [] h = unfold from_utf8 in refl
from_utf8-to_utf8 (c ∷ s) h =
    from_utf8-encode_char c (to_utf8 s) h.0 ∙ ap (cons_char c) (from_utf8-to_utf8 s h.1)

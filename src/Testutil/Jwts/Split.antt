-- ===== src/Testutil/Jwts/Split.antt =====
-- internal/testutil/tokens.go: splitDot cuts an ASCII text where strings.Split does.
use signet_ps.Base.{
  ◌==◌, if◌then◌else◌, Bool-cases, Text, ℕ, ◌<◌, ◌≡◌, refl, ap, ◌∙◌, inl, inr, true, some, List, [],
  ◌∷◌, ◌++◌, append-nil, append_assoc, arith,
}
use signet_ps.Std.Strings.{cons_head, split, is_ascii}
use signet_ps.Testutil.Jwts.{
  split_dot, split_loop, finish_cut, push_bytes, step_rune, rune_tail, tail_of,
}

-- what is being read goes before the first segment
abbrev before_first : Text → List Text → List Text
before_first cur [] = cur ∷ []
before_first cur (w ∷ ws) = (cur ++ w) ∷ ws

before_first-cons_head :
    (cur : Text) (a : ℕ) (ws : List Text)
    → before_first (cur ++ a ∷ []) ws ≡ before_first cur (cons_head a ws)
before_first-cons_head cur a [] = refl
before_first-cons_head cur a (w ∷ ws) = ap (λ t. t ∷ ws) (append_assoc cur (a ∷ []) w)

split_first : (s : Text) → before_first [] (split b'.' s) ≡ split b'.' s
unfolding split
split_first [] = refl
split_first (a ∷ s) = elim (Bool-cases (a == b'.')) [
  | inl e ↦ rw e refl
  | inr e ↦ rw e (cons_head_first a (split b'.' s))
]
  where
    cons_head_first : (a : ℕ) (ws : List Text) → before_first [] (cons_head a ws) ≡ cons_head a ws
    cons_head_first a [] = refl
    cons_head_first a (w ∷ ws) = refl

rune_tail_ascii : (a : ℕ) (s : Text) → a < 128 → rune_tail a s ≡ some 0
unfolding rune_tail
rune_tail_ascii a s h = ground arith

loop_ascii :
    (a : ℕ) (s : Text) (out : List Text) (cur : Text)
    → a < 128
    → split_loop 0 (a ∷ s) (out, cur)
      ≡ split_loop 0 s (if a == b'.' then (out ++ cur ∷ [], []) else (out, cur ++ a ∷ []))
unfolding split_loop step_rune tail_of push_bytes
loop_ascii a s out cur h =
    ap (λ r. split_loop (tail_of r) s (step_rune a r (out, cur))) (rune_tail_ascii a s h)

loop-split :
    (s : Text) (out : List Text) (cur : Text)
    → is_ascii s ≡ true
    → finish_cut (split_loop 0 s (out, cur)) ≡ out ++ before_first cur (split b'.' s)
unfolding is_ascii split split_loop finish_cut
loop-split [] out cur h = rw (append-nil cur) refl
loop-split (a ∷ s) out cur h =
    ap finish_cut (loop_ascii a s out cur (ground arith)) ∙ elim (Bool-cases (a == b'.')) [
      | inl e ↦
          rw (e, loop-split s (out ++ cur ∷ []) [] (ground arith), split_first s, append-nil cur)
            (append_assoc out (cur ∷ []) (split b'.' s))
      | inr e ↦
          rw (e, loop-split s out (cur ++ a ∷ []) (ground arith))
            (ap (λ t. out ++ t) (before_first-cons_head cur a (split b'.' s)))
    ]

pub split_dot-eq-split : (s : Text) → is_ascii s ≡ true → split_dot s ≡ split b'.' s
unfolding split_dot
split_dot-eq-split s h = loop-split s [] [] h ∙ split_first s

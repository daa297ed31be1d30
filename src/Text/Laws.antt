-- ===== src/Text/Laws.antt =====
-- Laws of the operations on texts.
use tiny_s3_proxy.Prelude.{
  ℕ, Option-cases, Bool-cases, inl, inr, ◌==◌, ◌≡◌, refl, ◌↔◌, true, [], ◌∷◌, arith, some, ◌++◌,
}
use tiny_s3_proxy.Text.{Bytes, bytes_eq, strip_prefix, split_once}

pub bytes_eq_iff : (s t : Bytes) → (bytes_eq s t ≡ true) ↔ (s ≡ t)
unfolding bytes_eq
bytes_eq_iff [] [] = ground arith
bytes_eq_iff [] (b ∷ t) = ground arith
bytes_eq_iff (a ∷ s) [] = ground arith
bytes_eq_iff (a ∷ s) (b ∷ t) = ground (arith, bytes_eq_iff s t)

pub bytes_eq_refl : (s : Bytes) → bytes_eq s s ≡ true
bytes_eq_refl s = (bytes_eq_iff s s).1 refl

pub strip_prefix-append : (p s : Bytes) → strip_prefix (p ++ s) p ≡ some s
unfolding strip_prefix
strip_prefix-append [] s = refl
strip_prefix-append (c ∷ p) s = ground (arith, strip_prefix-append p s)

pub split_once-some : (c : ℕ) (s l r : Bytes) → split_once c s ≡ some (l, r) → s ≡ l ++ c ∷ r
unfolding split_once
split_once-some c [] l r h = cc
split_once-some c (b ∷ s) l r h = elim (Option-cases (split_once c s)) [
  | inl e ↦ ground (arith, e, h)
  | inr ((l', r'), e) ↦ ground (arith, e, h, split_once-some c s l' r' e)
]

pub strip_prefix-some : (s p rest : Bytes) → strip_prefix s p ≡ some rest → s ≡ p ++ rest
unfolding strip_prefix
strip_prefix-some s [] rest h = ground (arith, h)
strip_prefix-some [] (c ∷ p) rest h = cc
strip_prefix-some (b ∷ s) (c ∷ p) rest h = elim (Bool-cases (b == c)) [
  | inl e ↦ ground (arith, e, h, strip_prefix-some s p rest)
  | inr e ↦ absurd (ground (arith, e, h))
]

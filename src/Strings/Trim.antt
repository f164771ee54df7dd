-- ===== src/Strings/Trim.antt =====
-- `trim_space` leaves a text that it has trimmed.
use go_api_boot.Base.{ℕ, Str, [], ◌∷◌, ◌≡◌, refl, ap, ◌∙◌, arith, Bool-cases, inl, inr}
use go_api_boot.Strings.{is_space, trim_left, push_right, trim_right, trim_space}

push_right_idem :
    (c : ℕ) (s : Str) → trim_right s ≡ s → trim_right (push_right c s) ≡ push_right c s
unfolding trim_right push_right
push_right_idem c [] h = ground arith
push_right_idem c (d ∷ s) h = rw h

pub trim_right_idem : (s : Str) → trim_right (trim_right s) ≡ trim_right s
unfolding trim_right
trim_right_idem [] = refl
trim_right_idem (c ∷ s) = push_right_idem c (trim_right s) (trim_right_idem s)

-- The rest of a text whose right end is trimmed is such a text.
pub push_right_tail : (c : ℕ) (t s : Str) → push_right c t ≡ c ∷ s → t ≡ s
unfolding push_right
push_right_tail c [] s h = ground arith
push_right_tail c (d ∷ t) s h = ground arith

pub trim_right-trim_left : (s : Str) → trim_right s ≡ s → trim_right (trim_left s) ≡ trim_left s
unfolding trim_left
trim_right-trim_left [] h = h
trim_right-trim_left (c ∷ s) h = elim (Bool-cases (is_space c)) [
  | inl e ↦
      rw e (trim_right-trim_left s (unfold trim_right in push_right_tail c (trim_right s) s h))
  | inr e ↦ rw e h
]

trim_left_idem : (s : Str) → trim_left (trim_left s) ≡ trim_left s
unfolding trim_left
trim_left_idem [] = refl
trim_left_idem (c ∷ s) = elim (Bool-cases (is_space c)) [
  | inl e ↦ rw e (trim_left_idem s)
  | inr e ↦ rw e (rw e)
]

-- Trimming a trimmed text changes nothing.
pub trim_space_idem : (s : Str) → trim_space (trim_space s) ≡ trim_space s
unfolding trim_space
trim_space_idem s =
    ap trim_left (trim_right-trim_left (trim_right s) (trim_right_idem s))
    ∙ trim_left_idem (trim_right s)

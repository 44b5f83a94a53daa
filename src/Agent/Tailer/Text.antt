-- ===== src/Agent/Tailer/Text.antt =====
-- Texts of bytes, their lines and what is sent of them.
use infra_red.Prelude.{
  ℕ, ◌≡◌, refl, sym, ap, ◌∙◌, List, [], ◌∷◌, ◌++◌, ◌==◌, length, Bool-cases, inl, inr,
}
use infra_red.Agent.Tailer.{drop, grow_line, lines}

abbrev pub flat : List (List ℕ) → List ℕ
flat [] = []
flat (l ∷ ls) = l ++ flat ls

-- the bytes that were sent
abbrev pub text : List (ℕ × List ℕ) → List ℕ
text [] = []
text ((o, l) ∷ xs) = l ++ text xs

pub append_assoc : (a b c : List ℕ) → (a ++ b) ++ c ≡ a ++ (b ++ c)
append_assoc [] b c = refl
append_assoc (x ∷ a) b c = ap (◌∷◌ x) (append_assoc a b c)

pub append-nil : (a : List ℕ) → a ++ [] ≡ a
append-nil [] = refl
append-nil (x ∷ a) = ap (◌∷◌ x) (append-nil a)

text-append : (xs ys : List (ℕ × List ℕ)) → text (xs ++ ys) ≡ text xs ++ text ys
text-append [] ys = refl
text-append ((o, l) ∷ xs) ys =
    ap (λ (r : List ℕ). l ++ r) (text-append xs ys) ∙ sym (append_assoc l (text xs) (text ys))

flat-grow_line : (c : ℕ) (ls : List (List ℕ)) → flat (grow_line c ls) ≡ c ∷ flat ls
flat-grow_line c [] = refl
flat-grow_line c (l ∷ ls) = refl

-- the lines are the text
pub flat-lines : (s : List ℕ) → flat (lines s) ≡ s
unfolding lines
flat-lines [] = refl
flat-lines (c ∷ s) = elim (Bool-cases (c == 10)) [
  | inl e ↦ rw e (ap (◌∷◌ c) (flat-lines s))
  | inr e ↦ rw e (flat-grow_line c (lines s) ∙ ap (◌∷◌ c) (flat-lines s))
]

pub drop-append : (a b : List ℕ) → drop (length a) (a ++ b) ≡ b
drop-append [] b = refl
drop-append (x ∷ a) b = drop-append a b

pub text-next :
    (xs : List (ℕ × List ℕ)) (o : ℕ) (l : List ℕ) → text (xs ++ (o, l) ∷ []) ≡ text xs ++ l
text-next xs o l = text-append xs ((o, l) ∷ []) ∙ ap (λ (r : List ℕ). text xs ++ r) (append-nil l)

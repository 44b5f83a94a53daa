-- ===== src/Tests/Tailer.antt =====
-- Runs of agent/infrared_agent/tailer.py.
use infra_red.Prelude.{ℕ, ◌≡◌, refl, Bool, true, false, List, [], ◌∷◌}
use infra_red.Agent.Tailer.{lines}

-- two lines, the second one without its end
two_lines : lines (b'a' ∷ 10 ∷ b'b' ∷ []) ≡ (b'a' ∷ 10 ∷ []) ∷ (b'b' ∷ []) ∷ []
unfolding lines
two_lines = refl

abbrev refuses : ℕ → List ℕ → Bool
refuses offset line = false

abbrev takes : ℕ → List ℕ → Bool
takes offset line = true

abbrev history : List (List ℕ × (ℕ → List ℕ → Bool))
history = (b'a' ∷ 10 ∷ [], takes) ∷ (b'b' ∷ 10 ∷ [], refuses) ∷ []

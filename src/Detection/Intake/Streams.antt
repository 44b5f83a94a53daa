-- ===== src/Detection/Intake/Streams.antt =====
-- What the loop of the detection worker hands on.
use infra_red.Prelude.{
  ℕ, ◌+◌, ◌≡◌, refl, sym, ap, ◌∙◌, String, true, Option, none, some, List, [], ◌∷◌, ◌++◌, length,
  length-append, subst, arith,
}
use infra_red.Redis.{Redis}
use infra_red.Redis.Sorted.{Sorted}
use infra_red.Detection.Web.{WebSignal}
use infra_red.Detection.Intake.Process.{
  Found, Env, Parts, Board, Outcome, processed, demo_of, dispatch, handle_demo_signal, turn,
}

-- a signal is kept if it is no demonstration
abbrev keep : Option WebSignal → Found → List Found → List Found
keep none s rest = s ∷ rest
keep (some w) s rest = rest

abbrev shown : Option WebSignal → ℕ
shown none = 0
shown (some w) = 1

-- the signals that are no demonstration, in their order, and the number of the others
abbrev pub threats : List Found → List Found
threats [] = []
threats (s ∷ ss) = keep (demo_of s) s (threats ss)

abbrev pub demos : List Found → ℕ
demos [] = 0
demos (s ∷ ss) = shown (demo_of s) + demos ss

append_assoc : (xs ys zs : List Found) → (xs ++ ys) ++ zs ≡ xs ++ (ys ++ zs)
append_assoc [] ys zs = refl
append_assoc (x ∷ xs) ys zs = ap (◌∷◌ x) (append_assoc xs ys zs)

append-nil : (xs : List Found) → xs ++ [] ≡ xs
append-nil [] = refl
append-nil (x ∷ xs) = ap (◌∷◌ x) (append-nil xs)

module _ {R : Redis String} (Z : Sorted R) (p : Parts) (env : Env) where
  -- what a dispatch leaves on the board
  abbrev pub HandsOn : List Found → ℕ → Board R → Board R × Outcome → Type 0
  HandsOn ss n b r =
      (r.1 ≡ processed)
      × (r.0.matched ≡ b.matched ++ ss)
      × (r.0.signals ≡ b.signals ++ ss)
      × (length r.0.demo_signals ≡ length b.demo_signals + n)
      × (r.0.events ≡ b.events)

  turn_lem :
      (o : Option WebSignal) (s : Found) (b : Board R)
      → env.saves_signal s ≡ true
      → (b' : Board R) × (turn Z p env o s b ≡ some b')
        × ((ss : List Found) (n : ℕ) (r : Board R × Outcome)
            → HandsOn ss n b' r
            → HandsOn (keep o s ss) (shown o + n) b r)
  unfolding turn handle_demo_signal
  turn_lem none s b taken = (
    record b { signals = b.signals ++ s ∷ []; matched = b.matched ++ s ∷ [] },
    rw taken refl,
    λ ss n r h. (
      h.0,
      h.1 ∙ append_assoc b.matched (s ∷ []) ss,
      h.2 ∙ append_assoc b.signals (s ∷ []) ss,
      h.3 ∙ omega arith,
      h.4,
    ),
  )
  turn_lem (some w) s b taken = (
    handle_demo_signal Z p env.now w b,
    refl,
    λ ss n r h. (h.0, h.1, h.2, h.3 ∙ omega (arith, length-append b.demo_signals (_ ∷ [])), h.4),
  )

  resumed :
      (s : Found) (ss : List Found) (b b' : Board R)
      → turn Z p env (demo_of s) s b ≡ some b'
      → dispatch Z p env (s ∷ ss) b ≡ dispatch Z p env ss b'
  unfolding dispatch
  resumed s ss b b' e = rw (dispatch, e) refl

  -- Where the database takes every signal: all that are no demonstration are saved and go to the stream of
  -- matched signals, in their order, and no other; each of a demonstration leaves one demo signal, also if
  -- its address was seen before.
  pub dispatch_lem :
      (ss : List Found) (b : Board R)
      → ((s : Found) → env.saves_signal s ≡ true)
      → HandsOn (threats ss) (demos ss) b (dispatch Z p env ss b)
  unfolding dispatch
  dispatch_lem [] b taken =
      (refl, sym (append-nil b.matched), sym (append-nil b.signals), omega arith, refl)
  dispatch_lem (s ∷ ss) b taken =
      let (b', e, more) = turn_lem (demo_of s) s b (taken s) in
      subst (HandsOn (threats (s ∷ ss)) (demos (s ∷ ss)) b) (sym (resumed s ss b b' e))
        (more (threats ss) (demos ss) (dispatch Z p env ss b') (dispatch_lem ss b' taken))

-- ===== src/Shared/StateMachine.antt =====
-- packages/shared/src/common/state-machine.ts: transition maps, over any type of states.
use gachinol.Prelude.{◌≡◌, Bool, true, false, ◌&&◌, List, [], ◌∷◌, Eq, includes, arith}

-- `map[from]`; the source's `?? []` is for a key that the map lacks, which a total function rules out.
abbrev pub TransitionMap {ℓ} : Type ℓ → Type ℓ
TransitionMap S = S → List S

abbrev is_empty {ℓ} : {A : Type ℓ} → List A → Bool
is_empty [] = true
is_empty (x ∷ xs) = false

module _ {ℓ} {S : Type ℓ} where
  abbrev pub next_states : TransitionMap S → S → List S
  next_states map from = map from

  abbrev pub is_terminal_state : TransitionMap S → S → Bool
  is_terminal_state map s = is_empty (next_states map s)

module _ {ℓ} {S : Type ℓ} ⦃e : Eq S⦄ where
  abbrev pub can_transition : TransitionMap S → S → S → Bool
  can_transition map from to = includes (map from) to

  -- `t` is reached from `s` along edges of the map.
  pub data Reaches (map : TransitionMap S) (s : S) : S → Type ℓ where
    here : Reaches map s s
    next : {t u : S} → Reaches map s t → can_transition map t u ≡ true → Reaches map s u

  -- Is each state of the route an allowed next state of the one before?
  abbrev pub walks : TransitionMap S → S → List S → Bool
  walks map s [] = true
  walks map s (t ∷ route) = can_transition map s t && walks map t route

  abbrev pub last_or : S → List S → S
  last_or s [] = s
  last_or s (t ∷ route) = last_or t route

  pub Reaches-walk :
      (map : TransitionMap S) (s t : S) (route : List S)
      → Reaches map s t
      → walks map t route ≡ true
      → Reaches map s (last_or t route)
  Reaches-walk map s t [] r h = r
  Reaches-walk map s t (u ∷ route) r h =
      Reaches-walk map s u route (next r (ground arith)) (ground arith)

  pub Reaches-route :
      (map : TransitionMap S) (s : S) (route : List S)
      → walks map s route ≡ true
      → Reaches map s (last_or s route)
  Reaches-route map s route h = Reaches-walk map s s route here h

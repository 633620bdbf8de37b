-- ===== src/Auth/Action/Spellings.antt =====
-- The spellings of an action that canonicalAction of src/auth/Action.h takes for it.
use moqx.Base.{
  ℕ, zero, suc, ◌+◌, ◌≤◌, ◌≡◌, refl, ap, ◌∙◌, ◌⊎◌, inl, inr, [], ◌∷◌, some, ℕ_Eq, List_Eq, Bytes,
  arith,
}
use moqx.Auth.Grants.{Action}
use moqx.Auth.Action.{
  action_name, to_lower, dash_to_underscore, normalize, action_of, canonical_action,
}

-- The first byte is the second, its upper case, or a dash for an underscore.
abbrev pub SameLetter : ℕ → ℕ → Type 0
SameLetter c d = (c ≡ d) ⊎ ((65 ≤ c) × (c ≤ 90) × (c + 32 ≡ d)) ⊎ ((c ≡ 45) × (d ≡ 95))

abbrev pub Spells : Bytes → Bytes → Type 0
Spells [] [] = Unit {0}
Spells [] (d ∷ ds) = ⊥
Spells (c ∷ cs) [] = ⊥
Spells (c ∷ cs) (d ∷ ds) = SameLetter c d × Spells cs ds

normalize_letter :
    (c d : ℕ) → SameLetter c d → to_lower (dash_to_underscore c) ≡ to_lower (dash_to_underscore d)
unfolding to_lower dash_to_underscore
normalize_letter c d (inl same) = ap (λ x. to_lower (dash_to_underscore x)) same
normalize_letter c d (inr (inl (low, high, up))) = ground arith
normalize_letter c d (inr (inr (dash, underscore))) = rw (dash, underscore) refl

normalize-Spells : (cs ds : Bytes) → Spells cs ds → normalize cs ≡ normalize ds
unfolding normalize
normalize-Spells [] [] same = refl
normalize-Spells [] (d ∷ ds) same = elim same [ ]
normalize-Spells (c ∷ cs) [] same = elim same [ ]
normalize-Spells (c ∷ cs) (d ∷ ds) (letter, same) =
    rw (normalize_letter c d letter, normalize-Spells cs ds same) refl

action_of-action_name :
    (action : Action) → action ≤ 8 → action_of (normalize (action_name action)) ≡ some action
unfolding action_of normalize action_name
action_of-action_name zero small = refl
action_of-action_name (suc zero) small = refl
action_of-action_name (suc (suc zero)) small = refl
action_of-action_name (suc (suc (suc zero))) small = refl
action_of-action_name (suc (suc (suc (suc zero)))) small = refl
action_of-action_name (suc (suc (suc (suc (suc zero))))) small = refl
action_of-action_name (suc (suc (suc (suc (suc (suc zero)))))) small = refl
action_of-action_name (suc (suc (suc (suc (suc (suc (suc zero))))))) small = refl
action_of-action_name (suc (suc (suc (suc (suc (suc (suc (suc zero)))))))) small = refl
action_of-action_name (suc (suc (suc (suc (suc (suc (suc (suc (suc n))))))))) small =
    let too_large : ⊥ = omega arith in elim too_large [ ]

module _ (trim_whitespace : Bytes → Bytes) where
  -- A name that, without the white space around it, spells the name of an action with upper case
  -- letters or dashes for underscores is taken for that action.
  pub canonical_action-Spells :
      (action : Action) (name : Bytes)
      → action ≤ 8
      → Spells (trim_whitespace name) (action_name action)
      → canonical_action trim_whitespace name ≡ some action
  unfolding canonical_action
  canonical_action-Spells action name small spells =
      ap action_of (normalize-Spells (trim_whitespace name) (action_name action) spells)
      ∙ action_of-action_name action small

-- ===== src/Auth/Action/Examples.antt =====
-- Names of actions for src/auth/Action.h, with a concrete trimWhitespace.
use moqx.Base.{ℕ, ◌≡◌, refl, [], ◌∷◌, some, none, Bool, ◌||◌, nat_eq, if◌then◌else◌, Bytes, arith}
use moqx.Auth.Action.{canonical_action, action_name}
use moqx.Auth.Action.Spellings.{canonical_action-Spells}

is_space : ℕ → Bool
is_space c = nat_eq c 32 || nat_eq c 9 || nat_eq c 10 || nat_eq c 13

trim_left : Bytes → Bytes
unfolding is_space
trim_left [] = []
trim_left (c ∷ cs) = let rest = trim_left cs in if is_space c then rest else c ∷ cs

trim_right : Bytes → Bytes
unfolding is_space
trim_right [] = []
trim_right (c ∷ cs) = last_kept c (trim_right cs)
  where
    last_kept : ℕ → Bytes → Bytes
    last_kept c [] = if is_space c then [] else c ∷ []
    last_kept c (d ∷ ds) = c ∷ d ∷ ds

trim : Bytes → Bytes
unfolding trim_left trim_right
trim name = trim_right (trim_left name)

-- " Track-STATUS", with a line feed behind it
abbrev status_text : Bytes
status_text = 32 ∷ 84 ∷ 114 ∷ 97 ∷ 99 ∷ 107 ∷ 45 ∷ 83 ∷ 84 ∷ 65 ∷ 84 ∷ 85 ∷ 83 ∷ 10 ∷ []

canonical_action-Spells_example : canonical_action trim status_text ≡ some 8
unfolding trim action_name
canonical_action-Spells_example =
    canonical_action-Spells trim 8 status_text (omega arith) (ground arith)

-- "announce" and "9"
announce_action : canonical_action trim (97 ∷ 110 ∷ 110 ∷ 111 ∷ 117 ∷ 110 ∷ 99 ∷ 101 ∷ []) ≡ some 2
unfolding canonical_action trim
announce_action = refl

no_action : canonical_action trim (57 ∷ []) ≡ none
unfolding canonical_action trim
no_action = refl

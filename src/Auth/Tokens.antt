-- ===== src/Auth/Tokens.antt =====
-- The tokens of src/auth/Auth.cpp: what the code takes from catapult, OpenSSL and std::chrono is the
-- record `Library`, and grantsFromToken reads its tokens.
use moqx.Base.{ℕ, List, [], ◌∷◌, map, Option, none, some, Bool, if◌then◌else◌, Bytes}
use moqx.Auth.Cbor.{ℤ, pos, negsuc}
use moqx.Auth.Grants.{Action, MatchRuleType, MatchRule, Scope, Grants}

-- catapult's tokens, as far as the code reads them. `unrecognized` is an enumerator that the
-- switch does not name.
pub data BinaryMatchType : Type 0 where
  exact prefix suffix contains unrecognized : BinaryMatchType

pub record CompoundMatch : Type 0 where
  pub is_empty : Bool
  pub conditions : List (BinaryMatchType × Bytes)

pub record CatScope : Type 0 where
  pub actions : List ℤ
  pub namespace_match : CompoundMatch
  pub track_match : CompoundMatch

pub record CatToken : Type 0 where
  pub exp : Option ℤ
  pub moqt_scopes : Option (List CatScope)

-- What validateCwt does: returns, or throws one of two classes.
pub data CwtResult : Type 0 where
  payload : CatToken → CwtResult
  crypto_error cat_error : CwtResult

pub record Library (Time : Type 0) : Type 0 where
  pub before_eq : Time → Time → Bool
  pub max_time : Time
  pub from_seconds : ℤ → Time
  -- none is a thrown CatError
  pub decode_header : Bytes → Option (Option Bytes)
  pub validate_cwt : Bytes → Bytes → CwtResult
  pub derive_hmac_key : Bytes → Bytes
  pub claim_exp : ℤ
  pub claim_moqt : ℤ

pub record AuthToken : Type 0 where
  pub token_type : ℕ
  pub token_value : Bytes

pub record Parameter : Type 0 where
  pub key : ℕ
  pub as_auth_token : AuthToken

from_catapult_match_type : BinaryMatchType → MatchRuleType
from_catapult_match_type exact = MatchRuleType.exact
from_catapult_match_type prefix = MatchRuleType.prefix
from_catapult_match_type suffix = MatchRuleType.suffix
from_catapult_match_type contains = MatchRuleType.contains_bytes
from_catapult_match_type unrecognized = MatchRuleType.exact

from_catapult_match : CompoundMatch → List MatchRule
unfolding from_catapult_match_type
from_catapult_match m =
    if m.is_empty
    then []
    else map (λ cond. record { type = from_catapult_match_type cond.0; value = cond.1 })
        m.conditions

-- Negative actions are left out.
token_actions : List ℤ → List Action
token_actions [] = []
token_actions (pos a ∷ rest) = a ∷ token_actions rest
token_actions (negsuc a ∷ rest) = token_actions rest

scope_from_token : CatScope → Scope
unfolding token_actions from_catapult_match
scope_from_token s = record {
  actions = token_actions s.actions;
  namespace_matches = from_catapult_match s.namespace_match;
  track_matches = from_catapult_match s.track_match;
}

module _ {Time : Type 0} (lib : Library Time) where
  unfoldable pub grants_from_token : CatToken → Grants Time
  unfolding scope_from_token
  grants_from_token token = record {
    expires_at = elim token.exp [ none ↦ lib.max_time | some e ↦ lib.from_seconds e ];
    scopes = elim token.moqt_scopes [ none ↦ [] | some scopes ↦ map scope_from_token scopes ];
  }

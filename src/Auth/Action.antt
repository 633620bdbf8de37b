-- ===== src/Auth/Action.antt =====
-- The names of actions in src/auth/Action.h. A string is its bytes, and std::tolower is that of the
-- "C" locale; folly::trimWhitespace is a parameter.
pub mod Spellings
pub mod Examples
use moqx.Base.{
  ℕ, ◌+◌, List, [], ◌∷◌, map, Option, none, some, Bool, true, false, ◌&&◌, ◌||◌, if◌then◌else◌, leb,
  nat_eq, ◌==◌, ℕ_Eq, List_Eq, Bytes, any,
}
use moqx.Auth.Grants.{Action}

-- The strings of actionName and the aliases of canonicalAction.
abbrev client_setup_text : Bytes
client_setup_text = 99 ∷ 108 ∷ 105 ∷ 101 ∷ 110 ∷ 116 ∷ 95 ∷ 115 ∷ 101 ∷ 116 ∷ 117 ∷ 112 ∷ []

abbrev server_setup_text : Bytes
server_setup_text = 115 ∷ 101 ∷ 114 ∷ 118 ∷ 101 ∷ 114 ∷ 95 ∷ 115 ∷ 101 ∷ 116 ∷ 117 ∷ 112 ∷ []

abbrev publish_namespace_text : Bytes
publish_namespace_text =
    112 ∷ 117 ∷ 98 ∷ 108 ∷ 105 ∷ 115 ∷ 104 ∷ 95 ∷ 110 ∷ 97 ∷ 109 ∷ 101 ∷ 115 ∷ 112 ∷ 97 ∷ 99 ∷ 101
    ∷ []

abbrev subscribe_namespace_text : Bytes
subscribe_namespace_text =
    115 ∷ 117 ∷ 98 ∷ 115 ∷ 99 ∷ 114 ∷ 105 ∷ 98 ∷ 101 ∷ 95 ∷ 110 ∷ 97 ∷ 109 ∷ 101 ∷ 115 ∷ 112 ∷ 97
    ∷ 99 ∷ 101 ∷ []

abbrev subscribe_text : Bytes
subscribe_text = 115 ∷ 117 ∷ 98 ∷ 115 ∷ 99 ∷ 114 ∷ 105 ∷ 98 ∷ 101 ∷ []

abbrev request_update_text : Bytes
request_update_text =
    114 ∷ 101 ∷ 113 ∷ 117 ∷ 101 ∷ 115 ∷ 116 ∷ 95 ∷ 117 ∷ 112 ∷ 100 ∷ 97 ∷ 116 ∷ 101 ∷ []

abbrev publish_text : Bytes
publish_text = 112 ∷ 117 ∷ 98 ∷ 108 ∷ 105 ∷ 115 ∷ 104 ∷ []

abbrev fetch_text : Bytes
fetch_text = 102 ∷ 101 ∷ 116 ∷ 99 ∷ 104 ∷ []

abbrev track_status_text : Bytes
track_status_text = 116 ∷ 114 ∷ 97 ∷ 99 ∷ 107 ∷ 95 ∷ 115 ∷ 116 ∷ 97 ∷ 116 ∷ 117 ∷ 115 ∷ []

abbrev setup_text : Bytes
setup_text = 115 ∷ 101 ∷ 116 ∷ 117 ∷ 112 ∷ []

abbrev announce_text : Bytes
announce_text = 97 ∷ 110 ∷ 110 ∷ 111 ∷ 117 ∷ 110 ∷ 99 ∷ 101 ∷ []

abbrev subscribe_update_text : Bytes
subscribe_update_text =
    115 ∷ 117 ∷ 98 ∷ 115 ∷ 99 ∷ 114 ∷ 105 ∷ 98 ∷ 101 ∷ 95 ∷ 117 ∷ 112 ∷ 100 ∷ 97 ∷ 116 ∷ 101 ∷ []

abbrev unknown_text : Bytes
unknown_text = 117 ∷ 110 ∷ 107 ∷ 110 ∷ 111 ∷ 119 ∷ 110 ∷ []

pub action_name : Action → Bytes
action_name action =
    if nat_eq action 0
    then client_setup_text
    else if nat_eq action 1
    then server_setup_text
    else if nat_eq action 2
    then publish_namespace_text
    else if nat_eq action 3
    then subscribe_namespace_text
    else if nat_eq action 4
    then subscribe_text
    else if nat_eq action 5
    then request_update_text
    else if nat_eq action 6
    then publish_text
    else if nat_eq action 7
    then fetch_text
    else if nat_eq action 8
    then track_status_text
    else unknown_text

to_lower : ℕ → ℕ
to_lower c = if leb 65 c && leb c 90 then c + 32 else c

dash_to_underscore : ℕ → ℕ
dash_to_underscore c = if nat_eq c 45 then 95 else c

pub normalize : Bytes → Bytes
unfolding to_lower dash_to_underscore
normalize name = map to_lower (map dash_to_underscore name)

-- The tests of canonicalAction, in their order.
pub action_of : Bytes → Option Action
action_of normalized =
    if normalized == client_setup_text || normalized == setup_text || normalized == (48 ∷ [])
    then some 0
    else if normalized == server_setup_text || normalized == (49 ∷ [])
    then some 1
    else if normalized == publish_namespace_text
        || normalized == announce_text
        || normalized == (50 ∷ [])
    then some 2
    else if normalized == subscribe_namespace_text || normalized == (51 ∷ [])
    then some 3
    else if normalized == subscribe_text || normalized == (52 ∷ [])
    then some 4
    else if normalized == request_update_text
        || normalized == subscribe_update_text
        || normalized == (53 ∷ [])
    then some 5
    else if normalized == publish_text || normalized == (54 ∷ [])
    then some 6
    else if normalized == fetch_text || normalized == (55 ∷ [])
    then some 7
    else if normalized == track_status_text || normalized == (56 ∷ [])
    then some 8
    else none

module _ (trim_whitespace : Bytes → Bytes) where
  pub canonical_action : Bytes → Option Action
  unfolding action_of normalize
  canonical_action name = action_of (normalize (trim_whitespace name))

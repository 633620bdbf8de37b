-- ===== src/Stats/Window.antt =====
-- src/relay/RecentGroupWindow.h: a most-recently-used window of group ids in an array.
pub mod Recency
use moqx.Base.{
  ℕ, zero, suc, ◌+◌, ◌-◌, List, [], ◌∷◌, ◌++◌, Option, none, some, Bool, true, false, if◌then◌else◌,
  ◌==◌, ℕ_Eq, min, take, drop, length,
}

-- kSize
abbrev pub size : ℕ
size = 3

-- `groups_` always has `size` entries, the first `count` of which are live.
pub record RecentGroupWindow : Type 0 where
  pub groups : List ℕ
  pub count : ℕ

pub new : RecentGroupWindow
new = record { groups = 0 ∷ 0 ∷ 0 ∷ []; count = 0 }

-- std::rotate(begin, begin + mid, begin + last)
rotate : ℕ → ℕ → List ℕ → List ℕ
rotate mid last xs = drop mid (take last xs) ++ (take mid (take last xs) ++ drop last xs)

-- `groups_[0] = groupID`
set_first : ℕ → List ℕ → List ℕ
set_first g [] = []
set_first g (x ∷ xs) = g ∷ xs

group_at : List ℕ → ℕ → ℕ
group_at [] i = 0
group_at (x ∷ xs) zero = x
group_at (x ∷ xs) (suc i) = group_at xs i

-- The loop: rounds left, and the index i.
index_of : List ℕ → ℕ → ℕ → ℕ → Option ℕ
unfolding group_at
index_of xs zero i g = none
index_of xs (suc n) i g =
    let later = index_of xs n (i + 1) g in if group_at xs i == g then some i else later

pub admit : RecentGroupWindow → ℕ → RecentGroupWindow × Bool
unfolding rotate set_first index_of
admit w g = elim (index_of w.groups w.count 0 g) [
  | some i ↦ (record w { groups = rotate i (i + 1) w.groups }, false)
  | none ↦ (
    record {
      groups = set_first g (rotate (length w.groups - 1) (length w.groups) w.groups);
      count = min (w.count + 1) size;
    },
    true,
  )
]

-- ===== src/Stats/Window/Recency.antt =====
-- The window of src/relay/RecentGroupWindow.h against an unbounded recency list.
use moqx.Base.{
  ℕ, zero, suc, ◌≤◌, ◌≡◌, refl, ap, ◌∙◌, List, [], ◌∷◌, not, take, length, if◌then◌else◌, ◌==◌,
  ℕ_Eq, contains, arith,
}
use moqx.Stats.Window.{RecentGroupWindow, size, new, admit}

-- The live groups, most recent first.
abbrev pub live : RecentGroupWindow → List ℕ
live w = take w.count w.groups

pub record IsValid (w : RecentGroupWindow) : Type 0 where
  pub whole : length w.groups ≡ size
  pub fits : w.count ≤ size

-- The first entry of a group goes.
abbrev pub remove : ℕ → List ℕ → List ℕ
remove g [] = []
remove g (x ∷ xs) = if x == g then xs else x ∷ remove g xs

-- Move to the front.
abbrev pub touch : ℕ → List ℕ → List ℕ
touch g xs = g ∷ remove g xs

abbrev pub Step : RecentGroupWindow → ℕ → Type 0
Step w g =
    (live (admit w g).0 ≡ take size (touch g (live w)))
    × ((admit w g).1 ≡ not (contains (live w) g))
    × IsValid (admit w g).0

pub new-IsValid : IsValid new × (live new ≡ [])
unfolding new
new-IsValid = (record { whole = refl; fits = omega arith }, refl)

admit_cases : (a b c n g : ℕ) → n ≤ 3 → Step (record { groups = a ∷ b ∷ c ∷ []; count = n }) g
unfolding admit
admit_cases a b c zero g h = ground arith
admit_cases a b c (suc zero) g h = ground arith
admit_cases a b c (suc (suc zero)) g h = ground arith
admit_cases a b c (suc (suc (suc zero))) g h = ground arith
admit_cases a b c (suc (suc (suc (suc n)))) g h = absurd (omega arith)

pub admit_lem : (w : RecentGroupWindow) (g : ℕ) → IsValid w → Step w g
admit_lem w g v = go w.groups w.count v.whole v.fits
  where
    go : (xs : List ℕ) (n : ℕ) → length xs ≡ 3 → n ≤ 3 → Step (record { groups = xs; count = n }) g
    go (a ∷ b ∷ c ∷ []) n e h = admit_cases a b c n g h
    go [] n e h = absurd (omega arith)
    go (a ∷ []) n e h = absurd (omega arith)
    go (a ∷ b ∷ []) n e h = absurd (omega arith)
    go (a ∷ b ∷ c ∷ d ∷ xs) n e h = absurd (omega arith)

-- Touch the groups of a list in turn, from a recency list.
abbrev pub recency : List ℕ → List ℕ → List ℕ
recency seen [] = seen
recency seen (g ∷ gs) = recency (touch g seen) gs

pub admit_all : RecentGroupWindow → List ℕ → RecentGroupWindow
admit_all w [] = w
admit_all w (g ∷ gs) = admit_all (admit w g).0 gs

take-take : (n : ℕ) (xs : List ℕ) → take n (take n xs) ≡ take n xs
take-take zero xs = refl
take-take (suc n) [] = refl
take-take (suc n) (x ∷ xs) = ap (◌∷◌ x) (take-take n xs)

take-remove-take :
    (n g : ℕ) (xs : List ℕ) → take n (remove g (take (suc n) xs)) ≡ take n (remove g xs)
take-remove-take zero g xs = refl
take-remove-take (suc n) g [] = refl
take-remove-take (suc n) g (x ∷ xs) = ground (arith, take-take (suc n) xs, take-remove-take n g xs)

-- One admission, for a window that holds the first groups of a recency list.
pub live-admit :
    (w : RecentGroupWindow) (seen : List ℕ) (g : ℕ)
    → IsValid w
    → live w ≡ take size seen
    → (live (admit w g).0 ≡ take size (touch g seen))
      × ((admit w g).1 ≡ not (contains (take size seen) g))
      × IsValid (admit w g).0
live-admit w seen g v e =
    let (l, b, v') = admit_lem w g v in
    (l ∙ rw e (ap (◌∷◌ g) (take-remove-take 2 g seen)), b ∙ ap (λ xs. not (contains xs g)) e, v')

live-admit_all :
    (w : RecentGroupWindow) (seen gs : List ℕ)
    → IsValid w
    → live w ≡ take size seen
    → (live (admit_all w gs) ≡ take size (recency seen gs)) × IsValid (admit_all w gs)
unfolding admit_all
live-admit_all w seen [] v e = (e, v)
live-admit_all w seen (g ∷ gs) v e =
    let (l, _, v') = live-admit w seen g v e in live-admit_all (admit w g).0 (touch g seen) gs v' l

-- After any list of groups, admit returns true exactly when the group is not among the first three
-- of their recency list, in which each group has moved to the front when it came.
pub admit-recency :
    (gs : List ℕ) (g : ℕ)
    → (admit (admit_all new gs) g).1 ≡ not (contains (take size (recency [] gs)) g)
admit-recency gs g =
    let (l, v) = live-admit_all new [] gs new-IsValid.0 new-IsValid.1 in
    (live-admit (admit_all new gs) (recency [] gs) g v l).1

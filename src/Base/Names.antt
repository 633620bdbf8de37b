-- ===== src/Base/Names.antt =====
-- moxygen's TrackNamespace and FullTrackName, as the code reads them, and the equality of names.
use Prim.Native.Nat.{ℕ}
use mathlib.Core.Bool.{Bool, true, ◌&&◌}
use mathlib.Core.List.{List}
use mathlib.Core.Logic.{◌↔◌}
use mathlib.Core.Path.{◌≡◌, subst}
use native.Mathlib.Omega.{arith}
use moqx.Base.Tests.{Eq, ◌==◌, ℕ_Eq, List_Eq, list_eq_iff, ==-self}

-- A std::string is its bytes.
abbrev pub Bytes : Type 0
Bytes = List ℕ

abbrev pub TrackNamespace : Type 0
TrackNamespace = List Bytes

pub record FullTrackName : Type 0 where
  pub track_namespace : TrackNamespace
  pub track_name : Bytes

abbrev pub name_eq : FullTrackName → FullTrackName → Bool
name_eq a b = a.track_namespace == b.track_namespace && a.track_name == b.track_name

name_eq_sound : (a b : FullTrackName) → name_eq a b ≡ true → a ≡ b
name_eq_sound a b h =
    ground (
      arith,
      list_eq_iff a.track_namespace b.track_namespace,
      list_eq_iff a.track_name b.track_name,
    )

name_eq_self : (a : FullTrackName) → name_eq a a ≡ true
name_eq_self a = ground (arith, ==-self a.track_namespace, ==-self a.track_name)

pub name_eq_iff : (a b : FullTrackName) → (name_eq a b ≡ true) ↔ (a ≡ b)
name_eq_iff a b = (name_eq_sound a b, λ e. subst (λ x. name_eq a x ≡ true) e (name_eq_self a))

instance abbrev pub FullTrackName_Eq : Eq FullTrackName
FullTrackName_Eq = record { is_equal = name_eq; is_equal_iff = name_eq_iff }

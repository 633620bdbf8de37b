-- ===== src/Rendezvous/Timeout.antt =====
-- takeRendezvousTimeout of src/PendingRendezvousTree.cpp. The version of a session and the parameters
-- of a request are moxygen's: what the code calls of them is an argument.
pub mod Examples
use moqx.Base.{
  ℕ, ◌+◌, ◌≤◌, ◌≡◌, refl, ap, ◌⊎◌, inl, inr, Option, none, some, Bool, true, false, ◌||◌,
  if◌then◌else◌, ltb, nat_eq, arith, Option-cases, Bool-cases, sym, ◌∙◌,
}

abbrev pub max_rendezvous_timeout : ℕ
max_rendezvous_timeout = 30000

-- std::min
smaller : ℕ → ℕ → ℕ
smaller a b = if ltb b a then b else a

-- `get_first_int_param` and `erase_all_params_of_type` are for the key RENDEZVOUS_TIMEOUT.
module _ {Session Params : Type 0} (get_negotiated_version : Session → Option ℕ)
    (get_draft_major_version : ℕ → ℕ) (get_first_int_param : Params → Option ℕ)
    (erase_all_params_of_type : Params → Params) where
  pub negotiated_version : Option Session → Option ℕ
  negotiated_version none = none
  negotiated_version (some session) = get_negotiated_version session

  clamped : Option ℕ → Option ℕ
  unfolding smaller
  clamped none = none
  clamped (some ms) = if nat_eq ms 0 then none else some (smaller ms max_rendezvous_timeout)

  take_at_version : Params → Option ℕ → Option ℕ × Params
  unfolding clamped
  take_at_version params none = (none, params)
  take_at_version params (some version) =
      if ltb (get_draft_major_version version) 18
      then (none, params)
      else (clamped (get_first_int_param params), erase_all_params_of_type params)

  pub take_rendezvous_timeout : Params → Option Session → Option ℕ × Params
  unfolding take_at_version negotiated_version
  take_rendezvous_timeout params session = take_at_version params (negotiated_version session)

  -- What is given for what is asked: as much, but at most the largest timeout.
  abbrev pub Bounded : Option ℕ → Option ℕ → Type 0
  Bounded asked given =
      (a : ℕ) × (ms : ℕ) × (asked ≡ some a)
      × (given ≡ some ms)
      × (1 ≤ ms)
      × (ms ≤ max_rendezvous_timeout)
      × (ms ≤ a)
      × ((ms ≡ a) ⊎ (ms ≡ max_rendezvous_timeout))

  abbrev pub AsksForNone : Option ℕ → Type 0
  AsksForNone asked = (asked ≡ none) ⊎ (asked ≡ some 0)

  -- The session has no version, or that of a draft below 18.
  abbrev pub Old : Option ℕ → Type 0
  Old version = (version ≡ none) ⊎ ((v : ℕ) × (version ≡ some v) × (get_draft_major_version v ≤ 17))

  abbrev pub Recent : Option ℕ → Type 0
  Recent version = (v : ℕ) × (version ≡ some v) × (18 ≤ get_draft_major_version v)

  -- What a call gives and leaves, for a request and a version.
  abbrev pub Answers : Params → Option ℕ → Option ℕ × Params → Type 0
  Answers params version answer =
      (Old version × (answer.0 ≡ none) × (answer.1 ≡ params))
      ⊎ (Recent version
          × (get_first_int_param answer.1 ≡ none)
          × (Bounded (get_first_int_param params) answer.0
              ⊎ (AsksForNone (get_first_int_param params) × (answer.0 ≡ none))))

  clamped_cases :
      (asked : Option ℕ)
      → Bounded asked (clamped asked) ⊎ (AsksForNone asked × (clamped asked ≡ none))
  unfolding clamped smaller
  clamped_cases none = inr (inl refl, refl)
  clamped_cases (some a) = elim (Bool-cases (nat_eq a 0)) [
    | inl zero_asked ↦ inr (inr (ap some (ground arith)), rw zero_asked refl)
    | inr asked ↦ inl (
      a,
      smaller a max_rendezvous_timeout,
      refl,
      rw asked refl,
      ground arith,
      ground arith,
      ground arith,
      ground arith,
    )
  ]

  take_at_version-Answers :
      ((params : Params) → get_first_int_param (erase_all_params_of_type params) ≡ none)
      → (params : Params) (version : Option ℕ)
      → Answers params version (take_at_version params version)
  unfolding take_at_version
  take_at_version-Answers erased params none = inl (inl refl, refl, refl)
  take_at_version-Answers erased params (some version) =
      elim (Bool-cases (ltb (get_draft_major_version version) 18)) [
        | inl old ↦ rw old (inl (inr (version, refl, ground arith), refl, refl))
        | inr new ↦ rw new (
            inr (
              (version, refl, ground arith),
              erased params,
              clamped_cases (get_first_int_param params),
            ))
      ]

  -- Where erasing a parameter leaves none of its kind: on a session without a version, or with one of
  -- a draft below 18, a call gives no timeout and leaves the request as it is; on any other session
  -- it leaves the request asking for none, and gives what was asked for, cut down to
  -- kMaxRendezvousTimeout, or no timeout if none or 0 was asked for.
  pub take_rendezvous_timeout-Answers :
      ((params : Params) → get_first_int_param (erase_all_params_of_type params) ≡ none)
      → (params : Params) (session : Option Session)
      → Answers params (negotiated_version session) (take_rendezvous_timeout params session)
  unfolding take_rendezvous_timeout
  take_rendezvous_timeout-Answers erased params session =
      take_at_version-Answers erased params (negotiated_version session)

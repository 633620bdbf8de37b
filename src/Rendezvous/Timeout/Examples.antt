-- ===== src/Rendezvous/Timeout/Examples.antt =====
-- A rendezvous timeout of src/PendingRendezvousTree.cpp that is cut down.
use moqx.Base.{ℕ, ◌≡◌, refl, Option, none, some}
use moqx.Rendezvous.Timeout.{
  Answers, negotiated_version, take_rendezvous_timeout, take_rendezvous_timeout-Answers,
}

-- A request is what it asks for, and the version of a session is its draft: on a session of draft
-- 18, a request asks for a minute and gets half of it.
abbrev same : {A : Type 0} → A → A
same x = x

abbrev erased : Option ℕ → Option ℕ
erased p = none

abbrev minute : Option ℕ
minute = some 60000

abbrev taken : Option ℕ × Option ℕ
taken = take_rendezvous_timeout some same same erased minute (some 18)

take_rendezvous_timeout_example :
    Answers some same same erased minute (negotiated_version some same same erased (some 18)) taken
take_rendezvous_timeout_example =
    take_rendezvous_timeout-Answers some same same erased (λ p. refl) minute (some 18)

taken_half : taken ≡ (some 30000, none)
unfolding take_rendezvous_timeout
taken_half = refl

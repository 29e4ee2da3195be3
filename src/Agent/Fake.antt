-- ===== src/Agent/Fake.antt =====
-- `FakeProvider` of provider.rs, which answers from a queue of scripts. Whether the turn is cancelled is asked
-- before the script and before each of its events.
use feather_mesh.Prelude.{ℕ, suc, Bool, List, [], ◌∷◌, codes, Result, ok, err, if◌then◌else◌}
use feather_mesh.Agent.Provider.{ProviderEvent, ProviderError, provider_cancelled, protocol}
use feather_mesh.Agent.Router.{Shown, shown_before, silent}

pub record FakeProvider : Type 0 where
  pub scripts : List (Result ProviderError (List ProviderEvent))

unfoldable pub play : (ℕ → Bool) → ℕ → List ProviderEvent → Shown Unit
play cancelled n [] = silent (ok tt)
play cancelled n (e ∷ es) =
    let rest = play cancelled (suc n) es in
    if cancelled n then silent (err provider_cancelled) else shown_before (e ∷ []) rest

abbrev pub play_script : (ℕ → Bool) → Result ProviderError (List ProviderEvent) → Shown Unit
play_script cancelled (err e) = silent (err e)
play_script cancelled (ok events) = play cancelled 1 events

abbrev pub next_script :
    (ℕ → Bool) → List (Result ProviderError (List ProviderEvent)) → FakeProvider × Shown Unit
next_script cancelled [] =
    (record { scripts = [] }, silent (err (protocol (codes "fake provider script exhausted"))))
next_script cancelled (s ∷ rest) = (record { scripts = rest }, play_script cancelled s)

-- The queue after the turn, and what is shown.
unfoldable pub fake_stream : (ℕ → Bool) → FakeProvider → FakeProvider × Shown Unit
unfolding play
fake_stream cancelled p =
    if cancelled 0 then (p, silent (err provider_cancelled)) else next_script cancelled p.scripts

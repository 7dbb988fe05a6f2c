-- ===== src/Tests/Tunnels.antt =====
-- internal/tunnel, internal/client and cmd/proxywi-client.
use proxywi.Common.{◌≡◌, [], ◌∷◌}
use proxywi.Client.Backoff.{run, expected, run_lem}

run_lem_example :
    run (1 ∷ 2 ∷ 70_000_000_000 ∷ 3 ∷ []) ≡ expected 0 (1 ∷ 2 ∷ 70_000_000_000 ∷ 3 ∷ [])
run_lem_example = run_lem (1 ∷ 2 ∷ 70_000_000_000 ∷ 3 ∷ [])

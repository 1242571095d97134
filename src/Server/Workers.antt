-- ===== src/Server/Workers.antt =====
-- The cap on concurrent connections of src/backend/nfs/server.rs.
use anymount.Prelude.{ℕ, ◌≤◌, Bool, List, [], ◌∷◌}
use anymount.Prelude.{length, leb, length-append, Bool-cases, Result-cases, inl, inr, arith}
use anymount.Server.Defs.{Round, retain_running, accept_round, run, max_connections}

retain_running_le :
    (is_finished : ℕ → Bool) (ws : List ℕ) → length (retain_running is_finished ws) ≤ length ws
unfolding retain_running
retain_running_le is_finished [] = omega arith
retain_running_le is_finished (w ∷ ws) = ground (arith, retain_running_le is_finished ws)

accept_round_cap :
    (round : Round) (ws : List ℕ)
    → length ws ≤ max_connections
    → length (accept_round round ws) ≤ max_connections
unfolding accept_round
accept_round_cap round ws h = elim (Bool-cases (leb 16 (length ws))) [
  | inl at_cap ↦ rw at_cap h
  | inr room ↦ elim (Result-cases round.accept_conn) [
    | inl (conn, e) ↦ rw (room, e) (ground (arith, length-append ws (conn ∷ [])))
    | inr (x, e) ↦ rw (room, e) h
  ]
]

-- At most `MAX_CONNECTIONS` workers are held at once, whatever connections arrive and whichever
-- workers finish.
pub run_cap :
    (rounds : List Round) (ws : List ℕ)
    → length ws ≤ max_connections
    → length (run rounds ws) ≤ max_connections
unfolding run
run_cap [] ws h = h
run_cap (round ∷ rounds) ws h = elim (Bool-cases round.stop) [
  | inl stop ↦ rw stop h
  | inr go ↦
      (let running = retain_running round.is_finished ws in
        let le = retain_running_le round.is_finished ws in
        let cap = accept_round_cap round running (omega (arith, le)) in
        rw go (run_cap rounds (accept_round round running) cap))
]

-- ===== src/Worker.antt =====
-- The worker and its execution loop
-- (backend/python-daemon/orchestrator/worker.py, execution_loop.py and reroll.py).
pub mod Loop
pub mod Rounds
pub mod Answered
pub mod Exhausted
pub mod Recovery

-- ===== src/System/Example.antt =====
-- A system for tests: every socket connects, every byte is sent, and the host answers with one more
-- part of a script.
use kvproxy.Base.{ℕ, ◌+◌, true, false, List, [], ◌∷◌, length}
use kvproxy.Base.Text.{Text}
use kvproxy.System.{System, Selected, timed_out, selected, Received, received, recv_error}

-- How many sockets there have been, and what the hosts will answer.
abbrev pub Scripted : Type 0
Scripted = ℕ × List Text

abbrev answers : Scripted → Selected × Scripted
answers (n, []) = (timed_out, (n, []))
answers (n, t ∷ script) = (selected true, (n, t ∷ script))

abbrev answer : Scripted → Received × Scripted
answer (n, []) = (recv_error false, (n, []))
answer (n, t ∷ script) = (received t, (n, script))

abbrev pub steady : System
steady = record {
  World = Scripted;
  socket = λ w. (w.0 + 10, (w.0 + 1, w.1));
  connect = λ fd host port w. (true, w);
  close = λ fd w. w;
  rdlock = λ w. (true, w);
  wrlock = λ w. (true, w);
  unlock = λ w. w;
  send = λ fd content w. (record { ret_len = length content; interrupted = false }, w);
  select = λ fd w. answers w;
  recv = λ fd room w. answer w;
}

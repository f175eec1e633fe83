-- ===== src/Server/Made.antt =====
-- The threads that the constructor of src/serv.cpp makes, and what the listener leaves as it is in them.
use mathlib.Core.Option.{some-injective}
use kvproxy.Base.{
  ℕ, zero, suc, ◌+◌, ◌<◌, ◌≡◌, refl, ap, subst, ◌∙◌, inl, inr, true, false, Option, none, some,
  List, [], ◌∷◌, ◌++◌, arith, ◌==◌, length, Option-cases, Bool-cases,
}
use kvproxy.Server.Heap.{Ptr}
use kvproxy.Server.Queue.{ConnQueue}
use kvproxy.Server.Threads.{LibeventThread, Server, push_at, turn, listener_event}
use kvproxy.Server.Threads.Dealt.{accept_all, pipe_at}
use kvproxy.Server.Start.{Answers, setup_thread, setup_threads}

abbrev pub thread_at : ℕ → List LibeventThread → Option LibeventThread
thread_at i [] = none
thread_at zero (t ∷ ts) = some t
thread_at (suc i) (t ∷ ts) = thread_at i ts

-- libevent and the system give a thread all that it asks for.
abbrev pub IsGiven : Answers → Type 0
IsGiven ok = (ok.has_base ≡ true) × (ok.has_pipe ≡ true) × (ok.has_event ≡ true)

module _ (me : ℕ → Ptr) (queue : ℕ → ConnQueue) where
  abbrev pub as_made : ℕ → List ℕ → LibeventThread
  as_made i pipe = record {
    me = me i;
    index = i;
    pipe = pipe;
    connect_queue = queue i;
    broken = false;
  }

  pub as_made-same :
      (i j : ℕ) (p q : List ℕ) → i ≡ j → p ≡ q → some (as_made i p) ≡ some (as_made j q)
  as_made-same i j p q e f = rw (e, f) refl

  -- From number i on, the threads differ from new ones in their pipes only.
  abbrev pub AreMade : ℕ → List LibeventThread → Type 0
  AreMade i [] = Unit
  AreMade i (t ∷ ts) = (t ≡ as_made i t.pipe) × AreMade (i + 1) ts

  pub AreMade-thread_at :
      (j i : ℕ) (ts : List LibeventThread)
      → AreMade i ts
      → j < length ts
      → thread_at j ts ≡ some (as_made (j + i) (pipe_at j ts))
  AreMade-thread_at j i [] m l = absurd (omega arith)
  AreMade-thread_at zero i (t ∷ ts) m l =
      let same : i ≡ 0 + i = omega arith in ap some m.0 ∙ ap (λ n. some (as_made n t.pipe)) same
  AreMade-thread_at (suc j) i (t ∷ ts) m l =
      let rest = AreMade-thread_at j (i + 1) ts m.1 (omega arith) in
      let same : j + (i + 1) ≡ suc j + i = omega arith in
      rest ∙ ap (λ n. some (as_made n (pipe_at j ts))) same

  push_at-AreMade :
      (k x i : ℕ) (ts us : List LibeventThread)
      → push_at k x ts ≡ some us
      → AreMade i ts
      → AreMade i us
  unfolding push_at
  push_at-AreMade k x i [] us e m = absurd (cc)
  push_at-AreMade zero x i (t ∷ ts) us e m =
      subst (AreMade i) (some-injective _ _ e)
        (ap (λ (u : LibeventThread). record u { pipe = t.pipe ++ x ∷ [] }) m.0, m.1)
  push_at-AreMade (suc k) x i (t ∷ ts) us e m = elim (Option-cases (push_at k x ts)) [
    | inl none_there ↦ absurd (no_threads (rw (push_at, none_there) at e))
    | inr (vs, there) ↦
        subst (AreMade i) (some-injective _ _ (rw (push_at, there) at e))
          (m.0, push_at-AreMade k x (i + 1) ts vs there m.1)
  ]
    where
      no_threads : ◌≡◌ {A = Option (List LibeventThread)} none (some us) → ⊥
      no_threads q = cc

  listener_event-AreMade :
      (fd : ℕ) (s s' : Server)
      → listener_event fd s ≡ some s'
      → AreMade 0 s.threads
      → AreMade 0 s'.threads
  unfolding listener_event
  listener_event-AreMade fd s s' e m = elim (Bool-cases (s.thread_count == 0)) [
    | inl nobody ↦ absurd (no_server (rw (listener_event, nobody) at e))
    | inr some_thread ↦ elim (Option-cases (push_at (turn s) fd s.threads)) [
      | inl behind ↦ absurd (no_server (rw (listener_event, some_thread, behind) at e))
      | inr (us, there) ↦
          subst (λ (x : Server). AreMade 0 x.threads)
            (some-injective _ _ (rw (listener_event, some_thread, there) at e))
            (push_at-AreMade (turn s) fd 0 s.threads us there m)
    ]
  ]
    where
      no_server : ◌≡◌ {A = Option Server} none (some s') → ⊥
      no_server q = cc

  pub accept_all-AreMade :
      (fds : List ℕ) (s s' : Server)
      → accept_all fds s ≡ some s'
      → AreMade 0 s.threads
      → AreMade 0 s'.threads
  unfolding accept_all
  accept_all-AreMade [] s s' e m =
      subst (λ (x : Server). AreMade 0 x.threads) (some-injective _ _ e) m
  accept_all-AreMade (fd ∷ fds) s s' e m = elim (Option-cases (listener_event fd s)) [
    | inl refused ↦ absurd (no_server (rw (accept_all, refused) at e))
    | inr (s1, taken) ↦
        accept_all-AreMade fds s1 s' (rw (accept_all, taken) at e)
          (listener_event-AreMade fd s s1 taken m)
  ]
    where
      no_server : ◌≡◌ {A = Option Server} none (some s') → ⊥
      no_server q = cc

  setup_thread-given :
      (ok : Answers) (i : ℕ) → IsGiven ok → setup_thread ok (me i) (queue i) i ≡ some (as_made i [])
  unfolding setup_thread
  setup_thread-given ok i (b, p, v) = rw (b, p, v) refl

  empty_pipes :
      (t : LibeventThread) (ts : List LibeventThread)
      → t.pipe ≡ []
      → ((j : ℕ) → pipe_at j ts ≡ [])
      → (j : ℕ) → pipe_at j (t ∷ ts) ≡ []
  empty_pipes t ts e empty zero = e
  empty_pipes t ts e empty (suc j) = empty j

  setup_next :
      (ok : ℕ → Answers) (n i : ℕ) (t : LibeventThread) (ts : List LibeventThread)
      → setup_thread (ok i) (me i) (queue i) i ≡ some t
      → setup_threads ok me queue n (i + 1) ≡ some ts
      → setup_threads ok me queue (suc n) i ≡ some (t ∷ ts)
  unfolding setup_threads
  setup_next ok n i t ts e f = rw (setup_threads, e, f) refl

  pub setup_threads-AreMade :
      (ok : ℕ → Answers) (n i : ℕ)
      → ((j : ℕ) → IsGiven (ok j))
      → (ts : List LibeventThread) × (setup_threads ok me queue n i ≡ some ts)
        × (length ts ≡ n)
        × AreMade i ts
        × ((j : ℕ) → pipe_at j ts ≡ [])
  unfolding setup_threads
  setup_threads-AreMade ok zero i g = ([], refl, refl, tt, λ j. refl)
  setup_threads-AreMade ok (suc n) i g =
      let (ts, run, len, made, empty) = setup_threads-AreMade ok n (i + 1) g in
      (
        as_made i [] ∷ ts,
        setup_next ok n i (as_made i []) ts (setup_thread-given (ok i) i (g i)) run,
        omega (arith, len),
        (refl, made),
        empty_pipes (as_made i []) ts refl empty,
      )

-- ===== src/Listener/Closed.antt =====
-- No descriptor is left open.
use v_plc_runtime.Shared.{
  ℕ, ◌≡◌, refl, ◌∙◌, ap, Bool, true, false, not, ◌||◌, ◌&&◌, ◌==◌, List, [], ◌∷◌, ◌++◌, Option,
  none, some, either_branch, arith,
}
use v_plc_runtime.Listener.{
  Listener, new_listener, Setup, remove_all, remove_first, close, give_up, set_up, open_socket,
  start, close_server, close_all, stop, accept_one, Erasure, every, first, erase, untrack,
  end_client, Event, accepted, ended, step, run,
}

unfoldable pub has_fd : ℕ → List ℕ → Bool
has_fd fd [] = false
has_fd fd (x ∷ xs) = (x == fd) || has_fd fd xs

unfoldable pub is_server : ℕ → Option ℕ → Bool
is_server fd none = false
is_server fd (some x) = x == fd

-- Every open descriptor is the server's or that of a connection in the list.
pub record IsTracked (s : Listener) : Type 0 where
  pub tracked :
      (fd : ℕ)
      → has_fd fd s.open_fds ≡ true
      → is_server fd s.server_fd || has_fd fd s.client_fds ≡ true

pub has_fd-remove_all :
    (fd x : ℕ) (l : List ℕ) → has_fd x (remove_all fd l) ≡ (not (fd == x) && has_fd x l)
unfolding has_fd remove_all
has_fd-remove_all fd x [] = ground arith
has_fd-remove_all fd x (y ∷ l) = ground (arith, has_fd-remove_all fd x l)

pub has_fd-remove_first :
    (fd x : ℕ) (l : List ℕ) → fd == x ≡ false → has_fd x (remove_first fd l) ≡ has_fd x l
unfolding has_fd remove_first
has_fd-remove_first fd x [] e = refl
has_fd-remove_first fd x (y ∷ l) e = ground (arith, has_fd-remove_first fd x l)

pub has_fd-append : (x fd : ℕ) (l : List ℕ) → has_fd x (l ++ (fd ∷ [])) ≡ (has_fd x l || (fd == x))
unfolding has_fd
has_fd-append x fd [] = ground arith
has_fd-append x fd (y ∷ l) = ground (arith, has_fd-append x fd l)

pub has_fd-erase :
    (how : Erasure) (fd x : ℕ) (l : List ℕ)
    → fd == x ≡ false
    → has_fd x (erase how fd l) ≡ has_fd x l
unfolding erase
has_fd-erase every fd x l e = ground (arith, has_fd-remove_all fd x l)
has_fd-erase first fd x l e = has_fd-remove_first fd x l e

no_fd : (l : List ℕ) → ((x : ℕ) → has_fd x l ≡ false) → l ≡ []
unfolding has_fd
no_fd [] h = refl
no_fd (y ∷ l) h = absurd (ground (arith, h y))

step-IsTracked : (how : Erasure) (e : Event) (s : Listener) → IsTracked s → IsTracked (step how e s)
unfolding step accept_one end_client untrack close
step-IsTracked how (accepted none) s h = h
step-IsTracked how (accepted (some fd)) s h = record {
  tracked = λ x k. unfold has_fd in ground (arith, has_fd-append x fd s.client_fds, h.tracked x);
}
step-IsTracked how (ended fd) s h = record {
  tracked = λ x k.
      ground
        (arith, has_fd-remove_all fd x s.open_fds, has_fd-erase how fd x s.client_fds, h.tracked x);
}

run-IsTracked :
    (how : Erasure) (es : List Event) (s : Listener) → IsTracked s → IsTracked (run how es s)
unfolding run
run-IsTracked how [] s h = h
run-IsTracked how (e ∷ es) s h = run-IsTracked how es (step how e s) (step-IsTracked how e s h)

pub has_fd-close_all :
    (fds : List ℕ) (s : Listener) (x : ℕ)
    → has_fd x (close_all fds s).open_fds ≡ (not (has_fd x fds) && has_fd x s.open_fds)
unfolding close_all close
has_fd-close_all [] s x = unfold has_fd in refl
has_fd-close_all (fd ∷ fds) s x =
    has_fd-close_all fds (close fd s) x
    ∙ (unfold has_fd in ground (arith, has_fd-remove_all fd x s.open_fds))

pub has_fd-close_server :
    (o : Option ℕ) (s : Listener) (x : ℕ)
    → has_fd x (close_server o s).open_fds ≡ (not (is_server x o) && has_fd x s.open_fds)
unfolding close_server close is_server
has_fd-close_server none s x = refl
has_fd-close_server (some fd) s x = has_fd-remove_all fd x s.open_fds

-- A stopped server is as good as new.
stop-IsTracked : (s : Listener) → s.is_running ≡ true → IsTracked s → stop s ≡ new_listener
unfolding stop new_listener
stop-IsTracked s r h =
    either_branch (λ t. t ≡ new_listener) s.is_running _ _
      (λ _.
        ap (λ l. record new_listener { open_fds = l })
          (no_fd (close_all s.client_fds (close_server s.server_fd s)).open_fds λ x. ground (
            arith,
            has_fd-close_all s.client_fds (close_server s.server_fd s) x,
            has_fd-close_server s.server_fd s x,
            h.tracked x,
          )))
      (λ e. absurd (ground arith))

run-is_running :
    (how : Erasure) (es : List Event) (s : Listener) → (run how es s).is_running ≡ s.is_running
unfolding run step accept_one end_client untrack close
run-is_running how [] s = refl
run-is_running how (accepted none ∷ es) s = run-is_running how es s
run-is_running how (accepted (some fd) ∷ es) s = run-is_running how es (accept_one (some fd) s)
run-is_running how (ended fd ∷ es) s = run-is_running how es (end_client how fd s)

-- How `start` ends: the server listens, or it is as new.
pub data Outcome (out : Listener × Bool) : Type 0 where
  listening : out.1 ≡ true → out.0.is_running ≡ true → IsTracked out.0 → Outcome out
  failed : out.1 ≡ false → out.0 ≡ new_listener → Outcome out

listening-IsTracked :
    (fd : ℕ)
    → IsTracked (record new_listener { server_fd = some fd; open_fds = fd ∷ []; is_running = true })
unfolding new_listener has_fd is_server
listening-IsTracked fd = record { tracked = λ x k. ground arith }

module _ (calls : Setup) where
  given_up :
      (fd : ℕ)
      → Outcome (give_up fd (record new_listener { server_fd = some fd; open_fds = fd ∷ [] }))
  unfolding give_up close new_listener remove_all
  given_up fd = failed refl (ap (λ l. record new_listener { open_fds = l }) (ground arith))

  set_up-Outcome : (fd : ℕ) → Outcome (set_up calls fd new_listener)
  unfolding set_up new_listener
  set_up-Outcome fd =
      either_branch Outcome (not calls.setsockopt) _ _ (λ _. given_up fd)
        (λ _.
          either_branch Outcome (not calls.bind) _ _ (λ _. given_up fd)
            (λ _.
              either_branch Outcome (not calls.listen) _ _ (λ _. given_up fd)
                (λ _. listening refl refl (listening-IsTracked fd))))

  open_socket-Outcome : (o : Option ℕ) → Outcome (open_socket calls o new_listener)
  unfolding open_socket new_listener
  open_socket-Outcome none = failed refl refl
  open_socket-Outcome (some fd) = set_up-Outcome fd

  -- How the start of a server ends.
  pub start-Outcome : Outcome (start calls new_listener)
  unfolding start new_listener
  start-Outcome = open_socket-Outcome calls.socket

  -- A server that has started is as new when it has stopped: whatever connections it has accepted and ended before, it holds no descriptor
  -- open, where the thread of a connection closes it and takes it from the list in one go.
  pub stop_closes_all :
      (how : Erasure) (es : List Event)
      → (start calls new_listener).1 ≡ true
      → stop (run how es (start calls new_listener).0) ≡ new_listener
  stop_closes_all how es ok = elim start-Outcome [
    | listening _ running tracked ↦
        stop-IsTracked (run how es (start calls new_listener).0)
          (run-is_running how es (start calls new_listener).0 ∙ running)
          (run-IsTracked how es (start calls new_listener).0 tracked)
    | failed e _ ↦ absurd (ground (arith, e))
  ]

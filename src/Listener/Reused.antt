-- ===== src/Listener/Reused.antt =====
-- A descriptor that the system hands out again while the thread of the old connection has closed it, and has not yet taken
-- it from the list.
use v_plc_runtime.Shared.{
  ℕ, ◌≡◌, ◌∙◌, ap, sym, true, false, ◌==◌, List, [], ◌∷◌, ◌++◌, some, inl, inr, Bool-cases,
  either_branch, arith,
}
use v_plc_runtime.Listener.{
  Listener, remove_first, close, close_server, stop, accept_one, Erasure, every, first, erase,
  untrack,
}
use v_plc_runtime.Listener.Closed.{
  has_fd, is_server, IsTracked, has_fd-remove_all, has_fd-remove_first, has_fd-append,
  has_fd-close_all, has_fd-close_server,
}

-- The end of a connection with an `accept` between its two parts.
unfoldable pub reuse : Erasure → ℕ → Listener → Listener
reuse how fd s = untrack how fd (accept_one (some fd) (close fd s))

remove_first-append :
    (fd : ℕ) (l : List ℕ) → has_fd fd l ≡ true → has_fd fd (remove_first fd (l ++ (fd ∷ []))) ≡ true
unfolding has_fd remove_first
remove_first-append fd [] h = absurd (ground arith)
remove_first-append fd (x ∷ l) h = ground (arith, has_fd-append fd fd l, remove_first-append fd l)

-- Where the first entry is removed, the new connection stays in the list.
pub reuse-IsTracked :
    (fd : ℕ) (s : Listener)
    → has_fd fd s.client_fds ≡ true
    → IsTracked s
    → IsTracked (reuse first fd s)
unfolding reuse untrack accept_one close erase
reuse-IsTracked fd s here h = record {
  tracked = λ x k. elim (Bool-cases (fd == x)) [
    | inl e ↦
        (let same : fd ≡ x = ground arith in
          let still : has_fd x (remove_first fd (s.client_fds ++ (fd ∷ []))) ≡ true =
            ap (λ n. has_fd n (remove_first fd (s.client_fds ++ (fd ∷ [])))) (sym same)
            ∙ remove_first-append fd s.client_fds here in
          ground (arith, still))
    | inr e ↦
        unfold has_fd in
        ground (
          arith,
          has_fd-remove_first fd x (s.client_fds ++ (fd ∷ [])),
          has_fd-append x fd s.client_fds,
          h.tracked x,
          has_fd-remove_all fd x s.open_fds,
        )
  ];
}

-- Where every entry is removed, the new connection is left open when the server has stopped.
pub reuse_every_leaks :
    (fd : ℕ) (s : Listener)
    → s.is_running ≡ true
    → is_server fd s.server_fd ≡ false
    → has_fd fd (stop (reuse every fd s)).open_fds ≡ true
unfolding reuse untrack accept_one close erase stop
reuse_every_leaks fd s r e =
    let t : Listener = reuse every fd s in
    either_branch (λ (o : Listener). has_fd fd o.open_fds ≡ true) s.is_running _ _
      (λ _.
        unfold has_fd in
        ground (
          arith,
          has_fd-close_all t.client_fds (close_server s.server_fd t) fd,
          has_fd-close_server s.server_fd t fd,
          has_fd-remove_all fd fd (s.client_fds ++ (fd ∷ [])),
        ))
      (λ off. absurd (ground arith))

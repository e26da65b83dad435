-- ===== src/Server/Main/Exit.antt =====
-- How main of the server ends.
use the_socket_exchange.Prelude.{
  ℕ, ◌≡◌, ◌≢◌, refl, sym, ap, ◌∙◌, subst, if_elim, Bool, true, false, List, [], ◌∷◌, ◌++◌, Option,
  none, some, codes, not, arith, get_elem?,
}
use the_socket_exchange.Port.{parse_port}
use the_socket_exchange.Output.{Env, Os}
use the_socket_exchange.Server.{Server, ServerEvent, serve, started, run_server}
use the_socket_exchange.Server.Main.{
  Waits, batch, interrupted, wait_failed, stopped, waits, Setup, Outcome, refused, serving,
  finished, valid_host, shut_down, main_loop, with_queue, with_socket, at_port, server_main,
}

-- The events of all calls of kevent.
unfoldable pub events_of : Waits → List ServerEvent
events_of (batch events rest) = events ++ events_of rest
events_of (interrupted rest) = events_of rest
events_of wait_failed = []
events_of stopped = []
events_of waits = []

-- What main does at the end of its loop, if that ends.
unfoldable pub ending : ℕ → ℕ → Waits → Server → Outcome
ending server_fd kq (batch events rest) s = ending server_fd kq rest s
ending server_fd kq (interrupted rest) s = ending server_fd kq rest s
ending server_fd kq wait_failed s = finished (shut_down server_fd kq s)
ending server_fd kq stopped s = finished (shut_down server_fd kq s)
ending server_fd kq waits s = serving s

module _ (env : Env) where
  serve-append :
      (xs ys : List ServerEvent) (s : Server)
      → serve env (xs ++ ys) s ≡ serve env ys (serve env xs s)
  unfolding serve
  serve-append [] ys s = refl
  serve-append (x ∷ xs) ys s = serve-append xs ys _

  pub main_loop-ending :
      (server_fd kq : ℕ) (ws : Waits) (s : Server)
      → main_loop env server_fd kq ws s ≡ ending server_fd kq ws (serve env (events_of ws) s)
  unfolding main_loop events_of ending serve
  main_loop-ending server_fd kq (batch events rest) s =
      main_loop-ending server_fd kq rest (serve env events s)
      ∙ ap (ending server_fd kq rest) (sym (serve-append events (events_of rest) s))
  main_loop-ending server_fd kq (interrupted rest) s = main_loop-ending server_fd kq rest s
  main_loop-ending server_fd kq wait_failed s = refl
  main_loop-ending server_fd kq stopped s = refl
  main_loop-ending server_fd kq waits s = refl

-- Everything that main needs before its loop.
pub record Ready (setup : Setup) (args : List (List ℕ)) (port server_fd kq : ℕ) : Type 0 where
  pub sigpipe : setup.ignore_sigpipe ≡ true
  pub shutdown : setup.install_shutdown ≡ true
  pub parsed : parse_port (get_elem? args 1) ≡ some port
  pub socket : setup.socket ≡ some server_fd
  pub host : valid_host setup (get_elem? args 0) ≡ true
  pub options : setup.setsockopt ≡ true
  pub bound : setup.bind (get_elem? args 0) port ≡ true
  pub listens : setup.listen ≡ true
  pub queue : setup.kqueue ≡ some kq
  pub watched : setup.watch ≡ true
  pub table : setup.calloc_conns ≡ true

-- The two ways for main to go on.
pub data Ends (env : Env) (setup : Setup) (ws : Waits) (os : Os) (args : List (List ℕ))
    (r : Outcome) : Type 0 where
  refuses :
      (message : List ℕ)
      → ((port server_fd kq : ℕ) → Ready setup args port server_fd kq → ⊥)
      → r ≡ refused message
      → Ends env setup ws os args r
  runs :
      (port server_fd kq : ℕ)
      → Ready setup args port server_fd kq
      → r ≡ ending server_fd kq ws (run_server env (events_of ws) os)
      → Ends env setup ws os args r

module _ (env : Env) (setup : Setup) (ws : Waits) (os : Os) (args : List (List ℕ)) where
  abbrev EndsWell : Outcome → Type 0
  EndsWell r = Ends env setup ws os args r

  clash : (b : Bool) → not b ≡ true → b ≢ true
  clash true e f = cc
  clash false e f = cc

  passed : (b : Bool) → not b ≡ false → b ≡ true
  passed b e = ground arith

  -- A call that has failed.
  stop :
      (message : List ℕ) (b : Bool)
      → ((port server_fd kq : ℕ) → Ready setup args port server_fd kq → b ≡ true)
      → not b ≡ true
      → EndsWell (refused message)
  stop message b needs e =
      refuses message (λ port server_fd kq ready. clash b e (needs port server_fd kq ready)) refl

  absent : {A : Type 0} (x : Option A) (a : A) → x ≡ none → x ≢ some a
  absent x a e f = cc

  module _ (sigpipe : setup.ignore_sigpipe ≡ true) (shutdown : setup.install_shutdown ≡ true)
      (port : ℕ) (parsed : parse_port (get_elem? args 1) ≡ some port) where
    with_queue-Ends :
        (server_fd : ℕ) (queue : Option ℕ)
        → setup.socket ≡ some server_fd
        → valid_host setup (get_elem? args 0) ≡ true
        → setup.setsockopt ≡ true
        → setup.bind (get_elem? args 0) port ≡ true
        → setup.listen ≡ true
        → setup.kqueue ≡ queue
        → EndsWell (with_queue env setup ws os server_fd queue)
    unfolding with_queue run_server
    with_queue-Ends server_fd none s h o b l e =
        refuses (codes "Failed to create kqueue instance")
          (λ port server_fd kq ready. absent setup.kqueue kq e ready.queue) refl
    with_queue-Ends server_fd (some kq) s h o b l e =
        if_elim EndsWell (not setup.watch)
          (stop (codes "Failed to add server socket to kqueue") setup.watch
            (λ port server_fd kq ready. ready.watched))
          λ w.
            if_elim EndsWell (not setup.calloc_conns)
              (stop (codes "Failed to allocate connection table") setup.calloc_conns
                (λ port server_fd kq ready. ready.table))
              λ t.
                runs port server_fd kq
                  (record {
                    sigpipe = sigpipe;
                    shutdown = shutdown;
                    parsed = parsed;
                    socket = s;
                    host = h;
                    options = o;
                    bound = b;
                    listens = l;
                    queue = e;
                    watched = passed setup.watch w;
                    table = passed setup.calloc_conns t;
                  })
                  (main_loop-ending env server_fd kq ws (started os))

    same_port : (q : ℕ) → parse_port (get_elem? args 1) ≡ some q → q ≡ port
    same_port q e = some_inj q port (sym e ∙ parsed)
      where
        some_inj : (a b : ℕ) → some a ≡ some b → a ≡ b
        some_inj a b e = cc

    with_socket-Ends :
        (socket : Option ℕ)
        → setup.socket ≡ socket
        → EndsWell (with_socket env setup ws os (get_elem? args 0) port socket)
    unfolding with_socket
    with_socket-Ends none e =
        refuses (codes "Failed to create socket")
          (λ port server_fd kq ready. absent setup.socket server_fd e ready.socket) refl
    with_socket-Ends (some server_fd) e =
        let host = get_elem? args 0 in
        if_elim EndsWell (not (valid_host setup host))
          (stop _ (valid_host setup host) (λ port server_fd kq ready. ready.host))
          λ h.
            if_elim EndsWell (not setup.setsockopt)
              (stop _ setup.setsockopt (λ port server_fd kq ready. ready.options))
              λ o.
                if_elim EndsWell (not (setup.bind host port))
                  (stop _ (setup.bind host port) (λ q server_fd kq ready.
                    subst (λ k. setup.bind host k ≡ true) (same_port q ready.parsed) ready.bound))
                  λ b.
                    if_elim EndsWell (not setup.listen)
                      (stop _ setup.listen (λ port server_fd kq ready. ready.listens))
                      λ l.
                        with_queue-Ends server_fd setup.kqueue e (passed (valid_host setup host) h)
                          (passed setup.setsockopt o) (passed (setup.bind host port) b)
                          (passed setup.listen l) refl

  at_port-Ends :
      setup.ignore_sigpipe ≡ true
      → setup.install_shutdown ≡ true
      → (port : Option ℕ) → parse_port (get_elem? args 1) ≡ port
      → EndsWell (at_port env setup ws os args port)
  unfolding at_port
  at_port-Ends sigpipe shutdown none e =
      refuses _
        (λ port server_fd kq ready. absent (parse_port (get_elem? args 1)) port e ready.parsed) refl
  at_port-Ends sigpipe shutdown (some port) e =
      with_socket-Ends sigpipe shutdown port e setup.socket refl

  -- main of the server returns 1 with a message exactly if one of the calls before its loop fails,
  -- the port is no port number, or the host no address. Otherwise it runs from the empty table and
  -- the empty book over all events that the calls of kevent report, in their order, however these
  -- are cut into calls and however often one is interrupted, and shuts down when a signal has asked
  -- for it or kevent fails.
  pub server_main-Ends : Ends env setup ws os args (server_main env setup ws os args)
  unfolding server_main
  server_main-Ends =
      if_elim EndsWell (not setup.ignore_sigpipe)
        (stop _ setup.ignore_sigpipe (λ port server_fd kq ready. ready.sigpipe))
        λ p.
          if_elim EndsWell (not setup.install_shutdown)
            (stop _ setup.install_shutdown (λ port server_fd kq ready. ready.shutdown))
            λ q.
              at_port-Ends (passed setup.ignore_sigpipe p) (passed setup.install_shutdown q)
                (parse_port (get_elem? args 1)) refl

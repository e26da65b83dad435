-- ===== src/Client/Main/Exit.antt =====
-- How main of the two clients ends.
use mathlib.Core.List.{append-nil}
use the_socket_exchange.Prelude.{
  ℕ, ◌≡◌, refl, sym, ap, ◌∙◌, Bool, true, false, not, if_elim, if◌then◌else◌, List, [], ◌++◌,
  Option, none, some, arith, leb, length, get_elem?, codes,
}
use the_socket_exchange.Port.{parse_port, text_of}
use the_socket_exchange.Output.{WriteAnswer}
use the_socket_exchange.Client.{Client, buffer_size, Polls, write_all, communicate}
use the_socket_exchange.Client.Write.{Writes, write_all-Writes}
use the_socket_exchange.Client.Main.{
  Program, Network, new_client, Run, host_of, greeting, exits, gives_up, leaves, greeted,
  with_connection, with_port, client_main,
}

-- The first command, by the third argument.
abbrev pub first : Program → Option (List ℕ) → List ℕ
first program none = []
first program (some arg) = greeting program arg

-- The two ways for main to end.
pub data Ends (program : Program) (write : ℕ → List ℕ → WriteAnswer) (polls : Polls) (net : Network)
    (args : List (List ℕ)) (r : Run) : Type 0 where
  refused :
      (part rest : List ℕ)
      → part ++ rest ≡ first program (get_elem? args 2)
      → r.client.sent ≡ part
      → r.closed ≡ r.opened
      → r.code ≡ some 1
      → Ends program write polls net args r
  ran :
      (port : ℕ) (c : Client)
      → parse_port (get_elem? args 1) ≡ some port
      → net.connect (host_of (get_elem? args 0)) port ≡ true
      → c ≡ record new_client { calls = c.calls; sent = first program (get_elem? args 2) }
      → r.client ≡ (communicate write polls c).0
      → r.opened ≡ true
      → r.closed ≡ (communicate write polls c).1
      → r.code ≡ (if (communicate write polls c).1 then some 0 else none)
      → Ends program write polls net args r

module _ (program : Program) (write : ℕ → List ℕ → WriteAnswer) (polls : Polls) (net : Network)
    (args : List (List ℕ)) where
  abbrev EndsWell : Run → Type 0
  EndsWell r = Ends program write polls net args r

  abbrev host : List ℕ
  host = host_of (get_elem? args 0)

  -- main has come to communicate.
  runs :
      (port : ℕ) (c : Client) (x : Client × Bool)
      → parse_port (get_elem? args 1) ≡ some port
      → net.connect host port ≡ true
      → c ≡ record new_client { calls = c.calls; sent = first program (get_elem? args 2) }
      → communicate write polls c ≡ x
      → EndsWell (leaves x)
  runs port c (d, true) parsed linked greets e =
      ran port c parsed linked greets (ap (λ y. y.0) (sym e)) refl (ap (λ y. y.1) (sym e))
        (ap (λ (y : Client × Bool). if y.1 then some 0 else none) (sym e))
  runs port c (d, false) parsed linked greets e =
      ran port c parsed linked greets (ap (λ y. y.0) (sym e)) refl (ap (λ y. y.1) (sym e))
        (ap (λ (y : Client × Bool). if y.1 then some 0 else none) (sym e))

  -- main returned before the first command.
  early : (message : List ℕ) → EndsWell (exits message new_client)
  early message = refused [] (first program (get_elem? args 2)) refl refl refl refl

  late : (message : List ℕ) → EndsWell (gives_up message new_client)
  late message = refused [] (first program (get_elem? args 2)) refl refl refl refl

  module _ (port : ℕ) (parsed : parse_port (get_elem? args 1) ≡ some port)
      (linked : net.connect host port ≡ true) where
    greeted-Ends :
        (arg : List ℕ) (r : Client × Bool)
        → get_elem? args 2 ≡ some arg
        → Writes new_client (greeting program arg) r
        → EndsWell (greeted program write polls r)
    greeted-Ends arg (c, true) e w =
        runs port c (communicate write polls c) parsed linked
          (w.quiet
            ∙ ap (λ s. record new_client { calls = c.calls; sent = s })
                (w.sent
                  ∙ sym (append-nil w.part)
                  ∙ ap (◌++◌ w.part) (sym (w.whole refl))
                  ∙ w.split
                  ∙ ap (first program) (sym e)))
          refl
    greeted-Ends arg (c, false) e w =
        refused w.part w.rest (w.split ∙ ap (first program) (sym e)) w.sent refl refl

    with_connection-Ends :
        (arg : Option (List ℕ))
        → get_elem? args 2 ≡ arg
        → EndsWell (with_connection program write polls arg new_client)
    unfolding with_connection
    with_connection-Ends none e =
        runs port new_client (communicate write polls new_client) parsed linked
          (ap (λ s. record new_client { calls = 0; sent = s }) (ap (first program) (sym e))) refl
    with_connection-Ends (some arg) e =
        if_elim EndsWell (leb buffer_size (length (greeting program arg)))
          (λ _. late (codes "Failed to send " ++ program.command))
          (λ _.
            greeted-Ends arg (write_all write new_client (greeting program arg)) e
              (write_all-Writes write new_client (greeting program arg)))

  with_port-Ends :
      (port : Option ℕ)
      → parse_port (get_elem? args 1) ≡ port
      → EndsWell (with_port program write polls net args port)
  unfolding with_port
  with_port-Ends none e = early (codes "Invalid port: " ++ text_of (get_elem? args 1))
  with_port-Ends (some port) e =
      if_elim EndsWell (not net.socket) (λ _. early (codes "Failed to create socket"))
        λ _.
          if_elim EndsWell (not (net.inet_pton host))
            (λ _. late (codes "Invalid server address: " ++ host))
            λ _.
              if_elim EndsWell (not (net.connect host port))
                (λ _. late (codes "Failed to connect to server"))
                (λ linked. with_connection-Ends port e (ground arith) (get_elem? args 2) refl)

  -- main of a client ends in one of two ways. It is refused: it exits with 1, has closed the socket
  -- if it has opened it, and has sent a part of the first command from the front, perhaps none. Or
  -- it has connected to the host and a valid port, has sent the whole of the first command, if one
  -- is asked for, and all else is what communicate does: when that returns, main exits with
  -- 0 and a closed socket, and until then the socket is open and main has not returned.
  pub client_main-Ends :
      Ends program write polls net args (client_main program write polls net args)
  unfolding client_main
  client_main-Ends =
      if_elim EndsWell (not net.signal) (λ _. early (codes "Failed to ignore SIGPIPE"))
        (λ _. with_port-Ends (parse_port (get_elem? args 1)) refl)

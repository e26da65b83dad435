-- ===== src/Framing.antt =====
-- communicate of src/includes/io.c: the bytes that a client sends, cut into lines.
pub mod Bytes
pub mod Chunks
pub mod Lines
pub mod Steps
use the_socket_exchange.Prelude.{
  ℕ, Bool, true, false, List, [], ◌∷◌, ◌++◌, Option, none, some, codes, line_feed, carriage_return,
  ◌==◌, if◌then◌else◌, length, take, drop, set,
}
use the_socket_exchange.Config.{inbuf_size}
use the_socket_exchange.Output.{ClientConnection, Env}
use the_socket_exchange.Exchange.{Exchange, slot, refuse}
use the_socket_exchange.Process.{process_line}

-- The answers to the calls of read of one run of communicate. The last one ends it; `got` has the
-- bytes of one call, and no call is interrupted for ever.
pub data Reads : Type 0 where
  got : List ℕ → Reads → Reads
  eintr : Reads → Reads
  eagain failed eof : Reads

-- What a step of the loops says: go on, or return from communicate with this result.
pub data Flow : Type 0 where
  continues : Flow
  returns : Bool → Flow

-- `inbuf`, of which the first `scanned` bytes are known to hold no newline, the state that the
-- lines act on, and how the step ends.
pub record Step {ℓ} (S : Type ℓ) : Type ℓ where
  pub inbuf : List ℕ
  pub scanned : ℕ
  pub state : S
  pub flow : Flow

-- The loops, over what a complete line does and what a full buffer does.
module _ {ℓ} {S : Type ℓ} (on_line : List ℕ → S → S × Flow) (on_full : S → S × Flow) where
  -- What follows a complete line; `bs` is what follows it in the buffer.
  unfoldable pub line_end : (S → Step S) → List ℕ → S × Flow → Step S
  line_end next bs (s, continues) = next s
  line_end next bs (s, returns result) = record {
    inbuf = bs;
    scanned = 0;
    state = s;
    flow = returns result;
  }

  -- The search for newlines: `line` is what has been searched since the last one, `rest` is still
  -- to be searched.
  unfoldable pub find_lines : (line rest : List ℕ) → S → Step S
  unfolding line_end
  find_lines line [] s = record { inbuf = line; scanned = length line; state = s; flow = continues }
  find_lines line (b ∷ bs) s = elim (b == line_feed) [
    | true ↦ line_end (find_lines [] bs) bs (on_line line s)
    | false ↦ find_lines (line ++ b ∷ []) bs s
  ]

  unfoldable pub emptied : Step S → S × Flow → Step S
  emptied r (s, continues) = record { inbuf = []; scanned = 0; state = s; flow = continues }
  emptied r (s, returns result) = record r { state = s; flow = returns result }

  -- After the search: a full buffer is emptied, unless that ends the connection.
  unfoldable pub check_full : Step S → Step S
  unfolding emptied
  check_full r = if length r.inbuf == inbuf_size then emptied r (on_full r.state) else r

  -- A return from the search leaves the buffer as it was read.
  unfoldable pub compacted : List ℕ → ℕ → Step S → Flow → Step S
  unfolding check_full
  compacted all scanned r continues = check_full r
  compacted all scanned r (returns result) = record r { inbuf = all; scanned = scanned }

  -- All that follows one successful call of read.
  unfoldable pub after_read : List ℕ → ℕ → List ℕ → S → Step S
  unfolding find_lines compacted
  after_read inbuf scanned bytes s =
      let all = inbuf ++ bytes in
      let r = find_lines (take scanned all) (drop scanned all) s in compacted all scanned r r.flow

  abbrev pub unless_returned : Step S → (Step S → Step S) → Flow → Step S
  unless_returned r next continues = next r
  unless_returned r next (returns result) = r

  -- EAGAIN ends communicate with the connection going on.
  unfoldable pub read_loop : Reads → List ℕ → ℕ → S → Step S
  unfolding after_read
  read_loop (got bytes reads) inbuf scanned s =
      let r = after_read inbuf scanned bytes s in
      unless_returned r (λ r'. read_loop reads r'.inbuf r'.scanned r'.state) r.flow
  read_loop (eintr reads) inbuf scanned s = read_loop reads inbuf scanned s
  read_loop eagain inbuf scanned s = record {
    inbuf = inbuf;
    scanned = scanned;
    state = s;
    flow = continues;
  }
  read_loop failed inbuf scanned s = record {
    inbuf = inbuf;
    scanned = scanned;
    state = s;
    flow = returns true;
  }
  read_loop eof inbuf scanned s = record {
    inbuf = inbuf;
    scanned = scanned;
    state = s;
    flow = returns true;
  }

-- The text from `line` up to its first terminator.
unfoldable pub c_string : List ℕ → List ℕ
c_string [] = []
c_string (c ∷ cs) = let rest = c_string cs in if c == 0 then [] else c ∷ rest

-- A carriage return at the end of a line is overwritten by a terminator.
unfoldable pub strip_cr : List ℕ → List ℕ
strip_cr [] = []
strip_cr (c ∷ []) = if c == carriage_return then [] else c ∷ []
strip_cr (c ∷ d ∷ cs) = c ∷ strip_cr (d ∷ cs)

abbrev pub with_conn :
    ℕ → (ClientConnection → ClientConnection) → Exchange → Option ClientConnection → Exchange
with_conn fd f w none = w
with_conn fd f w (some c) = record w { conns = set w.conns fd (some (f c)) }

-- A change of the connection of `fd` in place.
abbrev pub update_conn : ℕ → (ClientConnection → ClientConnection) → Exchange → Exchange
update_conn fd f w = with_conn fd f w (slot w.conns fd)

abbrev pub set_discarding : Bool → ClientConnection → ClientConnection
set_discarding on c = record c { discarding = on }

abbrev pub discarding_at : Option ClientConnection → Bool
discarding_at none = false
discarding_at (some c) = c.discarding

abbrev pub closing_at : Option ClientConnection → Bool
closing_at none = false
closing_at (some c) = c.closing

module _ (env : Env) (fd : ℕ) where
  -- A complete line, of which `line` lies before the newline.
  unfoldable pub on_line : List ℕ → Exchange → Exchange × Flow
  unfolding process_line strip_cr c_string
  on_line line w =
      if discarding_at (slot w.conns fd)
      then (update_conn fd (set_discarding false) w, continues)
      else let r = process_line env (c_string (strip_cr line)) fd w in
        if r.1
        then (r.0, returns true)
        else if closing_at (slot (r.0).conns fd)
        then (r.0, returns false)
        else (r.0, continues)

  -- A buffer with no newline in it: the client is told once, and the rest of the line dropped.
  unfoldable pub on_full : Exchange → Exchange × Flow
  unfolding refuse
  on_full w =
      if discarding_at (slot w.conns fd)
      then (w, continues)
      else let r = refuse env (codes "Message too long") fd w in
        if r.1 then (r.0, returns true) else (update_conn fd (set_discarding true) r.0, continues)

  abbrev pub result_of : Flow → Bool
  result_of continues = false
  result_of (returns result) = result

  unfoldable pub communicate_with : Reads → Exchange → Option ClientConnection → Exchange × Bool
  unfolding read_loop on_line on_full
  communicate_with reads w none = (w, false)
  communicate_with reads w (some self) =
      if self.closing
      then (w, false)
      else let r = read_loop on_line on_full reads self.inbuf self.scanned w in
        (
          update_conn fd (λ c. record c { inbuf = r.inbuf; scanned = r.scanned }) r.state,
          result_of r.flow,
        )

  -- communicate: the buffer is taken from the connection and put back; no line touches it.
  unfoldable pub communicate : Reads → Exchange → Exchange × Bool
  unfolding communicate_with
  communicate reads w = communicate_with reads w (slot w.conns fd)

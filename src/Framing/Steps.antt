-- ===== src/Framing/Steps.antt =====
-- communicate, as a sequence of steps of the exchange.
use the_socket_exchange.Prelude.{
  ℕ, ◌≡◌, refl, subst, if_elim, Bool-cases, inl, inr, Bool, true, false, List, [], ◌∷◌, Option,
  none, some, codes, ◌==◌, length, take, drop, ◌++◌, line_feed,
}
use the_socket_exchange.Config.{inbuf_size}
use the_socket_exchange.Output.{ClientConnection, Env, Os, Sent}
use the_socket_exchange.Session.Roles.{Keeps}
use the_socket_exchange.Exchange.{Exchange, slot, on_slot, refuse}
use the_socket_exchange.Exchange.Table.{Talks, on_self-Talks}
use the_socket_exchange.Exchange.Steps.{Steps, here, Steps-trans, talked, refuse-Steps}
use the_socket_exchange.Process.{process_line}
use the_socket_exchange.Process.Steps.{MayOrder, process_line-Steps}
use the_socket_exchange.Framing.{
  Reads, got, eintr, eagain, failed, eof, Flow, continues, returns, Step, line_end, find_lines,
  emptied, check_full, compacted, after_read, unless_returned, read_loop, c_string, strip_cr,
  with_conn, update_conn, set_discarding, discarding_at, closing_at, on_line, on_full,
  communicate_with, communicate,
}

-- What every line and every full buffer keep, the loop keeps.
module _ {ℓ κ} {S : Type ℓ} (on_line : List ℕ → S → S × Flow) (on_full : S → S × Flow)
    (P : S → Type κ) (line_kept : (line : List ℕ) (s : S) → P s → P (on_line line s).0)
    (full_kept : (s : S) → P s → P (on_full s).0) where
  line_end-P :
      (next : S → Step S) (bs : List ℕ) (x : S × Flow)
      → ((s : S) → P s → P (next s).state)
      → P x.0
      → P (line_end on_line on_full next bs x).state
  unfolding line_end
  line_end-P next bs (s, continues) h p = h s p
  line_end-P next bs (s, returns result) h p = p

  find_lines-P : (bs line : List ℕ) (s : S) → P s → P (find_lines on_line on_full line bs s).state
  unfolding find_lines
  find_lines-P [] line s p = p
  find_lines-P (b ∷ bs) line s p = elim (Bool-cases (b == line_feed)) [
    | inl nl ↦
        rw (nl, find_lines)
          (line_end-P (λ t. find_lines on_line on_full [] bs t) bs (on_line line s)
            (λ t q. find_lines-P bs [] t q) (line_kept line s p))
    | inr other ↦ rw (other, find_lines) (find_lines-P bs (line ++ b ∷ []) s p)
  ]

  emptied-P : (r : Step S) (x : S × Flow) → P x.0 → P (emptied on_line on_full r x).state
  unfolding emptied
  emptied-P r (s, continues) p = p
  emptied-P r (s, returns result) p = p

  compacted-P :
      (all : List ℕ) (n : ℕ) (r : Step S) (f : Flow)
      → P r.state
      → P (compacted on_line on_full all n r f).state
  unfolding compacted check_full
  compacted-P all n r continues p =
      if_elim (λ (r : Step S). P r.state) (length r.inbuf == inbuf_size)
        (λ _. emptied-P r (on_full r.state) (full_kept r.state p)) (λ _. p)
  compacted-P all n r (returns result) p = p

  unless_returned-P :
      (r : Step S) (next : Step S → Step S) (f : Flow)
      → ((r : Step S) → P r.state → P (next r).state)
      → P r.state
      → P (unless_returned on_line on_full r next f).state
  unless_returned-P r next continues h p = h r p
  unless_returned-P r next (returns result) h p = p

  after_read-P :
      (inbuf : List ℕ) (n : ℕ) (bytes : List ℕ) (s : S)
      → P s
      → P (after_read on_line on_full inbuf n bytes s).state
  unfolding after_read
  after_read-P inbuf n bytes s p =
      let all = inbuf ++ bytes in
      let r = find_lines on_line on_full (take n all) (drop n all) s in
      compacted-P all n r r.flow (find_lines-P (drop n all) (take n all) s p)

  read_loop-P :
      (reads : Reads) (inbuf : List ℕ) (n : ℕ) (s : S)
      → P s
      → P (read_loop on_line on_full reads inbuf n s).state
  unfolding read_loop
  read_loop-P (got bytes reads) inbuf n s p =
      let r = after_read on_line on_full inbuf n bytes s in
      unless_returned-P r (λ r'. read_loop on_line on_full reads r'.inbuf r'.scanned r'.state)
        r.flow (λ r' q. read_loop-P reads r'.inbuf r'.scanned r'.state q)
        (after_read-P inbuf n bytes s p)
  read_loop-P (eintr reads) inbuf n s p = read_loop-P reads inbuf n s p
  read_loop-P eagain inbuf n s p = p
  read_loop-P failed inbuf n s p = p
  read_loop-P eof inbuf n s p = p

update_conn-Talks :
    (fd : ℕ) (f : ClientConnection → ClientConnection) (w : Exchange)
    → ((c : ClientConnection) → Keeps c (f c))
    → Talks w (update_conn fd f w)
update_conn-Talks fd f w keeps =
    subst (Talks w) (same (slot w.conns fd)) (on_self-Talks quietly fd w (λ os c. keeps c))
  where
    quietly : Os → ClientConnection → Sent
    quietly os c = record { os = os; conn = f c; failed = false }

    same : (x : Option ClientConnection) → (on_slot quietly fd w x).0 ≡ with_conn fd f w x
    same none = refl
    same (some c) = refl

discarding-Keeps : (on : Bool) (c : ClientConnection) → Keeps c (set_discarding on c)
discarding-Keeps on c = record { role = λ h. h; name = refl; fd = refl; within = λ b. b }

abbrev Ends : ℕ → Exchange → Exchange × Flow → Type 0
Ends fd w x = Steps MayOrder fd w x.0

module _ (env : Env) (fd : ℕ) where
  on_line-Steps : (line : List ℕ) (w : Exchange) → Ends fd w (on_line env fd line w)
  unfolding on_line
  on_line-Steps line w =
      let text = c_string (strip_cr line) in
      let r = process_line env text fd w in
      let taken = process_line-Steps env text fd w in
      if_elim (Ends fd w) (discarding_at (slot w.conns fd))
        (λ _.
          talked MayOrder w _
            (update_conn-Talks fd (set_discarding false) w (discarding-Keeps false)))
        λ _.
          if_elim (Ends fd w) r.1 (λ _. taken)
            λ _. if_elim (Ends fd w) (closing_at (slot (r.0).conns fd)) (λ _. taken) (λ _. taken)

  on_full-Steps : (w : Exchange) → Ends fd w (on_full env fd w)
  unfolding on_full
  on_full-Steps w =
      let reason = codes "Message too long" in
      let r = refuse env reason fd w in
      let told = refuse-Steps MayOrder env reason fd w in
      if_elim (Ends fd w) (discarding_at (slot w.conns fd)) (λ _. here)
        λ _.
          if_elim (Ends fd w) r.1 (λ _. told)
            (λ _. Steps-trans MayOrder told (
              talked MayOrder r.0 _
                (update_conn-Talks fd (set_discarding true) r.0 (discarding-Keeps true))))

  communicate_with-Steps :
      (reads : Reads) (w : Exchange) (x : Option ClientConnection)
      → Steps MayOrder fd w (communicate_with env fd reads w x).0
  unfolding communicate_with
  communicate_with-Steps reads w none = here
  communicate_with-Steps reads w (some self) =
      let r = read_loop (on_line env fd) (on_full env fd) reads self.inbuf self.scanned w in
      if_elim (λ (y : Exchange × Bool). Steps MayOrder fd w y.0) self.closing (λ _. here)
        (λ _.
          Steps-trans MayOrder
            (read_loop-P (on_line env fd) (on_full env fd) (Steps MayOrder fd w)
              (λ line u q. Steps-trans MayOrder q (on_line-Steps line u))
              (λ u q. Steps-trans MayOrder q (on_full-Steps u)) reads self.inbuf self.scanned w
              here)
            (talked MayOrder r.state _ (
              update_conn-Talks fd (λ c. record c { inbuf = r.inbuf; scanned = r.scanned }) r.state
                (λ c. record { role = λ h. h; name = refl; fd = refl; within = λ b. b }))))

  pub communicate-Steps :
      (reads : Reads) (w : Exchange) → Steps MayOrder fd w (communicate env fd reads w).0
  unfolding communicate
  communicate-Steps reads w = communicate_with-Steps reads w (slot w.conns fd)

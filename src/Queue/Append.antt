-- ===== src/Queue/Append.antt =====
-- append puts a node at the end of a queue.
use the_socket_exchange.Prelude.{
  ℕ, zero, suc, ◌≤◌, ◌<◌, ◌≡◌, ◌≢◌, refl, sym, ap, subst, ◌∙◌, List, [], ◌∷◌, ◌++◌, Option, none,
  some, arith, length, All-split,
}
use the_socket_exchange.Queue.{
  Node, Heap, ◌>>=◌, put_node, set_head, set_next, set_prev, link_next, last, append_to,
  append_node,
}
use the_socket_exchange.Queue.Shape.{
  Cell, first_of, last_of, Piece, Fresh, Apart, Apart-sym, Stands, update_self, update_ne,
  Piece-frame, Piece-append, Distinct-append, bind-some,
}
use the_socket_exchange.Queue.Links.{set_next_lem, set_prev_lem, link_next-Links}

pub record Appended (h : Heap) (cs : List Cell) (c : Cell) (r : Option Heap) : Type 0 where
  pub heap : Heap
  pub done : r ≡ some heap
  pub stands : Stands heap (cs ++ c ∷ [])
  pub same : (q : ℕ) → Fresh q (cs ++ c ∷ []) → heap.node q ≡ h.node q

-- The walk ends at the last cell.
last-last_of :
    (fuel : ℕ) (h : Heap) (before : Option ℕ) (c : Cell) (cs : List Cell)
    → Piece h.node before (c ∷ cs) none
    → length cs < fuel
    → last fuel c.0 h ≡ last_of (some c.0) cs
unfolding last
last-last_of zero h before c cs piece enough = absurd (omega (arith, enough))
last-last_of (suc fuel) h before c [] piece enough = rw (piece.0) refl
last-last_of (suc fuel) h before c (d ∷ ds) piece enough =
    rw (piece.0) (last-last_of fuel h (some c.0) d ds piece.1 (omega (arith, enough)))

last_of-some : (a : ℕ) (cs : List Cell) → (l : ℕ) × (last_of (some a) cs ≡ some l)
last_of-some a [] = (a, refl)
last_of-some a (c ∷ cs) = last_of-some c.0 cs

Apart-one : (cs : List Cell) (c : Cell) → Fresh c.0 cs → Apart cs (c ∷ [])
Apart-one cs c fresh = Apart-sym (c ∷ []) cs (fresh, tt)

-- The new node has cleared pointers.
module _ (h : Heap) (c : Cell)
    (at : h.node c.0 ≡ some (record { next = none; prev = none; order = c.1 })) where
  append_to-Appended :
      (fuel : ℕ) (cs : List Cell)
      → Stands h cs
      → Fresh c.0 cs
      → length cs ≤ fuel
      → Appended h cs c (append_to fuel c.0 h (first_of cs none))
  unfolding append_to
  append_to-Appended fuel [] stands fresh enough = record {
    heap = set_head (some c.0) h;
    done = refl;
    stands = record { head = refl; piece = (at, tt); distinct = (tt, tt) };
    same = λ q f. refl;
  }
  append_to-Appended fuel (d ∷ ds) stands fresh enough =
      let cs : List Cell = d ∷ ds in
      let linked = link_next-Links h cs none (some c.0) stands.head stands.piece stands.distinct in
      let tail = last_of-some d.0 ds in
      let bare : Node = record { next = none; prev = none; order = c.1 } in
      let new : Node = record { next = none; prev = some tail.0; order = c.1 } in
      let h₁ = linked.heap in
      let at₁ = linked.same c.0 fresh ∙ at in
      record {
        heap = put_node c.0 (some new) h₁;
        done =
            bind-some (last fuel d.0 h) tail.0
              (λ t. set_next t (some c.0) h >>= set_prev c.0 (some t))
              (last-last_of fuel h none d ds stands.piece (omega (arith, enough)) ∙ tail.1)
            ∙ bind-some (set_next tail.0 (some c.0) h) h₁ (set_prev c.0 (some tail.0))
                (subst (λ t. link_next t (some c.0) h ≡ some h₁) tail.1 linked.done)
            ∙ set_prev_lem h₁ c.0 (some tail.0) bare at₁;
        stands = record {
          head = linked.at_head;
          piece =
              Piece-append _ none cs (c ∷ []) none
                (Piece-frame h₁.node c.0 (some new) none cs (some c.0) fresh linked.piece)
                (
                  update_self h₁.node c.0 (some new)
                      ∙ ap (λ t. some (record { next = none; prev = t; order = c.1 })) (sym tail.1),
                  tt,
                );
          distinct = Distinct-append cs (c ∷ []) stands.distinct (tt, tt) (Apart-one cs c fresh);
        };
        same = λ q f.
            let g = All-split (λ c. c.0 ≢ q) cs (c ∷ []) f in
            update_ne h₁.node c.0 q (some new) g.1.0 ∙ linked.same q g.0;
      }

-- append, at a node outside of a doubly linked queue, with fuel for as many nodes as the queue has,
-- succeeds: the queue afterwards is the old one with the node at its end, linked both ways, and
-- nothing outside of it is written.
pub append_node-Appended :
    (fuel : ℕ) (h : Heap) (cs : List Cell) (p : ℕ) (n : Node)
    → Stands h cs
    → Fresh p cs
    → h.node p ≡ some n
    → length cs ≤ fuel
    → Appended h cs (p, n.order) (append_node fuel p h)
unfolding append_node
append_node-Appended fuel h cs p n stands fresh at enough =
    let half : Node = record n { next = none } in
    let bare : Node = record { next = none; prev = none; order = n.order } in
    let h₁ = put_node p (some half) h in
    let h₂ = put_node p (some bare) h₁ in
    let at₁ = update_self h.node p (some half) in
    let r =
      append_to-Appended h₂ (p, n.order) (update_self h₁.node p (some bare)) fuel cs
        (record {
          head = stands.head;
          piece =
              Piece-frame h₁.node p (some bare) none cs none fresh
                (Piece-frame h.node p (some half) none cs none fresh stands.piece);
          distinct = stands.distinct;
        })
        fresh enough in
    record {
      heap = r.heap;
      done =
          bind-some (set_next p none h) h₁
            (λ h₁. set_prev p none h₁ >>= λ h₂. append_to fuel p h₂ h₂.head)
            (set_next_lem h p none n at)
          ∙ bind-some (set_prev p none h₁) h₂ (λ h₂. append_to fuel p h₂ h₂.head)
              (set_prev_lem h₁ p none half at₁)
          ∙ ap (append_to fuel p h₂) stands.head
          ∙ r.done;
      stands = r.stands;
      same = λ q f.
          let g = All-split (λ c. c.0 ≢ q) cs ((p, n.order) ∷ []) f in
          r.same q f
          ∙ update_ne h₁.node p q (some bare) g.1.0
          ∙ update_ne h.node p q (some half) g.1.0;
    }

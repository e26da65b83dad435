-- ===== src/Queue/Remove.antt =====
-- removeNode takes one cell out of a queue.
use the_socket_exchange.Prelude.{
  ℕ, ◌≡◌, ◌≢◌, sym, ◌∙◌, List, ◌∷◌, ◌++◌, Option, none, some, All, All-split, All-map,
}
use the_socket_exchange.Queue.{
  Node, Heap, ◌>>=◌, put_node, free, set_next, set_prev, link_next, link_prev, remove_node,
}
use the_socket_exchange.Queue.Shape.{
  Cell, first_of, last_of, Piece, Fresh, Apart, Distinct, Stands, update_self, update_ne,
  Piece-frame, first_of-append, Piece-append, Piece-split, Piece-same, Apart-sym, Distinct-split,
  Distinct-append, bind-some,
}
use the_socket_exchange.Queue.Links.{
  Links, set_next_lem, set_prev_lem, link_next-Links, link_prev-Links,
}

pub record Removed (h : Heap) (xs : List Cell) (c : Cell) (ys : List Cell) (r : Option Heap)
    : Type 0 where
  pub heap : Heap
  pub done : r ≡ some heap
  pub stands : Stands heap (xs ++ ys)
  pub unlinked : heap.node c.0 ≡ some (record { next = none; prev = none; order = c.1 })
  pub same : (q : ℕ) → Fresh q (xs ++ c ∷ ys) → heap.node q ≡ h.node q

-- The cells of one list lie as they did, where only those of another were written.
untouched :
    (h h' : Heap) (xs ys : List Cell)
    → ((q : ℕ) → Fresh q xs → h'.node q ≡ h.node q)
    → Apart ys xs
    → All (λ c. h'.node c.0 ≡ h.node c.0) ys
untouched h h' xs ys same apart =
    All-map (λ (y : Cell). Fresh y.0 xs) (λ c. h'.node c.0 ≡ h.node c.0) ys (λ y f. same y.0 f)
      apart

module _ (h : Heap) (xs : List Cell) (c : Cell) (ys : List Cell)
    (stands : Stands h (xs ++ c ∷ ys)) where
  split : Piece h.node none xs (some c.0) × Piece h.node (last_of none xs) (c ∷ ys) none
  split = Piece-split h.node none xs (c ∷ ys) none stands.piece

  parts : Distinct xs × Distinct (c ∷ ys) × Apart xs (c ∷ ys)
  parts = Distinct-split xs (c ∷ ys) stands.distinct

  apart : Apart (c ∷ ys) xs
  apart = Apart-sym xs (c ∷ ys) parts.2

  -- The node as it lies there.
  abbrev old : Node
  old = record { next = first_of ys none; prev = last_of none xs; order = c.1 }

  before_it :
      Links h xs
        (link_next (last_of none xs) (first_of ys none) h)
        none
        (first_of ys none)
        (first_of xs (first_of ys none))
  before_it =
      link_next-Links h xs (some c.0) (first_of ys none)
        (stands.head ∙ first_of-append xs (c ∷ ys) none) split.0 parts.0

  behind_it :
      let h₁ = before_it.heap in
      Links h₁ ys (link_prev (first_of ys none) (last_of none xs) h₁) (last_of none xs) none h₁.head
  behind_it =
      link_prev-Links before_it.heap ys (some c.0) (last_of none xs)
        (Piece-same h.node (before_it.heap).node (some c.0) ys none
          (untouched h before_it.heap xs ys before_it.same apart.1) split.1.1)
        parts.1.1

  at₁ : (before_it.heap).node c.0 ≡ some old
  at₁ = before_it.same c.0 apart.0 ∙ split.1.0

  at₂ : (behind_it.heap).node c.0 ≡ some old
  at₂ = behind_it.same c.0 parts.1.0 ∙ at₁

  -- The node after its two last assignments.
  abbrev half_unlinked : Node
  half_unlinked = record { next = none; prev = last_of none xs; order = c.1 }

  abbrev unlinked_node : Node
  unlinked_node = record { next = none; prev = none; order = c.1 }

  abbrev h₃ : Heap
  h₃ = put_node c.0 (some half_unlinked) behind_it.heap

  abbrev h₄ : Heap
  h₄ = put_node c.0 (some unlinked_node) h₃

  abbrev finish : Heap → Option Heap
  finish h₂ = do h₃ ← set_next c.0 none h₂; set_prev c.0 none h₃

  abbrev unlink : Heap → Option Heap
  unlink h₁ = do m ← h₁.node c.0; h₂ ← link_prev m.next m.prev h₁; finish h₂

  remove_node-h₄ : remove_node c.0 h ≡ some h₄
  unfolding remove_node
  remove_node-h₄ =
      bind-some (h.node c.0) old (λ n. link_next n.prev n.next h >>= unlink) split.1.0
      ∙ bind-some (link_next (last_of none xs) (first_of ys none) h) before_it.heap unlink
          before_it.done
      ∙ bind-some ((before_it.heap).node c.0) old
          (λ m. link_prev m.next m.prev before_it.heap >>= finish) at₁
      ∙ bind-some (link_prev (first_of ys none) (last_of none xs) before_it.heap) behind_it.heap
          finish behind_it.done
      ∙ bind-some (set_next c.0 none behind_it.heap) h₃ (set_prev c.0 none)
          (set_next_lem behind_it.heap c.0 none old at₂)
      ∙ set_prev_lem h₃ c.0 none half_unlinked
          (update_self (behind_it.heap).node c.0 (some half_unlinked))

  -- A piece of `h₂` without the node is one of `h₄`.
  kept :
      (before : Option ℕ) (cs : List Cell) (end : Option ℕ)
      → Fresh c.0 cs
      → Piece (behind_it.heap).node before cs end
      → Piece h₄.node before cs end
  kept before cs end fresh piece =
      Piece-frame h₃.node c.0 (some unlinked_node) before cs end fresh
        (Piece-frame (behind_it.heap).node c.0 (some half_unlinked) before cs end fresh piece)

  h₄-Stands : Stands h₄ (xs ++ ys)
  h₄-Stands = record {
    head = behind_it.at_head ∙ before_it.at_head ∙ sym (first_of-append xs ys none);
    piece =
        Piece-append h₄.node none xs ys none
          (kept none xs (first_of ys none) apart.0 (
            Piece-same (before_it.heap).node (behind_it.heap).node none xs (first_of ys none)
              (untouched before_it.heap behind_it.heap ys xs behind_it.same
                (Apart-sym ys xs apart.1))
              before_it.piece))
          (kept (last_of none xs) ys none parts.1.0 behind_it.piece);
    distinct = Distinct-append xs ys parts.0 parts.1.1 (Apart-sym ys xs apart.1);
  }

  -- removeNode, at a node of a doubly linked queue, succeeds, leaves the queue of all other nodes, in
  -- their order and linked both ways, clears the two pointers of the node, and writes nothing
  -- outside of the queue.
  pub remove_node-Removed : Removed h xs c ys (remove_node c.0 h)
  remove_node-Removed = record {
    heap = h₄;
    done = remove_node-h₄;
    stands = h₄-Stands;
    unlinked = update_self h₃.node c.0 (some unlinked_node);
    same = λ q fresh.
        let f = All-split (λ c. c.0 ≢ q) xs (c ∷ ys) fresh in
        update_ne h₃.node c.0 q (some unlinked_node) f.1.0
        ∙ update_ne (behind_it.heap).node c.0 q (some half_unlinked) f.1.0
        ∙ behind_it.same q f.1.1
        ∙ before_it.same q f.0;
  }

-- The memory of a node outside of a queue is given back.
pub free-Stands :
    (h : Heap) (p : ℕ) (cs : List Cell) → Fresh p cs → Stands h cs → Stands (free p h) cs
free-Stands h p cs fresh stands = record {
  head = stands.head;
  piece = Piece-frame h.node p none none cs none fresh stands.piece;
  distinct = stands.distinct;
}

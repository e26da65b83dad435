-- ===== src/Queue/Links.antt =====
-- The two links past a node of a queue, written.
use the_socket_exchange.Prelude.{
  ℕ, ◌≡◌, ◌≢◌, refl, sym, subst, ◌∙◌, inl, inr, List, [], ◌∷◌, ◌++◌, Option, none, some, All-split,
}
use the_socket_exchange.Queue.{
  Node, Heap, update, put_node, set_head, set_next, set_prev, link_next, link_prev,
}
use the_socket_exchange.Queue.Shape.{
  Cell, first_of, last_of, Piece, Fresh, Distinct, update_self, update_ne, Piece-frame,
  first_of-append, Piece-append, Piece-split, Apart-sym, Distinct-split, snoc-cases, last_of-snoc,
  bind-some,
}

pub set_next_lem :
    (h : Heap) (p : ℕ) (v : Option ℕ) (n : Node)
    → h.node p ≡ some n
    → set_next p v h ≡ some (put_node p (some (record n { next = v })) h)
unfolding set_next
set_next_lem h p v n e =
    bind-some (h.node p) n (λ n. some (put_node p (some (record n { next = v })) h)) e

pub set_prev_lem :
    (h : Heap) (p : ℕ) (v : Option ℕ) (n : Node)
    → h.node p ≡ some n
    → set_prev p v h ≡ some (put_node p (some (record n { prev = v })) h)
unfolding set_prev
set_prev_lem h p v n e =
    bind-some (h.node p) n (λ n. some (put_node p (some (record n { prev = v })) h)) e

-- What the write leaves of a piece, of all other nodes, and of the head.
pub record Links (h : Heap) (cs : List Cell) (r : Option Heap) (before end head : Option ℕ)
    : Type 0 where
  pub heap : Heap
  pub done : r ≡ some heap
  pub piece : Piece heap.node before cs end
  pub same : (q : ℕ) → Fresh q cs → heap.node q ≡ h.node q
  pub at_head : heap.head ≡ head

-- A queue whose last cell is known.
link_last :
    (h : Heap) (zs : List Cell) (l : Cell) (end v : Option ℕ)
    → h.head ≡ first_of (zs ++ l ∷ []) end
    → Piece h.node none (zs ++ l ∷ []) end
    → Distinct (zs ++ l ∷ [])
    → Links h
        (zs ++ l ∷ [])
        (link_next (last_of none (zs ++ l ∷ [])) v h)
        none
        v
        (first_of (zs ++ l ∷ []) v)
link_last h zs l end v head piece distinct =
    let split = Piece-split h.node none zs (l ∷ []) end piece in
    let apart = Apart-sym zs (l ∷ []) (Distinct-split zs (l ∷ []) distinct).2 in
    let old : Node = record { next = end; prev = last_of none zs; order = l.1 } in
    let new : Node = record { next = v; prev = last_of none zs; order = l.1 } in
    record {
      heap = put_node l.0 (some new) h;
      done = rw (last_of-snoc none zs l) (set_next_lem h l.0 v old split.1.0);
      piece =
          Piece-append (update h.node l.0 (some new)) none zs (l ∷ []) v
            (Piece-frame h.node l.0 (some new) none zs (some l.0) apart.0 split.0)
            (update_self h.node l.0 (some new), tt);
      same = λ q fresh.
          update_ne h.node l.0 q (some new) (All-split (λ c. c.0 ≢ q) zs (l ∷ []) fresh).1.0;
      at_head = head ∙ first_of-append zs (l ∷ []) end ∙ sym (first_of-append zs (l ∷ []) v);
    }

-- The last cell of a queue gets a new `next`, or the head if there is no cell.
pub link_next-Links :
    (h : Heap) (cs : List Cell) (end v : Option ℕ)
    → h.head ≡ first_of cs end
    → Piece h.node none cs end
    → Distinct cs
    → Links h cs (link_next (last_of none cs) v h) none v (first_of cs v)
link_next-Links h cs end v = elim (snoc-cases cs) [
  | inl e ↦ subst Goal (sym e) (λ head piece distinct. record {
    heap = set_head v h;
    done = refl;
    piece = tt;
    same = λ q fresh. refl;
    at_head = refl;
  })
  | inr (zs, l, e) ↦ subst Goal (sym e) (link_last h zs l end v)
]
  where
    Goal : List Cell → Type 0
    Goal cs =
        h.head ≡ first_of cs end
        → Piece h.node none cs end
        → Distinct cs
        → Links h cs (link_next (last_of none cs) v h) none v (first_of cs v)

-- The first cell of the rest of a queue gets a new `prev`.
pub link_prev-Links :
    (h : Heap) (cs : List Cell) (before v : Option ℕ)
    → Piece h.node before cs none
    → Distinct cs
    → Links h cs (link_prev (first_of cs none) v h) v none h.head
link_prev-Links h [] before v piece distinct = record {
  heap = h;
  done = refl;
  piece = tt;
  same = λ q fresh. refl;
  at_head = refl;
}
link_prev-Links h (c ∷ cs) before v piece distinct =
    let old : Node = record { next = first_of cs none; prev = before; order = c.1 } in
    let new : Node = record { next = first_of cs none; prev = v; order = c.1 } in
    record {
      heap = put_node c.0 (some new) h;
      done = set_prev_lem h c.0 v old piece.0;
      piece = (
        update_self h.node c.0 (some new),
        Piece-frame h.node c.0 (some new) (some c.0) cs none distinct.0 piece.1,
      );
      same = λ q fresh. update_ne h.node c.0 q (some new) fresh.0;
      at_head = refl;
    }

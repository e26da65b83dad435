-- ===== src/Queue/Shape.antt =====
-- A doubly linked queue in memory, and the list that it stands for.
use the_socket_exchange.Prelude.{
  ℕ, ◌≡◌, ◌≢◌, refl, sym, ap, ◌∙◌, ◌⊎◌, inl, inr, true, false, All-split, List, [], ◌∷◌, ◌++◌,
  Option, none, some, map, arith, All, All-append, ◌==◌,
}
use the_socket_exchange.Book.{Order}
use the_socket_exchange.Queue.{Node, Heap, update, ◌>>=◌, put_node}

-- A pointer, and the order that lies there.
abbrev pub Cell : Type 0
Cell = ℕ × Order

abbrev pub orders : List Cell → List Order
orders = map (λ c. c.1)

-- The pointer to the first cell, or what follows if there is none.
abbrev pub first_of : List Cell → Option ℕ → Option ℕ
first_of [] end = end
first_of (c ∷ cs) end = some c.0

-- The pointer to the last cell, or what came before.
abbrev pub last_of : Option ℕ → List Cell → Option ℕ
last_of before [] = before
last_of before (c ∷ cs) = last_of (some c.0) cs

-- A piece of a queue: what the first cell's `prev` and the last cell's `next` are.
abbrev pub Piece : (ℕ → Option Node) → Option ℕ → List Cell → Option ℕ → Type 0
Piece node before [] end = Unit
Piece node before (c ∷ cs) end =
    (node c.0 ≡ some (record { next = first_of cs end; prev = before; order = c.1 }))
    × Piece node (some c.0) cs end

abbrev pub Fresh : ℕ → List Cell → Type 0
Fresh p = All (λ c. c.0 ≢ p)

abbrev pub Distinct : List Cell → Type 0
Distinct [] = Unit
Distinct (c ∷ cs) = Fresh c.0 cs × Distinct cs

-- The queue of a heap, as a list of cells.
pub record Stands (h : Heap) (cs : List Cell) : Type 0 where
  pub head : h.head ≡ first_of cs none
  pub piece : Piece h.node none cs none
  pub distinct : Distinct cs

pub update_self : (node : ℕ → Option Node) (p : ℕ) (x : Option Node) → update node p x p ≡ x
update_self node p x = let e : (p == p) ≡ true = ground arith in rw e refl

pub update_ne :
    (node : ℕ → Option Node) (p q : ℕ) (x : Option Node) → p ≢ q → update node p x q ≡ node q
update_ne node p q x ne = let e : (p == q) ≡ false = ground arith in rw e refl

-- A write outside of a piece.
pub Piece-frame :
    (node : ℕ → Option Node) (p : ℕ) (x : Option Node) (before : Option ℕ) (cs : List Cell)
    (end : Option ℕ)
    → Fresh p cs
    → Piece node before cs end
    → Piece (update node p x) before cs end
Piece-frame node p x before [] end fresh piece = tt
Piece-frame node p x before (c ∷ cs) end fresh piece = (
  update_ne node p c.0 x (λ e. fresh.0 (sym e)) ∙ piece.0,
  Piece-frame node p x (some c.0) cs end fresh.1 piece.1,
)

pub first_of-append :
    (xs ys : List Cell) (end : Option ℕ) → first_of (xs ++ ys) end ≡ first_of xs (first_of ys end)
first_of-append [] ys end = refl
first_of-append (x ∷ xs) ys end = refl

pub Piece-append :
    (node : ℕ → Option Node) (before : Option ℕ) (xs ys : List Cell) (end : Option ℕ)
    → Piece node before xs (first_of ys end)
    → Piece node (last_of before xs) ys end
    → Piece node before (xs ++ ys) end
Piece-append node before [] ys end p q = q
Piece-append node before (x ∷ xs) ys end p q =
    (rw (first_of-append xs ys end) p.0, Piece-append node (some x.0) xs ys end p.1 q)

pub Piece-split :
    (node : ℕ → Option Node) (before : Option ℕ) (xs ys : List Cell) (end : Option ℕ)
    → Piece node before (xs ++ ys) end
    → Piece node before xs (first_of ys end) × Piece node (last_of before xs) ys end
Piece-split node before [] ys end p = (tt, p)
Piece-split node before (x ∷ xs) ys end p =
    let rest = Piece-split node (some x.0) xs ys end p.1 in
    ((rw (first_of-append xs ys end) at p.0, rest.0), rest.1)

-- No pointer of the one list is in the other.
abbrev pub Apart : List Cell → List Cell → Type 0
Apart xs ys = All (λ x. Fresh x.0 ys) xs

Apart-cons :
    (xs : List Cell) (y : Cell) (ys : List Cell) → Fresh y.0 xs → Apart xs ys → Apart xs (y ∷ ys)
Apart-cons [] y ys fresh apart = tt
Apart-cons (x ∷ xs) y ys fresh apart =
    ((λ e. fresh.0 (sym e), apart.0), Apart-cons xs y ys fresh.1 apart.1)

Apart-nil : (xs : List Cell) → Apart xs []
Apart-nil [] = tt
Apart-nil (x ∷ xs) = (tt, Apart-nil xs)

pub Apart-sym : (xs ys : List Cell) → Apart xs ys → Apart ys xs
Apart-sym [] ys apart = Apart-nil ys
Apart-sym (x ∷ xs) ys apart = Apart-cons ys x xs apart.0 (Apart-sym xs ys apart.1)

pub Distinct-split :
    (xs ys : List Cell) → Distinct (xs ++ ys) → Distinct xs × Distinct ys × Apart xs ys
Distinct-split [] ys d = (tt, d, tt)
Distinct-split (x ∷ xs) ys d =
    let fresh = All-split (λ c. c.0 ≢ x.0) xs ys d.0 in
    let rest = Distinct-split xs ys d.1 in ((fresh.0, rest.0), rest.1, (fresh.1, rest.2))

pub Distinct-append :
    (xs ys : List Cell) → Distinct xs → Distinct ys → Apart xs ys → Distinct (xs ++ ys)
Distinct-append [] ys dx dy apart = dy
Distinct-append (x ∷ xs) ys dx dy apart =
    (All-append (λ c. c.0 ≢ x.0) xs ys dx.0 apart.0, Distinct-append xs ys dx.1 dy apart.1)

-- A piece whose nodes another memory has too.
pub Piece-same :
    (node node' : ℕ → Option Node) (before : Option ℕ) (cs : List Cell) (end : Option ℕ)
    → All (λ c. node' c.0 ≡ node c.0) cs
    → Piece node before cs end
    → Piece node' before cs end
Piece-same node node' before [] end same piece = tt
Piece-same node node' before (c ∷ cs) end same piece =
    (same.0 ∙ piece.0, Piece-same node node' (some c.0) cs end same.1 piece.1)

-- A list is empty or has a last element.
pub snoc-cases :
    (cs : List Cell) → (cs ≡ []) ⊎ ((zs : List Cell) × (l : Cell) × (cs ≡ zs ++ l ∷ []))
snoc-cases [] = inl refl
snoc-cases (c ∷ cs) = elim (snoc-cases cs) [
  | inl e ↦ inr ([], c, ap (λ t. c ∷ t) e)
  | inr (zs, l, e) ↦ inr (c ∷ zs, l, ap (λ t. c ∷ t) e)
]

pub last_of-snoc :
    (before : Option ℕ) (zs : List Cell) (l : Cell) → last_of before (zs ++ l ∷ []) ≡ some l.0
last_of-snoc before [] l = refl
last_of-snoc before (z ∷ zs) l = last_of-snoc (some z.0) zs l

pub bind-some :
    {A B : Type 0} (m : Option A) (a : A) (k : A → Option B) → m ≡ some a → (m >>= k) ≡ k a
bind-some m a k e = rw e refl

-- The node at one place of a queue.
pub stood :
    (h : Heap) (xs : List Cell) (c : Cell) (ys : List Cell)
    → Stands h (xs ++ c ∷ ys)
    → h.node c.0 ≡ some (record { next = first_of ys none; prev = last_of none xs; order = c.1 })
stood h xs c ys stands = (Piece-split h.node none xs (c ∷ ys) none stands.piece).1.0

-- A node of a queue gets other contents, between the same neighbours.
pub put-Stands :
    (h : Heap) (xs : List Cell) (c : Cell) (ys : List Cell) (o : Order)
    → Stands h (xs ++ c ∷ ys)
    → Stands
        (put_node c.0
          (some (record { next = first_of ys none; prev = last_of none xs; order = o }))
          h)
        (xs ++ (c.0, o) ∷ ys)
put-Stands h xs c ys o stands =
    let new : Node = record { next = first_of ys none; prev = last_of none xs; order = o } in
    let split = Piece-split h.node none xs (c ∷ ys) none stands.piece in
    let parts = Distinct-split xs (c ∷ ys) stands.distinct in
    record {
      head =
          stands.head
          ∙ first_of-append xs (c ∷ ys) none
          ∙ sym (first_of-append xs ((c.0, o) ∷ ys) none);
      piece =
          Piece-append (update h.node c.0 (some new)) none xs ((c.0, o) ∷ ys) none
            (Piece-frame h.node c.0 (some new) none xs (some c.0) (Apart-sym xs (c ∷ ys) parts.2).0
              split.0)
            (
              update_self h.node c.0 (some new),
              Piece-frame h.node c.0 (some new) (some c.0) ys none parts.1.0 split.1.1,
            );
      distinct = Distinct-append xs ((c.0, o) ∷ ys) parts.0 parts.1 parts.2;
    }

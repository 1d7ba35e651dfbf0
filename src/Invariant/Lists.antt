-- ===== src/Invariant/Lists.antt =====
-- A list of addresses whose items are live and have distinct ids, and the search for an id in it.
use native.Mathlib.Decide.{ℕ_discrete}
use linux_fibers.Common.{
  ℕ, ◌≡◌, ◌≢◌, refl, sym, ap, subst, ◌∙◌, ◌⊎◌, inl, inr, Option, some, List, [], ◌∷◌, ◌++◌, All,
  All-mono,
}
use linux_fibers.Kernel.{Ptr, null}

module _ {A : Type 0} where
  -- `q` is live, is not at `p`, and has another id than `i`.
  pub record Other (h : Ptr → Option A) (id : A → ℕ) (i : ℕ) (q : Ptr) : Type 0 where
    pub ne_null : q ≢ null
    pub item : A
    pub stored : h q ≡ some item
    pub ne_id : id item ≢ i

  abbrev pub Listed : (Ptr → Option A) → (A → ℕ) → List Ptr → Type 0
  Listed h id [] = Unit
  Listed h id (p ∷ ps) =
      (p ≢ null) × ((a : A) × (h p ≡ some a) × All (Other h id (id a)) ps) × Listed h id ps

  -- An item found in the list: what stands before and behind it has other ids.
  pub record Found (h : Ptr → Option A) (id : A → ℕ) (i : ℕ) (ps : List Ptr) : Type 0 where
    pub left : List Ptr
    pub at : Ptr
    pub right : List Ptr
    pub item : A
    pub split : ps ≡ left ++ at ∷ right
    pub ne_null : at ≢ null
    pub stored : h at ≡ some item
    pub named : id item ≡ i
    pub others_left : All (Other h id i) left
    pub others_right : All (Other h id i) right

  pub search_list :
      (h : Ptr → Option A) (id : A → ℕ) (i : ℕ) (ps : List Ptr)
      → Listed h id ps
      → Found h id i ps ⊎ All (Other h id i) ps
  search_list h id i [] l = inr tt
  search_list h id i (p ∷ ps) l = elim (ℕ_discrete (id l.1.0) i) [
    | yes e ↦ inl (record {
      left = [];
      at = p;
      right = ps;
      item = l.1.0;
      split = refl;
      ne_null = l.0;
      stored = l.1.1;
      named = e;
      others_left = tt;
      others_right = subst (λ j. All (Other h id j) ps) e l.1.2;
    })
    | no ne ↦
        let here : Other h id i p = record {
          ne_null = l.0;
          item = l.1.0;
          stored = l.1.1;
          ne_id = ne;
        } in
        elim (search_list h id i ps l.2) [
          | inl f ↦ inl (record {
            left = p ∷ f.left;
            at = f.at;
            right = f.right;
            item = f.item;
            split = ap (λ qs. p ∷ qs) f.split;
            ne_null = f.ne_null;
            stored = f.stored;
            named = f.named;
            others_left = (here, f.others_left);
            others_right = f.others_right;
          })
          | inr o ↦ inr (here, o)
        ]
  ]

  -- A store that keeps every item live, with its id.
  abbrev pub KeepsIds : (id : A → ℕ) → (h h' : Ptr → Option A) → Type 0
  KeepsIds id h h' = (p : Ptr) (a : A) → h p ≡ some a → (b : A) × (h' p ≡ some b) × (id b ≡ id a)

  module _ (id : A → ℕ) (h h' : Ptr → Option A) (keeps : KeepsIds id h h') where
    pub Other-keeps : (i : ℕ) (q : Ptr) → Other h id i q → Other h' id i q
    Other-keeps i q o =
        let (b, e, same) = keeps q o.item o.stored in
        record { ne_null = o.ne_null; item = b; stored = e; ne_id = λ e'. o.ne_id (sym same ∙ e') }

    pub Listed-keeps : (ps : List Ptr) → Listed h id ps → Listed h' id ps
    Listed-keeps [] l = tt
    Listed-keeps (p ∷ ps) l =
        let (b, e, same) = keeps p l.1.0 l.1.1 in
        (
          l.0,
          (
            b,
            e,
            subst (λ j. All (Other h' id j) ps) (sym same)
                (All-mono ps (Other-keeps (id l.1.0)) l.1.2),
          ),
          Listed-keeps ps l.2,
        )

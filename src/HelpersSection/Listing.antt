-- ===== src/HelpersSection/Listing.antt =====
-- The nodes of the inventory by cluster, `nodesByHost` of web/src/components/HelpersSection.tsx.
use prox_back.Prelude.{
  ◌≡◌, sym, subst, ◌∙◌, true, List, [], ◌∷◌, ◌++◌, any, map, if◌then◌else◌, ◌⊎◌, ◌↔◌, inl, inr, All,
  Among, Bool-cases, arith, All-Among, All-within, All_of_Among,
}
use prox_back.Js.Text.{Text, same_text}
use prox_back.Js.Text.Equality.{eq_of_same_text}
use prox_back.Js.Order.{sort_by}
use prox_back.Js.Order.Kept.{Among-sort_by, All-sort_by}
use prox_back.Api.Inventory.{CachedVm}
use prox_back.HelpersSection.{push_node, nodes_from, text_follows, object_entries, nodes_by_host}

-- A machine of the inventory is on that node of that cluster.
abbrev pub IsInventoried : Text → Text → List CachedVm → Type 0
IsInventoried host node [] = ⊥
IsInventoried host node (vm ∷ vms) =
    ((vm.host_id ≡ host) × (vm.node ≡ node)) ⊎ IsInventoried host node vms

abbrev pub Listed : Text → Text → List (Text × List Text) → Type 0
Listed host node [] = ⊥
Listed host node (e ∷ es) = ((e.0 ≡ host) × Among node e.1) ⊎ Listed host node es

-- A node that is pushed is listed, with what was listed before.
Among-last :
    (node other : Text) (xs : List Text)
    → Among node (xs ++ (other ∷ [])) ↔ (Among node xs ⊎ (node ≡ other))
Among-last node other [] = ground arith
Among-last node other (x ∷ xs) = ground (arith, Among-last node other xs)

Among_of_any : (other : Text) (xs : List Text) → any (same_text other) xs ≡ true → Among other xs
Among_of_any other [] e = cc
Among_of_any other (x ∷ xs) e = elim (Bool-cases (same_text other x)) [
  | inl k ↦ inl (eq_of_same_text other x k)
  | inr k ↦ inr (Among_of_any other xs (ground (arith, k, e)))
]

Among-pushed :
    (node other : Text) (xs : List Text)
    → Among node (if any (same_text other) xs then xs else xs ++ (other ∷ []))
      ↔ (Among node xs ⊎ (node ≡ other))
Among-pushed node other xs = elim (Bool-cases (any (same_text other) xs)) [
  | inl e ↦ rw e (inl, known e)
  | inr e ↦ rw e (Among-last node other xs)
]
  where
    known : any (same_text other) xs ≡ true → Among node xs ⊎ (node ≡ other) → Among node xs
    known e (inl h) = h
    known e (inr h) = rw h (Among_of_any other xs e)

shift_sums : {A B C D E : Type 0} → A ↔ (B ⊎ C) → B ↔ (D ⊎ E) → A ↔ (E ⊎ (D ⊎ C))
shift_sums {A = A} {B = B} {C = C} {D = D} {E = E} f g = ((λ a. forth (f.0 a)), back)
  where
    inner : D ⊎ E → E ⊎ (D ⊎ C)
    inner (inl d) = inr (inl d)
    inner (inr e) = inl e

    forth : B ⊎ C → E ⊎ (D ⊎ C)
    forth (inl b) = inner (g.0 b)
    forth (inr c) = inr (inr c)

    back : E ⊎ (D ⊎ C) → A
    back (inl e) = f.1 (inl (g.1 (inr e)))
    back (inr (inl d)) = f.1 (inl (g.1 (inl d)))
    back (inr (inr c)) = f.1 (inr c)

swap_sums : {A B C D : Type 0} → A ↔ (B ⊎ C) → (D ⊎ A) ↔ (B ⊎ (D ⊎ C))
swap_sums {A = A} {B = B} {C = C} {D = D} f = (forth, back)
  where
    outer : B ⊎ C → B ⊎ (D ⊎ C)
    outer (inl b) = inl b
    outer (inr c) = inr (inr c)

    forth : D ⊎ A → B ⊎ (D ⊎ C)
    forth (inl d) = inr (inl d)
    forth (inr a) = outer (f.0 a)

    back : B ⊎ (D ⊎ C) → D ⊎ A
    back (inl b) = inr (f.1 (inl b))
    back (inr (inl d)) = inl d
    back (inr (inr c)) = inr (f.1 (inr c))

Listed-push_node :
    (host node at other : Text) (es : List (Text × List Text))
    → Listed host node (push_node at other es)
      ↔ (((at ≡ host) × (other ≡ node)) ⊎ Listed host node es)
unfolding push_node
Listed-push_node host node at other [] = (forth, back)
  where
    forth :
        Listed host node ((at, other ∷ []) ∷ [])
        → ((at ≡ host) × (other ≡ node)) ⊎ Listed host node []
    forth (inl (p, inl q)) = inl (p, sym q)
    forth (inl (p, inr a)) = absurd a
    forth (inr a) = absurd a

    back :
        ((at ≡ host) × (other ≡ node)) ⊎ Listed host node []
        → Listed host node ((at, other ∷ []) ∷ [])
    back (inl (p, q)) = inl (p, inl (sym q))
    back (inr a) = absurd a
Listed-push_node host node at other (e ∷ es) = elim (Bool-cases (same_text e.0 at)) [
  | inl k ↦ rw k (here (eq_of_same_text e.0 at k), back (eq_of_same_text e.0 at k))
  | inr k ↦ rw k (swap_sums (Listed-push_node host node at other es))
]
  where
    pushed : List Text
    pushed = if any (same_text other) e.1 then e.1 else e.1 ++ (other ∷ [])

    here :
        e.0 ≡ at
        → Listed host node ((e.0, pushed) ∷ es)
        → ((at ≡ host) × (other ≡ node)) ⊎ Listed host node (e ∷ es)
    here k (inr l) = inr (inr l)
    here k (inl (p, c)) = elim ((Among-pushed node other e.1).0 c) [
      | inl d ↦ inr (inl (p, d))
      | inr q ↦ inl (sym k ∙ p, sym q)
    ]

    back :
        e.0 ≡ at
        → ((at ≡ host) × (other ≡ node)) ⊎ Listed host node (e ∷ es)
        → Listed host node ((e.0, pushed) ∷ es)
    back k (inl (p, q)) = inl (k ∙ p, (Among-pushed node other e.1).1 (inr (sym q)))
    back k (inr (inl (p, d))) = inl (p, (Among-pushed node other e.1).1 (inl d))
    back k (inr (inr l)) = inr l

-- What is listed in the end was listed at first or is inventoried.
Listed-nodes_from :
    (host node : Text) (es : List (Text × List Text)) (vms : List CachedVm)
    → Listed host node (nodes_from es vms) ↔ (Listed host node es ⊎ IsInventoried host node vms)
unfolding nodes_from
Listed-nodes_from host node es [] = (inl, λ h. elim h [ inl l ↦ l | inr a ↦ absurd a ])
Listed-nodes_from host node es (vm ∷ vms) =
    shift_sums (Listed-nodes_from host node (push_node vm.host_id vm.node es) vms)
      (Listed-push_node host node vm.host_id vm.node es)

map_sums : {A B C D : Type 0} → (A → B) → (C → D) → A ⊎ C → B ⊎ D
map_sums f g (inl a) = inl (f a)
map_sums f g (inr c) = inr (g c)

Among_of_sorted :
    (node : Text) (xs : List Text) → Among node (sort_by text_follows xs) → Among node xs
Among_of_sorted node xs h =
    All_of_Among (λ x. Among x xs) node (sort_by text_follows xs)
      (All-sort_by text_follows (λ x. Among x xs) xs (All-Among xs)) h

Listed-sorted :
    (host node : Text) (es : List (Text × List Text))
    → Listed host node (map (λ e. (e.0, sort_by text_follows e.1)) es) ↔ Listed host node es
Listed-sorted host node [] = ((λ h. h), (λ h. h))
Listed-sorted host node (e ∷ es) = (
  map_sums (λ h. (h.0, Among_of_sorted node e.1 h.1)) (Listed-sorted host node es).0,
  map_sums (λ h. (h.0, Among-sort_by text_follows node e.1 h.1)) (Listed-sorted host node es).1,
)

-- Sorting the entries by their keys keeps what is listed.
found_within :
    (host node : Text) (e : Text × List Text) (all : List (Text × List Text))
    → Among e all
    → (e.0 ≡ host) × Among node e.1
    → Listed host node all
found_within host node e [] h l = absurd h
found_within host node e (f ∷ all) (inl k) l = inl (subst (λ g. (g.0 ≡ host) × Among node g.1) k l)
found_within host node e (f ∷ all) (inr h) l = inr (found_within host node e all h l)

Listed-within :
    (host node : Text) (es all : List (Text × List Text))
    → All (λ e. Among e all) es
    → Listed host node es
    → Listed host node all
Listed-within host node [] all h l = absurd l
Listed-within host node (e ∷ es) all h (inl l) = found_within host node e all h.0 l
Listed-within host node (e ∷ es) all h (inr l) = Listed-within host node es all h.1 l

pub Listed-object_entries :
    (host node : Text) (es : List (Text × List Text))
    → Listed host node (object_entries es) ↔ Listed host node es
unfolding object_entries
Listed-object_entries host node es = (
  Listed-within host node _ es (All-sort_by _ (λ e. Among e es) es (All-Among es)),
  Listed-within host node es _ (All-within es _ (λ e h. Among-sort_by _ e es h)),
)

pub Listed-nodes_by_host :
    (host node : Text) (vms : List CachedVm)
    → Listed host node (nodes_by_host vms) ↔ IsInventoried host node vms
unfolding nodes_by_host
Listed-nodes_by_host host node vms =
    let sorted = Listed-sorted host node (nodes_from [] vms) in
    let known = Listed-nodes_from host node [] vms in
    (
      (λ l. elim (known.0 (sorted.0 l)) [ inl a ↦ absurd a | inr k ↦ k ]),
      (λ k. sorted.1 (known.1 (inr k))),
    )

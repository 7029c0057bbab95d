-- ===== src/Console/CommandRouter/Tree.antt =====
-- The menus of plugins/ui-console/src/console/CommandRouter.cpp form a tree, whatever is added.
use a_social.Base.{
  ℕ, zero, suc, ◌+◌, ◌<◌, ◌≤◌, ◌≡◌, ◌≢◌, ◌⊎◌, inl, inr, refl, sym, ap, ◌∙◌, arith, Option, none,
  some, List, [], ◌∷◌, ◌++◌, Text, text_eq, text_eq_refl, length, get_elem?, set, ltb, ◌==◌, subst,
  Bool-cases, Option-cases, some-injective, length-append, get_elem?-set_self, get_elem?-set_ne,
}
use a_social.Console.CommandRouter.{
  Node, Children, CommandRouter, root, find, insert, child_of, parent_of, child_in, parent_in,
  resolve_parts, resolve_menu, split_path, or_root, add_node, add_at, freed_by, add_menu,
  add_command, handler_of, handler_in,
}

-- A child lies behind its parent and points back to it; each node but the root has a parent.
pub record IsTree (ns : List Node) : Type 0 where
  pub root_exists : 0 < length ns
  pub root_on_top : parent_of ns root ≡ none
  pub child_below :
      (i : ℕ) (name : Text) (c : ℕ)
      → child_of ns i name ≡ some c
      → (i < c) × (c < length ns) × (parent_of ns c ≡ some i)
  pub parent_above :
      (i : ℕ) → i < length ns → i ≢ root → (p : ℕ) × (parent_of ns i ≡ some p) × (p < i)

pub record IsValid (r : CommandRouter) : Type 0 where
  pub tree : IsTree r.nodes
  pub current_exists : r.current < length r.nodes

module _ {A : Type 0} where
  length-set : (xs : List A) (i : ℕ) (v : A) → length (set xs i v) ≡ length xs
  length-set [] i v = refl
  length-set (x ∷ xs) zero v = refl
  length-set (x ∷ xs) (suc i) v = ap suc (length-set xs i v)

  pub get_elem?_below : (xs : List A) (i : ℕ) → i < length xs → (a : A) × (get_elem? xs i ≡ some a)
  get_elem?_below [] i h = absurd (omega arith)
  get_elem?_below (x ∷ xs) zero h = (x, refl)
  get_elem?_below (x ∷ xs) (suc i) h = get_elem?_below xs i (omega arith)

  get_elem?-append_below :
      (xs ys : List A) (i : ℕ) → i < length xs → get_elem? (xs ++ ys) i ≡ get_elem? xs i
  get_elem?-append_below [] ys i h = absurd (omega arith)
  get_elem?-append_below (x ∷ xs) ys zero h = refl
  get_elem?-append_below (x ∷ xs) ys (suc i) h = get_elem?-append_below xs ys i (omega arith)

  get_elem?-append_last : (xs : List A) (y : A) → get_elem? (xs ++ y ∷ []) (length xs) ≡ some y
  get_elem?-append_last [] y = refl
  get_elem?-append_last (x ∷ xs) y = get_elem?-append_last xs y

  get_elem?_beyond : (xs : List A) (i : ℕ) → length xs ≤ i → get_elem? xs i ≡ none
  get_elem?_beyond [] i h = refl
  get_elem?_beyond (x ∷ xs) zero h = absurd (omega arith)
  get_elem?_beyond (x ∷ xs) (suc i) h = get_elem?_beyond xs i (omega arith)

  pub below-get_elem? : (xs : List A) (i : ℕ) (a : A) → get_elem? xs i ≡ some a → i < length xs
  below-get_elem? [] i a h = cc
  below-get_elem? (x ∷ xs) zero a h = omega arith
  below-get_elem? (x ∷ xs) (suc i) a h = omega (arith, below-get_elem? xs i a h)

none≢some : (c : ℕ) → ◌≡◌ {A = Option ℕ} none (some c) → ⊥
none≢some c h = cc

find-insert :
    (name other : Text) (c d : ℕ) (cs : Children)
    → find name (insert other c cs) ≡ some d
    → (d ≡ c) ⊎ (find name cs ≡ some d)
unfolding find insert
find-insert name other c d [] h = elim (Bool-cases (text_eq other name)) [
  | inl same ↦ inl (sym (some-injective (rw same at h)))
  | inr differs ↦ inr (rw differs at h)
]
find-insert name other c d ((n, e) ∷ cs) h = elim (Bool-cases (text_eq n other)) [
  | inl replaced ↦ elim (Bool-cases (text_eq n name)) [
    | inl same ↦ inl (sym (some-injective (rw (replaced, same) at h)))
    | inr differs ↦ inr (rw differs (rw (replaced, differs) at h))
  ]
  | inr kept ↦ elim (Bool-cases (text_eq n name)) [
    | inl same ↦ inr (rw same (rw (kept, same) at h))
    | inr differs ↦ rw differs (find-insert name other c d cs (rw (kept, differs) at h))
  ]
]

-- A store in which the node `p` has one more child, which is the last node.
module _ (ns : List Node) (p : ℕ) (old new child : Node) (at_p : get_elem? ns p ≡ some old)
    (same : new.parent ≡ old.parent) where
  abbrev grown : List Node
  grown = set ns p new ++ child ∷ []

  p_below : p < length ns
  p_below = below-get_elem? ns p old at_p

  length-grown : length grown ≡ length ns + 1
  length-grown = length-append (set ns p new) (child ∷ []) ∙ ap (λ n. n + 1) (length-set ns p new)

  grown_self : get_elem? grown p ≡ some new
  grown_self =
      get_elem?-append_below (set ns p new) (child ∷ []) p
        (omega (arith, p_below, length-set ns p new))
      ∙ get_elem?-set_self ns p old new at_p

  grown_other : (i : ℕ) → i < length ns → p ≢ i → get_elem? grown i ≡ get_elem? ns i
  grown_other i h ne =
      get_elem?-append_below (set ns p new) (child ∷ []) i (omega (arith, h, length-set ns p new))
      ∙ get_elem?-set_ne ns p i new ne

  grown_last : get_elem? grown (length ns) ≡ some child
  grown_last =
      ap (get_elem? grown) (sym (length-set ns p new)) ∙ get_elem?-append_last (set ns p new) child

  parent_of-grown : (i : ℕ) → i < length ns → parent_of grown i ≡ parent_of ns i
  parent_of-grown i h = elim (Bool-cases (p == i)) [
    | inl e ↦
        let q : p ≡ i = ground arith in
        subst (λ j. parent_of grown j ≡ parent_of ns j) q
          (ap parent_in grown_self ∙ same ∙ sym (ap parent_in at_p))
    | inr ne ↦ ap parent_in (grown_other i h (λ e. ground arith))
  ]

  no_child :
      child.children ≡ [] → (i : ℕ) (other : Text) → length ns ≤ i → child_of grown i other ≡ none
  unfolding find
  no_child leaf i other h = elim (Bool-cases (i == length ns)) [
    | inl e ↦
        let q : i ≡ length ns = ground arith in
        ap (λ j. child_of grown j other) q ∙ ap (child_in other) grown_last ∙ ap (find other) leaf
    | inr ne ↦ ap (child_in other) (get_elem?_beyond grown i (ground (arith, length-grown)))
  ]

  -- A child of a node in the grown store: the new one, or one that was there.
  child_of-grown :
      (name : Text)
      → child.children ≡ []
      → new.children ≡ insert name (length ns) old.children
      → (i : ℕ) (other : Text) (c : ℕ) → child_of grown i other ≡ some c
      → ((i ≡ p) × (c ≡ length ns)) ⊎ (child_of ns i other ≡ some c)
  unfolding find
  child_of-grown name leaf inserted i other c h = elim (Bool-cases (p == i)) [
    | inl e ↦
        let q : i ≡ p = ground arith in
        let found : find other (insert name (length ns) old.children) ≡ some c =
          sym (ap (find other) inserted)
          ∙ sym (ap (child_in other) grown_self)
          ∙ ap (λ j. child_of grown j other) (sym q)
          ∙ h in
        elim (find-insert other name (length ns) c old.children found) [
          | inl newest ↦ inl (q, newest)
          | inr older ↦ inr (ap (λ j. child_of ns j other) q ∙ ap (child_in other) at_p ∙ older)
        ]
    | inr ne ↦ elim (Bool-cases (ltb i (length ns))) [
      | inl below ↦
          inr (sym (ap (child_in other) (grown_other i (ground arith) (λ e. ground arith))) ∙ h)
      | inr beyond ↦ absurd (none≢some c (sym (no_child leaf i other (ground arith)) ∙ h))
    ]
  ]

IsTree-add_node :
    (ns : List Node) (p : ℕ) (node : Node)
    → p < length ns
    → node.children ≡ []
    → IsTree ns
    → IsTree (add_node p node ns) × (length ns ≤ length (add_node p node ns))
unfolding add_node
IsTree-add_node ns p node h leaf tree =
    let (old, at_p) = get_elem?_below ns p h in
    let new : Node = record old { children = insert node.name (length ns) old.children } in
    let child : Node = record node { parent = some p } in
    let len = length-grown ns p old new child at_p refl in
    let last : parent_of (grown ns p old new child at_p refl) (length ns) ≡ some p =
      ap parent_in (grown_last ns p old new child at_p refl) in
    rw (at_p, add_node)
      (
        record {
          root_exists = omega (arith, len);
          root_on_top =
              parent_of-grown ns p old new child at_p refl root tree.root_exists ∙ tree.root_on_top;
          child_below = λ i name c e.
              elim (child_of-grown ns p old new child at_p refl node.name leaf refl i name c e) [
                | inl (ei, ec) ↦ (
                  omega (arith, ei, ec, h),
                  omega (arith, ec, len),
                  ap (parent_of (grown ns p old new child at_p refl)) ec ∙ last ∙ ap some (sym ei),
                )
                | inr older ↦
                    let (below, exists, back) = tree.child_below i name c older in
                    (
                      below,
                      omega (arith, exists, len),
                      parent_of-grown ns p old new child at_p refl c exists ∙ back,
                    )
              ];
          parent_above = λ i below not_root. elim (Bool-cases (ltb i (length ns))) [
            | inl before ↦
                let inside : i < length ns = ground arith in
                let (q, e, above) = tree.parent_above i inside not_root in
                (q, parent_of-grown ns p old new child at_p refl i inside ∙ e, above)
            | inr after ↦
                let at_end : i ≡ length ns = ground (arith, below, len) in
                (
                  p,
                  ap (parent_of (grown ns p old new child at_p refl)) at_end ∙ last,
                  omega (arith, at_end, h),
                )
          ];
        },
        omega (arith, len),
      )

resolve_parts-exists :
    (ns : List Node) (parts : List Text) (i j : ℕ)
    → IsTree ns
    → i < length ns
    → resolve_parts ns parts i ≡ some j
    → j < length ns
unfolding resolve_parts
resolve_parts-exists ns [] i j tree h e = omega (arith, h, some-injective e)
resolve_parts-exists ns (part ∷ parts) i j tree h e = elim (Option-cases (child_of ns i part)) [
  | inl missing ↦ absurd (none≢some j (rw (missing, resolve_parts) at e))
  | inr (c, found) ↦
      resolve_parts-exists ns parts c j tree (tree.child_below i part c found).1
        (rw (found, resolve_parts) at e)
]

or_root-exists :
    (ns : List Node) (path : Text) → IsTree ns → or_root (resolve_menu path ns) < length ns
or_root-exists ns path tree = elim (Option-cases (resolve_menu path ns)) [
  | inl missing ↦ rw missing tree.root_exists
  | inr (j, found) ↦
      rw found (resolve_parts-exists ns (split_path [] path) root j tree tree.root_exists found)
]

find-insert_self : (name : Text) (c : ℕ) (cs : Children) → find name (insert name c cs) ≡ some c
unfolding find insert
find-insert_self name c [] = rw (text_eq_refl name) refl
find-insert_self name c ((n, d) ∷ cs) = elim (Bool-cases (text_eq n name)) [
  | inl same ↦ rw (same, same) refl
  | inr differs ↦ rw (differs, differs) (find-insert_self name c cs)
]

-- The router `s` is `r` with one node more, a leaf with this name and handler below `parent`, and
-- nothing was destroyed for it.
abbrev pub IsAdded : ℕ → Text → Option ℕ → CommandRouter → CommandRouter → Type 0
IsAdded parent name handler r s =
    IsValid s
    × (s.freed ≡ r.freed)
    × (child_of s.nodes parent name ≡ some (length r.nodes))
    × (handler_of s.nodes (length r.nodes) ≡ handler)

add_node-child :
    (ns : List Node) (p : ℕ) (node : Node)
    → p < length ns
    → (child_of (add_node p node ns) p node.name ≡ some (length ns))
      × (handler_of (add_node p node ns) (length ns) ≡ node.handler)
unfolding add_node
add_node-child ns p node h =
    let (old, at_p) = get_elem?_below ns p h in
    let new : Node = record old { children = insert node.name (length ns) old.children } in
    let child : Node = record node { parent = some p } in
    rw (at_p, add_node)
      (
        ap (child_in node.name) (grown_self ns p old new child at_p refl)
            ∙ find-insert_self node.name (length ns) old.children,
        ap handler_in (grown_last ns p old new child at_p refl),
      )

add_at-IsAdded :
    (path : Text) (node : Node) (r : CommandRouter)
    → node.children ≡ []
    → IsValid r
    → child_of r.nodes (or_root (resolve_menu path r.nodes)) node.name ≡ none
    → IsAdded (or_root (resolve_menu path r.nodes)) node.name node.handler r (add_at path node r)
add_at-IsAdded path node r leaf v fresh =
    let p = or_root (resolve_menu path r.nodes) in
    let inside : p < length r.nodes = or_root-exists r.nodes path v.tree in
    let added = IsTree-add_node r.nodes p node inside leaf v.tree in
    let (named, handled) = add_node-child r.nodes p node inside in
    (
      record { tree = added.0; current_exists = omega (arith, added.1, v.current_exists) },
      ap (λ o. freed_by o r.freed) fresh,
      named,
      handled,
    )

pub add_menu-IsValid :
    (parent_path name description : Text) (r : CommandRouter)
    → IsValid r
    → child_of r.nodes (or_root (resolve_menu parent_path r.nodes)) name ≡ none
    → IsAdded
        (or_root (resolve_menu parent_path r.nodes))
        name
        none
        r
        (add_menu parent_path name description r)
unfolding add_menu
add_menu-IsValid parent_path name description r v fresh =
    add_at-IsAdded parent_path _ r refl v fresh

pub add_command-IsValid :
    (menu_path name description : Text) (param_hints : List Text) (handler : ℕ) (r : CommandRouter)
    → IsValid r
    → child_of r.nodes (or_root (resolve_menu menu_path r.nodes)) name ≡ none
    → IsAdded
        (or_root (resolve_menu menu_path r.nodes))
        name
        (some handler)
        r
        (add_command menu_path name description param_hints handler r)
unfolding add_command
add_command-IsValid menu_path name description param_hints handler r v fresh =
    add_at-IsAdded menu_path _ r refl v fresh

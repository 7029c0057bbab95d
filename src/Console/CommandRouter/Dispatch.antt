-- ===== src/Console/CommandRouter/Dispatch.antt =====
-- dispatch, navigateUp and currentPath of plugins/ui-console/src/console/CommandRouter.cpp.
use a_social.Base.{
  ℕ, zero, suc, ◌<◌, ◌≡◌, ◌≢◌, inl, inr, refl, sym, ap, ◌∙◌, arith, true, false, none, some, List,
  [], ◌∷◌, ◌++◌, Text, text_eq, text_eq_refl, text_eq_sound, append_assoc, length, get_elem?, ◌==◌,
  Bool-cases, some-injective,
}
use a_social.Console.CommandRouter.{
  Node, CommandRouter, root, child_of, handler_of, parent_of, parent_in, is_menu, is_null,
  navigated_menu, navigated_up, Walk, command, stopped, walk, navigate_up, arrive, dot_dot,
  word_exit, word_quit, word_help, dispatch_tokens, path_from, current_path,
}
use a_social.Console.CommandRouter.Tree.{IsTree, IsValid, get_elem?_below}

-- Where the loop of dispatch stops, there is a node.
abbrev InStore : List Node → Walk → Type 0
InStore ns (command h args) = Unit
InStore ns (stopped j n) = j < length ns

text_eq-false : (s t : Text) → s ≢ t → text_eq s t ≡ false
text_eq-false s t ne = elim (Bool-cases (text_eq s t)) [
  | inl same ↦ absurd (ne (text_eq_sound s t same))
  | inr differs ↦ differs
]

walk-one :
    (ns : List Node) (i : ℕ) (name : Text) (c : ℕ)
    → child_of ns i name ≡ some c
    → handler_of ns c ≡ none
    → walk ns (name ∷ []) i 0 ≡ stopped c 1
unfolding walk
walk-one ns i name c child menu = rw (child, menu, walk) refl

-- In a valid router the token that names a submenu of the current menu goes there, and `..` from
-- there comes back to the same state, provided that the name is not one of the built-in words.
pub dispatch_tokens-down_up :
    (name : Text) (c : ℕ) (r : CommandRouter)
    → IsValid r
    → child_of r.nodes r.current name ≡ some c
    → handler_of r.nodes c ≡ none
    → name ≢ dot_dot
    → name ≢ word_exit
    → name ≢ word_quit
    → name ≢ word_help
    → (dispatch_tokens (name ∷ []) r ≡ (record r { current = c }, navigated_menu))
      × (dispatch_tokens (dot_dot ∷ []) (record r { current = c }) ≡ (r, navigated_up))
unfolding dispatch_tokens arrive navigate_up walk
dispatch_tokens-down_up name c r v child menu n1 n2 n3 n4 =
    let f1 = text_eq-false name dot_dot n1 in
    let f2 = text_eq-false name word_exit n2 in
    let f3 = text_eq-false name word_quit n3 in
    let f4 = text_eq-false name word_help n4 in
    let (below, exists, back) = v.tree.child_below r.current name c child in
    let moves : (c == r.current) ≡ false = ground arith in
    let is_menu_lem : is_menu r.nodes c ≡ true = ap is_null menu in
    let not_top : (c == root) ≡ false = ground arith in
    (
      rw (f1, f2, f3, f4, walk-one r.nodes r.current name c child menu, moves, is_menu_lem) refl,
      rw (not_top, back, text_eq_refl dot_dot) refl,
    )

path_from-total :
    (rounds : ℕ) (ns : List Node) (i : ℕ) (parts : List Text) (top : Node)
    → IsTree ns
    → get_elem? ns root ≡ some top
    → i < length ns
    → i < rounds
    → (mid : List Text) × (path_from rounds ns i parts ≡ some (top.name ∷ (mid ++ parts)))
unfolding path_from
path_from-total zero ns i parts top tree at_root h enough = absurd (omega arith)
path_from-total (suc rounds) ns i parts top tree at_root h enough =
    let (node, at_i) = get_elem?_below ns i h in
    elim (Bool-cases (i == root)) [
      | inl on_top ↦
          let q : root ≡ i = ground arith in
          let same : top ≡ node = some-injective (sym at_root ∙ ap (get_elem? ns) q ∙ at_i) in
          let no_parent : node.parent ≡ none =
            sym (ap parent_in at_i) ∙ sym (ap (parent_of ns) q) ∙ tree.root_on_top in
          (
            [],
            rw (at_i, no_parent, path_from) (ap (λ (m : Node). some (m.name ∷ parts)) (sym same)),
          )
      | inr below ↦
          let (p, e, above) = tree.parent_above i h (λ z. ground arith) in
          let has_parent : node.parent ≡ some p = sym (ap parent_in at_i) ∙ e in
          let (mid, rest) =
            path_from-total rounds ns p (node.name ∷ parts) top tree at_root
              (omega (arith, above, h)) (omega (arith, above, enough)) in
          (
            mid ++ node.name ∷ [],
            rw (at_i, has_parent, path_from)
                (rest
                  ∙ ap (λ m. some (top.name ∷ m)) (sym (append_assoc mid (node.name ∷ []) parts))),
          )
    ]

-- In a valid router the walk of currentPath from the current menu over the parents ends, at the root: the path
-- begins with the name of the root.
pub current_path-total :
    (r : CommandRouter)
    → IsValid r
    → (top : Node) × (get_elem? r.nodes root ≡ some top)
      × (rest : List Text) × (current_path r ≡ some (top.name ∷ rest))
unfolding current_path
current_path-total r v =
    let (top, at_root) = get_elem?_below r.nodes root v.tree.root_exists in
    let (mid, e) =
      path_from-total (suc r.current) r.nodes r.current [] top v.tree at_root v.current_exists
        (omega arith) in
    (top, at_root, mid ++ [], e)

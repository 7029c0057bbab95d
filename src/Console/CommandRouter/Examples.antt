-- ===== src/Console/CommandRouter/Examples.antt =====
-- A router with the menu `p` and in it the command `c`.
use a_social.Base.{
  ℕ, zero, suc, ◌≡◌, refl, arith, true, none, some, List, [], ◌∷◌, Text, text_eq, ◌==◌, get_elem?,
}
use a_social.Console.LineEditor.{Letters}
use a_social.Console.Tokenizer.{tokenize, scan_line, scan_char}
use a_social.Console.CommandRouter.{
  Node, CommandRouter, root, child_of, handler_of, main_menu, add_menu, add_command, add_node,
  split_path, resolve_parts, resolve_menu, or_root, find, insert, executed, navigated_menu,
  navigated_up, walk, arrive, navigate_up, dot_dot, dispatch_tokens, dispatch, current_path,
}
use a_social.Console.CommandRouter.Tree.{IsValid, add_menu-IsValid, add_command-IsValid}
use a_social.Console.CommandRouter.Dispatch.{dispatch_tokens-down_up, current_path-total}

abbrev ascii : Letters
ascii = record {
  is_space = λ c. c == b' ';
  to_lower = λ c. c;
  starts_with_insensitive = λ t p. true;
}

abbrev menu : Text
menu = b'p' ∷ []

abbrev cmd : Text
cmd = b'c' ∷ []

no_child : (i : ℕ) (name : Text) (c : ℕ) → child_of main_menu.nodes i name ≡ some c → ⊥
unfolding find
no_child zero name c h = cc
no_child (suc i) name c h = cc

main_menu-IsValid : IsValid main_menu
main_menu-IsValid = record {
  tree = record {
    root_exists = omega arith;
    root_on_top = refl;
    child_below = λ i name c h. absurd (no_child i name c h);
    parent_above = λ i h ne. absurd (ne (omega (arith, h)));
  };
  current_exists = omega arith;
}

main_has_no_menu : child_of main_menu.nodes (or_root (resolve_menu [] main_menu.nodes)) menu ≡ none
unfolding split_path resolve_parts find
main_has_no_menu = refl

abbrev with_menu : CommandRouter
with_menu = add_menu [] menu [] main_menu

with_menu-IsValid : IsValid with_menu
with_menu-IsValid = (add_menu-IsValid [] menu [] main_menu main_menu-IsValid main_has_no_menu).0

menu_has_no_command :
    child_of with_menu.nodes (or_root (resolve_menu menu with_menu.nodes)) cmd ≡ none
unfolding add_menu add_node split_path resolve_parts find insert text_eq
menu_has_no_command = refl

abbrev built : CommandRouter
built = add_command menu cmd [] [] 7 with_menu

built-IsValid : IsValid built
built-IsValid =
    (add_command-IsValid menu cmd [] [] 7 with_menu with_menu-IsValid menu_has_no_command).0

-- A menu that is replaced is destroyed.
replaced_menu : (add_menu [] menu [] with_menu).freed ≡ 1 ∷ []
unfolding add_menu add_node split_path resolve_parts find insert text_eq
replaced_menu = refl

built_child : child_of built.nodes built.current menu ≡ some 1
unfolding add_menu add_command add_node split_path resolve_parts find insert text_eq
built_child = refl

built_handler : handler_of built.nodes 1 ≡ none
unfolding add_menu add_command add_node split_path resolve_parts find insert text_eq
built_handler = refl

built_runs :
    (dispatch ascii (b'p' ∷ b' ' ∷ b'c' ∷ b' ' ∷ b'x' ∷ []) built).1 ≡ executed 7 ((b'x' ∷ []) ∷ [])
unfolding add_menu add_command add_node split_path resolve_parts find insert text_eq dispatch
    dispatch_tokens walk arrive navigate_up tokenize scan_line scan_char
built_runs = refl

dispatch_tokens-down_up_example :
    (dispatch_tokens (menu ∷ []) built ≡ (record built { current = 1 }, navigated_menu))
    × (dispatch_tokens (dot_dot ∷ []) (record built { current = 1 }) ≡ (built, navigated_up))
dispatch_tokens-down_up_example =
    dispatch_tokens-down_up menu 1 built built-IsValid built_child built_handler (λ e. cc) (λ e. cc)
      (λ e. cc) (λ e. cc)

current_path-total_example :
    (top : Node) × (get_elem? built.nodes root ≡ some top)
    × (rest : List Text) × (current_path built ≡ some (top.name ∷ rest))
current_path-total_example = current_path-total built built-IsValid

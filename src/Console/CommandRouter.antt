-- ===== src/Console/CommandRouter.antt =====
-- CommandRouter of plugins/ui-console/src/console/CommandRouter.cpp: the tree of menus and commands
-- as a store of nodes, a pointer being an index into it, with the root at index 0. A node that
-- another one replaces under its name is destroyed, with the nodes below it: it keeps its place in
-- the store and its index is among the freed ones, where no pointer may lead any more.
pub mod Tree
pub mod Dispatch
mod Examples
use a_social.Base.{
  ℕ, zero, suc, ◌+◌, Bool, true, false, not, ◌&&◌, ◌||◌, Option, none, some, List, [], ◌∷◌, ◌++◌,
  Text, text_eq, length, get_elem?, set, ltb, ◌==◌, if◌then◌else◌,
}
use a_social.Console.LineEditor.{Letters}
use a_social.Console.Tokenizer.{tokenize}

-- QMap<QString, …> with pointers
abbrev pub Children : Type 0
Children = List (Text × ℕ)

-- A handler is known by a number; `none` is the null handler of a menu.
pub record Node : Type 0 where
  pub name : Text
  pub description : Text
  pub param_hints : List Text
  pub handler : Option ℕ
  pub children : Children
  pub parent : Option ℕ

pub record CommandRouter : Type 0 where
  pub nodes : List Node
  pub current : ℕ
  pub freed : List ℕ

abbrev pub root : ℕ
root = 0

-- `children.find(name)`
unfoldable pub find : Text → Children → Option ℕ
find name [] = none
find name ((n, c) ∷ cs) = if text_eq n name then some c else find name cs

-- `children.insert(name, node)`
unfoldable pub insert : Text → ℕ → Children → Children
insert name c [] = (name, c) ∷ []
insert name c ((n, d) ∷ cs) = if text_eq n name then (n, c) ∷ cs else (n, d) ∷ insert name c cs

abbrev pub child_in : Text → Option Node → Option ℕ
child_in name none = none
child_in name (some node) = find name node.children

abbrev pub handler_in : Option Node → Option ℕ
handler_in none = none
handler_in (some node) = node.handler

abbrev pub parent_in : Option Node → Option ℕ
parent_in none = none
parent_in (some node) = node.parent

abbrev pub child_of : List Node → ℕ → Text → Option ℕ
child_of ns i name = child_in name (get_elem? ns i)

abbrev pub handler_of : List Node → ℕ → Option ℕ
handler_of ns i = handler_in (get_elem? ns i)

abbrev pub parent_of : List Node → ℕ → Option ℕ
parent_of ns i = parent_in (get_elem? ns i)

abbrev pub is_null : Option ℕ → Bool
is_null none = true
is_null (some h) = false

abbrev pub is_menu : List Node → ℕ → Bool
is_menu ns i = is_null (handler_of ns i)

-- The constructor: the root is the menu `main`.
abbrev pub main_menu : CommandRouter
main_menu = record {
  nodes =
      (record {
        name = b'm' ∷ b'a' ∷ b'i' ∷ b'n' ∷ [];
        description = b'M' ∷ b'a' ∷ b'i' ∷ b'n' ∷ b' ' ∷ b'm' ∷ b'e' ∷ b'n' ∷ b'u' ∷ [];
        param_hints = [];
        handler = none;
        children = [];
        parent = none;
      })
      ∷ [];
  current = root;
  freed = [];
}

-- `path.split('/', Qt::SkipEmptyParts)`, with the part that is being read.
unfoldable pub split_path : Text → Text → List Text
split_path [] [] = []
split_path (c ∷ part) [] = (c ∷ part) ∷ []
split_path part (c ∷ path) =
    let joined = split_path (part ++ c ∷ []) path in
    let next = split_path [] path in
    if c == b'/' then (if length part == 0 then next else part ∷ next) else joined

unfoldable pub resolve_parts : List Node → List Text → ℕ → Option ℕ
resolve_parts ns [] node = some node
resolve_parts ns (part ∷ parts) node = elim (child_of ns node part) [
  | none ↦ none
  | some child ↦ resolve_parts ns parts child
]

-- The empty path has no parts, so it resolves to the root as well.
abbrev pub resolve_menu : Text → List Node → Option ℕ
resolve_menu path ns = resolve_parts ns (split_path [] path) root

-- `if( !parent ) parent = m_root.get();`
abbrev pub or_root : Option ℕ → ℕ
or_root none = root
or_root (some i) = i

-- The end of addMenu and addCommand.
unfoldable pub add_node : ℕ → Node → List Node → List Node
add_node parent node ns = elim (get_elem? ns parent) [
  | none ↦ ns
  | some p ↦
      set ns parent (record p { children = insert node.name (length ns) p.children })
      ++ record node { parent = some parent } ∷ []
]

-- What `insert` destroys: the child that had the name.
abbrev pub freed_by : Option ℕ → List ℕ → List ℕ
freed_by none freed = freed
freed_by (some child) freed = child ∷ freed

abbrev pub add_at : Text → Node → CommandRouter → CommandRouter
add_at path node r =
    let parent = or_root (resolve_menu path r.nodes) in
    record r {
      nodes = add_node parent node r.nodes;
      freed = freed_by (child_of r.nodes parent node.name) r.freed;
    }

unfoldable pub add_menu : Text → Text → Text → CommandRouter → CommandRouter
add_menu parent_path name description r =
    add_at parent_path
      (record {
        name = name;
        description = description;
        param_hints = [];
        handler = none;
        children = [];
        parent = none;
      })
      r

unfoldable pub add_command : Text → Text → Text → List Text → ℕ → CommandRouter → CommandRouter
add_command menu_path name description param_hints handler r =
    add_at menu_path
      (record {
        name = name;
        description = description;
        param_hints = param_hints;
        handler = some handler;
        children = [];
        parent = none;
      })
      r

-- `executed` carries the handler that is called and its arguments.
pub data Result : Type 0 where
  executed : ℕ → List Text → Result
  navigated_menu navigated_up exit not_found empty : Result

-- How the loop of dispatch ends: at a command, or at a node after some tokens.
pub data Walk : Type 0 where
  command : ℕ → List Text → Walk
  stopped : ℕ → ℕ → Walk

unfoldable pub walk : List Node → List Text → ℕ → ℕ → Walk
walk ns [] node consumed = stopped node consumed
walk ns (t ∷ ts) node consumed = elim (child_of ns node t) [
  | none ↦ stopped node consumed
  | some child ↦ elim (handler_of ns child) [
    | some handler ↦ command handler ts
    | none ↦ walk ns ts child (consumed + 1)
  ]
]

-- The parent becomes current; the index of no node stands for a null parent.
abbrev move_up : Option ℕ → CommandRouter → CommandRouter × Bool
move_up none r = (record r { current = length r.nodes }, true)
move_up (some p) r = (record r { current = p }, true)

unfoldable pub navigate_up : CommandRouter → CommandRouter × Bool
navigate_up r = if r.current == root then (r, false) else move_up (parent_of r.nodes r.current) r

-- The end of dispatch.
unfoldable pub arrive : Walk → CommandRouter → CommandRouter × Result
arrive (command handler args) r = (r, executed handler args)
arrive (stopped node consumed) r =
    if ltb 0 consumed && (not (node == r.current) && is_menu r.nodes node)
    then (record r { current = node }, navigated_menu)
    else (r, not_found)

abbrev pub dot_dot : Text
dot_dot = b'.' ∷ b'.' ∷ []

abbrev pub word_exit : Text
word_exit = b'e' ∷ b'x' ∷ b'i' ∷ b't' ∷ []

abbrev pub word_quit : Text
word_quit = b'q' ∷ b'u' ∷ b'i' ∷ b't' ∷ []

abbrev pub word_help : Text
word_help = b'h' ∷ b'e' ∷ b'l' ∷ b'p' ∷ []

unfoldable pub dispatch_tokens : List Text → CommandRouter → CommandRouter × Result
dispatch_tokens [] r = (r, empty)
dispatch_tokens (first ∷ rest) r =
    let (up, moved) = navigate_up r in
    if text_eq first dot_dot || (text_eq first word_exit && not (r.current == root))
    then (if moved then (up, navigated_up) else (up, empty))
    else if text_eq first word_exit || text_eq first word_quit
    then (r, exit)
    else if text_eq first word_help
    then (r, not_found)
    else arrive (walk r.nodes (first ∷ rest) r.current 0) r

unfoldable pub dispatch : Letters → Text → CommandRouter → CommandRouter × Result
dispatch u line r = dispatch_tokens (tokenize u line) r

-- The walk of currentPath from a node to the root, with the rounds that are left and the names
-- that were met; `none` where the rounds run out.
unfoldable pub path_from : ℕ → List Node → ℕ → List Text → Option (List Text)
path_from zero ns i parts = none
path_from (suc rounds) ns i parts = elim (get_elem? ns i) [
  | none ↦ none
  | some node ↦ elim node.parent [
    | none ↦ some (node.name ∷ parts)
    | some p ↦ path_from rounds ns p (node.name ∷ parts)
  ]
]

-- The parts that currentPath joins by slashes.
unfoldable pub current_path : CommandRouter → Option (List Text)
current_path r = path_from (suc r.current) r.nodes r.current []

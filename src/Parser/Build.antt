-- ===== src/Parser/Build.antt =====
-- What the functions of crates/sarif_syntax/src/parser.rs are made of. A `Build` is a piece of code
-- that pushes onto the vector `children` of its function and moves the parser; `none` is a loop that
-- does not end within its fuel. A function that returns a node is a `Build` that pushes it.
use sarif.Base.{ℕ, zero, suc, Bool, Option, none, some, List, [], ◌∷◌, ◌++◌, if◌then◌else◌, length}
use sarif.Text.{codes}
use sarif.Syntax.Token.{Token, TokenKind, Diagnostic, diagnostic, is_trivia}
use sarif.Syntax.Tree.{
  a_node, a_token, Node, Elements, none_left, element, NodeKind, new_node, empty_node,
}
use sarif.Parser.Kinds.{debug}
use sarif.Parser.State.{Parser, at, advance, push, push_all, peek_non_trivia_kind}

abbrev pub Build : Type 0
Build = Elements → Parser → Option (Elements × Parser)

-- Nothing, and the end of a loop.
unfoldable pub stop : Build
stop cs s = some (cs, s)

abbrev pub and_then : Option (Elements × Parser) → Build → Option (Elements × Parser)
and_then none b = none
and_then (some (cs, s)) b = b cs s

-- One after the other.
infixr 3 ◌▸◌
unfoldable pub ◌▸◌ : Build → Build → Build
(a ▸ b) cs s = and_then (a cs s) b

-- `if test { a } else { b }`
unfoldable pub branch : (Parser → Bool) → Build → Build → Build
branch test a b cs s = if test s then a cs s else b cs s

-- `if self.at(kind) { a } else { b }`
unfoldable pub if_at : TokenKind → Build → Build → Build
unfolding branch
if_at k a b = branch (at k) a b

-- `match self.current_non_trivia_kind() { .. }`
unfoldable pub by_kind : (Option TokenKind → Build) → Build
by_kind f cs s = f (peek_non_trivia_kind s) cs s

-- `let token = self.bump(); children.push(token)` and what follows.
unfoldable pub bump_with : (Token → Build) → Build
bump_with f cs s = f s.current (push cs (a_token s.current)) (advance s)

-- `children.push(self.bump())`
unfoldable pub bump : Build
unfolding bump_with
bump = bump_with (λ _. stop)

unfoldable pub collect :
    Token → List Token → List Diagnostic → Elements → Option (Elements × Parser)
unfolding is_trivia
collect t [] ds cs =
    if is_trivia t.kind
    then none
    else some (cs, record { current = t; later = []; diagnostics = ds })
collect t (u ∷ us) ds cs =
    let rest = collect u us ds (push cs (a_token t)) in
    if is_trivia t.kind
    then rest
    else some (cs, record { current = t; later = u ∷ us; diagnostics = ds })

-- `self.collect_trivia(&mut children)`; at a last token that is trivia it does not end.
unfoldable pub trivia : Build
unfolding collect
trivia cs s = collect s.current s.later s.diagnostics cs

unfoldable pub skip : Token → List Token → List Diagnostic → Option Parser
unfolding is_trivia
skip t [] ds =
    if is_trivia t.kind then none else some (record { current = t; later = []; diagnostics = ds })
skip t (u ∷ us) ds =
    let rest = skip u us ds in
    if is_trivia t.kind
    then rest
    else some (record { current = t; later = u ∷ us; diagnostics = ds })

-- `self.collect_trivia_into_cursor()`
unfoldable pub collect_trivia_into_cursor : Parser → Option Parser
unfolding skip
collect_trivia_into_cursor s = skip s.current s.later s.diagnostics

unfoldable pub expected_token : TokenKind → Token → Diagnostic
unfolding diagnostic debug
expected_token k t =
    diagnostic (codes "parse.expected-token")
      (codes "expected `" ++ (debug k ++ (codes "`, found `" ++ (debug t.kind ++ codes "`"))))
      t.span
      (some (
        codes "Insert or replace the token so this item matches the grammar for `"
        ++ (debug k ++ codes "`.")))

-- `self.diagnostics.push(d)`
unfoldable pub report : Diagnostic → Parser → Parser
report d s = record s { diagnostics = s.diagnostics ++ (d ∷ []) }

-- The rest of `expect` after the trivia: the token, or one that is missing.
unfoldable pub take_or_insert : TokenKind → (Token → Build) → Build
unfolding bump_with expected_token report
take_or_insert k f cs s =
    let missing : Token = record { kind = k; lexeme = []; span = s.current.span } in
    if at k s
    then bump_with f cs s
    else f missing (push cs (a_token missing)) (report (expected_token k s.current) s)

-- `let token = self.expect(kind); children.push(token)` and what follows.
unfoldable pub expect_with : TokenKind → (Token → Build) → Build
unfolding collect_trivia_into_cursor take_or_insert
expect_with k f cs s = elim (collect_trivia_into_cursor s) [
  | none ↦ none
  | some after ↦ take_or_insert k f cs after
]

-- `children.push(self.expect(kind))`
unfoldable pub expect : TokenKind → Build
unfolding expect_with stop
expect k = expect_with k (λ _. stop)

-- A function that collects its own children and returns `Node::new(kind, children)`.
unfoldable pub node_of : NodeKind → Build → Build
node_of kind b cs s = elim (b none_left s) [
  | none ↦ none
  | some (children, after) ↦ some (push cs (a_node (new_node kind children)), after)
]

unfoldable pub list_node : NodeKind → ℕ → Elements → Node
unfolding new_node empty_node
list_node kind offset none_left = empty_node kind offset
list_node kind offset children = new_node kind children

-- The same, but `Node::empty(kind, offset)` without children.
unfoldable pub list_of : NodeKind → Build → Build
unfolding list_node
list_of kind b cs s = elim (b none_left s) [
  | none ↦ none
  | some (children, after) ↦
      some (push cs (a_node (list_node kind s.current.span.start children)), after)
]

-- `let mut children = vec![expr]; ..; expr = Node::new(kind, children)`, where the vector so far is
-- `expr` alone.
unfoldable pub wrap : NodeKind → Build → Build
unfolding new_node
wrap kind b cs s = elim (b cs s) [
  | none ↦ none
  | some (children, after) ↦ some (element (a_node (new_node kind children)) none_left, after)
]

-- A function that begins with a vector of its own and returns what is in it.
unfoldable pub within : Build → Build
within b cs s = elim (b none_left s) [
  | none ↦ none
  | some (children, after) ↦ some (push_all cs children, after)
]

-- Code that goes on with the children so far in a vector of its own.
unfoldable pub collecting_on : Elements → Build → (Elements → Build) → Build
collecting_on children b f cs s = elim (b children s) [
  | none ↦ none
  | some (all, after) ↦ f all cs after
]

-- The last pushes onto such a vector, and the node.
unfoldable pub finish_node : NodeKind → Build → Elements → Build
unfolding new_node
finish_node kind b children cs s = elim (b children s) [
  | none ↦ none
  | some (all, after) ↦ some (push cs (a_node (new_node kind all)), after)
]

-- A loop, of which `next` is the next round. It has one round for each token left and one more.
unfoldable pub rounds : ℕ → (Build → Build) → Build
rounds zero f cs s = none
rounds (suc n) f cs s = f (λ ds t. rounds n f ds t) cs s

unfoldable pub loop : (Build → Build) → Build
unfolding rounds
loop f cs s = rounds (suc (suc (length s.later))) f cs s

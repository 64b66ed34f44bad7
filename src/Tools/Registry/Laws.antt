-- ===== src/Tools/Registry/Laws.antt =====
-- What a registry promises its users.
use awesome_agent.Prelude.{
  ◌≡◌, refl, Option, none, some, List, [], ◌∷◌, Text, text_eq, text_eq_iff, lookup, lookup-insert,
  if◌then◌else◌, arith,
}
use awesome_agent.Tools.Tool.{Tool}
use awesome_agent.Tools.Registry.{ToolRegistry, new_tool_registry, or_make, register, tool}

module _ {F W : Type 0} where
  -- a registration writes one name
  pub tool-register :
      (r : ToolRegistry F W) (t : Tool F W) (name : Text)
      → tool (register r t) name ≡ (if text_eq t.name name then some t else tool r name)
  unfolding tool register lookup
  tool-register r t name = ground (arith, lookup-insert t.name name t (or_make r.tools))

  -- the registrations of a program, in order
  abbrev pub register_all : ToolRegistry F W → List (Tool F W) → ToolRegistry F W
  register_all r [] = r
  register_all r (t ∷ ts) = register_all (register r t) ts

  -- the last tool of the list that bears the name
  abbrev pub last_named : Text → List (Tool F W) → Option (Tool F W) → Option (Tool F W)
  last_named name [] found = found
  last_named name (t ∷ ts) found =
      last_named name ts (if text_eq t.name name then some t else found)

  last_named-register_all :
      (r : ToolRegistry F W) (ts : List (Tool F W)) (name : Text)
      → tool (register_all r ts) name ≡ last_named name ts (tool r name)
  last_named-register_all r [] name = refl
  last_named-register_all r (t ∷ ts) name =
      rw (last_named-register_all (register r t) ts name, tool-register r t name)

  -- After any registrations in a new registry, a name gives the tool of that name that was
  -- registered last, and nothing if none was.
  pub tool-register_all :
      (ts : List (Tool F W)) (name : Text)
      → tool (register_all new_tool_registry ts) name ≡ last_named name ts none
  unfolding tool new_tool_registry lookup
  tool-register_all ts name = last_named-register_all new_tool_registry ts name

  last_named_name :
      (name : Text) (ts : List (Tool F W)) (found : Option (Tool F W)) {t : Tool F W}
      → ((u : Tool F W) → found ≡ some u → u.name ≡ name)
      → last_named name ts found ≡ some t
      → t.name ≡ name
  last_named_name name [] found h e = h _ e
  last_named_name name (u ∷ ts) found h e =
      last_named_name name ts _ (λ v. ground (arith, h v, text_eq_iff u.name name)) e

  -- What a name gives bears that name.
  pub name-tool :
      (ts : List (Tool F W)) (name : Text) {t : Tool F W}
      → tool (register_all new_tool_registry ts) name ≡ some t
      → t.name ≡ name
  name-tool ts name {t} e =
      last_named_name name ts none {t = t} (λ u. ground arith)
        (ground (arith, tool-register_all ts name))

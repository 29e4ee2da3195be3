-- ===== src/Agent/Router/Names.antt =====
-- `RouterToolNames` of provider.rs: the names of a request's tools on the wire.
use feather_mesh.Prelude.{
  ◌≡◌, refl, sym, ap, subst, ok-injective, ◌∙◌, true, false, some, List, [], ◌∷◌, Text, text_eq,
  text_eq_iff, text_eq_refl, lookup, lookup-insert, All, ok, arith, Bool-cases, inl, inr, >>-eq-ok,
  guard-eq-ok,
}
use feather_mesh.Agent.Provider.{ToolSchema}
use feather_mesh.Agent.Router.{
  RouterToolNames, no_names, wire_of, is_wire_name, add_name, add_names, new_names, wire_name,
  local_name, is_some,
}

-- A tool's name has a name on the wire, which leads back to it.
record IsNamed (names : RouterToolNames) (name : Text) : Type 0 where
  there : lookup name names.to_wire ≡ some (wire_of name)
  back : lookup (wire_of name) names.to_local ≡ some name

add_name-new :
    (names : RouterToolNames) (name : Text) → IsNamed (add_name names name (wire_of name)) name
unfolding add_name
add_name-new names name = record {
  there = lookup-insert name name (wire_of name) names.to_wire ∙ rw (text_eq_refl name) refl;
  back =
      lookup-insert (wire_of name) (wire_of name) name names.to_local
      ∙ rw (text_eq_refl (wire_of name)) refl;
}

is_wire_name-fresh :
    (names : RouterToolNames) (wire : Text)
    → is_wire_name names wire ≡ true
    → is_some (lookup wire names.to_local) ≡ false
unfolding is_wire_name
is_wire_name-fresh names wire h = ground (arith, h)

true-false : true ≡ false → ⊥
true-false h = cc

-- A wire name that is there already is not the one that is added.
other_wire :
    (names : RouterToolNames) (wire name added : Text)
    → lookup wire names.to_local ≡ some name
    → is_some (lookup added names.to_local) ≡ false
    → text_eq added wire ≡ false
other_wire names wire name added h fresh = elim (Bool-cases (text_eq added wire)) [
  | inr other ↦ other
  | inl same ↦ absurd (true-false (rw ((text_eq_iff added wire).0 same, h) at fresh))
]

other_name :
    (n added : Text) → text_eq (wire_of added) (wire_of n) ≡ false → text_eq added n ≡ false
other_name n added h = elim (Bool-cases (text_eq added n)) [
  | inr other ↦ other
  | inl same ↦ absurd (
      true-false (
        sym (text_eq_refl (wire_of n))
        ∙ ap (λ t. text_eq (wire_of t) (wire_of n)) (sym ((text_eq_iff added n).0 same))
        ∙ h))
]

add_name-IsNamed :
    (names : RouterToolNames) (name added : Text)
    → is_wire_name names (wire_of added) ≡ true
    → IsNamed names name
    → IsNamed (add_name names added (wire_of added)) name
unfolding add_name
add_name-IsNamed names name added fresh h =
    let other =
      other_wire names (wire_of name) name (wire_of added) h.back
        (is_wire_name-fresh names (wire_of added) fresh) in
    record {
      there =
          lookup-insert added name (wire_of added) names.to_wire
          ∙ rw (other_name name added other) h.there;
      back = lookup-insert (wire_of added) (wire_of name) added names.to_local ∙ rw other h.back;
    }

add_names-keeps :
    (names final : RouterToolNames) (tools : List ToolSchema) (name : Text)
    → add_names names tools ≡ ok final
    → IsNamed names name
    → IsNamed final name
unfolding add_names
add_names-keeps names final [] name h named = subst (λ m. IsNamed m name) (ok-injective h) named
add_names-keeps names final (tool ∷ tools) name h named =
    let (fresh, rest) = >>-eq-ok _ _ final h in
    add_names-keeps (add_name names tool.name (wire_of tool.name)) final tools name rest
      (add_name-IsNamed names name tool.name (guard-eq-ok _ _ fresh) named)

add_names-IsNamed :
    (names final : RouterToolNames) (tools : List ToolSchema)
    → add_names names tools ≡ ok final
    → All (λ tool. IsNamed final tool.name) tools
unfolding add_names
add_names-IsNamed names final [] h = tt
add_names-IsNamed names final (tool ∷ tools) h =
    let (fresh, rest) = >>-eq-ok _ _ final h in
    let next = add_name names tool.name (wire_of tool.name) in
    (
      add_names-keeps next final tools tool.name rest (add_name-new names tool.name),
      add_names-IsNamed next final tools rest,
    )

IsNamed-names :
    (names : RouterToolNames) (name : Text)
    → IsNamed names name
    → (wire_name names name ≡ ok (wire_of name)) × (local_name names (wire_of name) ≡ ok name)
unfolding wire_name local_name
IsNamed-names names name h = (rw h.there refl, rw h.back refl)

All-map :
    {P Q : ToolSchema → Type 0} (tools : List ToolSchema)
    → ((tool : ToolSchema) → P tool → Q tool)
    → All P tools
    → All Q tools
All-map [] f h = tt
All-map (tool ∷ tools) f h = (f tool h.0, All-map tools f h.1)

-- If the names of a request's tools are accepted, each tool's name is sent under its name on the wire,
-- and that name, when the router answers with it, is read as the tool's name again.
pub local_name-wire_name :
    (tools : List ToolSchema) (names : RouterToolNames)
    → new_names tools ≡ ok names
    → All
        (λ tool.
          (wire_name names tool.name ≡ ok (wire_of tool.name))
          × (local_name names (wire_of tool.name) ≡ ok tool.name))
        tools
unfolding new_names
local_name-wire_name tools names h =
    All-map tools (λ tool. IsNamed-names names tool.name) (add_names-IsNamed no_names names tools h)

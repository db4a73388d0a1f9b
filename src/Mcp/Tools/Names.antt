-- ===== src/Mcp/Tools/Names.antt =====
-- The tools of a server that starts are as many as its agents, and no two have one name.
use tri_onyx.Base.{
  ◌+◌, String, false, List, [], ◌∷◌, some, contains, length, ◌≡◌, sym, ap, ◌∙◌, arith, inl, inr,
  Bool-cases, Option-cases, String_eq,
}
use mathlib.Core.Path.{subst}
use tri_onyx.Mcp.Tools.{ToolLibrary, agent_tool_name, register_tools}

-- No name twice.
abbrev pub AreDistinct : List String → Type 0
AreDistinct [] = Unit
AreDistinct (x ∷ xs) = (contains x xs ≡ false) × AreDistinct xs

tools_after :
    (lib : ToolLibrary) (agents seen names : List String)
    → AreDistinct seen
    → register_tools lib agents seen ≡ some names
    → AreDistinct names × (length names ≡ length agents + length seen)
unfolding register_tools
tools_after lib [] seen names h e =
    let same : seen ≡ names = ground (arith, e) in
    (subst AreDistinct same h, sym (ap length same) ∙ omega arith)
tools_after lib (agent ∷ agents) seen names h e = elim (Option-cases (agent_tool_name lib agent)) [
  | inl unnamed ↦ absurd (ground (arith, rw (unnamed, register_tools) at e))
  | inr (name, named) ↦ elim (Bool-cases (contains name seen)) [
    | inl taken ↦ absurd (ground (arith, rw (named, register_tools, taken) at e))
    | inr free ↦
        let (distinct, count) =
          tools_after lib agents (name ∷ seen) names (free, h)
            (rw (named, register_tools, free) at e) in
        (distinct, omega (arith, count))
  ]
]

-- A server that starts has one tool for each configured agent, and no two tools have one name.
pub register_tools_distinct :
    (lib : ToolLibrary) (agents names : List String)
    → register_tools lib agents [] ≡ some names
    → AreDistinct names × (length names ≡ length agents)
register_tools_distinct lib agents names e =
    let (distinct, count) = tools_after lib agents [] names tt e in (distinct, omega (arith, count))

-- ===== src/Runtime/Names/Plain.antt =====
-- runtime/agent_runner.py: which of the declared names the SDK is given as they are, and the names that
-- the gateway sees.
use Prim.Native.String.{◌++◌ as glue}
use text.Mathlib.Text.{starts_with}
use text.Mathlib.TextPositions.{starts_with-append}
use mathlib.Core.Path.{subst}
use tri_onyx.Base.{
  List, [], ◌∷◌, ◌++◌, String, Bool, true, false, not, ◌&&◌, ◌||◌, ◌==◌, String_eq, contains,
  contains-append, contains-keep, keep, All, ◌≡◌, refl, sym, ap, ◌∙◌, arith, inl, inr, Bool-cases,
}
use tri_onyx.Dict.{get}
use tri_onyx.Runtime.Names.{
  interagent_tools, email_tools, github_tools, calendar_tools, mcp_name, custom_tools, hosted,
  sdk_tools, normalize_tool_name,
}

other_than_hosted :
    (t server tool : String) → starts_with t "mcp__" ≡ false → (mcp_name server tool == t) ≡ false
other_than_hosted t server tool plain = elim (Bool-cases (mcp_name server tool == t)) [
  | inr other ↦ other
  | inl same ↦
      let prefixed : starts_with t "mcp__" ≡ true =
        ap (λ s. starts_with s "mcp__")
          (sym ((String_eq.equals_iff (mcp_name server tool) t).0 same))
        ∙ starts_with-append "mcp__" (glue server (glue "__" tool)) in
      cc
]

hosted-plain :
    (t server : String) (tools declared : List String)
    → starts_with t "mcp__" ≡ false
    → contains t (hosted server tools declared) ≡ false
unfolding hosted
hosted-plain t server [] declared plain = refl
hosted-plain t server (tool ∷ tools) declared plain = elim (Bool-cases (contains tool declared)) [
  | inl here ↦ rw here (
      ground
        (arith, other_than_hosted t server tool plain, hosted-plain t server tools declared plain))
  | inr absent ↦ rw absent (hosted-plain t server tools declared plain)
]

nothing_behind :
    (t : String) (xs ys : List String)
    → contains t ys ≡ false
    → contains t (xs ++ ys) ≡ contains t xs
nothing_behind t xs ys h = elim (Bool-cases (contains t xs)) [
  | inl e ↦ contains-append t xs ys ∙ ground (arith, e, h)
  | inr e ↦ contains-append t xs ys ∙ ground (arith, e, h)
]

sdk_tools-declared :
    (t : String) (declared : List String)
    → starts_with t "mcp__" ≡ false
    → contains t (sdk_tools declared) ≡ (contains t declared && not (contains t custom_tools))
unfolding sdk_tools
sdk_tools-declared t declared plain =
    let none_of =
      λ (server : String) (tools : List String). hosted-plain t server tools declared plain in
    let calendar = hosted "calendar" calendar_tools declared in
    let github = hosted "github" github_tools declared in
    let email = hosted "email" email_tools declared in
    let interagent = hosted "interagent" interagent_tools declared in
    let e1 : contains t (github ++ calendar) ≡ false =
      nothing_behind t github calendar (none_of "calendar" calendar_tools)
      ∙ none_of "github" github_tools in
    let e2 : contains t (email ++ (github ++ calendar)) ≡ false =
      nothing_behind t email (github ++ calendar) e1 ∙ none_of "email" email_tools in
    let e3 : contains t (interagent ++ (email ++ (github ++ calendar))) ≡ false =
      nothing_behind t interagent (email ++ (github ++ calendar)) e2
      ∙ none_of "interagent" interagent_tools in
    nothing_behind t (keep (λ u. not (contains u custom_tools)) declared)
      (interagent ++ (email ++ (github ++ calendar))) e3
    ∙ contains-keep (λ u. not (contains u custom_tools)) t declared

-- The tools that the runtime hosts, on whichever of its servers.
abbrev pub all_hosted : List String
all_hosted = interagent_tools ++ (email_tools ++ (github_tools ++ calendar_tools))

contains-included :
    (t : String) (xs ys : List String)
    → All (λ x. contains x ys ≡ true) xs
    → contains t xs ≡ true
    → contains t ys ≡ true
contains-included t [] ys h c = absurd (ground arith)
contains-included t (x ∷ xs) ys (h, hs) c = elim (Bool-cases (x == t)) [
  | inl e ↦ subst (λ u. contains u ys ≡ true) ((String_eq.equals_iff x t).0 e) h
  | inr e ↦ contains-included t xs ys hs (rw e at c)
]

-- The hosted tools that `_custom_tools` leaves out.
abbrev pub left_out : String → Bool
left_out t = "SaveDraft" == t || "GitHub" == t

custom-hosted : (t : String) → contains t custom_tools ≡ true → contains t all_hosted ≡ true
custom-hosted t = contains-included t custom_tools all_hosted (
  refl,
  (
    refl,
    (
      refl,
      (
        refl,
        (
          refl,
          (
            refl,
            (refl, (refl, (refl, (refl, (refl, (refl, (refl, (refl, (refl, (refl, tt)))))))))),
          ),
        ),
      ),
    ),
  ),
)

hosted-custom :
    (t : String)
    → contains t all_hosted ≡ true
    → contains t ("SaveDraft" ∷ "GitHub" ∷ custom_tools) ≡ true
hosted-custom t = contains-included t all_hosted ("SaveDraft" ∷ "GitHub" ∷ custom_tools) (
  refl,
  (
    refl,
    (
      refl,
      (
        refl,
        (
          refl,
          (
            refl,
            (
              refl,
              (
                refl,
                (refl, (refl, (refl, (refl, (refl, (refl, (refl, (refl, (refl, (refl, tt)))))))))),
              ),
            ),
          ),
        ),
      ),
    ),
  ),
)

left_out-custom : (t : String) → left_out t ≡ true → contains t custom_tools ≡ false
left_out-custom t h = elim (Bool-cases ("SaveDraft" == t)) [
  | inl e ↦
      subst (λ u. contains u custom_tools ≡ false) ((String_eq.equals_iff "SaveDraft" t).0 e) refl
  | inr e ↦
      subst (λ u. contains u custom_tools ≡ false) ((String_eq.equals_iff "GitHub" t).0 (rw e at h))
        refl
]

-- A declared name that does not look like an MCP server's reaches the SDK as it is just if it is not a tool
-- that the runtime hosts itself, or is `SaveDraft` or `GitHub`, which are hosted as well.
pub sdk_tools_plain :
    (t : String) (declared : List String)
    → starts_with t "mcp__" ≡ false
    → contains t (sdk_tools declared)
      ≡ (contains t declared && (not (contains t all_hosted) || left_out t))
sdk_tools_plain t declared plain =
    sdk_tools-declared t declared plain
    ∙ ap (λ b. contains t declared && b)
        (elim (Bool-cases (left_out t)) [
          | inl e ↦ rw (e, left_out-custom t e) (either (contains t all_hosted))
          | inr e ↦ elim (Bool-cases (contains t all_hosted)) [
            | inl h ↦
                rw (e, h)
                  (ap not (
                    behind ("SaveDraft" == t) ("GitHub" == t) (contains t custom_tools) e
                      (hosted-custom t h)))
            | inr h ↦ elim (Bool-cases (contains t custom_tools)) [
              | inl c ↦ absurd (ground (arith, h, custom-hosted t c))
              | inr c ↦ rw (e, h, c) refl
            ]
          ]
        ])
  where
    behind : (a b c : Bool) → (a || b) ≡ false → (a || (b || c)) ≡ true → c ≡ true
    behind a b c h k = ground (arith, h, k)

    either : (b : Bool) → true ≡ (not b || true)
    either true = refl
    either false = refl

abbrev pub BackTo : String → String → Type 0
BackTo server tool = normalize_tool_name (mcp_name server tool) ≡ tool

-- The gateway sees each tool that the runtime hosts under the name that the agent declares.
pub normalize-mcp_name :
    All (BackTo "interagent") interagent_tools
    × All (BackTo "email") email_tools
    × All (BackTo "github") github_tools
    × All (BackTo "calendar") calendar_tools
unfolding normalize_tool_name get
normalize-mcp_name = (
  (refl, (refl, (refl, (refl, (refl, (refl, (refl, (refl, (refl, tt))))))))),
  (refl, (refl, (refl, (refl, tt)))),
  (refl, tt),
  (refl, (refl, (refl, (refl, tt)))),
)

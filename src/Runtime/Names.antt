-- ===== src/Runtime/Names.antt =====
-- runtime/agent_runner.py: the names of the tools that the runtime hosts itself, for the SDK and for
-- the gateway.
pub mod Plain
use Prim.Native.String.{◌++◌ as glue}
use tri_onyx.Base.{
  List, [], ◌∷◌, ◌++◌, Option, none, some, String, Bool, true, false, not, ◌==◌, if◌then◌else◌,
  String_eq, contains, keep,
}
use tri_onyx.Dict.{Dict, get}

-- The tools of the server `interagent`, in the order in which they are added.
abbrev pub interagent_tools : List String
interagent_tools =
    "SendMessage" ∷ "BCPQuery" ∷ "RestartAgent" ∷ "BCPRespond" ∷ "BCPPublish" ∷ "SubmitItem"
    ∷ "SubmitImage" ∷ "SubmitPage" ∷ "Speak" ∷ []

abbrev pub email_tools : List String
email_tools = "SendEmail" ∷ "SaveDraft" ∷ "MoveEmail" ∷ "CreateFolder" ∷ []

abbrev pub github_tools : List String
github_tools = "GitHub" ∷ []

abbrev pub calendar_tools : List String
calendar_tools = "CalendarQuery" ∷ "CalendarCreate" ∷ "CalendarUpdate" ∷ "CalendarDelete" ∷ []

-- f"mcp__{server}__{tool}"
abbrev pub mcp_name : String → String → String
mcp_name server tool = glue "mcp__" (glue server (glue "__" tool))

-- `_custom_tools`
abbrev pub custom_tools : List String
custom_tools =
    "SendMessage" ∷ "RestartAgent" ∷ "BCPQuery" ∷ "BCPRespond" ∷ "BCPPublish" ∷ "SendEmail"
    ∷ "MoveEmail" ∷ "CreateFolder" ∷ "CalendarQuery" ∷ "CalendarCreate" ∷ "CalendarUpdate"
    ∷ "CalendarDelete" ∷ "SubmitItem" ∷ "SubmitImage" ∷ "SubmitPage" ∷ "Speak" ∷ []

-- The names that the tests `if TOOL in config.tools` of one server append.
unfoldable pub hosted : String → List String → List String → List String
hosted server [] declared = []
hosted server (tool ∷ tools) declared =
    let rest = hosted server tools declared in
    if contains tool declared then mcp_name server tool ∷ rest else rest

-- `sdk_tools` when the options are made.
unfoldable pub sdk_tools : List String → List String
unfolding hosted
sdk_tools declared =
    keep (λ t. not (contains t custom_tools)) declared
    ++ (hosted "interagent" interagent_tools declared
        ++ (hosted "email" email_tools declared
            ++ (hosted "github" github_tools declared
                ++ hosted "calendar" calendar_tools declared)))

abbrev pub mcp_to_logical : Dict String String
mcp_to_logical =
    ("mcp__interagent__SendMessage", "SendMessage")
    ∷ ("mcp__interagent__BCPQuery", "BCPQuery")
    ∷ ("mcp__interagent__BCPRespond", "BCPRespond")
    ∷ ("mcp__interagent__BCPPublish", "BCPPublish")
    ∷ ("mcp__interagent__RestartAgent", "RestartAgent")
    ∷ ("mcp__email__SendEmail", "SendEmail")
    ∷ ("mcp__email__SaveDraft", "SaveDraft")
    ∷ ("mcp__email__MoveEmail", "MoveEmail")
    ∷ ("mcp__email__CreateFolder", "CreateFolder")
    ∷ ("mcp__github__GitHub", "GitHub")
    ∷ ("mcp__calendar__CalendarQuery", "CalendarQuery")
    ∷ ("mcp__calendar__CalendarCreate", "CalendarCreate")
    ∷ ("mcp__calendar__CalendarUpdate", "CalendarUpdate")
    ∷ ("mcp__calendar__CalendarDelete", "CalendarDelete")
    ∷ ("mcp__interagent__SubmitItem", "SubmitItem")
    ∷ ("mcp__interagent__SubmitImage", "SubmitImage")
    ∷ ("mcp__interagent__SubmitPage", "SubmitPage")
    ∷ ("mcp__interagent__Speak", "Speak")
    ∷ []

unfoldable pub normalize_tool_name : String → String
unfolding get
normalize_tool_name name = elim (get name mcp_to_logical) [ none ↦ name | some logical ↦ logical ]

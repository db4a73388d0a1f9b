-- ===== src/Connector/Channels.antt =====
-- connector/connector/channel_bindings.py: the Slack channel of each agent that is bound to a
-- repository. Python's string functions and the regular expression are the record `NameLibrary`; the
-- answer of the gateway is the list of bindings, `ensure_channel` of the Slack adapter a function.
pub mod Unique
use Prim.Native.String.{◌++◌}
use tri_onyx.Base.{
  ℕ, zero, suc, ◌-◌, ◌+◌, String, Bool, true, false, ◌&&◌, not, List, [], ◌∷◌, Option, none, some,
  ◌==◌, ◌>>=◌, if◌then◌else◌, String_eq,
}
use tri_onyx.Dict.{Dict, get, put}

pub record NameLibrary : Type 0 where
  -- `repo.partition("/")`, without the separator
  pub partition : String → String × String
  -- `_INVALID_NAME_CHARS.sub("-", s.lower()).strip("-")`
  pub sanitize : String → String
  pub take : ℕ → String → String
  pub rstrip_dash : String → String
  pub size : String → ℕ
  pub decimal : ℕ → String

pub record Binding : Type 0 where
  pub agent : Option String
  pub github_repo : Option String
  pub slack_channel : Option String

pub record RoomConfig : Type 0 where
  pub agent : String
  pub mode : String

abbrev pub max_channel_name_len : ℕ
max_channel_name_len = 80

abbrev pub max_name_attempts : ℕ
max_name_attempts = 50

-- `s or ""`
abbrev pub or_blank : Option String → String
or_blank none = ""
or_blank (some s) = s

-- `candidate not in taken`, for the first of the candidates
unfoldable pub first_free : List String → Dict String String → Option String
first_free [] taken = none
first_free (c ∷ cs) taken = elim (get c taken) [ none ↦ some c | some _ ↦ first_free cs taken ]

module _ (lib : NameLibrary) where
  unfoldable pub channel_name_for_repo : String → String → Bool → String
  channel_name_for_repo repo prefix qualified =
      let (owner, name) = lib.partition repo in
      let base =
        if qualified && not (name == "")
        then owner ++ ("-" ++ name)
        else if name == ""
        then owner
        else name in
      lib.take max_channel_name_len (prefix ++ lib.sanitize base)

  unfoldable pub with_suffix : String → ℕ → String
  with_suffix name n =
      let tag = "-" ++ lib.decimal n in
      lib.rstrip_dash (lib.take (max_channel_name_len - lib.size tag) name) ++ tag

  -- `[_with_suffix(name, n) for n in range(first, first + count)]`
  unfoldable pub suffixed : String → ℕ → ℕ → List String
  unfolding with_suffix
  suffixed name first zero = []
  suffixed name first (suc count) = with_suffix name first ∷ suffixed name (first + 1) count

  unfoldable pub candidates : String → String → List String
  unfolding channel_name_for_repo suffixed
  candidates repo prefix =
      let qualified = channel_name_for_repo repo prefix true in
      channel_name_for_repo repo prefix false ∷ qualified ∷ suffixed qualified 2 max_name_attempts

  -- `none` where it raises ValueError
  unfoldable pub unique_name : String → String → Dict String String → Option String
  unfolding candidates first_free
  unique_name repo prefix taken = first_free (candidates repo prefix) taken

  -- `b.get("github_repo") and not b.get("slack_channel")`
  abbrev pub wants_channel : Binding → Bool
  wants_channel b = not (or_blank b.github_repo == "") && or_blank b.slack_channel == ""

  -- The loop of `_resolve_names` with its dicts `names` and `seen`. `none` where it raises: KeyError
  -- for a binding without an agent, ValueError where no name is free.
  unfoldable pub resolve :
      String
      → List Binding
      → Dict String String
      → Dict String String
      → Option (Dict String String × Dict String String)
  unfolding unique_name
  resolve prefix [] names seen = some (names, seen)
  resolve prefix (b ∷ bs) names seen = elim (wants_channel b) [
    | false ↦ resolve prefix bs names seen
    | true ↦ elim b.agent [
      | none ↦ none
      | some agent ↦ elim (unique_name (or_blank b.github_repo) prefix seen) [
        | none ↦ none
        | some name ↦ resolve prefix bs (put agent name names) (put name agent seen)
      ]
    ]
  ]

  unfoldable pub resolve_names : List Binding → String → Option (Dict String String)
  unfolding resolve
  resolve_names bindings prefix = do r ← resolve prefix bindings [] []; some r.0

-- The channel of a binding: its own, or the one that is ensured under the desired name.
unfoldable pub channel_of : (String → Option String) → Dict String String → Binding → String
channel_of ensure_channel desired b =
    if or_blank b.slack_channel == ""
    then elim (get (or_blank b.agent) desired) [
      | none ↦ ""
      | some name ↦ or_blank (ensure_channel name)
    ]
    else or_blank b.slack_channel

-- The loop of `load_channel_bindings` over the bindings.
unfoldable pub merge :
    (String → Option String)
    → Dict String String
    → List Binding
    → Dict String RoomConfig
    → Dict String RoomConfig
unfolding channel_of
merge ensure_channel desired [] rooms = rooms
merge ensure_channel desired (b ∷ bs) rooms =
    let agent = or_blank b.agent in
    let channel_id = channel_of ensure_channel desired b in
    merge ensure_channel desired bs (
      if agent == ""
      then rooms
      else if channel_id == ""
      then rooms
      else elim (get channel_id rooms) [
        | some _ ↦ rooms
        | none ↦ put channel_id (record { agent = agent; mode = "all" }) rooms
      ])

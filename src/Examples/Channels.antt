-- ===== src/Examples/Channels.antt =====
-- The theorems on channel names, with two repositories of one name.
use tri_onyx.Base.{String, List, [], ◌∷◌, none, some, ◌≡◌, refl, String_eq}
use tri_onyx.Dict.{Dict, get}
use tri_onyx.Connector.Channels.{NameLibrary, Binding, RoomConfig, resolve_names}
use tri_onyx.Connector.Channels.Unique.{resolve_names_unique}

-- Every repository is `owner/app` here, so that the bare names clash.
abbrev names : NameLibrary
names = record {
  partition = λ repo. (repo, "app");
  sanitize = λ s. s;
  take = λ n s. s;
  rstrip_dash = λ s. s;
  size = λ s. 2;
  decimal = λ n. "n";
}

abbrev bindings : List Binding
bindings =
    record { agent = some "first"; github_repo = some "one"; slack_channel = none }
    ∷ record { agent = some "second"; github_repo = some "two"; slack_channel = none }
    ∷ []

abbrev given : Dict String String
given = ("first", "gh-app") ∷ ("second", "gh-two-app") ∷ []

resolved : resolve_names names bindings "gh-" ≡ some given
unfolding resolve_names get tri_onyx.Dict.put
resolved = refl

first_given : get "first" given ≡ some "gh-app"
unfolding get
first_given = refl

resolve_names_unique_example : ◌≡◌ {A = String} "first" "first"
resolve_names_unique_example =
    resolve_names_unique names bindings "gh-" given "first" "first" "gh-app" resolved first_given
      first_given

abbrev local : RoomConfig
local = record { agent = "mine"; mode = "mention" }

abbrev rooms : Dict String RoomConfig
rooms = ("C1", local) ∷ []

configured : get "C1" rooms ≡ some local
unfolding get
configured = refl

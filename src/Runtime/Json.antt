-- ===== src/Runtime/Json.antt =====
-- The values that `json.loads` makes: the dicts of runtime/protocol.py and runtime/agent_runner.py.
-- The messages from the gateway hold no numbers but natural ones.
use Prim.Native.Nat.{ℕ}
use text.Mathlib.Text.{find?}
use tri_onyx.Base.{
  Bool, true, false, not, nat_eq, Option, none, some, String, ◌==◌, ◌||◌, if◌then◌else◌, String_eq,
}

mutual
  pub data Json : Type 0 where
    null : Json
    boolean : Bool → Json
    number : ℕ → Json
    string : String → Json
    array : Items → Json
    object : Members → Json

  pub data Items : Type 0 where
    nil : Items
    item : Json → Items → Items

  -- a dict, in the order of insertion
  pub data Members : Type 0 where
    empty : Members
    member : String → Json → Members → Members

-- data.get(key)
unfoldable pub find : String → Members → Option Json
find key empty = none
find key (member k v rest) = if k == key then some v else find key rest

-- data.get(key, default)
unfoldable pub find_or : String → Json → Members → Json
unfolding find
find_or key default d = elim (find key d) [ none ↦ default | some v ↦ v ]

-- `s in xs` for a list
unfoldable pub has_item : String → Items → Bool
has_item s nil = false
has_item s (item (string t) rest) = t == s || has_item s rest
has_item s (item v rest) = has_item s rest

-- `s in t` for a text
unfoldable pub has_text : String → String → Bool
has_text s t = elim (find? t s) [ none ↦ false | some i ↦ true ]

-- `if value:`
abbrev pub truthy : Json → Bool
truthy null = false
truthy (boolean b) = b
truthy (number n) = not (nat_eq n 0)
truthy (string s) = not (s == "")
truthy (array nil) = false
truthy (array (item v rest)) = true
truthy (object empty) = false
truthy (object (member k v rest)) = true

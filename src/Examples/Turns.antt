-- ===== src/Examples/Turns.antt =====
-- The theorems on turns, with one agent in one room.
use tri_onyx.Base.{
  inr, arith, ℕ, ◌⊎◌, true, false, List, [], ◌∷◌, none, some, ◌≡◌, refl, ℕ_eq, Key_eq,
}
use tri_onyx.Dict.{get}
use tri_onyx.Mcp.Bridge.{
  TextLibrary, Key, ready, writing, text, result, error, Turn, unsettled, replied, failed, is_done,
  on_disconnect, join, Bridge, on_outbound,
}
use tri_onyx.Mcp.Bridge.Calls.{ask_look, TurnStatus, told, ask_done}
use tri_onyx.Mcp.Bridge.Settled.{frame_in, connection_lost, deadline, happen_all, settled_stays}
use tri_onyx.Mcp.Bridge.Swallowed.{Run, IsRun, feed, feed_runs}
use tri_onyx.Mcp.Bridge.Asked.{asked, ask_told_own_texts}
use tri_onyx.Mcp.Bridge.Looked.{IsTold, ask_look_tells}
use tri_onyx.Mcp.Bridge.Lost.{disconnect_settles}

abbrev texts : TextLibrary
texts = record { strip = λ s. s; seconds = λ n. "300"; echo = λ s. s }

abbrev key : Key
key = ("agent", "room")

abbrev waiting : Turn
waiting = record {
  future = unsettled;
  key = key;
  started_at = 1000;
  hard_timeout = 300000;
  message = "hello";
  texts = [];
  phase = ready;
  tool_name = "";
  finished_at = none;
  waiters = 1;
  checks = 1;
  watching = true;
}

abbrev answered : Turn
answered = record waiting {
  future = replied "hi";
  finished_at = some 2000;
  texts = "hi" ∷ [];
  phase = writing;
}

abbrev one : Turn → List ℕ → Bridge
one t stamps = record {
  heap = (0, t) ∷ [];
  turns = (key, 0) ∷ [];
  abandoned = (key, stamps) ∷ [];
  parked_ttl = 600000;
}

-- The frames of a turn that was given up.
abbrev old_run : Run
old_run = record { body = (text "late", 3000) ∷ []; last = result ""; ended = 3100 }

old_run-IsRun : IsRun old_run
old_run-IsRun = record { more = (refl, tt); terminal = refl }

there : (t : Turn) (stamps : List ℕ) → get 0 (one t stamps).heap ≡ some t
unfolding get
there t stamps = refl

current : (t : Turn) (stamps : List ℕ) → get key (one t stamps).turns ≡ some 0
unfolding get
current t stamps = refl

given_up : get key (one waiting (900 ∷ [])).abandoned ≡ some (900 ∷ [])
unfolding get
given_up = refl

settled_stays_example :
    get 0
      (happen_all texts
        (frame_in key (error "no") 2500 ∷ connection_lost 2600 ∷ deadline 0 2700 ∷ [])
        (one answered [])).heap
    ≡ some answered
settled_stays_example =
    settled_stays texts
      (frame_in key (error "no") 2500 ∷ connection_lost 2600 ∷ deadline 0 2700 ∷ []) 0 answered
      (one answered []) refl (there answered [])

abbrev given_up_only : Bridge
given_up_only = record {
  heap = [];
  turns = [];
  abandoned = (key, 900 ∷ []) ∷ [];
  parked_ttl = 600000;
}

nothing_else : get key given_up_only.abandoned ≡ some (900 ∷ [])
unfolding get
nothing_else = refl

ask_told_own_texts_example :
    (s : TurnStatus) × ((ask_done key 0 5000 (
        on_outbound texts key (result "") 4000 (
          feed texts key ((text "mine", 3500) ∷ []) (
            feed_runs texts key
              (old_run ∷ [])
              (asked texts key 300000 "hello" 1000 0 given_up_only))))).0
      ≡ some (told s))
    × (s.reply ≡ join ("mine" ∷ []))
    × (s.pending ≡ false)
    × (s.stale ≡ false)
ask_told_own_texts_example =
    ask_told_own_texts texts key 300000 "hello" 1000 0 given_up_only (old_run ∷ []) (900 ∷ [])
      ((text "mine", 3500) ∷ []) "" 4000 5000 nothing_else refl (old_run-IsRun, tt) (refl, tt)

ask_look_tells_example : IsTold key 0 answered 2500 (ask_look key 2500 (one answered []))
ask_look_tells_example =
    ask_look_tells key 0 answered 2500 (one answered []) (current answered []) (there answered [])
      (inr (inr (2000, refl, omega arith)))

disconnect_settles_example :
    (u : Turn) × (get 0 (on_disconnect texts 2500 (one waiting [])).heap ≡ some u)
    × (((waiting.future ≡ unsettled)
          × (u.future ≡ failed "Connection to the TriOnyx gateway was lost."))
        ⊎ ((is_done waiting ≡ true) × (u ≡ waiting)))
disconnect_settles_example =
    disconnect_settles texts 0 key 2500 waiting (one waiting []) (current waiting [])
      (there waiting [])

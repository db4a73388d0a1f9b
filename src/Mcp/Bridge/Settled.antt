-- ===== src/Mcp/Bridge/Settled.antt =====
-- A turn that has settled keeps its outcome, whatever frames and losses of the connection follow.
use tri_onyx.Base.{
  ℕ, String, true, not, ◌&&◌, List, [], ◌∷◌, some, ◌==◌, ◌≡◌, refl, sym, ap, ◌∙◌, arith, inl, inr,
  Bool-cases, Option-cases, ℕ_eq, Key_eq,
}
use tri_onyx.Dict.{get, values}
use tri_onyx.Dict.Laws.{get-put}
use tri_onyx.Mcp.Bridge.{
  TextLibrary, Key, Frame, Turn, is_done, fail, receive, Bridge, update, abandon, stamps_of,
  is_terminal, pop_stamp, swallow_abandoned, deliver, on_outbound, fail_and_abandon, deadline_text,
  hard_deadline, unsettled_of, fail_all, on_disconnect,
}

-- What happens to the turns from outside.
pub data Event : Type 0 where
  frame_in : Key → Frame → ℕ → Event
  connection_lost : ℕ → Event
  deadline : ℕ → ℕ → Event

module _ (lib : TextLibrary) where
  unfoldable pub happen : Event → Bridge → Bridge
  happen (frame_in key frame now) b = on_outbound lib key frame now b
  happen (connection_lost now) b = on_disconnect lib now b
  happen (deadline id now) b = hard_deadline lib id now b

  unfoldable pub happen_all : List Event → Bridge → Bridge
  unfolding happen
  happen_all [] b = b
  happen_all (e ∷ es) b = happen_all es (happen e b)

  module _ (id : ℕ) (t : Turn) where
    update_keeps :
        (j : ℕ) (f : Turn → Turn) (b : Bridge)
        → f t ≡ t
        → get id b.heap ≡ some t
        → get id (update j f b).heap ≡ some t
    unfolding update
    update_keeps j f b same here = elim (Option-cases (get j b.heap)) [
      | inl e ↦ rw (e, update) here
      | inr (u, e) ↦
          rw (e, update)
            (elim (Bool-cases (j == id)) [
              | inr other ↦ get-put j id (f u) b.heap ∙ rw other here
              | inl found ↦
                  let j_is : j ≡ id = (ℕ_eq.equals_iff j id).0 found in
                  let u_is : u ≡ t = ground (arith, sym e ∙ ap (λ k. get k b.heap) j_is ∙ here) in
                  get-put j id (f u) b.heap ∙ rw found (ap some (ap f u_is ∙ same))
            ])
    ]

    heap-swallow :
        (key : Key) (frame : Frame) (b : Bridge) → (swallow_abandoned key frame b).1.heap ≡ b.heap
    unfolding swallow_abandoned pop_stamp
    heap-swallow key frame b = by_stamps (stamps_of (get key b.abandoned)) refl
      where
        popped : (ss : List ℕ) → (pop_stamp key ss b).heap ≡ b.heap
        popped [] = refl
        popped (s ∷ ss) = refl

        by_stamps :
            (ss : List ℕ)
            → stamps_of (get key b.abandoned) ≡ ss
            → (swallow_abandoned key frame b).1.heap ≡ b.heap
        by_stamps [] e = rw (e, swallow_abandoned)
        by_stamps (s ∷ ss) e = elim (Bool-cases (is_terminal frame)) [
          | inl last ↦ rw (e, swallow_abandoned, last) (popped ss)
          | inr more ↦ rw (e, swallow_abandoned, more)
        ]

    module _ (done : is_done t ≡ true) where
      receive_settled : (frame : Frame) (now : ℕ) → receive lib frame now t ≡ t
      unfolding receive
      receive_settled frame now = rw done

      fail_settled : (reason : String) (now : ℕ) → fail reason now t ≡ t
      unfolding fail
      fail_settled reason now = rw done

      deliver_keeps :
          (key : Key) (frame : Frame) (now : ℕ) (b : Bridge)
          → get id b.heap ≡ some t
          → get id (deliver lib key frame now b).heap ≡ some t
      unfolding deliver
      deliver_keeps key frame now b here = elim (Option-cases (get key b.turns)) [
        | inl e ↦ rw (e, deliver) here
        | inr (j, e) ↦
            rw (e, deliver)
              (update_keeps j (receive lib frame now) b (receive_settled frame now) here)
      ]

      on_outbound_keeps :
          (key : Key) (frame : Frame) (now : ℕ) (b : Bridge)
          → get id b.heap ≡ some t
          → get id (on_outbound lib key frame now b).heap ≡ some t
      unfolding on_outbound
      on_outbound_keeps key frame now b here =
          let kept = ap (get id) (heap-swallow key frame b) ∙ here in
          elim (Bool-cases (swallow_abandoned key frame b).0) [
            | inl ours ↦ rw (ours, on_outbound) kept
            | inr other ↦
                rw (other, on_outbound)
                  (deliver_keeps key frame now (swallow_abandoned key frame b).1 kept)
          ]

      fail_and_abandon_keeps :
          (reason : String) (now j : ℕ) (b : Bridge)
          → get id b.heap ≡ some t
          → get id (fail_and_abandon lib reason now j b).heap ≡ some t
      unfolding fail_and_abandon abandon
      fail_and_abandon_keeps reason now j b here = elim (Option-cases (get j b.heap)) [
        | inl e ↦ rw (e, fail_and_abandon) here
        | inr (u, e) ↦
            rw (e, fail_and_abandon)
              (update_keeps j (fail reason now) b (fail_settled reason now) here)
      ]

      hard_deadline_keeps :
          (j now : ℕ) (b : Bridge)
          → get id b.heap ≡ some t
          → get id (hard_deadline lib j now b).heap ≡ some t
      unfolding hard_deadline
      hard_deadline_keeps j now b here = elim (Option-cases (get j b.heap)) [
        | inl e ↦ rw (e, hard_deadline) here
        | inr (u, e) ↦ elim (Bool-cases (u.watching && not (is_done u))) [
          | inl fires ↦
              rw (e, hard_deadline, fires)
                (fail_and_abandon_keeps (deadline_text lib u) now j b here)
          | inr idle ↦ rw (e, hard_deadline, idle) here
        ]
      ]

      fail_all_keeps :
          (ids : List ℕ) (now : ℕ) (b : Bridge)
          → get id b.heap ≡ some t
          → get id (fail_all lib ids now b).heap ≡ some t
      unfolding fail_all
      fail_all_keeps [] now b here = here
      fail_all_keeps (j ∷ js) now b here =
          fail_all_keeps js now
            (fail_and_abandon lib "Connection to the TriOnyx gateway was lost." now j b)
            (fail_and_abandon_keeps "Connection to the TriOnyx gateway was lost." now j b here)

      happen_keeps :
          (e : Event) (b : Bridge) → get id b.heap ≡ some t → get id (happen e b).heap ≡ some t
      unfolding happen on_disconnect
      happen_keeps (frame_in key frame now) b here = on_outbound_keeps key frame now b here
      happen_keeps (connection_lost now) b here =
          fail_all_keeps (unsettled_of lib (values b.turns) b) now b here
      happen_keeps (deadline j now) b here = hard_deadline_keeps j now b here

      all_keep :
          (es : List Event) (b : Bridge)
          → get id b.heap ≡ some t
          → get id (happen_all es b).heap ≡ some t
      unfolding happen_all
      all_keep [] b here = here
      all_keep (e ∷ es) b here = all_keep es (happen e b) (happen_keeps e b here)

  -- A parked outcome is immutable: a turn that has settled is exactly the same turn after any frames,
  -- for any keys, any losses of the connection and any deadlines.
  pub settled_stays :
      (es : List Event) (id : ℕ) (t : Turn) (b : Bridge)
      → is_done t ≡ true
      → get id b.heap ≡ some t
      → get id (happen_all es b).heap ≡ some t
  settled_stays es id t b done here = all_keep id t done es b here

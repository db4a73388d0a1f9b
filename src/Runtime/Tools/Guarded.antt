-- ===== src/Runtime/Tools/Guarded.antt =====
-- runtime/agent_runner.py: which files and texts leave the runtime.
use Prim.Native.String.{len}
use tri_onyx.Base.{
  ℕ, List, [], ◌∷◌, Option, none, some, String, Bool, false, not, ◌&&◌, ◌==◌, ◌≡◌, ◌≤◌, ◌*◌, true,
  ◌⊎◌, sym, ◌∙◌, refl, if◌then◌else◌, String_eq, leb, contains, arith, inl, inr, Bool-cases,
}
use mathlib.Core.Path.{subst}
use tri_onyx.Dict.{get}
use tri_onyx.Runtime.Protocol.Classes.{workspace_root}
use tri_onyx.Runtime.Protocol.Classes.{Message}
use tri_onyx.Runtime.Requests.{
  emit_submit_image_request, emit_submit_page_request, emit_speak_request,
}
use tri_onyx.Runtime.Dispatcher.Queues.{Dispatcher}
use tri_onyx.Runtime.Tools.{ShowLibrary, Handled, ask_gateway}
use tri_onyx.Runtime.Tools.Files.{
  FileLibrary, allowed_image_extensions, image_max_size, allowed_page_extensions, page_max_size,
  speak_max_text_bytes, speak_voices, resolve_path, media_type_of, with_size, submit_image_handle,
  submit_page_handle, speak_handle,
}

-- A file that can be read and is not larger than `max_size`.
abbrev pub fits : ℕ → Option ℕ → Bool
fits max_size none = false
fits max_size (some size) = leb size max_size

module _ (lib : ShowLibrary) (files : FileLibrary) where
  -- A file of the workspace, of one of the types and not too large.
  abbrev pub may_leave : List String → ℕ → String → Bool
  may_leave extensions max_size resolved =
      files.is_relative_to resolved (files.resolve workspace_root)
      && (files.is_file resolved
          && (contains (files.suffix resolved) extensions && fits max_size (files.size resolved)))

  size_guard :
      (max_size : ℕ) (max_text path : String) (rest : Handled) (size : Option ℕ) (d : Dispatcher)
      (request : List _)
      → rest.written ≡ request
      → (with_size lib files max_size max_text path rest size d).written
        ≡ (if fits max_size size then request else [])
  unfolding with_size
  size_guard max_size max_text path rest none d request e = refl
  size_guard max_size max_text path rest (some size) d request e = ground (arith, e)

  -- What is written for an image, by the tests on the path's target.
  image_request_written :
      (path request_id : String) (rounds : List (List Message)) (d : Dispatcher)
      → let resolved = resolve_path lib files path in
        let root = files.resolve workspace_root in
        (submit_image_handle lib files path request_id rounds d).written ≡ (
          if may_leave allowed_image_extensions image_max_size resolved
          then emit_submit_image_request request_id
              (files.relative_to resolved root)
              (files.name resolved)
              (media_type_of lib files (files.suffix resolved))
            ∷ []
          else [])
  unfolding submit_image_handle ask_gateway
  image_request_written path request_id rounds d =
      let resolved = resolve_path lib files path in
      let root = files.resolve workspace_root in
      elim (Bool-cases (files.is_relative_to resolved root)) [
        | inr outside ↦ rw outside refl
        | inl inside ↦ elim (Bool-cases (files.is_file resolved)) [
          | inr missing ↦ rw (inside, missing) refl
          | inl found ↦
              elim (Bool-cases (contains (files.suffix resolved) allowed_image_extensions)) [
                | inr other ↦ rw (inside, found, other) refl
                | inl image ↦
                    rw (inside, found, image)
                      (size_guard image_max_size "10MB" path _ (files.size resolved) d _ refl)
              ]
        ]
      ]

  -- The root of the workspace, without links.
  abbrev pub root : String
  root = files.resolve "/workspace"

  -- The name of an image, and what its extension stands for.
  abbrev pub IsMediaOf : String → String → Type 0
  IsMediaOf ext media_type =
      ((ext ≡ ".png") × (media_type ≡ "image/png"))
      ⊎ (((ext ≡ ".jpg") ⊎ (ext ≡ ".jpeg")) × (media_type ≡ "image/jpeg"))
      ⊎ ((ext ≡ ".gif") × (media_type ≡ "image/gif"))
      ⊎ ((ext ≡ ".webp") × (media_type ≡ "image/webp"))
      ⊎ ((ext ≡ ".svg") × (media_type ≡ "image/svg+xml"))

  -- A file that is no link and has no link above it, below the workspace, which is an image of at most 10 MB.
  pub record IsSendable (file media_type : String) : Type 0 where
    pub unlinked : files.resolve file ≡ file
    pub inside : files.is_relative_to file root ≡ true
    pub a_file : files.is_file file ≡ true
    pub typed : IsMediaOf (files.suffix file) media_type
    pub small : (size : ℕ) × (files.size file ≡ some size) × (size ≤ 10 * 1024 * 1024)

  unlisted :
      (ext : String)
      → contains ext allowed_image_extensions ≡ true
      → (".png" == ext) ≡ false
      → (".jpg" == ext) ≡ false
      → (".jpeg" == ext) ≡ false
      → (".gif" == ext) ≡ false
      → (".webp" == ext) ≡ false
      → (".svg" == ext) ≡ false
      → ⊥
  unlisted ext h a b c d e f = ground (arith, rw (a, b, c, d, e, f) at h)

  media_type_of-IsMediaOf :
      (ext : String)
      → contains ext allowed_image_extensions ≡ true
      → IsMediaOf ext (media_type_of lib files ext)
  unfolding media_type_of get
  media_type_of-IsMediaOf ext h = elim (Bool-cases (".png" == ext)) [
    | inl e ↦
        subst (λ x. IsMediaOf x (media_type_of lib files x)) ((String_eq.equals_iff ".png" ext).0 e)
          (inl (refl, refl))
    | inr o0 ↦ elim (Bool-cases (".jpg" == ext)) [
      | inl e ↦
          subst (λ x. IsMediaOf x (media_type_of lib files x))
            ((String_eq.equals_iff ".jpg" ext).0 e) (inr (inl (inl refl, refl)))
      | inr o1 ↦ elim (Bool-cases (".jpeg" == ext)) [
        | inl e ↦
            subst (λ x. IsMediaOf x (media_type_of lib files x))
              ((String_eq.equals_iff ".jpeg" ext).0 e) (inr (inl (inr refl, refl)))
        | inr o2 ↦ elim (Bool-cases (".gif" == ext)) [
          | inl e ↦
              subst (λ x. IsMediaOf x (media_type_of lib files x))
                ((String_eq.equals_iff ".gif" ext).0 e) (inr (inr (inl (refl, refl))))
          | inr o3 ↦ elim (Bool-cases (".webp" == ext)) [
            | inl e ↦
                subst (λ x. IsMediaOf x (media_type_of lib files x))
                  ((String_eq.equals_iff ".webp" ext).0 e) (inr (inr (inr (inl (refl, refl)))))
            | inr o4 ↦ elim (Bool-cases (".svg" == ext)) [
              | inl e ↦
                  subst (λ x. IsMediaOf x (media_type_of lib files x))
                    ((String_eq.equals_iff ".svg" ext).0 e) (inr (inr (inr (inr (refl, refl)))))
              | inr o5 ↦ absurd (unlisted ext h o0 o1 o2 o3 o4 o5)
            ]
          ]
        ]
      ]
    ]
  ]

  IsMediaOf-contains :
      (ext media_type : String)
      → IsMediaOf ext media_type
      → contains ext allowed_image_extensions ≡ true
  IsMediaOf-contains ext m (inl (e, t)) = rw e refl
  IsMediaOf-contains ext m (inr (inl (inl e, t))) = rw e refl
  IsMediaOf-contains ext m (inr (inl (inr e, t))) = rw e refl
  IsMediaOf-contains ext m (inr (inr (inl (e, t)))) = rw e refl
  IsMediaOf-contains ext m (inr (inr (inr (inl (e, t))))) = rw e refl
  IsMediaOf-contains ext m (inr (inr (inr (inr (e, t))))) = rw e refl

  fits-small :
      (size : Option ℕ)
      → fits image_max_size size ≡ true
      → (n : ℕ) × (size ≡ some n) × (n ≤ 10 * 1024 * 1024)
  fits-small none h = absurd (ground arith)
  fits-small (some n) h = (n, refl, ground arith)

  small-fits :
      (size : Option ℕ)
      → (n : ℕ) × (size ≡ some n) × (n ≤ 10 * 1024 * 1024)
      → fits image_max_size size ≡ true
  small-fits size (n, e, small) = rw e (ground (arith, small))

  may_leave-IsSendable :
      (path : String)
      → files.resolve path ≡ path
      → may_leave allowed_image_extensions image_max_size path ≡ true
      → IsSendable path (media_type_of lib files (files.suffix path))
  may_leave-IsSendable path plain h = record {
    unlinked = plain;
    inside = ground (arith, h);
    a_file = ground (arith, h);
    typed = media_type_of-IsMediaOf (files.suffix path) (ground (arith, h));
    small = fits-small (files.size path) (ground (arith, h));
  }

  IsSendable-may_leave :
      (path media_type : String)
      → IsSendable path media_type
      → may_leave allowed_image_extensions image_max_size path ≡ true
  IsSendable-may_leave path media_type h =
      rw
        (
          h.inside,
          h.a_file,
          IsMediaOf-contains (files.suffix path) media_type h.typed,
          small-fits (files.size path) h.small,
        )
        refl

  -- What a path stands for: taken from the workspace if it is relative, with all links followed.
  abbrev pub target : String → String
  target path =
      files.resolve (if files.is_absolute path then path else files.join "/workspace" path)

  -- SubmitImage writes one request if the path stands for an image of the workspace, by its name, of at most
  -- 10 MB, and nothing otherwise; and the request's path, taken from the root of the workspace, is that file
  -- itself, which is no link and has no link above it, with the type that the request tells. This is where
  -- `resolve` leaves no links, and `/` puts back what `relative_to` takes off.
  pub image_request_guarded :
      (path request_id : String) (rounds : List (List Message)) (d : Dispatcher)
      → ((p : String) → files.resolve (files.resolve p) ≡ files.resolve p)
      → ((p : String)
          → files.is_relative_to p root ≡ true
          → files.join root (files.relative_to p root) ≡ p)
      → (((submit_image_handle lib files path request_id rounds d).written ≡ [])
          × (¬ ((media_type : String) × IsSendable (target path) media_type)))
        ⊎ ((place filename media_type : String) × ((submit_image_handle lib files path request_id
                rounds d).written
              ≡ emit_submit_image_request request_id place filename media_type ∷ [])
            × (files.join root place ≡ target path)
            × IsSendable (files.join root place) media_type)
  unfolding resolve_path
  image_request_guarded path request_id rounds d no_links rejoined =
      let resolved = target path in
      let media_type = media_type_of lib files (files.suffix resolved) in
      let plain : files.resolve resolved ≡ resolved =
        no_links (if files.is_absolute path then path else files.join "/workspace" path) in
      let written = image_request_written path request_id rounds d in
      elim (Bool-cases (may_leave allowed_image_extensions image_max_size resolved)) [
        | inr other ↦ inl (
          written ∙ rw other refl,
          λ (m, h). ground (arith, other, IsSendable-may_leave resolved m h),
        )
        | inl fine ↦
            let image = may_leave-IsSendable resolved plain fine in
            let back = rejoined resolved image.inside in
            inr (
              files.relative_to resolved root,
              files.name resolved,
              media_type,
              written ∙ rw fine refl,
              back,
              subst (λ p. IsSendable p media_type) (sym back) image,
            )
      ]

  -- SubmitPage writes its request just for a file of the workspace, links followed, that is an HTML
  -- page by its name and has at most 5 MB, under the title that was given or else under its name.
  pub page_request_guarded :
      (path title request_id : String) (rounds : List (List Message)) (d : Dispatcher)
      → let resolved = resolve_path lib files path in
        let root = files.resolve workspace_root in
        (submit_page_handle lib files path title request_id rounds d).written ≡ (
          if may_leave allowed_page_extensions page_max_size resolved
          then emit_submit_page_request request_id
              (files.relative_to resolved root)
              (if title == "" then files.stem resolved else title)
            ∷ []
          else [])
  unfolding submit_page_handle ask_gateway
  page_request_guarded path title request_id rounds d =
      let resolved = resolve_path lib files path in
      let root = files.resolve workspace_root in
      elim (Bool-cases (files.is_relative_to resolved root)) [
        | inr outside ↦ rw outside refl
        | inl inside ↦ elim (Bool-cases (files.is_file resolved)) [
          | inr missing ↦ rw (inside, missing) refl
          | inl found ↦
              elim (Bool-cases (contains (files.suffix resolved) allowed_page_extensions)) [
                | inr other ↦ rw (inside, found, other) refl
                | inl page ↦
                    rw (inside, found, page)
                      (size_guard page_max_size "5MB" path _ (files.size resolved) d _ refl)
              ]
        ]
      ]

  -- Speak writes its request just for a text that is not blank and has at most 8000 bytes, and for a
  -- voice that there is.
  pub speak_request_guarded :
      (text voice request_id : String) (rounds : List (List Message)) (d : Dispatcher)
      → (speak_handle lib files text voice request_id rounds d).written ≡ (
          if not (files.strip text == "")
            && (leb (len text) speak_max_text_bytes && contains voice speak_voices)
          then emit_speak_request request_id text voice ∷ []
          else [])
  unfolding speak_handle ask_gateway
  speak_request_guarded text voice request_id rounds d = ground arith

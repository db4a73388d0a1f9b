-- ===== src/Runtime/Tools/Files.antt =====
-- runtime/agent_runner.py: SubmitImageHandler, SubmitPageHandler and SpeakHandler, which look at
-- what they are given before they ask the gateway. `pathlib` and `str.strip` are the record
-- `FileLibrary`.
use Prim.Native.String.{len}
use tri_onyx.Base.{
  ℕ, ◌/◌, List, [], ◌∷◌, Option, none, some, String, Bool, not, ◌==◌, if◌then◌else◌, String_eq, ltb,
  contains,
}
use tri_onyx.Dict.{Dict, get}
use tri_onyx.Runtime.Protocol.Classes.{workspace_root}
use tri_onyx.Runtime.Protocol.Classes.{Message}
use tri_onyx.Runtime.Requests.{
  emit_submit_image_request, emit_submit_page_request, emit_speak_request,
}
use tri_onyx.Runtime.Dispatcher.Queues.{
  Dispatcher, submit_image_responses, submit_page_responses, speak_responses,
}
use tri_onyx.Runtime.Tools.{ShowLibrary, Handled, ask_gateway, ◌+s◌}

pub record FileLibrary : Type 0 where
  pub is_absolute : String → Bool
  -- `a / b`
  pub join : String → String → String
  pub resolve : String → String
  pub is_relative_to : String → String → Bool
  pub is_file : String → Bool
  -- `path.suffix.lower()`
  pub suffix : String → String
  -- `path.stat().st_size`; `none` where it raises OSError
  pub size : String → Option ℕ
  pub name : String → String
  pub stem : String → String
  -- `path.relative_to(root).as_posix()`
  pub relative_to : String → String → String
  pub strip : String → String

abbrev pub allowed_image_extensions : List String
allowed_image_extensions = ".png" ∷ ".jpg" ∷ ".jpeg" ∷ ".gif" ∷ ".webp" ∷ ".svg" ∷ []

abbrev pub image_max_size : ℕ
image_max_size = 10485760

abbrev pub ext_to_media_type : Dict String String
ext_to_media_type =
    (".png", "image/png")
    ∷ (".jpg", "image/jpeg")
    ∷ (".jpeg", "image/jpeg")
    ∷ (".gif", "image/gif")
    ∷ (".webp", "image/webp")
    ∷ (".svg", "image/svg+xml")
    ∷ []

abbrev pub allowed_page_extensions : List String
allowed_page_extensions = ".html" ∷ ".htm" ∷ []

abbrev pub page_max_size : ℕ
page_max_size = 5242880

abbrev pub speak_max_text_bytes : ℕ
speak_max_text_bytes = 8000

abbrev pub speak_voices : List String
speak_voices = "no" ∷ "en" ∷ []

-- A handler that returns before it asks.
abbrev pub reject : String → Dispatcher → Handled
reject message d = record { written = []; told = message; dispatcher = d }

module _ (lib : ShowLibrary) (files : FileLibrary) where
  -- The file that a path stands for.
  unfoldable pub resolve_path : String → String
  resolve_path path =
      files.resolve (if files.is_absolute path then path else files.join workspace_root path)

  unfoldable pub media_type_of : String → String
  unfolding get
  media_type_of ext = elim (get ext ext_to_media_type) [
    | none ↦ "application/octet-stream"
    | some media_type ↦ media_type
  ]

  unfoldable pub too_large : ℕ → String → String
  too_large size max_text =
      "Error: file too large ("
      +s lib.show_number (size / 1024 / 1024)
      +s "MB). Maximum is "
      +s max_text
      +s "."

  -- The tests on the size, with the rest of the handler.
  unfoldable pub with_size : ℕ → String → String → Handled → Option ℕ → Dispatcher → Handled
  unfolding too_large
  with_size max_size max_text path rest none d = reject ("Error: cannot read file: " +s path) d
  with_size max_size max_text path rest (some size) d =
      if ltb max_size size then reject (too_large size max_text) d else rest

  unfoldable pub submit_image_handle : String → String → List (List Message) → Dispatcher → Handled
  unfolding resolve_path media_type_of with_size ask_gateway
  submit_image_handle path request_id rounds d =
      let resolved = resolve_path path in
      let root = files.resolve workspace_root in
      let ext = files.suffix resolved in
      let filename = files.name resolved in
      if not (files.is_relative_to resolved root)
      then reject ("Error: path is outside the workspace: " +s path) d
      else if not (files.is_file resolved)
      then reject ("Error: file not found: " +s path) d
      else if not (contains ext allowed_image_extensions)
      then reject
          ("Error: unsupported image type '" +s ext
            +s "'. Allowed: .gif, .jpeg, .jpg, .png, .svg, .webp")
          d
      else with_size image_max_size "10MB" path
          (ask_gateway lib "Error: SubmitImage timed out after 30s"
            (λ m. "Image submitted: " +s filename)
            (emit_submit_image_request request_id (files.relative_to resolved root) filename
              (media_type_of ext))
            request_id submit_image_responses rounds d)
          (files.size resolved) d

  unfoldable pub submit_page_handle :
      String → String → String → List (List Message) → Dispatcher → Handled
  unfolding resolve_path with_size ask_gateway
  submit_page_handle path title request_id rounds d =
      let resolved = resolve_path path in
      let root = files.resolve workspace_root in
      let ext = files.suffix resolved in
      if not (files.is_relative_to resolved root)
      then reject ("Error: path is outside the workspace: " +s path) d
      else if not (files.is_file resolved)
      then reject ("Error: file not found: " +s path) d
      else if not (contains ext allowed_page_extensions)
      then reject ("Error: unsupported file type '" +s ext +s "'. Allowed: .htm, .html") d
      else with_size page_max_size "5MB" path
          (ask_gateway lib "Error: SubmitPage timed out after 30s"
            (λ m. "Page submitted: " +s files.name resolved)
            (emit_submit_page_request request_id (files.relative_to resolved root)
              (if title == "" then files.stem resolved else title))
            request_id submit_page_responses rounds d)
          (files.size resolved) d

  unfoldable pub speak_handle :
      String → String → String → List (List Message) → Dispatcher → Handled
  unfolding ask_gateway
  speak_handle text voice request_id rounds d =
      if files.strip text == ""
      then reject "Error: 'text' is empty." d
      else if ltb speak_max_text_bytes (len text)
      then reject
          ("Error: text too long ("
            +s lib.show_number (len text)
            +s " bytes). Maximum is 8000 bytes — shorten the spoken script.")
          d
      else if not (contains voice speak_voices)
      then reject ("Error: unknown voice '" +s voice +s "'. Supported: en, no") d
      else ask_gateway lib "Error: Speak timed out after 120s" (λ m. "Voice message sent.")
          (emit_speak_request request_id text voice) request_id speak_responses rounds d

-- ===== src/Whmcs/Attachments.antt =====
-- apps/whmcs/attachments.py: the validation and the encoding of ticket attachments.
pub mod Accepted
use Prim.Native.Char.{code}
use Prim.Native.String
use whmcstemplate_bridge.Base.{
  ltb, nat_eq, if◌then◌else◌, length, f_string, prefix, is_text, or_text, one_of, keep_chars,
  lstrip, strip, show, application_error, Exn, application, Outcome, returned, raised, ℕ, ◌+◌, ◌*◌,
  ◌/◌, String, Bool, false, not, ◌&&◌, ◌||◌, Option, none, some, List, [], ◌∷◌,
}
use whmcstemplate_bridge.Json.{Value, str, list, dict, Items, nil, cons, end, field}

abbrev pub default_allowed_extensions : List String
default_allowed_extensions =
    ".jpg" ∷ ".jpeg" ∷ ".png" ∷ ".gif" ∷ ".webp" ∷ ".pdf" ∷ ".txt" ∷ ".log" ∷ ".csv" ∷ ".doc"
    ∷ ".docx" ∷ ".xls" ∷ ".xlsx" ∷ ".zip" ∷ ".gz" ∷ ".rar" ∷ []

abbrev pub forbidden_extensions : List String
forbidden_extensions =
    ".php" ∷ ".php3" ∷ ".php4" ∷ ".php5" ∷ ".phtml" ∷ ".phar" ∷ ".htm" ∷ ".html" ∷ ".xhtml" ∷ ".svg"
    ∷ ".xml" ∷ ".js" ∷ ".mjs" ∷ ".htaccess" ∷ ".exe" ∷ ".dll" ∷ ".bat" ∷ ".cmd" ∷ ".com" ∷ ".scr"
    ∷ ".msi" ∷ ".sh" ∷ ".bash" ∷ ".py" ∷ ".pl" ∷ ".rb" ∷ ".jsp" ∷ ".asp" ∷ ".aspx" ∷ []

-- The configured limits and extensions, and the runtime: `str.lower`, `str.isprintable` of one
-- character, `repr`, `json.dumps`, and base64 of bytes and of a text's bytes.
pub record Rules : Type 0 where
  pub max_files : ℕ
  pub max_bytes_each : ℕ
  pub max_bytes_total : ℕ
  pub configured_extensions : List String
  pub lower : String → String
  pub is_printable : ℕ → Bool
  pub repr : Value → String
  pub json_dumps : Value → String
  pub base64_bytes : List ℕ → String
  pub base64_text : String → String

-- a file by its client-supplied name and its bytes
pub record File : Type 0 where
  pub name : String
  pub content : List ℕ

without : List String → List String → List String
without banned [] = []
without banned (e ∷ extensions) =
    let rest = without banned extensions in if one_of e banned then rest else e ∷ rest

lower_all : (String → String) → List String → List String
lower_all lower [] = []
lower_all lower (e ∷ extensions) = lower e ∷ lower_all lower extensions

unfoldable pub allowed_extensions : Rules → List String
unfolding without lower_all
allowed_extensions R = elim R.configured_extensions [
  | [] ↦ default_allowed_extensions
  | e ∷ extensions ↦ without forbidden_extensions (lower_all R.lower (e ∷ extensions))
]

-- what stands behind the last separator; a backslash counts as a slash, as `replace` has made it one
basename : String → String → String
basename current String.[] = current
basename current (String.◌∷◌ c s) =
    let next = basename (String.◌++◌ current (String.◌∷◌ c "")) s in
    let fresh = basename "" s in
    if nat_eq (code c) b'/' || nat_eq (code c) b'\\' then fresh else next

-- `name.rpartition(".")`: the text before the last dot and the text behind it, if there is a dot
rpartition_dot : String → Option (String × String)
rpartition_dot String.[] = none
rpartition_dot (String.◌∷◌ c s) = elim (rpartition_dot s) [
  | some (stem, ext) ↦ some (String.◌∷◌ c stem, ext)
  | none ↦ if nat_eq (code c) b'.' then some ("", s) else none
]

-- the characters that a name must not keep
abbrev pub is_separator : ℕ → Bool
is_separator c =
    nat_eq c b'/'
    || (nat_eq c b'\\'
        || (nat_eq c b':'
            || (nat_eq c b'*'
                || (nat_eq c b'?'
                    || (nat_eq c 34
                        || (nat_eq c b'<'
                            || (nat_eq c b'>'
                                || (nat_eq c b'|' || (nat_eq c 13 || nat_eq c 10)))))))))

capped : String → Option (String × String) → String
unfolding prefix f_string
capped name none = name
capped name (some (stem, ext)) = f_string (prefix 80 stem ∷ "." ∷ prefix 10 ext ∷ [])

-- Reduce a client-supplied filename to a bare, harmless name.
unfoldable pub safe_filename : (is_printable : ℕ → Bool) → String → String
unfolding basename strip keep_chars lstrip rpartition_dot capped prefix
safe_filename is_printable raw =
    let bare = keep_chars (λ c. is_printable c && not (is_separator c)) (strip (basename "" raw)) in
    let name = or_text (lstrip (λ c. nat_eq c b'.') bare) "attachment" in
    prefix 100 (capped name (rpartition_dot name))

-- `os.path.splitext(name)[1]`: from the last dot on, if something but dots stands before it
extension_from : (seen_other : Bool) → String → String
extension_from seen String.[] = ""
extension_from seen (String.◌∷◌ c s) =
    let later = extension_from (seen || not (nat_eq (code c) b'.')) s in
    if is_text later then later else if nat_eq (code c) b'.' && seen then String.◌∷◌ c s else ""

abbrev rejected : String → Exn
rejected message = application application_error "attachment_rejected" message []

abbrev too_large : String → Exn
too_large message = application application_error "attachment_too_large" message []

module _ (R : Rules) where
  unfoldable pub extension_of : String → String
  unfolding extension_from
  extension_of filename = R.lower (extension_from false filename)

  -- Check one file and return the sanitised filename.
  unfoldable pub validate_file : File → Outcome String
  unfolding safe_filename f_string show
  validate_file f =
      let filename = safe_filename R.is_printable f.name in
      let extension = extension_of filename in
      if not (is_text extension)
      then raised (rejected (f_string (R.repr (str filename) ∷ " has no file extension." ∷ [])))
      else if one_of extension forbidden_extensions || not (one_of extension (allowed_extensions R))
      then raised (rejected (f_string (extension ∷ " files are not accepted." ∷ [])))
      else if nat_eq (length f.content) 0
      then raised (rejected (f_string (R.repr (str filename) ∷ " is empty." ∷ [])))
      else if ltb R.max_bytes_each (length f.content)
      then raised (
          too_large (
            f_string (
              R.repr (str filename)
              ∷ " is larger than "
              ∷ show (R.max_bytes_each / (1024 * 1024))
              ∷ "MB."
              ∷ [])))
      else returned filename

  abbrev pub total_bytes : List File → ℕ
  total_bytes [] = 0
  total_bytes (f ∷ files) = length f.content + total_bytes files

  add_entry : File → Outcome String → Outcome Items → Outcome Items
  add_entry f (raised e) rest = raised e
  add_entry f (returned filename) (raised e) = raised e
  add_entry f (returned filename) (returned items) = returned (
      cons (dict (field "name" (str filename) (field "data" (str (R.base64_bytes f.content)) end)))
        items)

  -- the payload: the first file that is refused raises
  unfoldable pub payload : List File → Outcome Items
  unfolding add_entry validate_file
  payload [] = returned nil
  payload (f ∷ files) = add_entry f (validate_file f) (payload files)

  dumped : Outcome Items → Outcome String
  dumped (raised e) = raised e
  dumped (returned items) = returned (R.base64_text (R.json_dumps (list items)))

  -- Validate a batch and produce WHMCS' `attachments` parameter.
  unfoldable pub encode : List File → Outcome String
  unfolding payload dumped f_string show
  encode files =
      if ltb R.max_files (length files)
      then raised (
          application application_error "too_many_attachments"
            (f_string ("At most " ∷ show R.max_files ∷ " attachments per message." ∷ [])) [])
      else if ltb R.max_bytes_total (total_bytes files)
      then raised (
          too_large (
            f_string (
              "Attachments exceed "
              ∷ show (R.max_bytes_total / (1024 * 1024))
              ∷ "MB in total."
              ∷ [])))
      else dumped (payload files)

-- Decode the base64 blob WHMCS returns for a stored attachment; `b64decode` is `base64.b64decode` with
-- validation, and none where it raises.
unfoldable pub decode : (b64decode : String → Option (List ℕ)) → String → Outcome (List ℕ)
decode b64decode blob = elim (b64decode blob) [
  | none ↦
      raised (
        application application_error "attachment_unreadable" "The attachment could not be read."
          [])
  | some bytes ↦ returned bytes
]

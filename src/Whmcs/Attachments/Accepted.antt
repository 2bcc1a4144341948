-- ===== src/Whmcs/Attachments/Accepted.antt =====
-- Which files are encoded.
use whmcstemplate_bridge.Base.{
  ltb, leb, nat_eq, if◌then◌else◌, length, is_text, one_of, Exn, Outcome, returned, raised, ℕ,
  String, ◌≡◌, refl, ap, ◌∙◌, Bool, true, false, not, ◌&&◌, ◌||◌, List, [], ◌∷◌, arith,
}
use whmcstemplate_bridge.Json.{Items}
use whmcstemplate_bridge.Whmcs.Attachments.{
  add_entry, dumped, forbidden_extensions, Rules, File, allowed_extensions, safe_filename,
  extension_of, validate_file, total_bytes, payload, encode,
}

abbrev pub returns {ℓ} : {A : Type ℓ} → Outcome A → Bool
returns (returned _) = true
returns (raised _) = false

checks :
    (text forbidden allowed : Bool) (size limit : ℕ) (e₁ e₂ e₃ e₄ : Exn) (s : String)
    → returns {A = String} (
        if not text
        then raised e₁
        else if forbidden || not allowed
        then raised e₂
        else if nat_eq size 0
        then raised e₃
        else if ltb limit size
        then raised e₄
        else returned s)
      ≡ (text && (not forbidden && (allowed && (leb 1 size && leb size limit))))
checks text forbidden allowed size limit e₁ e₂ e₃ e₄ s = ground arith

limits :
    (n limit size total : ℕ) (e₁ e₂ : Exn) (o : Outcome String)
    → returns (if ltb limit n then raised e₁ else if ltb total size then raised e₂ else o)
      ≡ (leb n limit && (leb size total && returns o))
limits n limit size total e₁ e₂ (returned s) = ground arith
limits n limit size total e₁ e₂ (raised x) = ground arith

module _ (R : Rules) where
  -- the extension is allowed and not forbidden, and the size from one byte to the limit
  abbrev pub is_fit : String → ℕ → Bool
  is_fit extension size =
      is_text extension
      && (not (one_of extension forbidden_extensions)
          && (one_of extension (allowed_extensions R) && (leb 1 size && leb size R.max_bytes_each)))

  -- the sanitised name and the content of a file are fit
  abbrev pub fit : File → Bool
  fit f = is_fit (extension_of R (safe_filename R.is_printable f.name)) (length f.content)

  abbrev pub all_fit : List File → Bool
  all_fit [] = true
  all_fit (f ∷ files) = fit f && all_fit files

  returns-validate_file : (f : File) → returns (validate_file R f) ≡ fit f
  unfolding validate_file
  returns-validate_file f =
      let extension = extension_of R (safe_filename R.is_printable f.name) in
      checks (is_text extension) (one_of extension forbidden_extensions)
        (one_of extension (allowed_extensions R)) (length f.content) R.max_bytes_each _ _ _ _ _

  returns-add_entry :
      (f : File) (o : Outcome String) (rest : Outcome Items)
      → returns (add_entry R f o rest) ≡ (returns o && returns rest)
  unfolding add_entry
  returns-add_entry f (raised e) rest = refl
  returns-add_entry f (returned s) (raised e) = refl
  returns-add_entry f (returned s) (returned items) = refl

  returns-payload : (files : List File) → returns (payload R files) ≡ all_fit files
  unfolding payload
  returns-payload [] = refl
  returns-payload (f ∷ files) =
      returns-add_entry f (validate_file R f) (payload R files)
      ∙ ap (λ b. b && returns (payload R files)) (returns-validate_file f)
      ∙ ap (λ b. fit f && b) (returns-payload files)

  returns-dumped : (o : Outcome Items) → returns (dumped R o) ≡ returns o
  unfolding dumped
  returns-dumped (raised e) = refl
  returns-dumped (returned items) = refl

  -- A batch is encoded exactly if it has no more files and no more bytes than allowed and every file
  -- in it is fit: its sanitised name has an extension that is on the allowlist and not forbidden, and
  -- it has from one byte to the limit of a file. Otherwise the encoding raises.
  pub returns-encode :
      (files : List File)
      → returns (encode R files) ≡ (
          leb (length files) R.max_files
          && (leb (total_bytes R files) R.max_bytes_total && all_fit files))
  unfolding encode
  returns-encode files =
      limits (length files) R.max_files (total_bytes R files) R.max_bytes_total _ _
        (dumped R (payload R files))
      ∙ ap
          (λ b.
            leb (length files) R.max_files && (leb (total_bytes R files) R.max_bytes_total && b))
          (returns-dumped (payload R files) ∙ returns-payload files)

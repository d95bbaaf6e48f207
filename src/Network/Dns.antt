-- ===== src/Network/Dns.antt =====
-- internal/network/dns.go: the lookup of TXT records, first over HTTPS and then by the system.
use p2pos.Common.{
  Bool-cases, [], ◌==◌, ◌||◌, ◌&&◌, ◌∷◌, ◌≡◌, if◌then◌else◌, Option, List, ℕ, not, leb, ltb,
  is_empty, All, inr, inl, false, some, none,
}
use p2pos.Text.{codes, trim_prefix, trim_space, is_blank, trim_suffix, Text}

-- An answer of dohResponse: its type and its data.
pub record DohAnswer : Type 0 where
  pub kind : ℕ
  pub content : Text

-- dohResponse
pub record DohResponse : Type 0 where
  pub status : ℕ
  pub answers : List DohAnswer

-- strings.ReplaceAll(value, "\\\"", "\"")
unfoldable pub unescape_quotes : Text → Text
unescape_quotes [] = []
unescape_quotes (c ∷ []) = c ∷ []
unescape_quotes (c ∷ d ∷ s) =
    let replaced = b'"' ∷ unescape_quotes s in
    let kept = c ∷ unescape_quotes (d ∷ s) in if c == 92 && d == b'"' then replaced else kept

unfoldable pub answer_value : DohAnswer → Text
answer_value a =
    unescape_quotes (trim_suffix (trim_prefix (trim_space a.content) (codes "\"")) (codes "\""))

-- The loop over the answers.
unfoldable pub txt_values : List DohAnswer → List Text
txt_values [] = []
txt_values (a ∷ rest) =
    let others = txt_values rest in
    let value = answer_value a in
    if not (a.kind == 16) then others else if is_blank value then others else value ∷ others

-- What the client gets from the endpoint: nothing, or a status code and a body, if it decodes.
unfoldable pub lookup_txt_from_cloudflare : Option (ℕ × Option DohResponse) → Option (List Text)
lookup_txt_from_cloudflare none = none
lookup_txt_from_cloudflare (some (code, body)) =
    if ltb code 200 || leb 300 code then none else elim body [
      | none ↦ none
      | some r ↦ if not (r.status == 0) then none else some (txt_values r.answers)
    ]

-- The endpoint for a name, and net.LookupTXT.
module _ (fetch : Text → Option (ℕ × Option DohResponse)) (system : Text → Option (List Text)) where
  unfoldable pub lookup_txt : Text → Option (List Text)
  lookup_txt domain =
      let name = trim_space domain in
      if is_blank name then none else elim (lookup_txt_from_cloudflare (fetch name)) [
        | none ↦ system name
        | some records ↦ if is_empty records then system name else some records
      ]

  -- No record from the endpoint is empty.
  txt_values-filled :
      (answers : List DohAnswer) → All (λ v. is_blank v ≡ false) (txt_values answers)
  unfolding txt_values
  txt_values-filled [] = tt
  txt_values-filled (a ∷ rest) = elim (Bool-cases (a.kind == 16)) [
    | inr other ↦ rw other (txt_values-filled rest)
    | inl text ↦ elim (Bool-cases (is_blank (answer_value a))) [
      | inl blank ↦ rw (text, blank) (txt_values-filled rest)
      | inr full ↦ rw (text, full) (full, txt_values-filled rest)
    ]
  ]

-- ===== src/Logging/Line.antt =====
-- The line of the log does not show the order of the map.
use p2pos.Text.{codes, contains, Text}
use p2pos.Common.{ap₂, [], ◌∙◌, ◌++◌, ◌∷◌, ◌≡◌, List, sym, ap, refl}
use p2pos.Logging.{underscored, Fields, field, keys, field_parts, log_line}
use p2pos.Text.Sorted.{
  contains-sort_texts, sort_texts-IsSorted, sort_texts, IsDistinct, IsSorted-ext,
}

field_parts-ext :
    (fs gs : Fields) (ks : List Text)
    → ((k : Text) → field k fs ≡ field k gs)
    → field_parts fs ks ≡ field_parts gs ks
unfolding field_parts
field_parts-ext fs gs [] h = refl
field_parts-ext fs gs (k ∷ ks) h =
    ap₂ (λ v rest. (k ++ (codes "=" ++ underscored v)) ∷ rest) (h k) (field_parts-ext fs gs ks h)

-- Two lists of the same fields, each field once, give one line.
pub log_line-ext :
    (module_name action : Text) (fs gs : Fields)
    → IsDistinct (keys fs)
    → IsDistinct (keys gs)
    → ((k : Text) → contains k (keys fs) ≡ contains k (keys gs))
    → ((k : Text) → field k fs ≡ field k gs)
    → log_line module_name action fs ≡ log_line module_name action gs
unfolding log_line
log_line-ext module_name action fs gs d e same_keys same_values =
    let sorted : sort_texts (keys fs) ≡ sort_texts (keys gs) =
      IsSorted-ext (sort_texts (keys fs)) (sort_texts (keys gs)) (sort_texts-IsSorted (keys fs) d)
        (sort_texts-IsSorted (keys gs) e)
        (λ a.
          contains-sort_texts a (keys fs) ∙ same_keys a ∙ sym (contains-sort_texts a (keys gs))) in
    let parts : field_parts fs (sort_texts (keys fs)) ≡ field_parts gs (sort_texts (keys gs)) =
      field_parts-ext fs gs (sort_texts (keys fs)) same_values ∙ ap (field_parts gs) sorted in
    simp (log_line, parts)

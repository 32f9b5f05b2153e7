-- ===== src/Validation/Tests.antt =====
-- The validator on inputs of internal/validation/validator_test.go, and its theorems at some.
use dnn_node.Base.{◌≡◌, refl, ◌↔◌, none, ok, err, true}
use dnn_node.Base.Bytes.{codes, contains}
use dnn_node.Validation.{
  Runtime, to_lower, validate_name, validate_name_event, too_short, invalid_format,
  consecutive_hyphens, reserved_name, is_reserved,
}
use dnn_node.Validation.Names.{IsName, validate_name_iff}
use dnn_node.Validation.NameEvents.{
  IsNameEvent, case_variants, validate_name_event_iff, validate_name_event-case_variants,
}

abbrev plain : Runtime
plain = record { lower_unicode = λ s. s; unmarshal = λ s. none; check_signature = λ event. true }

names :
    (validate_name plain (codes "alice") ≡ ok tt)
    × (validate_name plain (codes "a") ≡ err too_short)
    × (validate_name plain (codes "-alice") ≡ err invalid_format)
    × (validate_name plain (codes "al--ice") ≡ err consecutive_hyphens)
    × (validate_name plain (codes "Admin") ≡ err reserved_name)
unfolding validate_name to_lower contains is_reserved
names = (refl, refl, refl, refl, refl)

-- The test of the repository wants an error for these three.
other_names :
    (validate_name plain (codes "1alice") ≡ ok tt)
    × (validate_name plain (codes "Alice") ≡ ok tt)
    × (validate_name plain (codes "abcdefghijklmnopqrstuvwxyz0123456789abcdefghijklmnopqrstuvwxyz0")
        ≡ ok tt)
unfolding validate_name to_lower contains is_reserved
other_names = (refl, refl, refl)

validate_name_iff_example :
    (validate_name plain (codes "123-abc") ≡ ok tt) ↔ IsName (to_lower plain (codes "123-abc"))
validate_name_iff_example = validate_name_iff plain (codes "123-abc")

validate_name_event_iff_example :
    (validate_name_event plain (case_variants (codes "d") (codes "alice") (codes "Alice")) ≡ ok tt)
    ↔ IsNameEvent plain (case_variants (codes "d") (codes "alice") (codes "Alice"))
validate_name_event_iff_example =
    validate_name_event_iff plain (case_variants (codes "d") (codes "alice") (codes "Alice"))

alice_lower : to_lower plain (codes "alice") ≡ to_lower plain (codes "Alice")
unfolding to_lower
alice_lower = refl

alice-IsName : IsName (to_lower plain (codes "alice"))
alice-IsName = (validate_name_iff plain (codes "alice")).0 names.0

validate_name_event-case_variants_example :
    validate_name_event plain (case_variants (codes "d") (codes "alice") (codes "Alice")) ≡ ok tt
validate_name_event-case_variants_example =
    validate_name_event-case_variants plain (codes "d") (codes "alice") (codes "Alice") (λ e. cc e)
      alice-IsName alice_lower (λ e. absurd (cc e))

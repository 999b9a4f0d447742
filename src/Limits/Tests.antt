-- ===== src/Limits/Tests.antt =====
-- The nesting of two JSON texts.
use projectkoios_references.Prelude.{
  err, list_eq, list_ord, nat_eq, nat_ord, ok, option_eq, refl, ◌↔◌, ◌≡◌, ◌≤◌,
}
use projectkoios_references.Text.{codes, utf8_size}
use projectkoios_references.Limits.{review_io_limits}
use projectkoios_references.Limits.Nesting.{
  limit_exceeded, nest, outside, IsNestedWithin, validate_json_text_nesting,
  validate_json_text_nesting_iff,
}

too_deep :
    nest 1 outside (codes "[\"[[\", [1]]") ≡ err (limit_exceeded (codes "max_json_depth") 1 2)
unfolding nest
too_deep = refl

validate_json_text_nesting_iff_example :
    (validate_json_text_nesting (codes "{\"a\": [1, \"]\"]}") review_io_limits ≡ ok tt) ↔ (
      (utf8_size (codes "{\"a\": [1, \"]\"]}") ≤ 20000000)
      × IsNestedWithin 64 outside (codes "{\"a\": [1, \"]\"]}"))
validate_json_text_nesting_iff_example =
    validate_json_text_nesting_iff (codes "{\"a\": [1, \"]\"]}") review_io_limits 20000000 64 refl
      refl

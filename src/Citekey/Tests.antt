-- ===== src/Citekey/Tests.antt =====
-- The filenames of one citation key.
use projectkoios_references.Prelude.{
  [], list_eq, list_ord, nat_eq, nat_ord, ok, option_eq, refl, ◌∷◌, ◌≡◌,
}
use projectkoios_references.Samples.{ascii}
use projectkoios_references.Text.{codes, before}
use projectkoios_references.Citekey.{
  is_reserved, ReferenceFilenames, from_citekey, validate_segment,
}
use projectkoios_references.Citekey.Paths.{
  IsRelativePath, validate_root_alias, validate_relative_path,
  validate_relative_path-IsRelativePath,
}
use projectkoios_references.Citekey.Filenames.{from_citekey_portable}

filenames : ReferenceFilenames
filenames = record {
  citekey = codes "knuth1984";
  note = codes "knuth1984.md";
  pdf = codes "knuth1984.pdf";
}

filenames_made : from_citekey ascii (codes "knuth1984") ≡ ok filenames
unfolding from_citekey filenames is_reserved before
filenames_made = refl

from_citekey_portable_example :
    (filenames.citekey ≡ codes "knuth1984")
    × (validate_segment ascii filenames.note ≡ ok tt)
    × (validate_segment ascii filenames.pdf ≡ ok tt)
from_citekey_portable_example = from_citekey_portable ascii (codes "knuth1984") filenames_made

relative_path_parts :
    validate_relative_path ascii (codes "notes/knuth1984.md")
    ≡ ok (codes "notes" ∷ codes "knuth1984.md" ∷ [])
unfolding validate_relative_path is_reserved before
relative_path_parts = refl

root_alias_accepted : validate_root_alias ascii (codes "library") ≡ ok (codes "library")
unfolding validate_root_alias is_reserved before
root_alias_accepted = refl

validate_relative_path-IsRelativePath_example :
    IsRelativePath ascii (codes "notes/knuth1984.md") (codes "notes" ∷ codes "knuth1984.md" ∷ [])
validate_relative_path-IsRelativePath_example =
    validate_relative_path-IsRelativePath ascii (codes "notes/knuth1984.md") relative_path_parts

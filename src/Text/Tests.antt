-- ===== src/Text/Tests.antt =====
-- The count of the bytes of one text.
use projectkoios_references.Text.{codes, utf8_size}
use projectkoios_references.Text.Size.{Counts, bounded_utf8_size, bounded_utf8_size-Counts}

bounded_utf8_size-Counts_example :
    Counts 4 (utf8_size (codes "naïve")) (bounded_utf8_size 4 (codes "naïve"))
bounded_utf8_size-Counts_example = bounded_utf8_size-Counts 4 (codes "naïve")

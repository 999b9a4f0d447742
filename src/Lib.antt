-- ===== src/Lib.antt =====
-- The reference library of projectkoios, src/python/projectkoios/references, as definitions that
-- run and theorems about them.
--
-- The parts, by file of the repository (below src/python/projectkoios/references) and of this
-- library:
--
-- review.py is Review. Review/Types holds the enumerations, the tables of decisions and scopes, and
-- one error for each message of a ReviewRecordError. Review/Checks is `_bounded`, `_content_id` and
-- `_content_ids`; Review/Clock is the form of a time and `datetime.strptime`; Review/Records is the
-- records' data and `_validate_common_record`; Review/Fields and Review/Objects are `from_dict` and
-- the readers that it calls, on JSON values, with Review/Actors (Review/RoundTrip proves);
-- Review/Authoring is the `__post_init__`, the identity and `create` of both kinds of records.
-- Review/Streams is `_replay_streams`, over the functions that it takes, and its children prove
-- what it returns; Review/Replay is `_validate_state_change` and `replay_review_records`;
-- Review/Laws, Review/Authority and Review/Streams prove.
--
-- io_limits.py is Limits (the limits, their check and their identity), Limits/Profiles,
-- Limits/Nesting (`validate_json_text_nesting`) and Text/Size (`bounded_utf8_size`). biblatex.py is
-- Biblatex (`_matching_entry_end`) and Biblatex/Entries (`_verbatim_entries`). Biblatex/Delimiters says
-- which characters count, and Text/Nesting how delimiters nest; Biblatex/Rounds, Biblatex/Braces,
-- Biblatex/Parentheses, Biblatex/Bounds,
-- Biblatex/Advances, Biblatex/Ends, Biblatex/Cuts, Biblatex/Spans and Biblatex/Reads prove.
-- path_safety/validation.py and naming.py are Citekey, Citekey/Paths (`validate_relative_path`) and
-- Citekey/Filenames (which proves). models.py is Models.
--
-- state_projection.py is StateProjection, with the vocabularies, the records and the errors.
-- StateProjection/Rules is the authority matrix and its tables; StateProjection/Values,
-- StateProjection/Observations (of assets.py) and StateProjection/Contracts check values;
-- StateProjection/Claims, StateProjection/Fields and StateProjection/Projections are the
-- `__post_init__` of StateClaim, of ProjectedValue and ProjectedField, and of
-- ReferenceStateProjection; StateProjection/View is `projection_to_biblatex` and
-- StateProjection/Readers and StateProjection/Reading are `from_json`.
-- state_projection_replay.py is StateProjection/Requests, StateProjection/Reduce (`_project_field`)
-- and StateProjection/Replay. The other files below StateProjection prove: Groups, Reduced,
-- Replayed and Accepted say what a step has done, Represents, Resolutions, Order, Unordered,
-- Identity, Shapes, Provenance, Faults, Progress, Escapes, Read, ReadFields and ReadBack
-- prove the results.
--
-- citation_closure.py is CitationClosure, for the helpers of its scanner; CitationClosure/Keys,
-- CitationClosure/Positions, CitationClosure/Groups and CitationClosure/Ends prove.
--
-- How the parts interact: a record's identity is the hash of its canonical JSON (Json, from
-- `_json_value`, `_compact_json` and `_stable_id`), which holds the identity of the limits
-- (Limits); the checks of a record compare the two identities with the stored ones. A replay takes
-- records, groups them in streams, walks each stream from its initial record along the
-- supersessions, and checks the changes of state on the way; the projection that it returns is
-- checked once more. The filenames of a reference are made from a citation key that the path checks
-- have accepted. A state replay takes claims that their checks have accepted, groups them by field
-- and by value, and checks each record that it builds; the bibliographic view reads the projection.
--
-- Conventions: a text is a list of code points (Text). What the source takes from `hashlib` and
-- from Unicode's tables is a parameter, the record Text.Platform, and no theorem assumes anything
-- of it beyond its type. `json.loads` is the parameter StateProjection.Values.JsonReader, of which
-- it is assumed that it raises on the empty text. A fraction of a JSON value is the text that Python
-- prints for it. An
-- exception is the error of a Result, in the order in which the source raises; a test of a field's
-- type is the type of the model. Dictionaries are association lists in the order of insertion, as
-- Python's are.
--
-- Fuel: the walk along one stream (Review/Streams) has one round more than the stream has records,
-- and the loops over a bibliography's entries and over the keys of a
-- citation one more than the text has characters; theorems below
-- show that this is never used up. `bounded_utf8_size` has as many rounds as the text has
-- characters, which the proof of what it returns shows to be enough. Decimal digits have as many
-- rounds as the number's value plus one.
--
-- Not modelled: the parsing of JSON text, which `json.loads` does; the CSV forms, which the csv
-- module writes; the adapters of state_projection.py that make claims of other modules' records; the
-- file system, the network, and the libraries that the program calls; the other files of the
-- package, which the library does not cover yet (the rest of citation closure, identity, graph, most of assets,
-- catalogue, courses and the adapters).
pub mod Prelude
pub mod Text
pub mod Citekey
pub mod Json
pub mod Review
pub mod Limits
pub mod Samples
pub mod Biblatex
pub mod Models
pub mod StateProjection
pub mod CitationClosure
